-- ===== src/Schema.antt =====
-- A resource's schema, as far as the access rules, the state machines and the hooks read it, and the
-- caller. What a schema file may leave out is an `Option`; a list of roles is an array or left out.
use davepi.Base.{Bool, List, Option, String}
use davepi.Js.{Value, Object}

-- `req.user`: the payload of a token, an API key's owner, or a client.
pub record User : Type 0 where
  pub user_id : Value
  pub roles : Option (List String)
  pub is_client : Bool
  pub scopes : Option (List String)

-- `field.stateMachine`
pub record StateMachine : Type 0 where
  pub initial : String
  pub states : List String
  pub transitions : List (String × List String)

-- `field.acl`
pub record FieldAcl : Type 0 where
  pub read : Option (List String)
  pub create : Option (List String)
  pub update : Option (List String)

pub record Field : Type 0 where
  pub name : String
  pub is_file : Bool
  pub is_computed : Bool
  pub acl : Option FieldAcl
  pub state_machine : Option StateMachine

-- `schema.acl`; `scope` lists a filter, or a falsy value, for each role.
pub record SchemaAcl : Type 0 where
  pub list : Option (List String)
  pub delete : Option (List String)
  pub write : Option (List String)
  pub scope : Option (List (String × Option Object))

-- What a hook is given: a `before*` hook the input, and the current record where there is one; an
-- `after*` hook the record as `input` and the previous one as `current`.
pub record HookContext : Type 0 where
  pub input : Value
  pub current : Value
  pub user : Option User

-- A hook throws, or returns a value.
pub data HookResult : Type 0 where
  threw : String → HookResult
  returned : Value → HookResult

abbrev pub Hook : Type 0
Hook = HookContext → HookResult

-- `schema.hooks`
pub record Hooks : Type 0 where
  pub before_create : Option Hook
  pub after_create : Option Hook
  pub before_update : Option Hook
  pub after_update : Option Hook
  pub before_delete : Option Hook
  pub after_delete : Option Hook

pub record Schema : Type 0 where
  pub path : String
  pub fields : Option (List Field)
  pub acl : Option SchemaAcl
  pub hooks : Option Hooks
