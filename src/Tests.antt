-- ===== src/Tests.antt =====
-- Sample schemas, callers and records, and what the program does on them.
pub mod Access
pub mod Wrappers
pub mod Machines
pub mod Pipelines
pub mod Requests
pub mod Leases
pub mod Operations
pub mod Routes
pub mod Services
use davepi.Base.{List, Option, String, [], false, none, some, ◌∷◌}
use davepi.Js.{Value, undefined, bool, num, str, Object, empty, prop}
use davepi.Schema.{User, StateMachine, Field, Schema}
use davepi.ScopeResolver.{Outcome, ok, Args, Request}

abbrev pub ann : User
ann = record { user_id = str "u1"; roles = some ("user" ∷ []); is_client = false; scopes = none }

-- A user whose API key may only read.
abbrev pub reader : User
reader = record { user_id = str "u2"; roles = none; is_client = false; scopes = some ("read" ∷ []) }

abbrev pub status_machine : StateMachine
status_machine = record {
  initial = "draft";
  states = "draft" ∷ "sent" ∷ "paid" ∷ [];
  transitions = ("draft", "sent" ∷ []) ∷ ("sent", "paid" ∷ "draft" ∷ []) ∷ [];
}

abbrev pub plain_field : String → Field
plain_field name = record {
  name = name;
  is_file = false;
  is_computed = false;
  acl = none;
  state_machine = none;
}

abbrev pub status : Field
status = record (plain_field "status") { state_machine = some status_machine }

-- A field that administrators alone may read or update.
abbrev pub margin : Field
margin = record (plain_field "margin") {
  acl = some (record { read = some ("admin" ∷ []); create = none; update = some ("admin" ∷ []) });
}

abbrev pub invoice_fields : List Field
invoice_fields = plain_field "total" ∷ margin ∷ status ∷ []

-- Administrators list all invoices; users see none that is archived.
abbrev pub invoices : Schema
invoices = record {
  path = "invoice";
  fields = some invoice_fields;
  acl = some (record {
    list = some ("admin" ∷ []);
    delete = none;
    write = none;
    scope = some (("user", some (prop "archived" (bool false) empty)) ∷ []);
  });
  hooks = none;
}

abbrev pub stored : Object
stored = prop "_id" (str "i1") (
    prop "userId" (str "u1") (
      prop "total" (num 7)
        (prop "margin" (num 2) (prop "archived" (bool false) (prop "status" (str "draft") empty)))))

-- A payload that claims another owner.
abbrev pub forged : Object
forged = prop "userId" (str "u9") (prop "total" (num 5) (prop "margin" (num 3) empty))

abbrev pub no_args : Args
no_args = record {
  filter = none;
  search = undefined;
  payload = undefined;
  payloads = none;
  id = str "i1";
  projection = empty;
}

abbrev pub asks : User → Args → Request
asks user args = record { user = some user; args = args }

-- The database and the wrapped resolvers, in which the stored invoice stands alone.
abbrev pub find_one : Object → Option Object
find_one query = some stored

abbrev pub resolver : Args → Outcome Value
resolver args = ok (Value.obj (prop "record" (Value.obj stored) empty))

abbrev pub find_many : Args → Outcome (List Object)
find_many args = ok (stored ∷ [])

abbrev pub find_single : Args → Outcome (Option Object)
find_single args = ok (some stored)

abbrev pub runner : Option User → Object → Value → Outcome Value
runner user r to = ok (Value.obj r)
