-- ===== src/Relations/Included.antt =====
-- relations.js: the finds of `applyIncludes`, and the names that `parseIncludes` lets through.
use davepi.Base.{List, Option, String, [], false, none, refl, some, ◌∙◌, ◌∷◌, ◌≡◌}
use davepi.Js.{Value, Object, null, get, has_own}
use davepi.Js.Laws.{get-put, get-spread, IsDistinct}
use davepi.Schema.{User, Schema}
use davepi.Acl.{id_of}
use davepi.Program.{Answered, Ensures, Ensures-bind, done}
use davepi.Relations.{
  Kind, belongs_to, has_many, has_one, Relation, Command, Answer, find, find_relation,
  reference_filter, child_filter, include_references, include_children, include_kind, include_one,
  apply_includes, set_all, nothing_for,
}

abbrev pub Past : Type 0
Past = List (Answered Command Answer)

-- A relation whose own filter names neither the owner nor the tombstone.
abbrev pub IsPlain : Option Object → Type 0
IsPlain none = Unit
IsPlain (some w) = IsDistinct w × (has_own "userId" w ≡ false) × (has_own "deletedAt" w ≡ false)

module _ (schema_of : String → Option Schema) (user : Option User) where
  -- A find asks for the caller's records that are not tombstoned.
  abbrev pub FindsOwn : Past → Command → Type 0
  FindsOwn past (find target filter) =
      (get "userId" filter ≡ id_of user) × (get "deletedAt" filter ≡ null)

  abbrev Anything : Past → List Object → Type 0
  Anything past records = Unit

  reference_filter-own :
      (ids : List Value) → FindsOwn [] (find "" (reference_filter schema_of user ids))
  unfolding reference_filter get
  reference_filter-own ids = (refl, refl)

  child_filter-own :
      (foreign_key : String) (ids : List Value) (w : Option Object)
      → IsPlain w
      → FindsOwn [] (find "" (child_filter schema_of user foreign_key ids w))
  unfolding child_filter
  child_filter-own foreign_key ids none h = (simp get-put, simp get-put)
  child_filter-own foreign_key ids (some w) (distinct, no_owner, no_tombstone) = (
    get-spread "userId" _ w distinct ∙ rw no_owner (simp get-put),
    get-spread "deletedAt" _ w distinct ∙ rw no_tombstone (simp get-put),
  )

  references-FindsOwn :
      (name : String) (def : Relation) (target : Schema) (records : List Object) (ids : List Value)
      (past : Past)
      → Ensures FindsOwn Anything past
          (include_references schema_of user name def target records ids)
  references-FindsOwn name def target records [] past = tt
  references-FindsOwn name def target records (id ∷ ids) past =
      (reference_filter-own (id ∷ ids), λ refs. tt)

  children-FindsOwn :
      (name : String) (def : Relation) (target : Schema) (records : List Object)
      (foreign_key : Option String) (past : Past)
      → IsPlain def.where_filter
      → Ensures FindsOwn Anything past
          (include_children schema_of user name def target records foreign_key)
  children-FindsOwn name def target records none past h = tt
  children-FindsOwn name def target records (some key) past h =
      (child_filter-own key _ def.where_filter h, λ matches. tt)

  kind-FindsOwn :
      (name : String) (def : Relation) (target : Schema) (records : List Object) (kind : Kind)
      (past : Past)
      → IsPlain def.where_filter
      → Ensures FindsOwn Anything past (include_kind schema_of user name def target records kind)
  kind-FindsOwn name def target records belongs_to past h =
      references-FindsOwn name def target records _ past
  kind-FindsOwn name def target records has_many past h =
      children-FindsOwn name def target records def.foreign_key past h
  kind-FindsOwn name def target records has_one past h =
      children-FindsOwn name def target records def.foreign_key past h

  one-FindsOwn :
      (name : String) (relation : Option Relation) (records : List Object) (past : Past)
      → ((r : Relation) → relation ≡ some r → IsPlain r.where_filter)
      → Ensures FindsOwn Anything past (include_one schema_of user name relation records)
  one-FindsOwn name none records past h = tt
  one-FindsOwn name (some def) records past h = go (schema_of def.target)
    where
      go :
          (target : Option Schema)
          → Ensures FindsOwn Anything past (elim target [
            | none ↦
                done (set_all schema_of user name (nothing_for schema_of user def.kind) records)
            | some target ↦ include_kind schema_of user name def target records def.kind
          ])
      go none = tt
      go (some target) = kind-FindsOwn name def target records def.kind past (h def refl)

-- Every find of `applyIncludes` names the caller as the owner and excludes tombstones, whatever the
-- records hold, if no `where` of a relation names the owner or the tombstone itself.
pub apply_includes-FindsOwn :
    (schema_of : String → Option Schema) (user : Option User)
    (normalized : List (String × Relation))
    → ((name : String) (r : Relation)
        → find_relation normalized name ≡ some r
        → IsPlain r.where_filter)
    → (names : List String) (records : List Object) (past : Past)
    → Ensures
        (FindsOwn schema_of user)
        (λ _ _. Unit)
        past
        (apply_includes schema_of user records normalized names)
unfolding apply_includes
apply_includes-FindsOwn schema_of user normalized h [] records past = tt
apply_includes-FindsOwn schema_of user normalized h (name ∷ names) [] past = tt
apply_includes-FindsOwn schema_of user normalized h (name ∷ names) (r ∷ rs) past =
    Ensures-bind (FindsOwn schema_of user) (λ _ _. Unit) (λ _ _. Unit) past _ _
      (one-FindsOwn schema_of user name (find_relation normalized name) (r ∷ rs) past (h name))
      λ after populated any.
        apply_includes-FindsOwn schema_of user normalized h names populated after
