-- ===== src/Acl/Read.antt =====
-- acl.js on reads: which properties of a record a caller is shown.
use davepi.Base.{
  Bool, Bool-cases, List, Option, String, [], ap, arith, eq_iff, eq_refl, false, if◌then◌else◌,
  includes, inl, inr, none, not, refl, some, some_of, true, ◌&&◌, ◌==◌, ◌||◌, ◌↔◌, ◌∷◌, ◌≡◌,
}
use davepi.Js.{Object, undefined, get, has_own, delete}
use davepi.Js.Laws.{get-delete, has_own-delete}
use davepi.Schema.{User, Field, FieldAcl, Schema}
use davepi.Acl.{
  has_overlap, user_roles, refuses, slot_of, drop_unreadable, project_by_acl, can_read_field,
}

-- A role that stands in both lists.
abbrev pub Shared : List String → List String → Type 0
Shared a b = (r : String) × (includes a r ≡ true) × (includes b r ≡ true)

Shared-cons : (x : String) (a b : List String) → Shared a b → Shared (x ∷ a) b
Shared-cons x a b (r, h, k) = (r, ground arith, k)

-- Two lists of roles overlap exactly when they share a role.
pub has_overlap_iff : (a b : List String) → (has_overlap (some a) (some b) ≡ true) ↔ Shared a b
unfolding has_overlap
has_overlap_iff a b = (found a, missed a)
  where
    found : (a : List String) → has_overlap (some a) (some b) ≡ true → Shared a b
    found [] h = cc
    found (x ∷ a) h = elim (Bool-cases (includes b x)) [
      | inl e ↦ (x, ground (arith, eq_refl x), e)
      | inr e ↦ Shared-cons x a b (found a (ground arith))
    ]

    missed : (a : List String) → Shared a b → has_overlap (some a) (some b) ≡ true
    missed [] (r, h, k) = cc
    missed (x ∷ a) (r, h, k) = elim (Bool-cases (x == r)) [
      | inl e ↦ ground (arith, eq_iff x r)
      | inr e ↦ ground (arith, missed a (r, ground arith, k))
    ]

-- The list names roles, and none of the caller's.
abbrev pub misses : Option (List String) → List String → Bool
misses none roles = false
misses (some []) roles = false
misses (some (n ∷ ns)) roles = not (some_of (λ r. includes roles r) (n ∷ ns))

abbrev pub hides : Option FieldAcl → List String → Bool
hides none roles = false
hides (some acl) roles = misses acl.read roles

pub refuses-misses :
    (l : Option (List String)) (roles : List String) → refuses l roles ≡ misses l roles
unfolding refuses has_overlap
refuses-misses none roles = refl
refuses-misses (some []) roles = refl
refuses-misses (some (n ∷ ns)) roles = ap not (overlap-some_of (n ∷ ns))
  where
    overlap-some_of :
        (ns : List String) → has_overlap (some ns) (some roles) ≡ some_of (λ r. includes roles r) ns
    overlap-some_of [] = refl
    overlap-some_of (n ∷ ns) = ap (λ b. includes roles n || b) (overlap-some_of ns)

refuses-hides :
    (acl : Option FieldAcl) (roles : List String)
    → refuses (slot_of (λ a. a.read) acl) roles ≡ hides acl roles
refuses-hides none roles = unfold refuses in refl
refuses-hides (some acl) roles = refuses-misses acl.read roles

-- Some field of this name has a read list that names roles, and none of the caller's.
abbrev pub is_hidden : List Field → List String → String → Bool
is_hidden fields roles k = some_of (λ f. f.name == k && hides f.acl roles) fields

pub get-drop_unreadable :
    (k : String) (fields : List Field) (roles : List String) (o : Object)
    → get k (drop_unreadable fields roles o)
      ≡ (if is_hidden fields roles k then undefined else get k o)
unfolding drop_unreadable
get-drop_unreadable k [] roles o = refl
get-drop_unreadable k (f ∷ fs) roles o = ground (
  arith,
  get-drop_unreadable k fs roles o,
  get-drop_unreadable k fs roles (delete f.name o),
  get-delete k f.name o,
  refuses-hides f.acl roles,
)

pub has_own-drop_unreadable :
    (k : String) (fields : List Field) (roles : List String) (o : Object)
    → has_own k (drop_unreadable fields roles o) ≡ (not (is_hidden fields roles k) && has_own k o)
unfolding drop_unreadable
has_own-drop_unreadable k [] roles o = refl
has_own-drop_unreadable k (f ∷ fs) roles o = ground (
  arith,
  has_own-drop_unreadable k fs roles o,
  has_own-drop_unreadable k fs roles (delete f.name o),
  has_own-delete k f.name o,
  refuses-hides f.acl roles,
)

-- What a projection of `o` for some roles shows: every property but the hidden ones, unchanged.
pub record IsProjection (fields : List Field) (roles : List String) (o p : Object) : Type 0 where
  pub own : (k : String) → has_own k p ≡ (not (is_hidden fields roles k) && has_own k o)
  pub value : (k : String) → get k p ≡ (if is_hidden fields roles k then undefined else get k o)

-- For a schema with fields, `projectByAcl` of a record has exactly the properties, with their values, that
-- no field hides: a field hides its name where its read list names roles and none of the caller's.
pub project_by_acl-IsProjection :
    (schema : Schema) (fields : List Field) (user : Option User) (o : Object)
    → schema.fields ≡ some fields
    → (p : Object) × (project_by_acl (some o) schema user ≡ some p)
      × IsProjection fields (user_roles user) o p
unfolding project_by_acl
project_by_acl-IsProjection schema fields user o e = (
  drop_unreadable fields (user_roles user) o,
  rw e,
  record {
    own = λ k. has_own-drop_unreadable k fields (user_roles user) o;
    value = λ k. get-drop_unreadable k fields (user_roles user) o;
  },
)

-- The check of a single field agrees with the projection's test of that field.
pub can_read_field-refuses :
    (field : Field) (user : Option User)
    → can_read_field field user ≡ not (refuses (slot_of (λ a. a.read) field.acl) (user_roles user))
unfolding can_read_field refuses
can_read_field-refuses field user = ground arith
