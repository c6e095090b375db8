-- ===== src/Rest/History.antt =====
-- What the history of a record shows of the fields that the caller may not read.
use davepi.Base.{
  List, Option-cases, String, [], ap, arith, eq_iff, false, includes, inl, inr, refl, some, some_of,
  text_cases, ◌&&◌, ◌∷◌, ◌≡◌,
}
use davepi.Js.{Object, empty, prop, has_own}
use davepi.Schema.{Field, User}
use davepi.Acl.{can_read_field, field_by_name, user_roles, slot_of, has_overlap}
use davepi.Rest.Read.{allowed_diff_key, keep_allowed}

pub has_own-keep_allowed :
    (fields : List Field) (roles : List String) (k : String) (diff : Object)
    → has_own k (keep_allowed fields roles diff)
      ≡ (allowed_diff_key fields roles k && has_own k diff)
unfolding keep_allowed has_own
has_own-keep_allowed fields roles k empty = ground arith
has_own-keep_allowed fields roles k (prop j v o) = elim (text_cases j k) [
  | inl e ↦ ground (
    arith,
    has_own-keep_allowed fields roles k o,
    eq_iff j k,
    ap (λ (i : String). allowed_diff_key fields roles i) e,
  )
  | inr e ↦ ground (arith, has_own-keep_allowed fields roles k o)
]

some_of-has_overlap :
    (allowed roles : List String)
    → some_of (includes roles) allowed ≡ has_overlap (some allowed) (some roles)
unfolding has_overlap
some_of-has_overlap [] roles = refl
some_of-has_overlap (r ∷ rs) roles = ground (arith, some_of-has_overlap rs roles)

hidden_key :
    (fields : List Field) (user : User) (k : String) (f : Field)
    → field_by_name fields k ≡ some f
    → can_read_field f (some user) ≡ false
    → allowed_diff_key fields (user_roles (some user)) k ≡ false
unfolding allowed_diff_key can_read_field
hidden_key fields user k f e h = elim (Option-cases (slot_of (λ a. a.read) f.acl)) [
  | inl n ↦ ground arith
  | inr (allowed, n) ↦ ground (arith, some_of-has_overlap allowed (user_roles (some user)))
]

-- The diff of an audit entry is shown with the allowed keys alone, and no key of a field that the caller
-- may not read is allowed.
pub keep_allowed-hides :
    (fields : List Field) (user : User) (diff : Object) (k : String)
    → (has_own k (keep_allowed fields (user_roles (some user)) diff)
        ≡ (allowed_diff_key fields (user_roles (some user)) k && has_own k diff))
      × ((f : Field)
          → field_by_name fields k ≡ some f
          → can_read_field f (some user) ≡ false
          → has_own k (keep_allowed fields (user_roles (some user)) diff) ≡ false)
keep_allowed-hides fields user diff k =
    let kept = has_own-keep_allowed fields (user_roles (some user)) k diff in
    (kept, λ f e h. ground (arith, hidden_key fields user k f e h))
