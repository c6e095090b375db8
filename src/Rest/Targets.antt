-- ===== src/Rest/Targets.antt =====
-- The records at which the queries by id are aimed.
use davepi.Base.{
  Bool, String, ap, arith, eq_iff, false, if◌then◌else◌, inl, inr, refl, true, ◌≡◌, ◌⊎◌,
}
use davepi.Js.{Value, Object, null, str, get, put, to_text}
use davepi.Fragment.{same_id, matches_entries, matches_entry}
use davepi.ScopeResolver.ById.{ownership_query}
use davepi.Rest.{without_tombstones, Resource, Request, own_or_any, apply_soft_delete_filter}

-- A query of a caller's request whose every match is the record of the path's id, and the caller's
-- unless the bypass applies.
abbrev pub IsAimed : Type 0 → Request → String → Object → Type 0
IsAimed Bypass req owner q =
    (r : Object)
    → matches_entries r q ≡ true
    → (Bypass ⊎ (to_text (get "userId" r) ≡ owner)) × (to_text (get "_id" r) ≡ to_text req.id)

-- A condition of the bypass may be put in another way.
pub weaken-IsAimed :
    (A B : Type 0) (req : Request) (owner : String) (q : Object)
    → (A → B)
    → IsAimed A req owner q
    → IsAimed B req owner q
weaken-IsAimed A B req owner q f h r m =
    (elim (h r m).0 [ inl a ↦ inl (f a) | inr e ↦ inr e ], (h r m).1)

module _ (req : Request) (owner id : String) (is_owner : req.user.user_id ≡ str owner)
    (is_id : req.id ≡ str id) where
  owner-entry :
      (r : Object)
      → matches_entry r "userId" req.user.user_id ≡ true
      → to_text (get "userId" r) ≡ owner
  unfolding matches_entry same_id to_text
  owner-entry r h = ground (
    arith,
    ap (λ v. matches_entry r "userId" v) is_owner,
    eq_iff owner (to_text (get "userId" r)),
  )

  id-entry :
      (r : Object) → matches_entry r "_id" req.id ≡ true → to_text (get "_id" r) ≡ to_text req.id
  unfolding matches_entry same_id to_text
  id-entry r h = ground (
    arith,
    ap (λ v. matches_entry r "_id" v) is_id,
    ap to_text is_id,
    eq_iff id (to_text (get "_id" r)),
  )

  pub own_or_any-IsAimed :
      (bypass : Bool) → IsAimed (bypass ≡ true) req owner (own_or_any bypass req)
  unfolding matches_entries
  own_or_any-IsAimed true r h = (inl refl, id-entry r (ground arith))
  own_or_any-IsAimed false r h = (inr (owner-entry r (ground arith)), id-entry r (ground arith))

  -- A condition on the tombstone only narrows the query.
  pub put-IsAimed :
      (bypass : Bool) (v : Value)
      → IsAimed (bypass ≡ true) req owner (put "deletedAt" v (own_or_any bypass req))
  unfolding matches_entries put
  put-IsAimed true v r h = (inl refl, id-entry r (ground arith))
  put-IsAimed false v r h = (inr (owner-entry r (ground arith)), id-entry r (ground arith))

  pub soft-IsAimed :
      (s : Resource) (bypass : Bool)
      → IsAimed (bypass ≡ true) req owner (apply_soft_delete_filter s (own_or_any bypass req) req)
  unfolding apply_soft_delete_filter
  soft-IsAimed s bypass r h = ground (arith, own_or_any-IsAimed bypass r, put-IsAimed bypass null r)

  pub ownership-IsAimed :
      (s : Resource) (bypass : Bool)
      → IsAimed
          (bypass ≡ true)
          req
          owner
          (without_tombstones s (ownership_query bypass req.id req.user.user_id))
  unfolding matches_entries put
  ownership-IsAimed s bypass = go s.soft_delete_enabled bypass
    where
      go :
          (on b : Bool)
          → IsAimed (b ≡ true) req owner (
              if on
              then put "deletedAt" null (ownership_query b req.id req.user.user_id)
              else ownership_query b req.id req.user.user_id)
      go true true r h = (inl refl, id-entry r (ground arith))
      go true false r h = (inr (owner-entry r (ground arith)), id-entry r (ground arith))
      go false true r h = (inl refl, id-entry r (ground arith))
      go false false r h = (inr (owner-entry r (ground arith)), id-entry r (ground arith))
