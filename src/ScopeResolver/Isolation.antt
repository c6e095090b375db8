-- ===== src/ScopeResolver/Isolation.antt =====
-- scopeResolver.js: the filters that `wrapFilter` hands to the wrapped resolver.
use davepi.Base.{
  Bool-cases, List, Option, String, [], ap, arith, eq_iff, false, includes, inl, inr, none, refl,
  some, text_cases, true, ◌∷◌, ◌≡◌, ◌⊎◌,
}
use davepi.Js.Laws.{get-put, has_own-put}
use davepi.Js.{truthy, has_own, Value, str, Object, empty, get, put, to_text}
use davepi.Schema.{User, Schema}
use davepi.Fragment.{same_id, matches_entries, matches_entry, matches_role_scope}
use davepi.Fragment.Merge.{apply_role_scope_filter_lem, entry-put}
use davepi.ScopeResolver.{Effect, looked_up, hooked, resolved, emitted, transitioned, Kind}
use davepi.ScopeResolver.Traces.{Traces}
use davepi.ScopeResolver.Bypass.{IsBypass, bypass_for-IsBypass}
use davepi.ScopeResolver.Filter.{bypass_for, owned_filter, scoped_filter, add_search}

-- The objects have the same properties, but for those of the names.
abbrev pub SameBut : List String → Object → Object → Type 0
SameBut names p q =
    (k : String) → includes names k ≡ false → (has_own k p ≡ has_own k q) × (get k p ≡ get k q)

pub put-SameBut :
    (names : List String) (j : String) (v : Value) (q : Object)
    → includes names j ≡ true
    → SameBut names (put j v q) q
put-SameBut names j v q h k n = elim (text_cases j k) [
  | inl e ↦ absurd (cc (ap (includes names) e))
  | inr e ↦
      (ground (arith, has_own-put k j v q, eq_iff j k), ground (arith, get-put k j v q, eq_iff j k))
]

pub add_search-SameBut :
    (search : Value) (q : Object)
    → SameBut ("$text" ∷ []) (add_search search q) q
      × ((truthy search ≡ true) ⊎ (add_search search q ≡ q))
add_search-SameBut search q = elim (Bool-cases (truthy search)) [
  | inl e ↦ rw e (put-SameBut ("$text" ∷ []) "$text" _ q refl, inl refl)
  | inr e ↦ rw e ((λ k n. (refl, refl)), inr refl)
]

module _ (kind : Kind) (schema : Schema) (user : Option User) (owner : String) where
  -- Every record that a filter matches is the owner's, unless the bypass applies, and it lies inside
  -- the mandatory filters of the caller's roles.
  abbrev pub IsConfined : Object → Type 0
  IsConfined q =
      (r : Object)
      → matches_entries r q ≡ true
      → (IsBypass kind schema user ⊎ (to_text (get "userId" r) ≡ owner))
        × (matches_role_scope r schema user ≡ true)

  owned-matches :
      (r q : Object)
      → matches_entries r (put "userId" (str owner) q) ≡ true
      → to_text (get "userId" r) ≡ owner
  unfolding matches_entry same_id to_text
  owned-matches r q h =
      ground (arith, entry-put r "userId" (str owner) q, eq_iff owner (to_text (get "userId" r)))

  pub opened :
      (r : Object)
      → ((bypass_for kind schema user ≡ true) ⊎ (to_text (get "userId" r) ≡ owner))
        × (matches_role_scope r schema user ≡ true)
      → (IsBypass kind schema user ⊎ (to_text (get "userId" r) ≡ owner))
        × (matches_role_scope r schema user ≡ true)
  opened r (inl b, m) = (inl (bypass_for-IsBypass kind schema user b), m)
  opened r (inr e, m) = (inr e, m)

  pub scoped_filter-IsConfined :
      (given : Option Object) → IsConfined (scoped_filter kind schema user (str owner) given)
  unfolding scoped_filter
  scoped_filter-IsConfined none r h = opened r (
      ground (
        arith,
        apply_role_scope_filter_lem r (owned_filter (bypass_for kind schema user) (str owner) none)
            schema user,
        owned-matches r empty,
      ))
  scoped_filter-IsConfined (some q) r h = opened r (
      ground (
        arith,
        apply_role_scope_filter_lem r
            (owned_filter (bypass_for kind schema user) (str owner) (some q)) schema user,
        owned-matches r q,
      ))

  -- A call of the wrapped resolver gets a filter that differs from a confined one at most in the predicate
  -- `$text` of a search, and only where there is a search; no other effect reads or changes records.
  abbrev pub IsIsolated : Value → Effect → Type 0
  IsIsolated search (resolved args) =
      (q f : Object) × IsConfined q
      × (args.filter ≡ some f)
      × SameBut ("$text" ∷ []) f q
      × ((truthy search ≡ true) ⊎ (f ≡ q))
  IsIsolated search (looked_up q) = ⊥
  IsIsolated search (transitioned r to) = ⊥
  IsIsolated search (hooked name ctx) = Unit
  IsIsolated search (emitted e) = Unit
