-- ===== src/ScopeResolver/Seen.antt =====
-- scopeResolver.js: what the lookups by id show.
use davepi.Base.{
  Bool, Bool-cases, List, Option, [], ap, arith, false, if◌then◌else◌, inl, inr, map, none, refl,
  select, some, sym, true, ◌∙◌, ◌∷◌, ◌≡◌, ◌≢◌, ◌⊎◌,
}
use davepi.Js.{Value, null, arr, obj, Items, nil, cons, Object, get, array}
use davepi.Schema.{User, Field, Schema}
use davepi.Acl.{user_roles, id_of, bypass_user_scope_for_list}
use davepi.Acl.Read.{IsProjection, project_by_acl-IsProjection}
use davepi.Fragment.{same_id, matches_role_scope}
use davepi.ScopeResolver.{
  Outcome, ok, Args, Request, resolved, perform, pure, require_user, require_scope, ◌>>=◌, ◌>>◌,
}
use davepi.ScopeResolver.Traces.{>>=-eq-ok, require_user-id}
use davepi.ScopeResolver.{read}
use davepi.ScopeResolver.Bypass.{IsBypass, bypass_for-IsBypass, IsBypass-bypass_for}
use davepi.ScopeResolver.Filter.{bypass_for}
use davepi.ScopeResolver.Results.{project_value, project_items, project_result, is_single}
use davepi.ScopeResolver.Find.{
  with_owner, is_visible, found, found_all, wrap_find_by_id, wrap_find_by_ids,
}

-- The caller owns the record, or the list bypass applies; and the role's filters let it through.
abbrev pub IsPermitted : Schema → Option User → Object → Type 0
IsPermitted schema user r =
    (IsBypass read schema user ⊎ (same_id (get "userId" r) (id_of user) ≡ true))
    × (matches_role_scope r schema user ≡ true)

is_visible-IsPermitted :
    (schema : Schema) (user : Option User) (r : Object)
    → is_visible schema user (id_of user) r ≡ true
    → IsPermitted schema user r
unfolding is_visible
is_visible-IsPermitted schema user r h = opened (ground arith)
  where
    opened :
        ((bypass_user_scope_for_list schema user ≡ true)
            ⊎ (same_id (get "userId" r) (id_of user) ≡ true))
          × (matches_role_scope r schema user ≡ true)
        → IsPermitted schema user r
    opened (inl b, m) = (inl (bypass_for-IsBypass read schema user (unfold bypass_for in b)), m)
    opened (inr e, m) = (inr e, m)

IsPermitted-is_visible :
    (schema : Schema) (user : Option User) (r : Object)
    → IsPermitted schema user r
    → is_visible schema user (id_of user) r ≡ true
unfolding is_visible
IsPermitted-is_visible schema user r (inl b, m) =
    let listed : bypass_user_scope_for_list schema user ≡ true =
      unfold bypass_for in IsBypass-bypass_for read schema user b in
    ground (arith, listed, m)
IsPermitted-is_visible schema user r (inr e, m) = ground (arith, e, m)

module _ (schema : Schema) (fields : List Field) (user : Option User)
    (has_fields : schema.fields ≡ some fields) where
  -- What is shown of a permitted record.
  abbrev pub Shows : Object → Value → Type 0
  Shows r v =
      IsPermitted schema user r
      × ((p : Object) × (v ≡ obj p) × IsProjection fields (user_roles user) r p)

  project_value-IsProjection :
      (r : Object)
      → (p : Object) × (project_value schema user (obj r) ≡ obj p)
        × IsProjection fields (user_roles user) r p
  unfolding project_value
  project_value-IsProjection r =
      let (p, e, h) = project_by_acl-IsProjection schema fields user r has_fields in
      (p, rw (e, project_value) refl, h)

  -- The values show the permitted ones of the records, each of them, in their order.
  pub data ShowsAll : List Object → Items → Type 0 where
    shows_none : ShowsAll [] nil
    shows_it :
        {r : Object} {rs : List Object} {v : Value} {vs : Items}
        → Shows r v
        → ShowsAll rs vs
        → ShowsAll (r ∷ rs) (cons v vs)
    passes_over :
        {r : Object} {rs : List Object} {vs : Items}
        → ¬ IsPermitted schema user r
        → ShowsAll rs vs
        → ShowsAll (r ∷ rs) vs

  select-ShowsAll :
      (rs : List Object)
      → ShowsAll rs (
          project_items schema user
            (array (map obj (select (is_visible schema user (id_of user)) rs))))
  select-ShowsAll [] = unfold project_items in shows_none
  select-ShowsAll (r ∷ rs) = step (is_visible schema user (id_of user) r) refl (select-ShowsAll rs)
    where
      chosen : List Object
      chosen = select (is_visible schema user (id_of user)) rs

      step :
          (b : Bool)
          → is_visible schema user (id_of user) r ≡ b
          → ShowsAll rs (project_items schema user (array (map obj chosen)))
          → ShowsAll
              (r ∷ rs)
              (project_items schema user (array (map obj (if b then r ∷ chosen else chosen))))
      step true e rest =
          unfold project_items in
          shows_it (is_visible-IsPermitted schema user r e, project_value-IsProjection r) rest
      step false e rest =
          passes_over {r = r}
            (λ p. absurd (ground (arith, e, IsPermitted-is_visible schema user r p))) rest

-- Inversion of the checks and the call with which a lookup begins.
find-eq-ok :
    {A : Type 0} (rp : Request) (next : Args → Outcome A) (k : Value → A → Value) {v : Value}
    → (do
      user_id ← require_user rp.user
      require_scope rp.user "read"
      result ← perform (resolved (with_owner rp.args)) (next (with_owner rp.args))
      pure (k user_id result)).outcome
      ≡ ok v
    → (a : A) × (next (with_owner rp.args) ≡ ok a) × (k (id_of rp.user) a ≡ v)
find-eq-ok rp next k e =
    let (user_id, is_user, e1) = >>=-eq-ok (require_user rp.user) _ e in
    let (_, _, e2) = >>=-eq-ok (require_scope rp.user "read") _ e1 in
    let (a, answer, e3) =
      >>=-eq-ok (perform (resolved (with_owner rp.args)) (next (with_owner rp.args))) _ e2 in
    (a, answer, cc (ap (λ u. k u a) (require_user-id rp.user user_id is_user).0))

-- `wrapFindByIds` shows exactly the records that the wrapped resolver returned and that the caller is
-- permitted to see, in their order, each without the properties hidden from the caller's roles.
pub wrap_find_by_ids-ShowsAll :
    (schema : Schema) (fields : List Field) (next : Args → Outcome (List Object)) (rp : Request)
    (v : Value) (has_fields : schema.fields ≡ some fields)
    → (wrap_find_by_ids schema next rp).outcome ≡ ok v
    → (rs : List Object) × (vs : Items) × (next (with_owner rp.args) ≡ ok rs)
      × (v ≡ arr vs)
      × ShowsAll schema fields rp.user has_fields rs vs
unfolding wrap_find_by_ids project_result
wrap_find_by_ids-ShowsAll schema fields next rp v has_fields e =
    let (rs, answer, shown) = find-eq-ok rp next (found_all schema rp.user) e in
    let seen = select (is_visible schema rp.user (id_of rp.user)) rs in
    (
      rs,
      project_items schema rp.user (array (map obj seen)),
      answer,
      sym shown,
      select-ShowsAll schema fields rp.user has_fields rs,
    )

-- Where `wrapFindById` returns a value other than `null`, the wrapped resolver returned a record that
-- the caller is permitted to see, and for a plain record the value is that record without the
-- properties hidden from the caller's roles.
pub wrap_find_by_id-Shows :
    (schema : Schema) (fields : List Field) (next : Args → Outcome (Option Object)) (rp : Request)
    (v : Value) (has_fields : schema.fields ≡ some fields)
    → (wrap_find_by_id schema next rp).outcome ≡ ok v
    → v ≢ null
    → (r : Object) × (next (with_owner rp.args) ≡ ok (some r))
      × IsPermitted schema rp.user r
      × (is_single schema rp.user r ≡ true → Shows schema fields rp.user has_fields r v)
unfolding wrap_find_by_id
wrap_find_by_id-Shows schema fields next rp v has_fields e n =
    let (o, answer, shown) = find-eq-ok rp next (found schema rp.user) e in go o answer shown
  where
    go :
        (o : Option Object)
        → next (with_owner rp.args) ≡ ok o
        → found schema rp.user (id_of rp.user) o ≡ v
        → (r : Object) × (next (with_owner rp.args) ≡ ok (some r))
          × IsPermitted schema rp.user r
          × (is_single schema rp.user r ≡ true → Shows schema fields rp.user has_fields r v)
    go none answer shown = absurd (n (sym shown))
    go (some r) answer shown = elim (Bool-cases (is_visible schema rp.user (id_of rp.user) r)) [
      | inl seen ↦ (
        r,
        answer,
        is_visible-IsPermitted schema rp.user r seen,
        λ single.
            let (p, same, projection) =
              project_value-IsProjection schema fields rp.user has_fields r in
            (
              is_visible-IsPermitted schema rp.user r seen,
              (p, sym shown ∙ (rw seen (projected r single)) ∙ same, projection),
            ),
      )
      | inr hidden ↦ absurd (n (sym shown ∙ rw hidden refl))
    ]
      where
        projected :
            (r : Object)
            → is_single schema rp.user r ≡ true
            → project_result schema rp.user (obj r) ≡ project_value schema rp.user (obj r)
        projected r single = unfold project_result in rw single refl
