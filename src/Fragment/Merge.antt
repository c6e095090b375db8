-- ===== src/Fragment/Merge.antt =====
-- What `applyRoleScopeFilter`, `getRoleScopeFilter` and the owner's predicate add to a query, read by
-- `matchesScopeFragment`.
use davepi.Base.{
  Bool, List, Option, Option-cases, String, [], and_true, ap, arith, eq_iff, every, inl, inr, map,
  none, refl, some, sym, text_cases, true, ◌&&◌, ◌++◌, ◌∙◌, ◌∷◌, ◌≡◌,
}
use davepi.Js.{
  Value, undefined, null, bool, num, str, arr, obj, Items, nil, cons, Object, empty, prop, get, put,
  items, array,
}
use davepi.Schema.{User, Schema, SchemaAcl}
use davepi.Acl.{
  apply_role_scope_filter, merge_filter, and_envelope, join_filters, get_role_scope_filter,
  matched_filters, user_roles,
}
use davepi.Fragment.{
  matches_fragment, matches_entries, matches_entry, every_fragment, matches_role_scope,
}

every_fragment-append :
    (r : Object) (vs ws : List Value)
    → every_fragment r (array (vs ++ ws))
      ≡ (every_fragment r (array vs) && every_fragment r (array ws))
unfolding every_fragment
every_fragment-append r [] ws = refl
every_fragment-append r (v ∷ vs) ws = ground (arith, every_fragment-append r vs ws)

array-items : (vs : Items) → array (items vs) ≡ vs
array-items nil = refl
array-items (cons v vs) = rw (array-items vs)

-- A filter appended to the query's `$and`.
module _ (r : Object) (vs : Items) (f : Object) where
  abbrev extended : Items
  extended = array (items vs ++ obj f ∷ [])

  every-extended : every_fragment r extended ≡ (every_fragment r vs && matches_entries r f)
  unfolding every_fragment
  every-extended =
      every_fragment-append r (items vs) (obj f ∷ []) ∙ (rw (array-items vs) (ground arith))

  entry-extended :
      matches_entry r "$and" (arr extended)
      ≡ (matches_entry r "$and" (arr vs) && matches_entries r f)
  unfolding matches_entry
  entry-extended = every-extended

  entries-extended :
      (q : Object)
      → get "$and" q ≡ arr vs
      → matches_entries r (put "$and" (arr extended) q)
        ≡ (matches_entries r q && matches_entries r f)
  unfolding matches_entries get put
  entries-extended empty h = cc
  entries-extended (prop k v q) h = elim (text_cases k "$and") [
    | inl e ↦ at_key e
    | inr e ↦ ground (arith, entries-extended q)
  ]
    where
      at_key :
          k ≡ "$and"
          → matches_entries r (put "$and" (arr extended) (prop k v q))
            ≡ (matches_entries r (prop k v q) && matches_entries r f)
      at_key e = ground (
        arith,
        entry-extended,
        eq_iff k "$and",
        ap (λ w. matches_entry r "$and" w) same,
        ap (λ (j : String). matches_entry r j v) e,
      )
        where
          same : v ≡ arr vs
          same = ground (arith, eq_iff k "$and")

envelope-pair :
    (r : Object) (q f : Object)
    → matches_entries r (and_envelope (q ∷ f ∷ [])) ≡ (matches_entries r q && matches_entries r f)
unfolding matches_entries
envelope-pair r q f = ground arith

merge_filter_lem :
    (r q f : Object) (v : Value)
    → get "$and" q ≡ v
    → matches_entries r (merge_filter q v f) ≡ (matches_entries r q && matches_entries r f)
unfolding merge_filter
merge_filter_lem r q f (arr vs) h = entries-extended r vs f q h
merge_filter_lem r q f undefined h = envelope-pair r q f
merge_filter_lem r q f null h = envelope-pair r q f
merge_filter_lem r q f (bool b) h = envelope-pair r q f
merge_filter_lem r q f (num n) h = envelope-pair r q f
merge_filter_lem r q f (str s) h = envelope-pair r q f
merge_filter_lem r q f (obj o) h = envelope-pair r q f

-- A record matches a query merged with a role's filter exactly when it matches both: the caller's
-- query, whatever its shape, never widens the filter.
pub apply_role_scope_filter-conjunction :
    (r query filter : Object)
    → matches_entries r (apply_role_scope_filter query (some filter))
      ≡ (matches_entries r query && matches_entries r filter)
unfolding apply_role_scope_filter
apply_role_scope_filter-conjunction r empty filter = unfold matches_entries in refl
apply_role_scope_filter-conjunction r (prop k v q) filter =
    merge_filter_lem r (prop k v q) filter (get "$and" (prop k v q)) refl

-- A record matches all filters of a list.
abbrev pub matches_all : Object → List Object → Bool
matches_all r fs = every (matches_entries r) fs

every_fragment-map :
    (r : Object) (fs : List Object) → every_fragment r (array (map obj fs)) ≡ matches_all r fs
unfolding every_fragment
every_fragment-map r [] = refl
every_fragment-map r (f ∷ fs) = ground (arith, every_fragment-map r fs)

-- The joined filter of a list, where there is one, or no demand.
abbrev pub matches_optional : Object → Option Object → Bool
matches_optional r none = true
matches_optional r (some f) = matches_entries r f

join_filters_lem :
    (r : Object) (fs : List Object) → matches_optional r (join_filters fs) ≡ matches_all r fs
unfolding join_filters
join_filters_lem r [] = refl
join_filters_lem r (f ∷ []) = ground arith
join_filters_lem r (f ∷ g ∷ fs) =
    unfold matches_entries in ground (arith, every_fragment-map r (f ∷ g ∷ fs))

-- The filters that a schema declares for the roles of a caller.
abbrev pub declared_filters : Schema → Option User → List Object
declared_filters schema user = elim schema.acl [
  | none ↦ []
  | some acl ↦ elim acl.scope [ none ↦ [] | some scope ↦ matched_filters scope (user_roles user) ]
]

matches_role_scope-optional :
    (r : Object) (schema : Schema) (user : Option User)
    → matches_role_scope r schema user ≡ matches_optional r (get_role_scope_filter schema user)
unfolding matches_role_scope matches_fragment
matches_role_scope-optional r schema user = ground arith

-- A record passes `matchesRoleScope` exactly when it matches each filter that the schema declares for
-- one of the caller's roles.
pub matches_role_scope_lem :
    (r : Object) (schema : Schema) (user : Option User)
    → matches_role_scope r schema user ≡ matches_all r (declared_filters schema user)
unfolding get_role_scope_filter
matches_role_scope_lem r schema user = matches_role_scope-optional r schema user ∙ optional
  where
    scoped :
        (acl : SchemaAcl)
        → matches_optional r (elim acl.scope [
          | none ↦ none
          | some scope ↦ join_filters (matched_filters scope (user_roles user))
        ])
          ≡ matches_all r
              (elim acl.scope [ none ↦ [] | some scope ↦ matched_filters scope (user_roles user) ])
    scoped acl = elim (Option-cases acl.scope) [
      | inl e ↦ rw e refl
      | inr (scope, e) ↦ rw e (join_filters_lem r (matched_filters scope (user_roles user)))
    ]

    optional :
        matches_optional r (get_role_scope_filter schema user)
        ≡ matches_all r (declared_filters schema user)
    optional = elim (Option-cases schema.acl) [
      | inl e ↦ rw e refl
      | inr (acl, e) ↦ rw e (scoped acl)
    ]

apply-optional :
    (r query : Object) (o : Option Object)
    → matches_entries r (apply_role_scope_filter query o)
      ≡ (matches_entries r query && matches_optional r o)
apply-optional r query none =
    unfold apply_role_scope_filter in sym (and_true (matches_entries r query))
apply-optional r query (some f) = apply_role_scope_filter-conjunction r query f

pub apply_role_scope_filter_lem :
    (r query : Object) (schema : Schema) (user : Option User)
    → matches_entries r (apply_role_scope_filter query (get_role_scope_filter schema user))
      ≡ (matches_entries r query && matches_role_scope r schema user)
apply_role_scope_filter_lem r query schema user =
    rw (matches_role_scope-optional r schema user)
      (apply-optional r query (get_role_scope_filter schema user))

-- A record that matches a query with one more predicate matches that predicate.
pub entry-put :
    (r : Object) (k : String) (v : Value) (q : Object)
    → matches_entries r (put k v q) ≡ true
    → matches_entry r k v ≡ true
unfolding matches_entries put
entry-put r k v empty h = ground arith
entry-put r k v (prop j w q) h = ground (arith, entry-put r k v q)
