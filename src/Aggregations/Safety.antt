-- ===== src/Aggregations/Safety.antt =====
-- aggregations.js: which pipelines reach the database.
use davepi.Base.{
  Bool, Bool-cases, List, Option, String, [], arith, false, includes, inl, inr, none, refl, some,
  some_of, subst, true, ℕ, ◌++◌, ◌||◌, ◌↔◌, ◌∷◌, ◌≡◌, ◌⊎◌,
}
use davepi.Js.{
  to_text, str, Value, undefined, null, bool, num, arr, obj, Items, nil, cons, Object, empty, prop,
  has_own, items,
}
use davepi.Aggregations.{
  forbidden_stages, Error, ok, err, substitute, first, visit, visit_items, visit_object,
  assert_safe_pipeline, Aggregation, is_limit, limit_stages, built, build_pipeline,
}

-- No object, at any depth, has a forbidden operator among its keys.
mutual
  pub data IsSafe : Value → Type 0 where
    undefined_safe : IsSafe undefined
    null_safe : IsSafe null
    bool_safe : (b : Bool) → IsSafe (bool b)
    num_safe : (n : ℕ) → IsSafe (num n)
    str_safe : (s : String) → IsSafe (str s)
    arr_safe : {vs : Items} → AreSafe vs → IsSafe (arr vs)
    obj_safe : {o : Object} → HasSafe o → IsSafe (obj o)

  pub data AreSafe : Items → Type 0 where
    nil_safe : AreSafe nil
    cons_safe : {v : Value} {vs : Items} → IsSafe v → AreSafe vs → AreSafe (cons v vs)

  pub data HasSafe : Object → Type 0 where
    empty_safe : HasSafe empty
    prop_safe :
        {k : String} {v : Value} {o : Object}
        → includes forbidden_stages k ≡ false
        → IsSafe v
        → HasSafe o
        → HasSafe (prop k v o)

first-none : (a b : Option String) → first a b ≡ none → (a ≡ none) × (b ≡ none)
first-none a b h = ground arith

mutual
  unfolding visit

  visit-IsSafe : (v : Value) → visit v ≡ none → IsSafe v
  visit-IsSafe undefined h = undefined_safe
  visit-IsSafe null h = null_safe
  visit-IsSafe (bool b) h = bool_safe b
  visit-IsSafe (num n) h = num_safe n
  visit-IsSafe (str s) h = str_safe s
  visit-IsSafe (arr vs) h = arr_safe (visit-AreSafe vs h)
  visit-IsSafe (obj o) h = obj_safe (visit-HasSafe o h)

  visit-AreSafe : (vs : Items) → visit_items vs ≡ none → AreSafe vs
  visit-AreSafe nil h = nil_safe
  visit-AreSafe (cons v vs) h =
      let parts = first-none (visit v) (visit_items vs) h in
      cons_safe (visit-IsSafe v parts.0) (visit-AreSafe vs parts.1)

  visit-HasSafe : (o : Object) → visit_object o ≡ none → HasSafe o
  visit-HasSafe empty h = empty_safe
  visit-HasSafe (prop k v o) h =
      prop_safe (ground arith) (visit-IsSafe v (ground arith)) (visit-HasSafe o (ground arith))

mutual
  unfolding visit

  IsSafe-visit : (v : Value) → IsSafe v → visit v ≡ none
  IsSafe-visit undefined h = refl
  IsSafe-visit null h = refl
  IsSafe-visit (bool b) h = refl
  IsSafe-visit (num n) h = refl
  IsSafe-visit (str s) h = refl
  IsSafe-visit (arr vs) (arr_safe h) = AreSafe-visit vs h
  IsSafe-visit (obj o) (obj_safe h) = HasSafe-visit o h

  AreSafe-visit : (vs : Items) → AreSafe vs → visit_items vs ≡ none
  AreSafe-visit nil h = refl
  AreSafe-visit (cons v vs) (cons_safe p h) = ground (arith, IsSafe-visit v p, AreSafe-visit vs h)

  HasSafe-visit : (o : Object) → HasSafe o → visit_object o ≡ none
  HasSafe-visit empty h = refl
  HasSafe-visit (prop k v o) (prop_safe e p h) = ground (arith, IsSafe-visit v p, HasSafe-visit o h)

-- `assertSafePipeline` accepts a pipeline exactly when the declaration opted out, or no object of the
-- pipeline, at any depth, has a forbidden operator as a key.
pub assert_safe_pipeline-AreSafe :
    (pipeline : Items) (unsafe : Bool)
    → (assert_safe_pipeline pipeline unsafe ≡ none) ↔ ((unsafe ≡ true) ⊎ AreSafe pipeline)
unfolding assert_safe_pipeline
assert_safe_pipeline-AreSafe pipeline true = (λ h. inl refl, λ h. refl)
assert_safe_pipeline-AreSafe pipeline false =
    (λ h. inr (visit-AreSafe pipeline h), elim [ inl e ↦ cc | inr h ↦ AreSafe-visit pipeline h ])

some_of-append :
    (xs ys : List Value)
    → some_of is_limit (xs ++ ys) ≡ (some_of is_limit xs || some_of is_limit ys)
some_of-append [] ys = refl
some_of-append (x ∷ xs) ys = ground (arith, some_of-append xs ys)

limit_stages-limited :
    (max_results : Value) (stages : List Value)
    → some_of is_limit (stages ++ limit_stages max_results stages) ≡ true
limit_stages-limited max_results stages = elim (Bool-cases (some_of is_limit stages)) [
  | inl e ↦ rw (some_of-append stages (limit_stages max_results stages), e) refl
  | inr e ↦ rw (some_of-append stages (limit_stages max_results stages), e) (unfold has_own in refl)
]

-- The stage that lets only the records of an owner through.
abbrev pub owner_match : Value → Value
owner_match user_id = obj (prop "$match" (obj (prop "userId" (str (to_text user_id)) empty)) empty)

-- A pipeline that `buildPipeline` returns begins with a match on the caller's id, goes on with the
-- declared stages after substitution, and has a limit; those stages hold no forbidden operator unless
-- the declaration opted out.
pub build_pipeline-ok :
    (a : Aggregation) (user_id : Value) (params : Object) (stages : List Value)
    → build_pipeline a user_id params ≡ ok stages
    → (rest : List Value) × (stages
        ≡ owner_match user_id ∷ (items (substitute a.pipeline params) ++ rest))
      × (some_of is_limit stages ≡ true)
      × ((a.unsafe ≡ true) ⊎ AreSafe (substitute a.pipeline params))
unfolding build_pipeline
build_pipeline-ok a user_id params stages h = go (assert_safe_pipeline body a.unsafe) refl h
  where
    body : Items
    body = substitute a.pipeline params

    go :
        (o : Option String)
        → assert_safe_pipeline body a.unsafe ≡ o
        → built user_id a.max_results (items body) o ≡ ok stages
        → (rest : List Value) × (stages ≡ owner_match user_id ∷ (items body ++ rest))
          × (some_of is_limit stages ≡ true)
          × ((a.unsafe ≡ true) ⊎ AreSafe body)
    go none safe e = (
      limit_stages a.max_results (items body),
      cc,
      subst (λ s. some_of is_limit s ≡ true) same
          (unfold has_own in limit_stages-limited a.max_results (items body)),
      (assert_safe_pipeline-AreSafe body a.unsafe).0 safe,
    )
      where
        same :
            owner_match user_id ∷ (items body ++ limit_stages a.max_results (items body)) ≡ stages
        same = cc
    go (some k) safe e = cc

-- `buildPipeline` refuses only a pipeline that, after substitution, does hold a forbidden operator and
-- whose declaration did not opt out.
pub build_pipeline-err :
    (a : Aggregation) (user_id : Value) (params : Object) (e : Error)
    → build_pipeline a user_id params ≡ err e
    → (a.unsafe ≡ false) × (¬ AreSafe (substitute a.pipeline params))
unfolding build_pipeline assert_safe_pipeline
build_pipeline-err a user_id params e h =
    (ground arith, λ safe. ground (arith, AreSafe-visit (substitute a.pipeline params) safe))
