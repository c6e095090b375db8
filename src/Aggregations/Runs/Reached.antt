-- ===== src/Aggregations/Runs/Reached.antt =====
-- schemaLoader.js, runAggregation: the caches that runs lead to, and for whom their entries were stored.
use davepi.Base.{
  Bool-cases, List, Option, String, [], ap, arith, inl, inr, none, refl, some, subst, sym, ℕ, ◌++◌,
  ◌∙◌, ◌∷◌, ◌≡◌,
}
use davepi.Js.{items, Value, Object, to_text, undefined, strict_eq}
use davepi.AggregationCache.{Cache, Entry, read, get, set, make_room, key}
use davepi.AggregationCache.Map.{find}
use davepi.Base.{Bool-cases}
use davepi.AggregationCache
use davepi.AggregationCache.Entries.{find-read, find-set}
use davepi.AggregationCache.Keys.{IsColonFree}
use davepi.Aggregations.{
  Casts, Result, ok, err, substitute, build_pipeline, validate_and_cast_params,
}
use davepi.Aggregations.Safety.{owner_match, build_pipeline-ok}
use davepi.Aggregations.Runs.{
  Run, Waiting, waiting, cache_ttl, look_up, cache_key_of, as_begun, begin_with, begin_run,
  store_under, finish_run,
}

-- The path, the name and the id are such that a key tells them apart.
abbrev pub IsPlain : Run → Type 0
IsPlain q = IsColonFree q.resource × IsColonFree q.name × IsColonFree (to_text q.user_id)

abbrev pub ArePlain : List Run → Type 0
ArePlain [] = Unit
ArePlain (q ∷ qs) = IsPlain q × ArePlain qs

-- The conversions, and which values the database has answered to a pipeline at some time.
module _ (casts : Casts) (json : Object → String) (Answers : List Value → Value → Type 0) where
  -- The caches that runs lead to, with the runs that have ended: a run that waited begins on some cache, and
  -- ends on a later one, after any steps of other runs.
  pub data Reach : List Run → Cache Value → Type 0 where
    started : {n : ℕ} → Reach [] (AggregationCache.create_aggregation_cache n)
    began :
        {past : List Run} {c : Cache Value} (q : Run) (now : ℕ)
        → Reach past c
        → Reach past (begin_run casts json q c now).1
    finished :
        {past : List Run} {c : Cache Value} (q : Run) (earlier : Cache Value) (then_ now : ℕ)
        (w : Waiting) (results : Value)
        → (begin_run casts json q earlier then_).0 ≡ waiting w
        → Answers w.pipeline results
        → Reach past c
        → Reach (q ∷ past) (finish_run w results c now).1
    cleared :
        {past : List Run} {c : Cache Value} → Reach past c → Reach past (AggregationCache.clear c)

  -- The data is an answer to a pipeline that begins with a match on the id.
  abbrev pub IsOwnData : Value → Value → Type 0
  IsOwnData user_id data_ = (rest : List Value) × Answers (owner_match user_id ∷ rest) data_

  -- The entry of the key was stored for a run that has this key.
  abbrev pub IsStored : String → Value → Type 0
  IsStored k v =
      (q : Run) × (casted : Object) × IsPlain q
      × (k ≡ key q.resource q.name q.user_id (json casted))
      × IsOwnData q.user_id v

  abbrev pub AreStored : Cache Value → Type 0
  AreStored c = (k : String) (e : Entry Value) → find k c.store ≡ some e → IsStored k e.value

  begun-waiting :
      (q : Run) (casted : Object) (k : Option String) (ttl : ℕ) (w : Waiting)
      (r : Result (List Value))
      → build_pipeline q.aggregation q.user_id casted ≡ r
      → as_begun casts json k ttl r ≡ waiting w
      → (rest : List Value) × (w.pipeline ≡ owner_match q.user_id ∷ rest) × (w.cache_key ≡ k)
  begun-waiting q casted k ttl w (err e) built h = absurd (ground arith)
  begun-waiting q casted k ttl w (ok stages) built h =
      let begins = build_pipeline-ok q.aggregation q.user_id casted stages built in
      (
        items (substitute q.aggregation.pipeline casted) ++ begins.0,
        ground (arith, begins.1),
        ground arith,
      )

  -- A run that waits for the database waits for a pipeline that begins with a match on its caller's id.
  pub waiting-pipeline :
      (q : Run) (c : Cache Value) (now : ℕ) (w : Waiting) (r : Result Object)
      → (begin_with casts json q c now r).0 ≡ waiting w
      → (casted : Object) × (rest : List Value) × (w.pipeline ≡ owner_match q.user_id ∷ rest)
        × (w.cache_key ≡ cache_key_of casts json q casted)
  waiting-pipeline q c now w (err e) h = absurd (ground arith)
  waiting-pipeline q c now w (ok casted) h = elim (Bool-cases (strict_eq found undefined)) [
    | inl missed ↦
        let begun =
          begun-waiting q casted (cache_key_of casts json q casted) (cache_ttl q.cache) w
            (build_pipeline q.aggregation q.user_id casted) refl (ground (arith, missed)) in
        (casted, begun.0, begun.1, begun.2)
    | inr found_it ↦ absurd (ground (arith, found_it))
  ]
    where
      found : Value
      found = (look_up c (cache_key_of casts json q casted) now).0

  look_up-AreStored :
      (c : Cache Value) (k : Option String) (now : ℕ) → AreStored c → AreStored (look_up c k now).1
  look_up-AreStored c none now h = h
  look_up-AreStored c (some k) now h =
      λ j e is_there. h j e (unfold get in find-read c k j (find k c.store) now e refl is_there)

  begin-AreStored :
      (q : Run) (c : Cache Value) (now : ℕ) (r : Result Object)
      → AreStored c
      → AreStored (begin_with casts json q c now r).1
  begin-AreStored q c now (err e) h = h
  begin-AreStored q c now (ok casted) h =
      let after = look_up-AreStored c (cache_key_of casts json q casted) now h in
      elim (Bool-cases (strict_eq (look_up c (cache_key_of casts json q casted) now).0 undefined)) [
        | inl missed ↦ rw missed after
        | inr found ↦ rw found after
      ]

  finish-AreStored :
      (w : Waiting) (results : Value) (c : Cache Value) (now : ℕ) (k : Option String)
      → ((j : String) → k ≡ some j → IsStored j results)
      → AreStored c
      → AreStored (store_under k w.ttl results c now).1
  finish-AreStored w results c now none stored h = h
  finish-AreStored w results c now (some k) stored h = λ j e is_there.
      elim (find-set c k j results w.ttl now e is_there) [
        | inl same ↦ subst (λ v. IsStored j v) (sym same.1) (stored j (ap some same.0))
        | inr older ↦ h j e older
      ]

  key-IsStored :
      (q : Run) (casted : Object) (results : Value) (j : String)
      → IsPlain q
      → IsOwnData q.user_id results
      → cache_key_of casts json q casted ≡ some j
      → IsStored j results
  key-IsStored q casted results j plain own h = (q, casted, plain, ground arith, own)

  pub Reach-AreStored :
      (past : List Run) (c : Cache Value) → Reach past c → ArePlain past → AreStored c
  unfolding begin_run finish_run
  Reach-AreStored past c started plain = λ k e is_there. absurd (unfold find in ground arith)
  Reach-AreStored past c (began q now before) plain =
      begin-AreStored q _ now (validate_and_cast_params casts q.params q.raw_params)
        (Reach-AreStored past _ before plain)
  Reach-AreStored past c (cleared before) plain =
      λ k e is_there. absurd (unfold find in ground arith)
  Reach-AreStored past c (finished q earlier then_ now w results asked answered before) plain =
      let first = waiting-pipeline q earlier then_ w _ asked in
      finish-AreStored w results _ now w.cache_key
        (λ j e.
          key-IsStored q first.0 results j plain.0
            (first.1, subst (λ stages. Answers stages results) first.2 answered) (sym first.3 ∙ e))
        (Reach-AreStored _ _ before plain.1)
