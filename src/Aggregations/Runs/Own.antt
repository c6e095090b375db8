-- ===== src/Aggregations/Runs/Own.antt =====
-- schemaLoader.js, runAggregation: whose data a caller gets, however runs share the cache.
use davepi.Base.{
  Bool-cases, List, Option, String, ap, arith, false, inl, inr, none, refl, some, subst, sym, ℕ,
  ◌∙◌, ◌∷◌, ◌≡◌, ◌≢◌,
}
use davepi.Js.{obj, prop, str, empty, Value, Object, to_text, undefined, strict_eq}
use davepi.AggregationCache.{Cache, get, key}
use davepi.AggregationCache.Map.{find}
use davepi.Base.{Bool-cases}
use davepi.AggregationCache.Entries.{read-value}
use davepi.AggregationCache.Keys.{read_key, read_key-key}
use davepi.Aggregations.{Casts, Result, ok, err, build_pipeline, validate_and_cast_params}
use davepi.Aggregations.Runs.{
  Run, Begun, given, refused, waiting, cache_ttl, or_undefined, look_up, cache_key_of, as_begun,
  begin_with, begin_run,
}
use davepi.Aggregations.Safety.{owner_match}
use davepi.Aggregations.Runs.Reached.{
  IsPlain, ArePlain, Reach, IsOwnData, IsStored, AreStored, waiting-pipeline, Reach-AreStored,
}

module _ (casts : Casts) (json : Object → String) (Answers : List Value → Value → Type 0) where
  look_up-IsStored :
      (c : Cache Value) (k : Option String) (now : ℕ) (v : Value)
      → AreStored casts json Answers c
      → (look_up c k now).0 ≡ v
      → strict_eq v undefined ≡ false
      → (j : String) × (k ≡ some j) × IsStored casts json Answers j v
  unfolding get
  look_up-IsStored c none now v stored e n =
      absurd (unfold strict_eq in ground (arith, ap (λ u. strict_eq u undefined) e, n))
  look_up-IsStored c (some k) now v stored e n = go (get c k now).0 refl
    where
      go :
          (o : Option Value)
          → (get c k now).0 ≡ o
          → (j : String) × (some k ≡ some j) × IsStored casts json Answers j v
      go none is_o = absurd (
          unfold strict_eq in
          ground (arith, ap (λ u. strict_eq u undefined) (sym e ∙ ap or_undefined is_o), n))
      go (some u) is_o =
          let entry = read-value c k (find k c.store) now u refl is_o in
          (
            k,
            refl,
            subst (IsStored casts json Answers k) (entry.2 ∙ sym (ap or_undefined is_o) ∙ e)
                (stored k entry.0 entry.1),
          )

  as_begun-given :
      (k : Option String) (ttl : ℕ) (r : Result (List Value)) (v : Value)
      → as_begun casts json k ttl r ≢ given v
  as_begun-given k ttl (ok stages) v = λ h. ground arith
  as_begun-given k ttl (err e) v = λ h. ground arith

  given-IsStored :
      (q : Run) (c : Cache Value) (now : ℕ) (data_ : Value) (r : Result Object)
      → AreStored casts json Answers c
      → (begin_with casts json q c now r).0 ≡ given data_
      → (casted : Object) × IsStored casts json Answers
          (key q.resource q.name q.user_id (json casted))
          data_
  given-IsStored q c now data_ (err e) stored h = absurd (ground arith)
  given-IsStored q c now data_ (ok casted) stored h =
      elim (Bool-cases (strict_eq found undefined)) [
        | inl missed ↦ absurd (
            as_begun-given (cache_key_of casts json q casted) (cache_ttl q.cache)
              (build_pipeline q.aggregation q.user_id casted) data_ (ground (arith, missed)))
        | inr is_found ↦
            let entry =
              look_up-IsStored c (cache_key_of casts json q casted) now data_ stored
                (ground (arith, is_found)) (ground (arith, is_found)) in
            (
              casted,
              subst (λ k. IsStored casts json Answers k data_) (ground (arith, entry.1)) entry.2,
            )
      ]
    where
      found : Value
      found = (look_up c (cache_key_of casts json q casted) now).0

  -- The entry of a run's own key was stored for its caller.
  IsStored-own :
      (q : Run) (casted : Object) (data_ : Value)
      → IsPlain q
      → IsStored casts json Answers (key q.resource q.name q.user_id (json casted)) data_
      → IsOwnData casts json Answers q.user_id data_
  IsStored-own q casted data_ plain (other, params, is_plain, same, own) =
      (own.0, subst (λ id. Answers (id ∷ own.0) data_) (ap stage_of (sym texts)) own.1)
    where
      stage_of : String → Value
      stage_of id = obj (prop "$match" (obj (prop "userId" (str id) empty)) empty)

      texts : to_text q.user_id ≡ to_text other.user_id
      texts = ground (
        arith,
        sym (read_key-key q.resource q.name q.user_id (json casted) plain.0 plain.1 plain.2)
            ∙ ap read_key same
            ∙ read_key-key other.resource other.name other.user_id (json params) is_plain.0
                is_plain.1 is_plain.2,
      )

  abbrev pub IsOwnBegun : Value → Begun → Type 0
  IsOwnBegun user_id (given data_) = IsOwnData casts json Answers user_id data_
  IsOwnBegun user_id (refused e) = Unit
  IsOwnBegun user_id (waiting w) = (rest : List Value) × (w.pipeline ≡ owner_match user_id ∷ rest)

  begun-IsOwn :
      (q : Run) (c : Cache Value) (now : ℕ) (b : Begun)
      → IsPlain q
      → AreStored casts json Answers c
      → (begin_run casts json q c now).0 ≡ b
      → IsOwnBegun q.user_id b
  unfolding begin_run
  begun-IsOwn q c now (given data_) plain stored h =
      let entry =
        given-IsStored q c now data_ (validate_and_cast_params casts q.params q.raw_params) stored
          h in
      IsStored-own q entry.0 data_ plain entry.1
  begun-IsOwn q c now (refused e) plain stored h = tt
  begun-IsOwn q c now (waiting w) plain stored h =
      let first = waiting-pipeline casts json Answers q c now w _ h in (first.1, first.2)

  -- However runs of aggregations begin, end and clear the cache that they share, the data that a run is
  -- given from the cache is an answer of the database to a pipeline that begins with a match on its own
  -- caller's id, and a run that goes to the database goes with such a pipeline, if no colon stands in the
  -- path, in the name and in the caller's id of the run and of those before it.
  pub begin_run-IsOwn :
      (q : Run) (past : List Run) (c : Cache Value) (now : ℕ)
      → ArePlain (q ∷ past)
      → Reach casts json Answers past c
      → IsOwnBegun q.user_id (begin_run casts json q c now).0
  begin_run-IsOwn q past c now plain reached =
      begun-IsOwn q c now _ plain.0 (Reach-AreStored casts json Answers past c reached plain.1) refl
