-- ===== src/Aggregations/Runs.antt =====
-- schemaLoader.js, runAggregation: a declared aggregation is run for a caller, over the cache. The run has
-- two parts, before and after the database's answer, and other runs may use the cache between them.
pub mod Reached
pub mod Own
use Prim.Native.String
use davepi.Base.{List, Option, String, if◌then◌else◌, ltb, none, some, ℕ}
use davepi.Js.{Value, Object, undefined, num, obj, get, strict_eq}
use davepi.Aggregations.{
  Casts, Param, Aggregation, Error, Result, ok, err, validate_and_cast_params, build_pipeline,
}
use davepi.AggregationCache.{Cache, key, set}
use davepi.AggregationCache

-- The arguments of `runAggregation`, with what it reads of the declaration and of the schema.
pub record Run : Type 0 where
  pub resource : String
  pub name : String
  pub aggregation : Aggregation
  pub params : List Param
  pub cache : Value
  pub user_id : Value
  pub raw_params : Object

pub data Status : Type 0 where
  hit miss : Status

-- What goes to the database, with the key and the lifetime of its result.
pub record Waiting : Type 0 where
  pub pipeline : List Value
  pub cache_key : Option String
  pub ttl : ℕ

-- How the first part ends: with data of the cache, an error, or a pipeline.
pub data Begun : Type 0 where
  given : Value → Begun
  refused : Error → Begun
  waiting : Waiting → Begun

abbrev pub seconds : Value → ℕ
seconds (num n) = n
seconds _ = 0

-- `cacheTtl`
abbrev pub cache_ttl : Value → ℕ
cache_ttl (obj o) = seconds (get "ttlSeconds" o)
cache_ttl _ = 0

abbrev pub or_undefined : Option Value → Value
or_undefined none = undefined
or_undefined (some v) = v

-- `aggregationCache.get`, where there is a key
abbrev pub look_up : Cache Value → Option String → ℕ → Value × Cache Value
look_up c none now = (undefined, c)
look_up c (some k) now =
    (or_undefined (AggregationCache.get c k now).0, (AggregationCache.get c k now).1)

-- The conversions of parameters, and `JSON.stringify`.
module _ (casts : Casts) (json : Object → String) where
  abbrev pub cache_key_of : Run → Object → Option String
  cache_key_of q casted =
      if ltb 0 (cache_ttl q.cache)
      then some (key q.resource q.name q.user_id (json casted))
      else none

  abbrev pub as_begun : Option String → ℕ → Result (List Value) → Begun
  as_begun k ttl (err e) = refused e
  as_begun k ttl (ok stages) = waiting (record { pipeline = stages; cache_key = k; ttl = ttl })

  abbrev pub begin_with : Run → Cache Value → ℕ → Result Object → Begun × Cache Value
  begin_with q c now (err e) = (refused e, c)
  begin_with q c now (ok casted) =
      let found = look_up c (cache_key_of q casted) now in
      if strict_eq found.0 undefined
      then (
        as_begun (cache_key_of q casted) (cache_ttl q.cache)
            (build_pipeline q.aggregation q.user_id casted),
        found.1,
      )
      else (given found.0, found.1)

  -- `runAggregation`, until the database is asked
  unfoldable pub begin_run : Run → Cache Value → ℕ → Begun × Cache Value
  begin_run q c now = begin_with q c now (validate_and_cast_params casts q.params q.raw_params)

abbrev pub store_under : Option String → ℕ → Value → Cache Value → ℕ → Option Status × Cache Value
store_under none ttl results c now = (none, c)
store_under (some k) ttl results c now = (some miss, set c k results ttl now)

-- `runAggregation`, from the database's answer on: the status, and the cache; the data is the answer.
unfoldable pub finish_run : Waiting → Value → Cache Value → ℕ → Option Status × Cache Value
finish_run w results c now = store_under w.cache_key w.ttl results c now
