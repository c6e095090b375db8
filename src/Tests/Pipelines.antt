-- ===== src/Tests/Pipelines.antt =====
-- A sample aggregation, and the cache of its results.
use davepi.Base.{
  List, String, [], arith, eq_iff, false, none, refl, some, some_of, true, ℕ, ◌++◌, ◌∷◌, ◌≡◌, ◌≢◌,
  ◌⊎◌,
}
use davepi.Js.{
  Value, undefined, num, str, to_text, strict_eq, truthy, obj, Items, nil, cons, Object, empty,
  prop, get, put, has_own, items,
}
use davepi.Aggregations.{
  Casts, Param, forbidden, ok, err, substitute, build_pipeline, Aggregation, match_stage,
  limit_stage, is_limit, validate_and_cast_params, cast_all, cast_value, is_missing,
  assert_safe_pipeline, resolve, visit_items, walk_items, clone_items,
}
use davepi.Aggregations.Safety.{AreSafe, build_pipeline-ok}
use davepi.Aggregations.Runs.{Run, Waiting, given, waiting, begin_run, finish_run}
use davepi.Aggregations.Runs.Reached.{Reach, started, finished}
use davepi.Aggregations.Runs.Own.{IsOwnBegun, begin_run-IsOwn}
use davepi.AggregationCache
use davepi.AggregationCache.{Cache, set, read, key}
use davepi.AggregationCache.Keys.{read_key, read_key-key}
use davepi.AggregationCache.Map.{find, store_at}
use davepi.AggregationCache.Laws.{IsValid, view, oldest, set-IsValid, get-view}

-- The invoices of the year that the parameter names, grouped.
abbrev group_by_year : Items
group_by_year =
    cons (obj (prop "$match" (obj (prop "year" (str ":year") empty)) empty))
      (cons (obj (prop "$group" (obj (prop "_id" (str "$status") empty)) empty)) nil)

abbrev by_year : Aggregation
by_year = record { pipeline = group_by_year; unsafe = false; max_results = num 50 }

abbrev year_2024 : Object
year_2024 = prop "year" (num 2024) empty

abbrev by_year_stages : List Value
by_year_stages =
    match_stage (str "u1")
    ∷ obj (prop "$match" (obj (prop "year" (num 2024) empty)) empty)
    ∷ obj (prop "$group" (obj (prop "_id" (str "$status") empty)) empty)
    ∷ limit_stage (num 50)
    ∷ []

built_by_year : build_pipeline by_year (str "u1") year_2024 ≡ ok by_year_stages
unfolding build_pipeline assert_safe_pipeline visit_items substitute walk_items put resolve has_own
    get
built_by_year = refl

build_pipeline-ok_example :
    (rest : List Value) × (by_year_stages
      ≡ match_stage (str "u1") ∷ (items (substitute group_by_year year_2024) ++ rest))
    × (some_of is_limit by_year_stages ≡ true)
    × ((false ≡ true) ⊎ AreSafe (substitute group_by_year year_2024))
build_pipeline-ok_example =
    build_pipeline-ok by_year (str "u1") year_2024 by_year_stages built_by_year

-- A stage that writes a collection.
abbrev writes_out : Items
writes_out = cons (obj (prop "$facet" (obj (prop "$out" (str "leak") empty)) empty)) nil

abbrev leaking : Aggregation
leaking = record { pipeline = writes_out; unsafe = false; max_results = undefined }

leak_refused : build_pipeline leaking (str "u1") empty ≡ err (forbidden "$out")
unfolding build_pipeline assert_safe_pipeline visit_items substitute clone_items
leak_refused = refl

abbrev plain_casts : Casts
plain_casts = record { number = λ v. some v; date = λ v. none; object_id = λ v. none }

abbrev year_spec : List Param
year_spec =
    record { name = "year"; type = "number"; required = true }
    ∷ record { name = "status"; type = "string"; required = false }
    ∷ []

-- What the request sent, with a property that was not declared.
abbrev sent_params : Object
sent_params = prop "year" (num 2024) (prop "extra" (str "x") empty)

taken_year : validate_and_cast_params plain_casts year_spec sent_params ≡ ok year_2024
unfolding validate_and_cast_params cast_all is_missing get cast_value put
taken_year = refl

-- A cache of two entries, full.
abbrev full_cache : Cache ℕ
full_cache = record {
  max_entries = 2;
  store =
      ("a", record { value = 1; expires_at = 500 })
      ∷ ("b", record { value = 2; expires_at = 900 })
      ∷ [];
}

full_cache-IsValid : IsValid full_cache
unfolding find
full_cache-IsValid = record { keyed = (refl, (refl, tt)); bounded = omega arith }

set-IsValid_example : IsValid (set full_cache "c" 3 60 100)
set-IsValid_example = set-IsValid full_cache "c" 3 60 100 (omega arith) full_cache-IsValid

get-view_example :
    ((davepi.AggregationCache.get full_cache "a" 100).0 ≡ view full_cache 100 "a")
    × (view (davepi.AggregationCache.get full_cache "a" 100).1 400 "b" ≡ view full_cache 400 "b")
get-view_example = get-view full_cache "a" "b" 100 400 (omega arith)

c_ne_b : ◌≢◌ {A = String} "c" "b"
c_ne_b e = ground (arith, eq_iff "c" "b")

a_ne_b : ◌≢◌ {A = String} "a" "b"
a_ne_b e = ground (arith, eq_iff "a" "b")

oldest_ne_b : oldest full_cache ≢ some "b"
oldest_ne_b e = ground (arith, eq_iff "a" "b")

read_a : (davepi.AggregationCache.get full_cache "a" 100).0 ≡ some 1
unfolding davepi.AggregationCache.get find read
read_a = refl

read_key-key_example :
    read_key (AggregationCache.key "tax" "by" (str "u1") "{\"a\":1}")
    ≡ some ("tax", "by", "u1", "{\"a\":1}")
unfolding to_text
read_key-key_example =
    read_key-key "tax" "by" (str "u1") "{\"a\":1}" (refl, (refl, (refl, tt))) (refl, (refl, tt))
      (refl, (refl, tt))

abbrev no_params : Object → String
no_params o = "{}"

-- The invoices of the caller, cached for a minute.
abbrev by_run : Run
by_run = record {
  resource = "tax";
  name = "by";
  aggregation = by_year;
  params = [];
  cache = obj (prop "ttlSeconds" (num 60) empty);
  user_id = str "u1";
  raw_params = empty;
}

abbrev by_waiting : Waiting
by_waiting = record {
  pipeline =
      match_stage (str "u1")
      ∷ obj (prop "$match" (obj (prop "year" (str ":year") empty)) empty)
      ∷ obj (prop "$group" (obj (prop "_id" (str "$status") empty)) empty)
      ∷ limit_stage (num 50)
      ∷ [];
  cache_key = some "tax:by:u1:{}";
  ttl = 60;
}

abbrev IsSeven : List Value → Value → Type 0
IsSeven p v = v ≡ num 7

abbrev by_cache : Cache Value
by_cache = (finish_run by_waiting (num 7) (AggregationCache.create_aggregation_cache 2) 100).1

by_asked :
    (begin_run plain_casts no_params by_run (AggregationCache.create_aggregation_cache 2) 0).0
    ≡ waiting by_waiting
unfolding begin_run validate_and_cast_params cast_all get key build_pipeline assert_safe_pipeline
    visit_items substitute walk_items resolve has_own to_text truthy strict_eq AggregationCache.get
    read find clone_items
by_asked = refl

-- A second run is given what the first one stored.
by_hit : (begin_run plain_casts no_params by_run by_cache 200).0 ≡ given (num 7)
unfolding begin_run finish_run validate_and_cast_params cast_all get key to_text strict_eq
    AggregationCache.get AggregationCache.set AggregationCache.make_room read find store_at
by_hit = refl

Reach-by : Reach plain_casts no_params IsSeven (by_run ∷ []) by_cache
Reach-by =
    finished by_run (AggregationCache.create_aggregation_cache 2) 0 100 by_waiting (num 7) by_asked
      refl started

begin_run-IsOwn_example :
    IsOwnBegun plain_casts no_params IsSeven
      (str "u1")
      (begin_run plain_casts no_params by_run by_cache 200).0
unfolding to_text
begin_run-IsOwn_example =
    begin_run-IsOwn plain_casts no_params IsSeven by_run (by_run ∷ []) by_cache 200
      (
        ((refl, (refl, (refl, tt))), (refl, (refl, tt)), (refl, (refl, tt))),
        (((refl, (refl, (refl, tt))), (refl, (refl, tt)), (refl, (refl, tt))), tt),
      )
      Reach-by
