-- ===== src/Aggregations.antt =====
-- utils/aggregations.js: the parameters of a declared aggregation, their substitution into its
-- pipeline, the search for forbidden operators and the pipeline that reaches the database.
pub mod Safety
pub mod Params
pub mod Runs
use Prim.Native.Char.{code}
use Prim.Native.String
use davepi.Base.{
  Bool, List, Option, String, [], eqb, false, if◌then◌else◌, includes, none, not, some, some_of,
  true, ℕ, ◌++◌, ◌==◌, ◌||◌, ◌∷◌,
}
use davepi.Js.{
  Value, undefined, null, bool, num, str, arr, obj, Items, nil, cons, Object, empty, prop, get,
  has_own, put, no_keys, items, truthy, to_text, strict_eq,
}

-- `FORBIDDEN_STAGES`
abbrev pub forbidden_stages : List String
forbidden_stages =
    "$out" ∷ "$merge" ∷ "$lookup" ∷ "$graphLookup" ∷ "$unionWith" ∷ "$function" ∷ "$accumulator"
    ∷ []

-- `ALLOWED_PARAM_TYPES`
abbrev pub allowed_param_types : List String
allowed_param_types = "string" ∷ "number" ∷ "boolean" ∷ "date" ∷ "objectId" ∷ []

abbrev pub default_result_limit : ℕ
default_result_limit = 10000

-- `AggregationParamError` with the parameter's name, and `AggregationSafetyError` with the operator.
pub data Error : Type 0 where
  unsupported_type missing bad_value : String → Error
  forbidden : String → Error

pub data Result {ℓ} (A : Type ℓ) : Type ℓ where
  ok : A → Result A
  err : Error → Result A

-- The conversions of the language and of the database driver; `none` is what is refused.
pub record Casts : Type 0 where
  pub number : Value → Option Value
  pub date : Value → Option Value
  pub object_id : Value → Option Value

-- One entry of the declared map of parameters.
pub record Param : Type 0 where
  pub name : String
  pub type : String
  pub required : Bool

or_bad : String → Option Value → Result Value
or_bad name none = err (bad_value name)
or_bad name (some v) = ok v

cast_boolean : String → Value → Result Value
cast_boolean name v =
    if strict_eq v (bool true)
      || strict_eq v (str "true")
      || strict_eq v (str "1")
      || strict_eq v (num 1)
    then ok (bool true)
    else if strict_eq v (bool false)
        || strict_eq v (str "false")
        || strict_eq v (str "0")
        || strict_eq v (num 0)
    then ok (bool false)
    else err (bad_value name)

-- `castValue`
unfoldable pub cast_value : Casts → String → Value → String → Result Value
unfolding or_bad cast_boolean
cast_value casts name v type =
    if type == "string"
    then ok (str (to_text v))
    else if type == "number"
    then or_bad name (casts.number v)
    else if type == "boolean"
    then cast_boolean name v
    else if type == "date"
    then or_bad name (casts.date v)
    else if type == "objectId"
    then or_bad name (casts.object_id v)
    else ok v

-- `value === undefined || value === ''`
unfoldable pub is_missing : Value → Bool
is_missing undefined = true
is_missing (str s) = s == ""
is_missing _ = false

abbrev keep : (Value → Result Object) → Result Value → Result Object
keep f (ok v) = f v
keep f (err e) = err e

-- The loop of `validateAndCastParams`.
unfoldable pub cast_all : Casts → List Param → Object → Object → Result Object
cast_all casts [] raw out = ok out
cast_all casts (p ∷ ps) raw out =
    let skip : Result Object = cast_all casts ps raw out in
    let cast : Result Object =
      keep (λ v. cast_all casts ps raw (put p.name v out))
        (cast_value casts p.name (get p.name raw) p.type) in
    if not (includes allowed_param_types p.type)
    then err (unsupported_type p.name)
    else if is_missing (get p.name raw)
    then (if p.required then err (missing p.name) else skip)
    else cast

-- `validateAndCastParams`; a parameter that the request lacks is `undefined`.
unfoldable pub validate_and_cast_params : Casts → List Param → Object → Result Object
validate_and_cast_params casts spec raw = cast_all casts spec raw empty

-- The rest of a text that begins with a colon.
param_name : String → Option String
param_name String.[] = none
param_name (String.◌∷◌ c s) = if eqb (code c) b':' then some s else none

-- A text that names a parameter stands for the parameter's value.
unfoldable pub resolve : Object → String → Value
unfolding param_name
resolve params s = elim (param_name s) [
  | none ↦ str s
  | some name ↦ if has_own name params then get name params else str s
]

-- `walk`
unfoldable mutual
  pub walk : Object → Value → Value
  walk params undefined = undefined
  walk params null = null
  walk params (bool b) = bool b
  walk params (num n) = num n
  walk params (str s) = resolve params s
  walk params (arr vs) = arr (walk_items params vs)
  walk params (obj o) = obj (walk_object params o empty)

  pub walk_items : Object → Items → Items
  walk_items params nil = nil
  walk_items params (cons v vs) = cons (walk params v) (walk_items params vs)

  pub walk_object : Object → Object → Object → Object
  walk_object params empty out = out
  walk_object params (prop k v o) out = walk_object params o (put k (walk params v) out)

-- `clone`: through JSON, an absent value in an array becomes `null`, and in an object is left out.
unfoldable mutual
  pub clone : Value → Value
  clone undefined = null
  clone null = null
  clone (bool b) = bool b
  clone (num n) = num n
  clone (str s) = str s
  clone (arr vs) = arr (clone_items vs)
  clone (obj o) = obj (clone_object o)

  pub clone_items : Items → Items
  clone_items nil = nil
  clone_items (cons v vs) = cons (clone v) (clone_items vs)

  pub clone_object : Object → Object
  clone_object empty = empty
  clone_object (prop k undefined o) = clone_object o
  clone_object (prop k v o) = prop k (clone v) (clone_object o)

-- `substitute`, of the stages of a pipeline.
unfoldable pub substitute : Items → Object → Items
substitute pipeline params =
    if no_keys params then clone_items pipeline else walk_items params pipeline

-- The first of two findings.
abbrev pub first : Option String → Option String → Option String
first (some k) later = some k
first none later = later

-- `visit` of `assertSafePipeline`: the first forbidden key, if there is one.
unfoldable mutual
  pub visit : Value → Option String
  visit undefined = none
  visit null = none
  visit (bool b) = none
  visit (num n) = none
  visit (str s) = none
  visit (arr vs) = visit_items vs
  visit (obj o) = visit_object o

  pub visit_items : Items → Option String
  visit_items nil = none
  visit_items (cons v vs) = first (visit v) (visit_items vs)

  pub visit_object : Object → Option String
  visit_object empty = none
  visit_object (prop k v o) =
      if includes forbidden_stages k then some k else first (visit v) (visit_object o)

-- `assertSafePipeline`
unfoldable pub assert_safe_pipeline : Items → Bool → Option String
assert_safe_pipeline pipeline unsafe = if unsafe then none else visit_items pipeline

pub record Aggregation : Type 0 where
  pub pipeline : Items
  pub unsafe : Bool
  pub max_results : Value

-- `s && Object.prototype.hasOwnProperty.call(s, '$limit')`
abbrev pub is_limit : Value → Bool
is_limit (obj o) = has_own "$limit" o
is_limit _ = false

-- `{ $match: { userId: safeUserId } }`
abbrev pub match_stage : Value → Value
match_stage user_id = obj (prop "$match" (obj (prop "userId" (str (to_text user_id)) empty)) empty)

abbrev pub limit_stage : Value → Value
limit_stage max_results =
    obj (prop "$limit" (if truthy max_results then max_results else num default_result_limit) empty)

abbrev pub limit_stages : Value → List Value → List Value
limit_stages max_results stages =
    if some_of is_limit stages then [] else limit_stage max_results ∷ []

abbrev built : Value → Value → List Value → Option String → Result (List Value)
built user_id max_results stages none =
    ok (match_stage user_id ∷ (stages ++ limit_stages max_results stages))
built user_id max_results stages (some k) = err (forbidden k)

-- `buildPipeline`
unfoldable pub build_pipeline : Aggregation → Value → Object → Result (List Value)
build_pipeline a user_id params =
    let stages = substitute a.pipeline params in
    built user_id a.max_results (items stages) (assert_safe_pipeline stages a.unsafe)
