-- ===== src/Js.antt =====
-- The JavaScript values that the program's pure code handles, and its operations on objects.
-- A number is a natural number; an ObjectId is the text of its digits. An object is the list of its
-- own properties in insertion order: no code modelled here has properties whose names are integers.
pub mod Laws
use davepi.Base.{
  Bool, List, String, [], eqb, false, if◌then◌else◌, ltb, not, suc, true, zero, ℕ, ◌%◌, ◌/◌, ◌==◌,
  ◌||◌, ◌∷◌,
}
use Prim.Native.String

mutual
  pub data Value : Type 0 where
    undefined null : Value
    bool : Bool → Value
    num : ℕ → Value
    str : String → Value
    arr : Items → Value
    obj : Object → Value

  pub data Items : Type 0 where
    nil : Items
    cons : Value → Items → Items

  pub data Object : Type 0 where
    empty : Object
    prop : String → Value → Object → Object

-- `o[k]`
unfoldable pub get : String → Object → Value
get k empty = undefined
get k (prop j v o) = if j == k then v else get k o

-- `Object.prototype.hasOwnProperty.call(o, k)`, and `k in o`
unfoldable pub has_own : String → Object → Bool
has_own k empty = false
has_own k (prop j v o) = j == k || has_own k o

-- `o[k] = v`
unfoldable pub put : String → Value → Object → Object
put k v empty = prop k v empty
put k v (prop j w o) = if j == k then prop k v o else prop j w (put k v o)

-- `delete o[k]`
unfoldable pub delete : String → Object → Object
delete k empty = empty
delete k (prop j v o) = if j == k then delete k o else prop j v (delete k o)

-- `{ ...a, ...b }`
unfoldable pub spread : Object → Object → Object
spread a empty = a
spread a (prop k v b) = spread (put k v a) b

-- `Object.keys(o).length === 0`
abbrev pub no_keys : Object → Bool
no_keys empty = true
no_keys (prop k v o) = false

-- An array's values, and an array of values.
abbrev pub items : Items → List Value
items nil = []
items (cons v vs) = v ∷ items vs

abbrev pub array : List Value → Items
array [] = nil
array (v ∷ vs) = cons v (array vs)

-- `Boolean(v)`
unfoldable pub truthy : Value → Bool
truthy undefined = false
truthy null = false
truthy (bool b) = b
truthy (num n) = not (eqb n 0)
truthy (str s) = not (s == "")
truthy (arr vs) = true
truthy (obj o) = true

-- `v == null`
unfoldable pub nullish : Value → Bool
nullish undefined = true
nullish null = true
nullish _ = false

-- `a === b`, for two values read from different places: no two arrays or objects are one.
unfoldable pub strict_eq : Value → Value → Bool
strict_eq undefined undefined = true
strict_eq null null = true
strict_eq (bool true) (bool b) = b
strict_eq (bool false) (bool b) = not b
strict_eq (num n) (num m) = eqb n m
strict_eq (str s) (str t) = s == t
strict_eq _ _ = false

digit : ℕ → String
digit zero = "0"
digit (suc zero) = "1"
digit (suc (suc zero)) = "2"
digit (suc (suc (suc zero))) = "3"
digit (suc (suc (suc (suc zero)))) = "4"
digit (suc (suc (suc (suc (suc zero))))) = "5"
digit (suc (suc (suc (suc (suc (suc zero)))))) = "6"
digit (suc (suc (suc (suc (suc (suc (suc zero))))))) = "7"
digit (suc (suc (suc (suc (suc (suc (suc (suc zero)))))))) = "8"
digit _ = "9"

-- The digits of `n` before `acc`; `n` rounds are enough, since each divides by ten.
decimal_from : ℕ → ℕ → String → String
decimal_from zero n acc = acc
decimal_from (suc f) n acc =
    let more = decimal_from f (n / 10) (String.◌++◌ (digit (n % 10)) acc) in
    if ltb n 10 then String.◌++◌ (digit n) acc else more

unfoldable pub decimal : ℕ → String
unfolding digit decimal_from
decimal n = decimal_from (suc n) n ""

-- `String(v)`; an array joins its values by commas, and shows `undefined` and `null` as "".
unfoldable mutual
  pub to_text : Value → String
  to_text undefined = "undefined"
  to_text null = "null"
  to_text (bool b) = if b then "true" else "false"
  to_text (num n) = decimal n
  to_text (str s) = s
  to_text (arr vs) = join vs
  to_text (obj o) = "[object Object]"

  pub join : Items → String
  join nil = ""
  join (cons v vs) = join_more (if nullish v then "" else to_text v) vs

  pub join_more : String → Items → String
  join_more acc nil = acc
  join_more acc (cons v vs) =
      join_more (String.◌++◌ (String.◌++◌ acc ",") (if nullish v then "" else to_text v)) vs
