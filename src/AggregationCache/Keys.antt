-- ===== src/AggregationCache/Keys.antt =====
-- aggregationCache.js: what the text of a key says.
use Prim.Native.Char.{Char, char, code}
use Prim.Native.String
use text.Mathlib.TextLemmas.{cons-append, nil-append}
use davepi.Base.{Option, String, ap, eqb, false, if◌then◌else◌, none, refl, some, ◌∙◌, ◌≡◌}
use davepi.Js.{Value, to_text}
use davepi.AggregationCache.{key}

-- No character of the text is a colon.
abbrev pub IsColonFree : String → Type 0
IsColonFree String.[] = Unit
IsColonFree (String.◌∷◌ c s) = (eqb (code c) b':' ≡ false) × IsColonFree s

-- The text before the first colon, and the text behind it.
unfoldable pub cut : String → Option (String × String)
cut String.[] = none
cut (String.◌∷◌ c s) =
    let later : Option (String × String) = cut s in
    if eqb (code c) b':'
    then some ("", s)
    else elim later [ none ↦ none | some parts ↦ some (String.◌∷◌ c parts.0, parts.1) ]

abbrev colon : Char
colon = char b':' tt

cut-colon : (t : String) → cut (String.◌++◌ ":" t) ≡ some ("", t)
unfolding cut
cut-colon t =
    ap cut (cons-append colon "" t ∙ ap (λ (s : String). String.◌∷◌ colon s) (nil-append t))

join_cons : Char → Option (String × String) → Option (String × String)
join_cons c none = none
join_cons c (some parts) = some (String.◌∷◌ c parts.0, parts.1)

cut-cons :
    (c : Char) (s : String) (r : Option (String × String))
    → eqb (code c) b':' ≡ false
    → cut s ≡ r
    → cut (String.◌∷◌ c s) ≡ join_cons c r
unfolding cut join_cons
cut-cons c s none e h = rw e (rw h refl)
cut-cons c s (some parts) e h = rw e (rw h refl)

cut-append : (s t : String) → IsColonFree s → cut (String.◌++◌ s (String.◌++◌ ":" t)) ≡ some (s, t)
unfolding join_cons
cut-append String.[] t h = ap cut (nil-append (String.◌++◌ ":" t)) ∙ cut-colon t
cut-append (String.◌∷◌ c s) t h =
    ap cut (cons-append c s (String.◌++◌ ":" t))
    ∙ cut-cons c (String.◌++◌ s (String.◌++◌ ":" t)) (some (s, t)) h.0 (cut-append s t h.1)

abbrev pub KeyParts : Type 0
KeyParts = String × String × String × String

abbrev after_user : String → String → Option (String × String) → Option KeyParts
after_user resource name none = none
after_user resource name (some parts) = some (resource, name, parts.0, parts.1)

abbrev after_name : String → Option (String × String) → Option KeyParts
after_name resource none = none
after_name resource (some parts) = after_user resource parts.0 (cut parts.1)

abbrev after_resource : Option (String × String) → Option KeyParts
after_resource none = none
after_resource (some parts) = after_name parts.0 (cut parts.1)

-- The texts between the first three colons of a key, and the text behind them.
unfoldable pub read_key : String → Option KeyParts
read_key k = after_resource (cut k)

-- A key of the cache tells the resource, the aggregation, the caller and the text of the parameters that
-- it was made from, if no colon stands in the first three.
pub read_key-key :
    (resource name : String) (user_id : Value) (params : String)
    → IsColonFree resource
    → IsColonFree name
    → IsColonFree (to_text user_id)
    → read_key (key resource name user_id params) ≡ some (resource, name, to_text user_id, params)
unfolding read_key key
read_key-key resource name user_id params r n u =
    ap after_resource (
      cut-append resource
        (String.◌++◌ name
          (String.◌++◌ ":" (String.◌++◌ (to_text user_id) (String.◌++◌ ":" params))))
        r)
    ∙ ap (after_name resource)
        (cut-append name (String.◌++◌ (to_text user_id) (String.◌++◌ ":" params)) n)
    ∙ ap (after_user resource name) (cut-append (to_text user_id) params u)
