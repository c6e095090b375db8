-- ===== src/Rest/Numbers.antt =====
-- The integers of a request: `parseInt` of a query parameter, and the arithmetic of page numbers.
use Prim.Native.Char.{code}
use davepi.Base.{
  Bool, Option, String, eqb, false, if◌then◌else◌, leb, ltb, none, some, suc, true, zero, ℕ, ◌&&◌,
  ◌*◌, ◌+◌, ◌-◌, ◌||◌,
}
use davepi.Js.{Value, to_text}
use davepi.Auth.Words.{trim}
use davepi.Rest.{ℤ, pos, negsuc}

-- The value of a digit, of ten or of sixteen.
unfoldable digit_value : ℕ → ℕ → Option ℕ
digit_value base c =
    if leb b'0' c && leb c b'9'
    then some (c - b'0')
    else if eqb base 16 && leb b'a' c && leb c b'f'
    then some (c - b'a' + 10)
    else if eqb base 16 && leb b'A' c && leb c b'F'
    then some (c - b'A' + 10)
    else none

abbrev value_so_far : Option ℕ → ℕ
value_so_far none = 0
value_so_far (some n) = n

-- The digits at the start of a text, after those already read; `none` if there is none.
unfoldable read_digits : ℕ → Option ℕ → String → Option ℕ
read_digits base acc String.[] = acc
read_digits base acc (String.◌∷◌ c s) = elim (digit_value base (code c)) [
  | none ↦ acc
  | some d ↦ read_digits base (some (value_so_far acc * base + d)) s
]

-- `0x` or `0X` stands before hexadecimal digits.
unfoldable read_number : String → Option ℕ
unfolding read_digits digit_value
read_number (String.◌∷◌ c (String.◌∷◌ x s)) =
    if eqb (code c) b'0' && (eqb (code x) b'x' || eqb (code x) b'X')
    then read_digits 16 none s
    else read_digits 10 none (String.◌∷◌ c (String.◌∷◌ x s))
read_number s = read_digits 10 none s

abbrev negate : ℕ → ℤ
negate zero = pos 0
negate (suc n) = negsuc n

abbrev signed : Bool → Option ℕ → Option ℤ
signed negative none = none
signed true (some n) = some (negate n)
signed false (some n) = some (pos n)

unfoldable read_signed : String → Option ℤ
unfolding read_number
read_signed String.[] = none
read_signed (String.◌∷◌ c s) =
    if eqb (code c) b'-'
    then signed true (read_number s)
    else if eqb (code c) b'+'
    then signed false (read_number s)
    else signed false (read_number (String.◌∷◌ c s))

-- `parseInt(v)`; `none` is `NaN`.
unfoldable pub parse_int : Value → Option ℤ
unfolding read_signed
parse_int v = read_signed (trim (to_text v))

-- `parseInt(v) || 1`
unfoldable pub page_number : Value → ℤ
page_number v = elim (parse_int v) [
  | none ↦ pos 1
  | some n ↦ elim n [ pos m ↦ if eqb m 0 then pos 1 else pos m | negsuc m ↦ negsuc m ]
]

-- `n - 1`
abbrev pub previous : ℤ → ℤ
previous (pos zero) = negsuc 0
previous (pos (suc n)) = pos n
previous (negsuc n) = negsuc (suc n)

-- `n + 1`
abbrev pub following : ℤ → ℤ
following (pos n) = pos (suc n)
following (negsuc zero) = pos 0
following (negsuc (suc n)) = negsuc n

-- `n * m`
abbrev pub times : ℤ → ℕ → ℤ
times (pos n) m = pos (n * m)
times (negsuc n) m = negate (suc n * m)

-- `n > page`
abbrev pub exceeds : ℕ → ℤ → Bool
exceeds n (pos p) = ltb p n
exceeds n (negsuc p) = true

-- `page > 1`
abbrev pub is_after_first : ℤ → Bool
is_after_first (pos p) = ltb 1 p
is_after_first (negsuc p) = false
