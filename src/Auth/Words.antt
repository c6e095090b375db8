-- ===== src/Auth/Words.antt =====
-- The tests on header texts: the scheme of an `Authorization` header, and trimming.
use Prim.Native.Char.{Char, code}
use davepi.Base.{
  Bool, Option, String, eqb, false, if◌then◌else◌, leb, none, refl, some, true, ℕ, ◌&&◌, ◌+◌, ◌==◌,
  ◌||◌, ◌≡◌,
}

-- The space characters of a regular expression's `\s`, which `trim` removes too.
is_space : Char → Bool
is_space c =
    let n : ℕ = code c in
    (leb 9 n && leb n 13)
    || eqb n 32
    || eqb n 0xa0
    || eqb n 0x1680
    || (leb 0x2000 n && leb n 0x200a)
    || eqb n 0x2028
    || eqb n 0x2029
    || eqb n 0x202f
    || eqb n 0x205f
    || eqb n 0x3000
    || eqb n 0xfeff

-- A letter of the program's texts, in either case, as a regular expression with the flag `i` reads it.
same_letter : ℕ → ℕ → Bool
same_letter a b = eqb a b || (leb b'A' b && leb b b'Z' && eqb a (b + 32))

-- The rest of a text behind a prefix in lower case.
after_prefix : String → String → Option String
after_prefix String.[] s = some s
after_prefix (String.◌∷◌ p ps) String.[] = none
after_prefix (String.◌∷◌ p ps) (String.◌∷◌ c s) =
    if same_letter (code p) (code c) then after_prefix ps s else none

-- `header.replace(/bearer /i, '')`: the first occurrence goes.
unfoldable pub remove_bearer : String → String
unfolding after_prefix same_letter
remove_bearer String.[] = ""
remove_bearer (String.◌∷◌ c s) =
    let later : String = String.◌∷◌ c (remove_bearer s) in
    elim (after_prefix "bearer " (String.◌∷◌ c s)) [ some rest ↦ rest | none ↦ later ]

begins_with_space : String → Bool
begins_with_space String.[] = false
begins_with_space (String.◌∷◌ c s) = is_space c

-- `/^bearer\s+/i.test(header)`
unfoldable pub has_bearer : String → Bool
unfolding after_prefix same_letter begins_with_space is_space
has_bearer header = elim (after_prefix "bearer" header) [
  | none ↦ false
  | some rest ↦ begins_with_space rest
]

trim_start : String → String
trim_start String.[] = ""
trim_start (String.◌∷◌ c s) = if is_space c then trim_start s else String.◌∷◌ c s

trim_end : String → String
trim_end String.[] = ""
trim_end (String.◌∷◌ c s) =
    let rest : String = trim_end s in if is_space c && rest == "" then "" else String.◌∷◌ c rest

-- `text.trim()`
unfoldable pub trim : String → String
unfolding trim_start trim_end is_space
trim s = trim_end (trim_start s)

-- `s.startsWith(prefix)`
unfoldable pub begins : String → String → Bool
begins String.[] s = true
begins (String.◌∷◌ p ps) String.[] = false
begins (String.◌∷◌ p ps) (String.◌∷◌ c s) = eqb (code p) (code c) && begins ps s

bearer_forms :
    (remove_bearer "Bearer abc" ≡ "abc")
    × (has_bearer "bEARER  x" ≡ true)
    × (has_bearer "Basic x" ≡ false)
    × (trim "  a b " ≡ "a b")
unfolding remove_bearer has_bearer trim
bearer_forms = (refl, refl, refl, refl)
