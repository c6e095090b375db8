-- ===== src/Relations/Named.antt =====
-- relations.js: the names that `parseIncludes` lets through.
use davepi.Base.{
  Bool, Bool-cases, List, String, [], arith, every, false, inl, inr, is_empty, not, refl, select,
  subst, true, ◌||◌, ◌∷◌, ◌≡◌,
}
use davepi.Js.{Value, nullish, strict_eq, str, to_text}
use davepi.Relations.{
  Relation, includes_of, rejected, unknown_relations, known, check_names, requested_names,
  parse_includes,
}

select-none :
    (p : String → Bool) (xs : List String) → is_empty (select (λ x. not (p x)) xs) ≡ every p xs
select-none p [] = refl
select-none p (x ∷ xs) = ground (arith, select-none p xs)

every-select : (p : String → Bool) (xs : List String) → every p (select p xs) ≡ true
every-select p [] = refl
every-select p (x ∷ xs) = ground (arith, every-select p xs)

check_names-known :
    (normalized : List (String × Relation)) (names accepted : List String)
    → check_names normalized names ≡ includes_of accepted
    → (accepted ≡ names) × (every (known normalized) names ≡ true)
check_names-known normalized names accepted e = ground (arith, select-none (known normalized) names)

none_given :
    (p : String → Bool) (names : List String)
    → includes_of [] ≡ includes_of names
    → every p names ≡ true
none_given p [] e = refl
none_given p (n ∷ ns) e = cc

module _ (normalized : List (String × Relation)) where
  accepted :
      (asked names : List String)
      → check_names normalized asked ≡ includes_of names
      → every (known normalized) names ≡ true
  accepted asked names e = elim (Bool-cases (every (known normalized) asked)) [
    | inl all ↦
        let same : asked ≡ names = ground (arith, select-none (known normalized) asked) in
        subst (λ ns. every (known normalized) ns ≡ true) same all
    | inr some_unknown ↦ ground (arith, select-none (known normalized) asked)
  ]

  refused :
      (asked names : List String)
      → check_names normalized asked ≡ rejected (unknown_relations names)
      → (every (λ n. not (known normalized n)) names ≡ true) × (is_empty names ≡ false)
  refused asked names e =
      let unknown = select (λ n. not (known normalized n)) asked in
      elim (Bool-cases (is_empty unknown)) [
        | inl all ↦ ground arith
        | inr some_unknown ↦
            let same : unknown ≡ names = ground arith in
            (
              subst (λ ns. every (λ n. not (known normalized n)) ns ≡ true) same
                  (every-select (λ n. not (known normalized n)) asked),
              subst (λ ns. is_empty ns ≡ false) same some_unknown,
            )
      ]

-- The names that `parseIncludes` accepts are all relations of the schema, and the ones that it reports
-- are all unknown, and there is one.
pub parse_includes-known :
    (raw : Value) (normalized : List (String × Relation))
    → ((names : List String)
        → parse_includes raw normalized ≡ includes_of names
        → every (known normalized) names ≡ true)
      × ((names : List String)
          → parse_includes raw normalized ≡ rejected (unknown_relations names)
          → (every (λ n. not (known normalized n)) names ≡ true) × (is_empty names ≡ false))
unfolding parse_includes
parse_includes-known raw normalized = (
  λ names e. elim (Bool-cases (nullish raw || strict_eq raw (str ""))) [
    | inl empty ↦ ground (arith, none_given (known normalized) names)
    | inr there ↦ ground (arith, accepted normalized (requested_names (to_text raw)) names)
  ],
  λ names e. ground (arith, refused normalized (requested_names (to_text raw)) names),
)
