-- ===== src/Aggregations/Params.antt =====
-- aggregations.js: what `validateAndCastParams` makes of a request.
use davepi.Base.{
  All, Bool-cases, List, String, [], ap, arith, eq_refl, false, includes, inl, inr, refl, some_of,
  true, ◌==◌, ◌∷◌, ◌≡◌, ◌⊎◌,
}
use davepi.Js.{Value, Object, empty, get, has_own, put}
use davepi.Js.Laws.{has_own-put}
use davepi.Aggregations.{
  Casts, Param, Result, ok, err, cast_value, is_missing, keep, cast_all, validate_and_cast_params,
  allowed_param_types,
}

-- A declared parameter that is given is in the result, and a required one is given.
abbrev pub IsTaken : Object → Object → Param → Type 0
IsTaken raw out p =
    (includes allowed_param_types p.type ≡ true)
    × (is_missing (get p.name raw) ≡ true → p.required ≡ false)
    × (is_missing (get p.name raw) ≡ false → has_own p.name out ≡ true)

keep-eq-ok :
    (f : Value → Result Object) (r : Result Value) {out : Object}
    → keep f r ≡ ok out
    → (v : Value) × (r ≡ ok v) × (f v ≡ ok out)
keep-eq-ok f (ok v) h = (v, refl, h)
keep-eq-ok f (err e) h = cc

module _ (casts : Casts) (raw : Object) where
  -- A parameter that was passed over, or cast.
  abbrev Step : Param → List Param → Object → Object → Type 0
  Step p ps out r =
      ((is_missing (get p.name raw) ≡ true)
        × (p.required ≡ false)
        × (cast_all casts ps raw out ≡ ok r))
      ⊎ ((v : Value) × (is_missing (get p.name raw) ≡ false)
          × (cast_all casts ps raw (put p.name v out) ≡ ok r))

  cast_all-Step :
      (p : Param) (ps : List Param) (out r : Object)
      → cast_all casts (p ∷ ps) raw out ≡ ok r
      → (includes allowed_param_types p.type ≡ true) × Step p ps out r
  unfolding cast_all
  cast_all-Step p ps out r h = (
    ground arith,
    elim (Bool-cases (is_missing (get p.name raw))) [
      | inl e ↦ inl (e, ground arith, ground arith)
      | inr e ↦
          let (v, _, rest) =
            keep-eq-ok (λ v. cast_all casts ps raw (put p.name v out))
              (cast_value casts p.name (get p.name raw) p.type) (ground arith) in
          inr (v, e, rest)
    ],
  )

  cast_all-keeps :
      (ps : List Param) (out r : Object) (k : String)
      → cast_all casts ps raw out ≡ ok r
      → has_own k out ≡ true
      → has_own k r ≡ true
  cast_all-keeps [] out r k h own =
      unfold cast_all in ground (arith, ap (λ (x : Result Object). x) h)
  cast_all-keeps (p ∷ ps) out r k h own = elim (cast_all-Step p ps out r h).1 [
    | inl (_, _, rest) ↦ cast_all-keeps ps out r k rest own
    | inr (v, _, rest) ↦
        cast_all-keeps ps (put p.name v out) r k rest (ground (arith, has_own-put k p.name v out))
  ]

  cast_all-declared :
      (ps : List Param) (out r : Object) (k : String)
      → cast_all casts ps raw out ≡ ok r
      → has_own k r ≡ true
      → (has_own k out ≡ true) ⊎ (some_of (λ (p : Param). p.name == k) ps ≡ true)
  cast_all-declared [] out r k h own = unfold cast_all in ground arith
  cast_all-declared (p ∷ ps) out r k h own = elim (cast_all-Step p ps out r h).1 [
    | inl (_, _, rest) ↦ ground (arith, cast_all-declared ps out r k rest own)
    | inr (v, _, rest) ↦
        ground
          (arith, cast_all-declared ps (put p.name v out) r k rest own, has_own-put k p.name v out)
  ]

  cast_all-IsTaken :
      (ps : List Param) (out r : Object) → cast_all casts ps raw out ≡ ok r → All (IsTaken raw r) ps
  cast_all-IsTaken [] out r h = tt
  cast_all-IsTaken (p ∷ ps) out r h =
      let (allowed, step) = cast_all-Step p ps out r h in
      elim step [
        | inl (gone, optional, rest) ↦
            ((allowed, λ _. optional, λ e. cc), cast_all-IsTaken ps out r rest)
        | inr (v, given, rest) ↦ (
          (
            allowed,
            λ e. cc,
            λ _.
                cast_all-keeps ps (put p.name v out) r p.name rest
                  (ground (arith, has_own-put p.name p.name v out, eq_refl p.name)),
          ),
          cast_all-IsTaken ps (put p.name v out) r rest,
        )
      ]

-- Where `validateAndCastParams` accepts a request, every declared parameter is of an allowed type,
-- each required one was given, each given one is in the result, and the result has no other property.
pub validate_and_cast_params-IsTaken :
    (casts : Casts) (spec : List Param) (raw r : Object)
    → validate_and_cast_params casts spec raw ≡ ok r
    → All (IsTaken raw r) spec
      × ((k : String) → has_own k r ≡ true → some_of (λ (p : Param). p.name == k) spec ≡ true)
unfolding validate_and_cast_params
validate_and_cast_params-IsTaken casts spec raw r h = (
  cast_all-IsTaken casts raw spec empty r h,
  λ k own. elim (cast_all-declared casts raw spec empty r k h own) [
    | inl e ↦ unfold has_own in cc
    | inr e ↦ e
  ],
)
