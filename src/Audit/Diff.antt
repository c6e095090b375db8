-- ===== src/Audit/Diff.antt =====
-- utils/audit.js: `computeDiff`, the changed properties of a record. `JSON.stringify` is the language's
-- function; what it gives for an absent value is some text that is no JSON.
use davepi.Base.{
  Bool, List, Option, String, [], ap, arith, eq_iff, if◌then◌else◌, includes, inl, inr, none, not,
  refl, some, text_cases, true, ◌&&◌, ◌++◌, ◌==◌, ◌||◌, ◌∷◌, ◌≡◌,
}
use davepi.Js.{
  bool, num, str, obj, Value, undefined, null, arr, nil, cons, Object, empty, prop, get, has_own,
  put,
}
use davepi.Js.Laws.{get-put, has_own-put}

-- `FRAMEWORK_FIELDS`
abbrev pub framework_fields : List String
framework_fields = "_id" ∷ "__v" ∷ "createdAt" ∷ "updatedAt" ∷ []

-- `Object.keys(o)`, of a record that is there
abbrev pub keys : Object → List String
keys empty = []
keys (prop k v o) = k ∷ keys o

abbrev pub keys_of : Option Object → List String
keys_of none = []
keys_of (some o) = keys o

abbrev pub value_of : Option Object → String → Value
value_of none k = undefined
value_of (some o) k = get k o

-- A Set's members in insertion order, without those seen before.
unfoldable pub unique : List String → List String → List String
unique seen [] = []
unique seen (k ∷ ks) =
    let rest = unique (k ∷ seen) ks in
    let later = unique seen ks in if includes seen k then later else k ∷ rest

-- `v === undefined ? null : v`
abbrev pub or_null : Value → Value
or_null undefined = null
or_null v = v

abbrev pub change : Value → Value → Value
change a b = arr (cons (or_null a) (cons (or_null b) nil))

module _ (json : Value → String) (before after : Option Object) where
  abbrev pub is_changed : String → Bool
  is_changed k =
      not (includes framework_fields k) && not (json (value_of before k) == json (value_of after k))

  -- The loop of `computeDiff`.
  unfoldable pub changes : List String → Object → Object
  changes [] out = out
  changes (k ∷ ks) out = changes ks (
      if includes framework_fields k
      then out
      else if not (json (value_of before k) == json (value_of after k))
      then put k (change (value_of before k) (value_of after k)) out
      else out)

  -- `computeDiff`
  unfoldable pub compute_diff : Object
  compute_diff = changes (unique [] (keys_of before ++ keys_of after)) empty

  has_own-changes :
      (k : String) (ks : List String) (out : Object)
      → has_own k (changes ks out) ≡ ((includes ks k && is_changed k) || has_own k out)
  unfolding changes
  has_own-changes k [] out = refl
  has_own-changes k (j ∷ ks) out = elim (text_cases j k) [
    | inl e ↦ ground (
      arith,
      has_own-changes k ks out,
      has_own-changes k ks (put j (change (value_of before j) (value_of after j)) out),
      has_own-put k j (change (value_of before j) (value_of after j)) out,
      eq_iff j k,
      ap is_changed e,
    )
    | inr e ↦ ground (
      arith,
      has_own-changes k ks out,
      has_own-changes k ks (put j (change (value_of before j) (value_of after j)) out),
      has_own-put k j (change (value_of before j) (value_of after j)) out,
    )
  ]

  get-changes :
      (k : String) (ks : List String) (out : Object)
      → get k (changes ks out) ≡ (
          if includes ks k && is_changed k
          then change (value_of before k) (value_of after k)
          else get k out)
  unfolding changes
  get-changes k [] out = refl
  get-changes k (j ∷ ks) out = elim (text_cases j k) [
    | inl e ↦ ground (
      arith,
      get-changes k ks out,
      get-changes k ks (put j (change (value_of before j) (value_of after j)) out),
      get-put k j (change (value_of before j) (value_of after j)) out,
      eq_iff j k,
      ap is_changed e,
      ap (λ i. change (value_of before i) (value_of after i)) e,
    )
    | inr e ↦ ground (
      arith,
      get-changes k ks out,
      get-changes k ks (put j (change (value_of before j) (value_of after j)) out),
      get-put k j (change (value_of before j) (value_of after j)) out,
    )
  ]

includes-unique :
    (k : String) (seen ks : List String)
    → includes (unique seen ks) k ≡ (includes ks k && not (includes seen k))
unfolding unique
includes-unique k seen [] = refl
includes-unique k seen (j ∷ ks) = elim (text_cases j k) [
  | inl e ↦ ground (
    arith,
    includes-unique k seen ks,
    includes-unique k (j ∷ seen) ks,
    eq_iff j k,
    ap (includes seen) e,
  )
  | inr e ↦ ground (arith, includes-unique k seen ks, includes-unique k (j ∷ seen) ks)
]

includes-append :
    (k : String) (xs ys : List String) → includes (xs ++ ys) k ≡ (includes xs k || includes ys k)
includes-append k [] ys = refl
includes-append k (x ∷ xs) ys = ground (arith, includes-append k xs ys)

includes-keys : (k : String) (o : Object) → includes (keys o) k ≡ has_own k o
unfolding has_own
includes-keys k empty = refl
includes-keys k (prop j v o) = ground (arith, includes-keys k o)

-- The value of a record's property, `null` where it is undefined or where there is no record.
abbrev pub null_for_undefined : Value → Value
null_for_undefined undefined = null
null_for_undefined null = null
null_for_undefined (bool b) = bool b
null_for_undefined (num n) = num n
null_for_undefined (str s) = str s
null_for_undefined (arr vs) = arr vs
null_for_undefined (obj p) = obj p

abbrev pub shown : Option Object → String → Value
shown none k = null
shown (some o) k = null_for_undefined (get k o)

shown-or_null : (o : Option Object) (k : String) → or_null (value_of o k) ≡ shown o k
shown-or_null none k = refl
shown-or_null (some o) k = go (get k o)
  where
    go : (v : Value) → or_null v ≡ null_for_undefined v
    go undefined = refl
    go null = refl
    go (bool b) = refl
    go (num n) = refl
    go (str s) = refl
    go (arr vs) = refl
    go (obj p) = refl

module _ (json : Value → String) (before after : Option Object) where
  -- Either record has the property.
  abbrev pub has_either : String → Bool
  has_either k = includes (keys_of before) k || includes (keys_of after) k

  -- `computeDiff` has exactly the properties of either record, other than the framework's own, whose
  -- values have different JSON texts, and shows for each the value before and the value after, `null`
  -- where there is none.
  pub compute_diff-exact :
      (k : String)
      → (has_own k (compute_diff json before after)
          ≡ (has_either k && is_changed json before after k))
        × (has_own k (compute_diff json before after) ≡ true
            → get k (compute_diff json before after)
              ≡ arr (cons (shown before k) (cons (shown after k) nil)))
  unfolding compute_diff
  compute_diff-exact k =
      let ks = unique [] (keys_of before ++ keys_of after) in
      unfold has_own in
      (
        ground (
          arith,
          has_own-changes json before after k ks empty,
          includes-unique k [] (keys_of before ++ keys_of after),
          includes-append k (keys_of before) (keys_of after),
        ),
        λ own. ground (
          arith,
          has_own-changes json before after k ks empty,
          get-changes json before after k ks empty,
          shown-or_null before k,
          shown-or_null after k,
        ),
      )
