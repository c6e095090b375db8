-- ===== src/Audit/Redacted.antt =====
-- redact.js: what is left of a record.
use davepi.Base.{
  Bool, Bool-cases, List, String, [], arith, eq_iff, false, includes, inl, inr, is_empty, not, refl,
  true, ℕ, ◌&&◌, ◌==◌, ◌||◌, ◌∷◌, ◌≡◌, ◌⊎◌,
}
use davepi.Js.{
  Value, undefined, null, bool, num, str, arr, obj, Items, nil, cons, Object, empty, prop, put,
}
use davepi.Audit.{redacted, is_listed, walk, walk_items, walk_object, redact, should_audit_resource}

-- The name is one of the fields, but for the case of its letters.
abbrev pub IsListed : (String → String) → List String → String → Type 0
IsListed lower [] k = ⊥
IsListed lower (f ∷ fs) k = (lower f ≡ lower k) ⊎ IsListed lower fs k

IsListed-is_listed :
    (lower : String → String) (fields : List String) (k : String)
    → IsListed lower fields k
    → is_listed lower fields k ≡ true
IsListed-is_listed lower [] k h = absurd h
IsListed-is_listed lower (f ∷ fs) k (inl e) =
    ground (arith, eq_iff (lower f) (lower k), eq_iff (lower k) (lower f))
IsListed-is_listed lower (f ∷ fs) k (inr h) = ground (arith, IsListed-is_listed lower fs k h)

-- At every depth, a property whose name is listed, in any case, holds the mark.
mutual
  pub data IsRedacted (lower : String → String) (fields : List String) : Value → Type 0 where
    undefined_redacted : IsRedacted lower fields undefined
    null_redacted : IsRedacted lower fields null
    bool_redacted : (b : Bool) → IsRedacted lower fields (bool b)
    num_redacted : (n : ℕ) → IsRedacted lower fields (num n)
    str_redacted : (s : String) → IsRedacted lower fields (str s)
    arr_redacted : {vs : Items} → AreRedacted lower fields vs → IsRedacted lower fields (arr vs)
    obj_redacted : {o : Object} → HasRedacted lower fields o → IsRedacted lower fields (obj o)

  pub data AreRedacted (lower : String → String) (fields : List String) : Items → Type 0 where
    nil_redacted : AreRedacted lower fields nil
    cons_redacted :
        {v : Value} {vs : Items}
        → IsRedacted lower fields v
        → AreRedacted lower fields vs
        → AreRedacted lower fields (cons v vs)

  pub data HasRedacted (lower : String → String) (fields : List String) : Object → Type 0 where
    empty_redacted : HasRedacted lower fields empty
    prop_redacted :
        {k : String} {v : Value} {o : Object}
        → (IsListed lower fields k → v ≡ str "[REDACTED]")
        → IsRedacted lower fields v
        → HasRedacted lower fields o
        → HasRedacted lower fields (prop k v o)

module _ (lower : String → String) (fields : List String) where
  put-HasRedacted :
      (k : String) (v : Value) (o : Object)
      → (IsListed lower fields k → v ≡ str "[REDACTED]")
      → IsRedacted lower fields v
      → HasRedacted lower fields o
      → HasRedacted lower fields (put k v o)
  unfolding put
  put-HasRedacted k v empty m h empty_redacted = prop_redacted m h empty_redacted
  put-HasRedacted k v (prop j w o) m h (prop_redacted n i r) = elim (Bool-cases (j == k)) [
    | inl e ↦ rw e (prop_redacted m h r)
    | inr e ↦ rw e (prop_redacted n i (put-HasRedacted k v o m h r))
  ]

  mutual
    unfolding walk

    walk-IsRedacted : (v : Value) → IsRedacted lower fields (walk lower fields v)
    walk-IsRedacted undefined = undefined_redacted
    walk-IsRedacted null = null_redacted
    walk-IsRedacted (bool b) = bool_redacted b
    walk-IsRedacted (num n) = num_redacted n
    walk-IsRedacted (str s) = str_redacted s
    walk-IsRedacted (arr vs) = arr_redacted (walk-AreRedacted vs)
    walk-IsRedacted (obj o) = obj_redacted (walk-HasRedacted o empty empty_redacted)

    walk-AreRedacted : (vs : Items) → AreRedacted lower fields (walk_items lower fields vs)
    walk-AreRedacted nil = nil_redacted
    walk-AreRedacted (cons v vs) = cons_redacted (walk-IsRedacted v) (walk-AreRedacted vs)

    walk-HasRedacted :
        (o out : Object)
        → HasRedacted lower fields out
        → HasRedacted lower fields (walk_object lower fields o out)
    walk-HasRedacted empty out h = h
    walk-HasRedacted (prop k v o) out h =
        let shown = walk-IsRedacted v in
        elim (Bool-cases (is_listed lower fields k)) [
          | inl e ↦ rw e (
              walk-HasRedacted o (put k redacted out)
                (put-HasRedacted k redacted out (λ _. refl) (str_redacted "[REDACTED]") h))
          | inr e ↦ rw e (
              walk-HasRedacted o (put k (walk lower fields v) out) (
                put-HasRedacted k (walk lower fields v) out
                  (λ listed. cc (IsListed-is_listed lower fields k listed)) shown h))
        ]

-- Where fields are listed, `redact` leaves no property of a listed name, in any case and at any depth,
-- with another value than `[REDACTED]`.
pub redact-IsRedacted :
    (lower : String → String) (fields : List String) (v : Value)
    → is_empty fields ≡ false
    → IsRedacted lower fields (redact lower fields v)
unfolding redact
redact-IsRedacted lower fields v h = rw h (walk-IsRedacted lower fields v)

-- A resource is audited exactly when it has a name, the deny list lacks it, and the allow list is empty
-- or has it: the deny list wins.
pub should_audit_resource-exact :
    (resource : String) (include exclude : List String)
    → should_audit_resource resource include exclude ≡ (
        not (resource == "")
        && not (includes exclude resource)
        && (is_empty include || includes include resource))
unfolding should_audit_resource
should_audit_resource-exact resource [] [] = ground arith
should_audit_resource-exact resource (i ∷ is) [] = ground arith
should_audit_resource-exact resource [] (x ∷ xs) = ground arith
should_audit_resource-exact resource (i ∷ is) (x ∷ xs) = ground arith
