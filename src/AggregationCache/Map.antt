-- ===== src/AggregationCache/Map.antt =====
-- A JavaScript Map with text keys: its entries in insertion order.
use davepi.Base.{
  Bool, List, Option, String, [], ap, arith, eq_iff, eq_refl, false, if◌then◌else◌, inl, inr,
  length, none, refl, some, text_cases, true, ◌+◌, ◌-◌, ◌==◌, ◌∙◌, ◌∷◌, ◌≡◌, ◌≢◌, ◌≤◌,
}

abbrev pub Store : Type 0 → Type 0
Store A = List (String × A)

module _ {A : Type 0} where
  -- `store.get(k)`
  unfoldable pub find : String → Store A → Option A
  find k [] = none
  find k ((j, a) ∷ s) = if j == k then some a else find k s

  -- `store.delete(k)`
  unfoldable pub remove : String → Store A → Store A
  remove k [] = []
  remove k ((j, a) ∷ s) = if j == k then remove k s else (j, a) ∷ remove k s

  -- `store.set(k, a)`: an old key keeps its place, a new one goes to the end.
  unfoldable pub store_at : String → A → Store A → Store A
  store_at k a [] = (k, a) ∷ []
  store_at k a ((j, b) ∷ s) = if j == k then (k, a) ∷ s else (j, b) ∷ store_at k a s

  -- `store.delete(store.keys().next().value)`
  unfoldable pub remove_oldest : Store A → Store A
  remove_oldest [] = []
  remove_oldest ((j, a) ∷ s) = remove j ((j, a) ∷ s)

  abbrev pub is_there : Option A → Bool
  is_there none = false
  is_there (some a) = true

  -- No key stands twice.
  abbrev pub IsKeyed : Store A → Type 0
  IsKeyed [] = Unit
  IsKeyed ((k, a) ∷ s) = (find k s ≡ none) × IsKeyed s

  pub find-remove :
      (j k : String) (s : Store A) → find j (remove k s) ≡ (if k == j then none else find j s)
  unfolding find remove
  find-remove j k [] = ground arith
  find-remove j k ((i, a) ∷ s) =
      ground (arith, find-remove j k s, eq_iff k j, eq_iff i k, eq_iff i j)

  pub find-store_at :
      (j k : String) (a : A) (s : Store A)
      → find j (store_at k a s) ≡ (if k == j then some a else find j s)
  unfolding find store_at
  find-store_at j k a [] = refl
  find-store_at j k a ((i, b) ∷ s) =
      ground (arith, find-store_at j k a s, eq_iff k j, eq_iff i k, eq_iff i j)

  pub remove-absent : (k : String) (s : Store A) → find k s ≡ none → remove k s ≡ s
  unfolding find remove
  remove-absent k [] h = refl
  remove-absent k ((j, a) ∷ s) h = ground (arith, remove-absent k s)

  -- With distinct keys the oldest entry is the head, and the rest stays.
  pub remove_oldest-cons :
      (j : String) (a : A) (s : Store A) → IsKeyed ((j, a) ∷ s) → remove_oldest ((j, a) ∷ s) ≡ s
  unfolding remove_oldest remove
  remove_oldest-cons j a s h = ground (arith, remove-absent j s, eq_refl j)

  pub remove-IsKeyed : (k : String) (s : Store A) → IsKeyed s → IsKeyed (remove k s)
  unfolding remove
  remove-IsKeyed k [] h = tt
  remove-IsKeyed k ((j, a) ∷ s) h =
      ground (arith, remove-IsKeyed k s, find-remove j k s, eq_iff k j)

  pub store_at-IsKeyed : (k : String) (a : A) (s : Store A) → IsKeyed s → IsKeyed (store_at k a s)
  unfolding store_at
  store_at-IsKeyed k a [] h = unfold find in (refl, tt)
  store_at-IsKeyed k a ((j, b) ∷ s) h =
      ground (arith, store_at-IsKeyed k a s, find-store_at j k a s, eq_iff j k, eq_iff k j)

  pub remove_oldest-IsKeyed : (s : Store A) → IsKeyed s → IsKeyed (remove_oldest s)
  unfolding remove_oldest
  remove_oldest-IsKeyed [] h = tt
  remove_oldest-IsKeyed ((j, a) ∷ s) h = remove-IsKeyed j ((j, a) ∷ s) h

  pub length-remove : (k : String) (s : Store A) → length (remove k s) ≤ length s
  unfolding remove
  length-remove k [] = omega arith
  length-remove k ((j, a) ∷ s) = ground (arith, length-remove k s)

  -- A key that is there makes room when it is removed.
  pub length-remove_of_there :
      (k : String) (s : Store A) → is_there (find k s) ≡ true → length (remove k s) + 1 ≤ length s
  unfolding find remove
  length-remove_of_there k [] h = cc
  length-remove_of_there k ((j, a) ∷ s) h =
      ground (arith, length-remove_of_there k s, length-remove k s)

  pub length-remove_oldest : (s : Store A) → length (remove_oldest s) ≤ length s - 1
  unfolding remove_oldest remove
  length-remove_oldest [] = omega arith
  length-remove_oldest ((j, a) ∷ s) = ground (arith, length-remove j s, eq_refl j)

  pub length-store_at : (k : String) (a : A) (s : Store A) → length (store_at k a s) ≤ length s + 1
  unfolding store_at
  length-store_at k a [] = omega arith
  length-store_at k a ((j, b) ∷ s) = ground (arith, length-store_at k a s)

  -- The key of the entry that was inserted first.
  abbrev pub oldest_of : Store A → Option String
  oldest_of [] = none
  oldest_of ((k, a) ∷ s) = some k

  pub find-remove_oldest :
      (j : String) (s : Store A) → oldest_of s ≢ some j → find j (remove_oldest s) ≡ find j s
  unfolding remove_oldest
  find-remove_oldest j [] h = refl
  find-remove_oldest j ((i, a) ∷ s) h = elim (text_cases i j) [
    | inl p ↦ absurd (h (ap some p))
    | inr n ↦ find-remove j i ((i, a) ∷ s) ∙ rw n refl
  ]

  pub oldest_of-store_at :
      (j k : String) (a : A) (s : Store A)
      → find k s ≡ none
      → is_there (find j s) ≡ true
      → oldest_of (store_at k a s) ≢ some k
  unfolding find store_at
  oldest_of-store_at j k a [] h t = cc
  oldest_of-store_at j k a ((i, b) ∷ s) h t = elim (text_cases i k) [
    | inl p ↦ ground (arith, eq_iff i k)
    | inr n ↦ rw n (λ e. ground (arith, eq_iff i k))
  ]
