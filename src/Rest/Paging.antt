-- ===== src/Rest/Paging.antt =====
-- The pages of a list: which results a page holds, and where it says that pages stand.
use native.Mathlib.Nat.{le-div_iff_mul-le, div-mul-le_self, lt-div-mul-add, div-eq_of_lt-le}
use davepi.Base.{
  List, arith, if◌then◌else◌, ltb, none, refl, some, suc, sym, ℕ, ◌*◌, ◌+◌, ◌-◌, ◌/◌, ◌<◌, ◌↔◌, ◌≡◌,
  ◌≤◌,
}
use davepi.Js.{Value}
use davepi.Rest.{pos}
use davepi.Rest.Pages.{skip_of, total_pages_of, page_of}

-- The result of index `i` stands on page `p`, numbered from 1.
abbrev pub IsOn : ℕ → ℕ → ℕ → Type 0
IsOn i p size = (k : ℕ) × (skip_of (pos p) size ≡ pos k) × (k ≤ i) × (i < k + size)

module _ (count size : ℕ) (positive : 0 < size) where
  below_total : (p : ℕ) → (p < total_pages_of count size) ↔ (p * size < count)
  unfolding total_pages_of
  below_total p =
      let pages = le-div_iff_mul-le {k = size} {x = suc p} {y = count + (size - 1)} positive in
      (λ h. ground (arith, pages.0 h), λ h. ground (arith, pages.1 (ground arith)))

  IsOn-page : (i : ℕ) → IsOn i (suc (i / size)) size
  unfolding skip_of
  IsOn-page i = (i / size * size, refl, div-mul-le_self i size, lt-div-mul-add positive)

  IsOn-only : (i p : ℕ) → IsOn i (suc p) size → p ≡ i / size
  unfolding skip_of
  IsOn-only i p (k, e, low, high) =
      let same : p * size ≡ k = cc e in sym (div-eq_of_lt-le size (ground arith) (ground arith))

  next_page_lem :
      (results : List Value) (p : ℕ)
      → (page_of results count (pos p) size).next_page
        ≡ (if ltb (p * size) count then some (pos (suc p)) else none)
  unfolding page_of
  next_page_lem results p = ground (arith, below_total p)

-- Of a number of results in pages of a positive size, each result stands on exactly one page, which is
-- not behind the last page; and a page names a next page exactly when results are left behind it.
pub page_of-covers :
    (count size : ℕ)
    → 0 < size
    → ((i : ℕ)
        → i < count
        → (suc (i / size) ≤ total_pages_of count size)
          × IsOn i (suc (i / size)) size
          × ((p : ℕ) → IsOn i (suc p) size → p ≡ i / size))
      × ((results : List Value) (p : ℕ)
          → (page_of results count (pos p) size).next_page
            ≡ (if ltb (p * size) count then some (pos (suc p)) else none))
page_of-covers count size positive = (
  λ i h. (
    ground (arith, (below_total count size positive (i / size)).1, div-mul-le_self i size),
    IsOn-page count size positive i,
    IsOn-only count size positive i,
  ),
  next_page_lem count size positive,
)
