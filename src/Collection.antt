-- ===== src/Collection.antt =====
-- The database's collections, as the program uses those with a unique index: one row to a key, single
-- atomic operations on it, and a duplicate-key error where an insert meets a row. What is assumed of
-- them are the laws of this record.
pub mod Table
use davepi.Base.{Bool, Option, String, false, if◌then◌else◌, none, some, true, ◌≡◌}

abbrev pub keep_if : {A : Type 0} → (A → Bool) → Option A → Option A
keep_if p none = none
keep_if p (some a) = if p a then some a else none

abbrev pub drop_if : {A : Type 0} → (A → Bool) → Option A → Option A
drop_if p none = none
drop_if p (some a) = if p a then none else some a

abbrev pub change_if : {A : Type 0} → (A → Bool) → (A → A) → Option A → Option A
change_if p f none = none
change_if p f (some a) = if p a then some (f a) else some a

abbrev pub has_match : {A : Type 0} → (A → Bool) → Option A → Bool
has_match p none = false
has_match p (some a) = p a

pub record Collection (Row : Type 0) : Type 1 where
  pub State : Type 0
  pub row_at : String → State → Option Row
  -- `create`, `insertOne`; `none` is a duplicate-key error
  pub insert : String → Row → State → Option State
  -- `findOne({ key, ...predicate })`
  pub find_one : String → (Row → Bool) → State → Option Row
  -- `findOneAndUpdate` with `upsert`: the matching row is changed; where nothing matches, the given row is
  -- inserted, and `none` is a duplicate-key error
  pub upsert_one : String → (Row → Bool) → (Row → Row) → Row → State → Option State
  -- `findOneAndUpdate`, with whether a row matched
  pub find_and_update : String → (Row → Bool) → (Row → Row) → State → Bool × State
  -- `updateOne`
  pub update_one : String → (Row → Bool) → (Row → Row) → State → State
  -- `deleteOne`
  pub delete_one : String → (Row → Bool) → State → State
  pub insert_free :
      (k : String) (r : Row) (s : State)
      → row_at k s ≡ none
      → (t : State) × (insert k r s ≡ some t) × (row_at k t ≡ some r)
  pub insert_taken :
      (k : String) (r q : Row) (s : State) → row_at k s ≡ some q → insert k r s ≡ none
  pub find_row : (k : String) (p : Row → Bool) (s : State) → find_one k p s ≡ keep_if p (row_at k s)
  pub update_row :
      (k : String) (p : Row → Bool) (f : Row → Row) (s : State)
      → row_at k (update_one k p f s) ≡ change_if p f (row_at k s)
  pub delete_row :
      (k : String) (p : Row → Bool) (s : State)
      → row_at k (delete_one k p s) ≡ drop_if p (row_at k s)
  pub upsert_free :
      (k : String) (p : Row → Bool) (f : Row → Row) (r : Row) (s : State)
      → row_at k s ≡ none
      → (t : State) × (upsert_one k p f r s ≡ some t) × (row_at k t ≡ some r)
  pub upsert_match :
      (k : String) (p : Row → Bool) (f : Row → Row) (r q : Row) (s : State)
      → row_at k s ≡ some q
      → p q ≡ true
      → (t : State) × (upsert_one k p f r s ≡ some t) × (row_at k t ≡ some (f q))
  pub upsert_taken :
      (k : String) (p : Row → Bool) (f : Row → Row) (r q : Row) (s : State)
      → row_at k s ≡ some q
      → p q ≡ false
      → upsert_one k p f r s ≡ none
  pub was_found :
      (k : String) (p : Row → Bool) (f : Row → Row) (s : State)
      → (find_and_update k p f s).0 ≡ has_match p (row_at k s)
  pub found_row :
      (k : String) (p : Row → Bool) (f : Row → Row) (s : State)
      → row_at k (find_and_update k p f s).1 ≡ change_if p f (row_at k s)
