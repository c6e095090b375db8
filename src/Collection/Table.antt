-- ===== src/Collection/Table.antt =====
-- A collection that meets the laws: a function from keys to rows.
use davepi.Base.{
  Bool, Option, String, eq_refl, false, if◌then◌else◌, none, refl, some, true, ◌==◌, ◌≡◌,
}
use davepi.Collection.{Collection, has_match, keep_if, drop_if, change_if}

abbrev pub Rows : Type 0 → Type 0
Rows Row = String → Option Row

module _ {Row : Type 0} where
  abbrev pub write_row : String → Option Row → Rows Row → Rows Row
  write_row k r s j = if k == j then r else s j

  abbrev pub insert_row : String → Row → Option Row → Rows Row → Option (Rows Row)
  insert_row k r none s = some (write_row k (some r) s)
  insert_row k r (some q) s = none

  pub row-write_row : (k : String) (r : Option Row) (s : Rows Row) → write_row k r s k ≡ r
  row-write_row k r s = rw eq_refl refl

  pub insert_row-free :
      (k : String) (r : Row) (s : Rows Row)
      → s k ≡ none
      → (t : Rows Row) × (insert_row k r (s k) s ≡ some t) × (t k ≡ some r)
  insert_row-free k r s e = (write_row k (some r) s, rw e refl, row-write_row k (some r) s)

  pub insert_row-taken :
      (k : String) (r q : Row) (s : Rows Row) → s k ≡ some q → insert_row k r (s k) s ≡ none
  insert_row-taken k r q s e = rw e refl

  abbrev pub upsert_row :
      String → (Row → Bool) → (Row → Row) → Row → Option Row → Rows Row → Option (Rows Row)
  upsert_row k p f r none s = some (write_row k (some r) s)
  upsert_row k p f r (some q) s = if p q then some (write_row k (some (f q)) s) else none

  pub upsert_row-free :
      (k : String) (p : Row → Bool) (f : Row → Row) (r : Row) (s : Rows Row)
      → s k ≡ none
      → (t : Rows Row) × (upsert_row k p f r (s k) s ≡ some t) × (t k ≡ some r)
  upsert_row-free k p f r s e = (write_row k (some r) s, rw e refl, row-write_row k (some r) s)

  pub upsert_row-match :
      (k : String) (p : Row → Bool) (f : Row → Row) (r q : Row) (s : Rows Row)
      → s k ≡ some q
      → p q ≡ true
      → (t : Rows Row) × (upsert_row k p f r (s k) s ≡ some t) × (t k ≡ some (f q))
  upsert_row-match k p f r q s e h =
      (write_row k (some (f q)) s, rw e (rw h refl), row-write_row k (some (f q)) s)

  pub upsert_row-taken :
      (k : String) (p : Row → Bool) (f : Row → Row) (r q : Row) (s : Rows Row)
      → s k ≡ some q
      → p q ≡ false
      → upsert_row k p f r (s k) s ≡ none
  upsert_row-taken k p f r q s e h = rw e (rw h refl)

-- The rows as a collection.
abbrev pub table : (Row : Type 0) → Collection Row
table Row = record {
  State = Rows Row;
  row_at = λ k s. s k;
  insert = λ k r s. insert_row k r (s k) s;
  find_one = λ k p s. keep_if p (s k);
  update_one = λ k p f s. write_row k (change_if p f (s k)) s;
  delete_one = λ k p s. write_row k (drop_if p (s k)) s;
  upsert_one = λ k p f r s. upsert_row k p f r (s k) s;
  find_and_update = λ k p f s. (has_match p (s k), write_row k (change_if p f (s k)) s);
  insert_free = insert_row-free;
  insert_taken = insert_row-taken;
  find_row = λ k p s. refl;
  update_row = λ k p f s. row-write_row k (change_if p f (s k)) s;
  delete_row = λ k p s. row-write_row k (drop_if p (s k)) s;
  upsert_free = upsert_row-free;
  upsert_match = upsert_row-match;
  upsert_taken = upsert_row-taken;
  was_found = λ k p f s. refl;
  found_row = λ k p f s. row-write_row k (change_if p f (s k)) s;
}
