-- ===== src/AggregationCache/Entries.antt =====
-- aggregationCache.js: which entries an operation leaves, and whose value it answers.
use Prim.Native.Nat.{max}
use davepi.Base.{
  Option, String, [], ap, arith, eq_iff, inl, inr, none, some, text_cases, ℕ, ◌*◌, ◌+◌, ◌∷◌, ◌≡◌,
  ◌⊎◌,
}
use davepi.AggregationCache.{Cache, Entry, read, set, make_room}
use davepi.AggregationCache.Map.{Store, find, remove, remove_oldest, find-remove, find-store_at}

module _ {V : Type 0} where
  pub find-read :
      (c : Cache V) (k j : String) (o : Option (Entry V)) (now : ℕ) (e : Entry V)
      → find k c.store ≡ o
      → find j (read c k o now).1.store ≡ some e
      → find j c.store ≡ some e
  unfolding read
  find-read c k j none now e is_found h = h
  find-read c k j (some entry) now e is_found h = elim (text_cases k j) [
    | inl p ↦ ground (
      arith,
      find-remove j k c.store,
      find-store_at j k entry (remove k c.store),
      eq_iff k j,
      ap (λ (i : String). find i c.store) p,
    )
    | inr n ↦
        ground
          (arith, find-remove j k c.store, find-store_at j k entry (remove k c.store), eq_iff k j)
  ]

  find-remove_oldest :
      (j : String) (s : Store (Entry V)) (e : Entry V)
      → find j (remove_oldest s) ≡ some e
      → find j s ≡ some e
  unfolding remove_oldest
  find-remove_oldest j [] e h = h
  find-remove_oldest j ((i, a) ∷ s) e h = ground (arith, find-remove j i ((i, a) ∷ s))

  find-make_room :
      (c : Cache V) (j : String) (e : Entry V)
      → find j (make_room c) ≡ some e
      → find j c.store ≡ some e
  unfolding make_room
  find-make_room c j e h = ground (arith, find-remove_oldest j c.store e)

  pub find-set :
      (c : Cache V) (k j : String) (value : V) (ttl now : ℕ) (e : Entry V)
      → find j (set c k value ttl now).store ≡ some e
      → ((k ≡ j) × (e.value ≡ value)) ⊎ (find j c.store ≡ some e)
  unfolding set
  find-set c k j value ttl now e h = elim (text_cases k j) [
    | inl p ↦ inl (p, ground (arith, find-store_at j k entry (make_room c), eq_iff k j))
    | inr n ↦
        inr
          (find-make_room c j e (ground (arith, find-store_at j k entry (make_room c), eq_iff k j)))
  ]
    where
      entry : Entry V
      entry = record { value = value; expires_at = now + max 1 ttl * 1000 }

  -- What `get` answers is the value of an entry of its key.
  pub read-value :
      (c : Cache V) (k : String) (o : Option (Entry V)) (now : ℕ) (v : V)
      → find k c.store ≡ o
      → (read c k o now).0 ≡ some v
      → (e : Entry V) × (find k c.store ≡ some e) × (e.value ≡ v)
  unfolding read
  read-value c k none now v is_found h = absurd (ground arith)
  read-value c k (some entry) now v is_found h = (entry, is_found, ground arith)
