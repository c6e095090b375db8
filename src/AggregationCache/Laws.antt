-- ===== src/AggregationCache/Laws.antt =====
-- aggregationCache.js: the size of the cache, and what a caller can read of it.
use Prim.Native.Nat.{max}
use davepi.Base.{
  Bool-cases, Option, String, ap, arith, eq_iff, eq_refl, if◌then◌else◌, inl, inr, leb, length, ltb,
  none, refl, some, text_cases, true, ℕ, ◌*◌, ◌+◌, ◌<◌, ◌≡◌, ◌≢◌, ◌≤◌, ◌⊎◌,
}
use davepi.AggregationCache.Map.{
  find, remove, is_there, IsKeyed, oldest_of, find-remove_oldest, oldest_of-store_at, find-remove,
  find-store_at, remove-IsKeyed, store_at-IsKeyed, remove_oldest-IsKeyed, length-remove,
  length-remove_of_there, length-remove_oldest, length-store_at,
}
use davepi.AggregationCache.{Entry, Cache, make_room, read, get, set}

module _ {V : Type 0} where
  -- The keys are distinct, and there are no more entries than allowed.
  pub record IsValid (c : Cache V) : Type 0 where
    pub keyed : IsKeyed c.store
    pub bounded : length c.store ≤ c.max_entries

  -- What a caller can read of a key at a time.
  abbrev pub view_entry : ℕ → Option (Entry V) → Option V
  view_entry now none = none
  view_entry now (some e) = if ltb e.expires_at now then none else some e.value

  abbrev pub view : Cache V → ℕ → String → Option V
  view c now k = view_entry now (find k c.store)

  make_room-IsKeyed : (c : Cache V) → IsKeyed c.store → IsKeyed (make_room c)
  unfolding make_room
  make_room-IsKeyed c h = ground (arith, remove_oldest-IsKeyed c.store h)

  length-make_room :
      (c : Cache V)
      → 0 < c.max_entries
      → length c.store ≤ c.max_entries
      → length (make_room c) + 1 ≤ c.max_entries
  unfolding make_room
  length-make_room c h v = ground (arith, length-remove_oldest c.store)

  -- With room for an entry, `set` keeps the keys distinct and their number within the bound.
  pub set-IsValid :
      (c : Cache V) (k : String) (value : V) (ttl_seconds now : ℕ)
      → 0 < c.max_entries
      → IsValid c
      → IsValid (set c k value ttl_seconds now)
  unfolding set
  set-IsValid c k value ttl_seconds now h v = record {
    keyed = store_at-IsKeyed k entry (make_room c) (make_room-IsKeyed c v.keyed);
    bounded = omega (arith, length-store_at k entry (make_room c), length-make_room c h v.bounded);
  }
    where
      entry : Entry V
      entry = record { value = value; expires_at = now + max 1 ttl_seconds * 1000 }

  read-IsValid :
      (c : Cache V) (k : String) (o : Option (Entry V)) (now : ℕ)
      → find k c.store ≡ o
      → IsValid c
      → IsValid (read c k o now).1
  unfolding read
  read-IsValid c k none now e v = v
  read-IsValid c k (some entry) now e v = elim (Bool-cases (ltb entry.expires_at now)) [
    | inl old ↦ rw old (record {
      keyed = remove-IsKeyed k c.store v.keyed;
      bounded = omega (arith, length-remove k c.store, v.bounded);
    })
    | inr new ↦ rw new (record {
      keyed = store_at-IsKeyed k entry (remove k c.store) (remove-IsKeyed k c.store v.keyed);
      bounded = omega (
        arith,
        length-store_at k entry (remove k c.store),
        length-remove_of_there k c.store (rw e refl),
        v.bounded,
      );
    })
  ]

  pub get-IsValid : (c : Cache V) (k : String) (now : ℕ) → IsValid c → IsValid (get c k now).1
  unfolding get
  get-IsValid c k now v = read-IsValid c k (find k c.store) now refl v

  read-view :
      (c : Cache V) (k j : String) (o : Option (Entry V)) (now later : ℕ)
      → now ≤ later
      → find k c.store ≡ o
      → ((read c k o now).0 ≡ view_entry now o) × (view (read c k o now).1 later j ≡ view c later j)
  unfolding read
  read-view c k j none now later h e = (refl, refl)
  read-view c k j (some entry) now later h e = elim (text_cases k j) [
    | inl p ↦ ground (
      arith,
      find-remove j k c.store,
      find-store_at j k entry (remove k c.store),
      eq_iff k j,
      ap (λ (i : String). find i c.store) p,
    )
    | inr n ↦
        ground
          (arith, find-remove j k c.store, find-store_at j k entry (remove k c.store), eq_iff k j)
  ]

  -- `get` answers the view of its key, and changes no key's view, now or later.
  pub get-view :
      (c : Cache V) (k j : String) (now later : ℕ)
      → now ≤ later
      → ((get c k now).0 ≡ view c now k) × (view (get c k now).1 later j ≡ view c later j)
  unfolding get
  get-view c k j now later h = read-view c k j (find k c.store) now later h refl

  -- After `set`, its key answers the value until the lifetime, of a second at least, has passed.
  pub view-set_self :
      (c : Cache V) (k : String) (value : V) (ttl_seconds now later : ℕ)
      → view (set c k value ttl_seconds now) later k
        ≡ (if leb later (now + max 1 ttl_seconds * 1000) then some value else none)
  unfolding set
  view-set_self c k value ttl_seconds now later = rw find-store_at (rw eq_refl (ground arith))

  -- The key whose entry goes when the cache is full.
  abbrev pub oldest : Cache V → Option String
  oldest c = oldest_of c.store

  find-make_room :
      (c : Cache V) (j : String)
      → (length c.store < c.max_entries) ⊎ (oldest c ≢ some j)
      → find j (make_room c) ≡ find j c.store
  unfolding make_room
  find-make_room c j (inl room) = ground arith
  find-make_room c j (inr h) = ground (arith, find-remove_oldest j c.store h)

  -- Setting one key changes the view of another only if that one's entry is the oldest of a full cache.
  pub view-set_ne :
      (c : Cache V) (k j : String) (value : V) (ttl_seconds now later : ℕ)
      → IsValid c
      → k ≢ j
      → (length c.store < c.max_entries) ⊎ (oldest c ≢ some j)
      → view (set c k value ttl_seconds now) later j ≡ view c later j
  unfolding set
  view-set_ne c k j value ttl_seconds now later v n h = rw find-store_at (elim (text_cases k j) [
    | inl p ↦ absurd (n p)
    | inr other ↦ rw (other, find-make_room c j h) refl
  ])

  oldest-read :
      (c : Cache V) (k j : String) (o : Option (Entry V)) (now : ℕ) (value : V)
      → k ≢ j
      → is_there (find j c.store) ≡ true
      → (read c k o now).0 ≡ some value
      → oldest (read c k o now).1 ≢ some k
  unfolding read
  oldest-read c k j none now value n other hit = cc
  oldest-read c k j (some entry) now value n other hit =
      elim (Bool-cases (ltb entry.expires_at now)) [
        | inl old ↦ absurd (ground arith)
        | inr new ↦ rw new (
            oldest_of-store_at j k entry (remove k c.store)
              (ground (arith, find-remove k k c.store, eq_refl k))
              (ground (arith, find-remove j k c.store, eq_iff k j)))
      ]

  -- An entry that was just read is not the oldest, where another key has an entry too, so the next `set`
  -- does not evict it.
  pub oldest-get :
      (c : Cache V) (k j : String) (now : ℕ) (value : V)
      → k ≢ j
      → is_there (find j c.store) ≡ true
      → (get c k now).0 ≡ some value
      → oldest (get c k now).1 ≢ some k
  unfolding get
  oldest-get c k j now value n other hit = oldest-read c k j (find k c.store) now value n other hit
