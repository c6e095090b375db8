-- ===== src/Retention/Expired.antt =====
-- retention.js: which records a purge deletes.
use davepi.Base.{
  Bool, List, Option, String, [], arith, false, if◌then◌else◌, inl, inr, is_empty, none, refl, some,
  true, ℕ, ◌*◌, ◌+◌, ◌<◌, ◌∷◌, ◌≡◌, ◌⊎◌,
}
use davepi.Program.{Answered, Ensures, Ensures-bind, call, done, ◌>>=◌, ◌>>◌}
use davepi.Retention.{
  SoftDelete, disabled, enabled, Resource, is_expired, days_of, day_ms, cutoff_of, Document,
  Command, Answer, find_expiring, remove_blob, delete_many, remove_doc_blobs, remove_all_blobs,
  when_found, remove_blobs, delete_after, purge_before, purge_resource, purge_expired_soft_deletes,
  Purge,
}

abbrev pub Past : Type 0
Past = List (Answered Command Answer)

module _ (now : ℕ) (default_days : Option ℕ) (resources : List Resource) where
  -- A loaded resource of this collection with soft deletion has this number of days.
  abbrev pub HasDays : String → ℕ → List Resource → Type 0
  HasDays collection days [] = ⊥
  HasDays collection days (s ∷ ss) =
      ((s.collection ≡ collection)
        × ((d : Option (Option ℕ)) × (s.soft_delete ≡ enabled d)
            × (days_of default_days d ≡ some days)))
      ⊎ HasDays collection days ss

  -- Every record that the filter picks was tombstoned, longer ago than the days of the resource.
  abbrev pub PicksExpired : String → Option ℕ → Type 0
  PicksExpired collection cutoff =
      (days : ℕ) × HasDays collection days resources
      × ((deleted_at : Option ℕ)
          → is_expired cutoff deleted_at ≡ true
          → (t : ℕ) × (deleted_at ≡ some t) × (t + days * day_ms < now))

  abbrev pub Purges : Past → Command → Type 0
  Purges past (find_expiring collection cutoff) = PicksExpired collection cutoff
  Purges past (delete_many collection cutoff) = PicksExpired collection cutoff
  Purges past (remove_blob key) = Unit

  abbrev Anything : {A : Type 0} → Past → A → Type 0
  Anything past a = Unit

  cutoff-expired :
      (days : ℕ) (deleted_at : Option ℕ)
      → is_expired (cutoff_of now days) deleted_at ≡ true
      → (t : ℕ) × (deleted_at ≡ some t) × (t + days * day_ms < now)
  unfolding is_expired cutoff_of
  cutoff-expired days none h = cc
  cutoff-expired days (some t) h = (t, refl, ground arith)

  doc_blobs-Purges :
      {A : Type 0} (names : List String) (doc : Document) (past : Past) (f : Unit {0} → Purge A)
      → ((after : Past) → Ensures Purges Anything after (f tt))
      → Ensures Purges Anything past (remove_doc_blobs names doc >>= f)
  unfolding remove_doc_blobs
  doc_blobs-Purges [] doc past f h = h past
  doc_blobs-Purges (name ∷ names) doc past f h =
      blob (doc name) past (λ after. doc_blobs-Purges names doc after f h)
    where
      blob :
          (key : Option String) (past : Past)
          → ((after : Past) → Ensures Purges Anything after (remove_doc_blobs names doc >>= f))
          → Ensures {E = Unit} Purges Anything past (
              (elim key [ none ↦ done tt | some k ↦ call (remove_blob k) ]
                >> remove_doc_blobs names doc)
              >>= f)
      blob none past g = g past
      blob (some k) past g = (tt, λ r. g _)

  all_blobs-Purges :
      (names : List String) (docs : List Document) (past : Past)
      → Ensures Purges Anything past (remove_all_blobs names docs)
  unfolding remove_all_blobs
  all_blobs-Purges names [] past = tt
  all_blobs-Purges names (doc ∷ docs) past =
      doc_blobs-Purges names doc past _ λ after. all_blobs-Purges names docs after

  when_found-Purges :
      (names : List String) (docs : Option (List Document)) (past : Past)
      → Ensures Purges Anything past (when_found names docs)
  when_found-Purges names none past = tt
  when_found-Purges names (some docs) past =
      Ensures-bind Purges Anything Anything past (remove_all_blobs names docs) _
        (all_blobs-Purges names docs past) λ _ _ _. tt

  remove-Purges :
      (on : Bool) (s : Resource) (cutoff : Option ℕ) (past : Past)
      → PicksExpired s.collection cutoff
      → Ensures {E = Unit} Purges Anything past (
          if on
          then done (some tt)
          else (call (find_expiring s.collection cutoff)
              >>= (λ docs. when_found s.file_fields docs)))
  remove-Purges true s cutoff past h = tt
  remove-Purges false s cutoff past h = (h, λ docs. when_found-Purges s.file_fields docs _)

  delete-Purges :
      (s : Resource) (cutoff : Option ℕ) (removed : Option (Unit {0})) (past : Past)
      → PicksExpired s.collection cutoff
      → Ensures Purges Anything past (delete_after s cutoff removed)
  delete-Purges s cutoff none past h = tt
  delete-Purges s cutoff (some u) past h = (h, λ n. tt)

  before-Purges :
      (s : Resource) (cutoff : Option ℕ) (past : Past)
      → PicksExpired s.collection cutoff
      → Ensures Purges Anything past (purge_before s cutoff)
  unfolding purge_before
  before-Purges s cutoff past h =
      Ensures-bind Purges Anything Anything past (remove_blobs s cutoff) _
        (remove-Purges (is_empty s.file_fields) s cutoff past h)
        λ after removed any. delete-Purges s cutoff removed after h

  resource-Purges :
      (s : Resource) (option : SoftDelete) (past : Past)
      → ((d : Option (Option ℕ)) (days : ℕ)
          → option ≡ enabled d
          → days_of default_days d ≡ some days
          → HasDays s.collection days resources)
      → Ensures Purges Anything past (purge_resource now default_days s option)
  resource-Purges s disabled past h = tt
  resource-Purges s (enabled d) past h = with_days (days_of default_days d) refl
    where
      with_model :
          (on : Bool) (days : ℕ)
          → days_of default_days d ≡ some days
          → Ensures {E = Unit} Purges Anything past
              (if on then purge_before s (cutoff_of now days) else done none)
      with_model true days e =
          before-Purges s (cutoff_of now days) past (days, h d days refl e, cutoff-expired days)
      with_model false days e = tt

      with_days :
          (days : Option ℕ)
          → days_of default_days d ≡ days
          → Ensures {E = Unit} Purges Anything past (elim days [
            | none ↦ done none
            | some days ↦ if s.has_model then purge_before s (cutoff_of now days) else done none
          ])
      with_days none e = tt
      with_days (some days) e = with_model s.has_model days e

  all-Purges :
      (ss : List Resource) (past : Past)
      → ((collection : String) (days : ℕ)
          → HasDays collection days ss
          → HasDays collection days resources)
      → Ensures Purges Anything past (purge_expired_soft_deletes now default_days ss)
  unfolding purge_expired_soft_deletes
  all-Purges [] past h = tt
  all-Purges (s ∷ ss) past h =
      Ensures-bind Purges Anything Anything past (purge_resource now default_days s s.soft_delete) _
        (resource-Purges s s.soft_delete past
          λ d days e k. h s.collection days (inl (refl, (d, e, k))))
        λ after count any.
          Ensures-bind Purges Anything Anything after
            (purge_expired_soft_deletes now default_days ss) _
            (all-Purges ss after λ collection days k. h collection days (inr k)) λ _ _ _. tt

-- A purge deletes, or looks for blobs to remove, only with filters that pick tombstoned records of a
-- loaded resource with soft deletion, and each record that they pick was tombstoned longer ago than the
-- days of that resource.
pub purge-Purges :
    (now : ℕ) (default_days : Option ℕ) (resources : List Resource)
    → Ensures
        (Purges now default_days resources)
        (λ _ _. Unit)
        []
        (purge_expired_soft_deletes now default_days resources)
purge-Purges now default_days resources =
    all-Purges now default_days resources resources [] λ collection days k. k
