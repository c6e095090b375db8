-- ===== src/Runner/Applied.antt =====
-- Which migrations a run applies, reverts and records.
use davepi.Base.{
  All, Bool, List, Option, String, [], ap, arith, eq_refl, false, if◌then◌else◌, includes, inl, inr,
  map, none, refl, some, sym, true, ◌∙◌, ◌∷◌, ◌≡◌, ◌⊎◌,
}
use davepi.Program.{
  Answered, Ensures, Ensures-bind, Ensures-weaken, Happened, call, done, failed, ◌>>=◌, ◌>>◌,
}
use davepi.Runner.Order.{IsSorted, is_pending, pending-exact}
use davepi.Runner.{
  Command, Answer, Error, Called, returned, threw, load_applied_names, read_dir, require_file,
  call_up, insert_record, find_last, call_down, delete_record, no_up, no_down, file_not_found,
  migration_name_from_file, list_migration_files, pending, or_throw, apply_one, apply_all,
  migrate_up, revert_one, revert, migrate_down, Runner,
}

abbrev pub Past : Type 0
Past = List (Answered Command Answer)

-- The latest command, and what it was answered.
abbrev pub Latest : (c : Command) → Answer c → Past → Type 0
Latest c r [] = ⊥
Latest c r (e ∷ past) = e ≡ (c, r)

-- The migration is of a file of the directory and was not recorded when the run began.
abbrev pub IsPending : String → Past → Type 0
IsPending name past =
    (applied : List String) × (entries : Option (List String)) × (file : String) × Happened
      load_applied_names applied past
    × Happened read_dir entries past
    × (name ≡ migration_name_from_file file)
    × (is_pending applied entries file ≡ true)

-- What happened still has happened.
abbrev pub Later : Past → Past → Type 0
Later past after = (c : Command) (r : Answer c) → Happened c r past → Happened c r after

Later-IsPending :
    (name : String) (past after : Past)
    → Later past after
    → IsPending name past
    → IsPending name after
Later-IsPending name past after l (applied, entries, file, h, k, e, i) =
    (applied, entries, file, l _ _ h, l _ _ k, e, i)

module _ (dry : Bool) where
  -- What a run may do: apply a pending migration and record it right after it returned; revert the last
  -- one and remove its record right after that returned. A dry run does neither.
  abbrev pub Runs : Past → Command → Type 0
  Runs past (call_up name) = IsPending name past × (dry ≡ false)
  Runs past (insert_record name) = Latest (call_up name) returned past
  Runs past (call_down name) = Happened find_last (some name) past × (dry ≡ false)
  Runs past (delete_record name) = Latest (call_down name) returned past
  Runs past c = Unit

  -- The migration was recorded, unless the run is dry.
  abbrev pub IsRecorded : Past → String → Type 0
  IsRecorded past name = (dry ≡ true) ⊎ Happened (insert_record name) tt past

  Later-IsRecorded :
      (past after : Past) (name : String)
      → Later past after
      → IsRecorded past name
      → IsRecorded after name
  Later-IsRecorded past after name l (inl e) = inl e
  Later-IsRecorded past after name l (inr h) = inr (l _ _ h)

  abbrev Recorded : String → Past → Past → Unit {0} → Type 0
  Recorded name start after u = Later start after × IsRecorded after name

  apply_one-Runs :
      (b : Bool) (past : Past) (name : String)
      → dry ≡ b
      → IsPending name past
      → Ensures Runs (Recorded name past) past (apply_one b name)
  apply_one-Runs true past name e p = ((λ c r h. h), inl e)
  apply_one-Runs false past name e p = ((p, e), λ result. called result)
    where
      called :
          (result : Called)
          → Ensures Runs
              (Recorded name past)
              ((call_up name, result) ∷ past)
              (or_throw result >> call (insert_record name))
      called returned = (refl, λ r. ((λ c r' h. inr (inr h)), inr (inl refl)))
      called (threw message) = tt

  checked :
      {A : Type 0} (on : Bool) (S : Past → A → Type 0) (past : Past) (e : Error)
      (f : Unit {0} → Runner A)
      → Ensures Runs S past (f tt)
      → Ensures {E = Error} Runs S past ((if on then done tt else failed e) >>= f)
  checked true S past e f h = h
  checked false S past e f h = tt

  abbrev Ran : List String → Past → Past → List String → Type 0
  Ran files start after ran =
      (ran ≡ map migration_name_from_file files) × Later start after × All (IsRecorded after) ran

  apply_all-Runs :
      (files : List String) (past : Past)
      → ((file : String)
          → includes files file ≡ true
          → IsPending (migration_name_from_file file) past)
      → Ensures Runs (Ran files past) past (apply_all dry files)
  unfolding apply_all
  apply_all-Runs [] past h = (refl, (λ c r e. e), tt)
  apply_all-Runs (file ∷ files) past h = (
    tt,
    λ m.
        let name : String = migration_name_from_file file in
        let past1 : Past = (require_file file, m) ∷ past in
        checked m.has_up _ past1 (no_up name) _ (
          Ensures-bind Runs (Recorded name past1) _ past1 (apply_one dry name) _
            (apply_one-Runs dry past1 name refl (
              Later-IsPending name past past1 (λ c r e. inr e)
                (h file (ground (arith, eq_refl file)))))
            λ after step first.
              Ensures-bind Runs (Ran files after) _ after (apply_all dry files) _
                (apply_all-Runs files after λ f i.
                  Later-IsPending _ past after (λ c r e. first.0 c r (inr e)) (h f (ground arith)))
                λ after' ran others. (
                  ap (λ rs. name ∷ rs) others.0,
                  (λ c r e. others.1 c r (first.0 c r (inr e))),
                  (Later-IsRecorded after after' name others.1 first.1, others.2),
                )),
  )

  -- The names of the files that were pending when the run began, in their order, all of them recorded.
  abbrev pub RanPending : Past → List String → Type 0
  RanPending past ran =
      (applied : List String) × (entries : Option (List String)) × (files : List String) × Happened
        load_applied_names applied past
      × Happened read_dir entries past
      × IsSorted files
      × ((f : String) → includes files f ≡ is_pending applied entries f)
      × (ran ≡ map migration_name_from_file files)
      × All (IsRecorded past) ran

  migrate_up-Runs : Ensures Runs RanPending [] (migrate_up dry)
  unfolding migrate_up
  migrate_up-Runs = (
    tt,
    λ applied. (
      tt,
      λ entries.
          let files = pending applied (list_migration_files entries) in
          let start : Past = (read_dir, entries) ∷ (load_applied_names, applied) ∷ [] in
          let exact = pending-exact applied entries in
          Ensures-weaken Runs (Ran files start) RanPending start (apply_all dry files)
            (apply_all-Runs files start λ file i.
              (applied, entries, file, inr (inl refl), inl refl, refl, sym (exact.1 file) ∙ i))
            λ after ran h. (
              applied,
              entries,
              files,
              h.1 _ _ (inr (inl refl)),
              h.1 _ _ (inl refl),
              exact.0,
              exact.1,
              h.0,
              h.2,
            ),
    ),
  )

  revert_one-Runs :
      (b : Bool) (past : Past) (name : String) (f : Unit {0} → Runner (Option String))
      → dry ≡ b
      → Happened find_last (some name) past
      → ((after : Past) → Ensures Runs (λ _ r. Unit) after (f tt))
      → Ensures Runs (λ _ r. Unit) past (revert_one b name >>= f)
  revert_one-Runs true past name f e h k = k past
  revert_one-Runs false past name f e h k = ((h, e), λ result. called result)
    where
      called :
          (result : Called)
          → Ensures Runs
              (λ _ r. Unit)
              ((call_down name, result) ∷ past)
              ((or_throw result >> call (delete_record name)) >>= f)
      called returned = (refl, λ r. k _)
      called (threw message) = tt

  migrate_down-Runs : Ensures Runs (λ _ r. Unit) [] (migrate_down dry)
  unfolding migrate_down
  migrate_down-Runs = (tt, λ last. go last)
    where
      go :
          (last : Option String)
          → Ensures Runs (λ _ r. Unit) ((find_last, last) ∷ []) (revert dry last)
      go none = tt
      go (some name) = (
        tt,
        λ exists. checked exists _ _ (file_not_found name) _ (
          tt,
          λ m.
              checked m.has_down _ _ (no_down name) _
                (revert_one-Runs dry _ name _ refl (inr (inr (inl refl))) λ after. tt),
        ),
      )

-- `migrateUp` applies only migrations of `.js` files of the directory that were not recorded when it began,
-- and records each right after its `up` returned; what it returns names exactly the pending files in their
-- lexical order, and each of them was recorded unless the run is dry. `migrateDown` reverts only the last
-- recorded one and removes its record right after its `down` returned. A dry run calls and writes nothing.
pub migrate-Runs :
    (dry : Bool)
    → Ensures (Runs dry) (RanPending dry) [] (migrate_up dry)
      × Ensures (Runs dry) (λ _ r. Unit) [] (migrate_down dry)
migrate-Runs dry = (migrate_up-Runs dry, migrate_down-Runs dry)
