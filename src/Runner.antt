-- ===== src/Runner.antt =====
-- utils/migrations/runner.js: which migrations are pending, and the runs of `migrateUp` and `migrateDown`
-- under the lock. The commands are the reads and writes of the `_migrations` collection, the reading of
-- the directory, the loading of a file, and the calls of its exports.
pub mod Order
pub mod Applied
use Prim.Native.Char.{code}
use Prim.Native.String
use davepi.Base.{
  Bool, List, Option, String, [], eqb, false, if◌then◌else◌, includes, ltb, map, none, not, select,
  some, true, ◌==◌, ◌∷◌,
}
use davepi.Program.{Program, done, failed, ask, call, ◌>>=◌, ◌>>◌}

-- `file` without its ending `.js`, where it has it
unfoldable strip_js : String → Option String
strip_js String.[] = none
strip_js (String.◌∷◌ c s) =
    let rest : Option String = strip_js s in
    if String.◌∷◌ c s == ".js"
    then some ""
    else elim rest [ none ↦ none | some p ↦ some (String.◌∷◌ c p) ]

-- `file.endsWith('.js')`
unfoldable pub is_js : String → Bool
unfolding strip_js
is_js file = elim (strip_js file) [ none ↦ false | some name ↦ true ]

-- `migrationNameFromFile`
unfoldable pub migration_name_from_file : String → String
unfolding strip_js
migration_name_from_file file = elim (strip_js file) [ none ↦ file | some name ↦ name ]

-- The lexical order of the default `sort`.
unfoldable pub is_before : String → String → Bool
is_before String.[] t = true
is_before (String.◌∷◌ c s) String.[] = false
is_before (String.◌∷◌ c s) (String.◌∷◌ d t) =
    let rest : Bool = is_before s t in if eqb (code c) (code d) then rest else ltb (code c) (code d)

unfoldable pub insert_sorted : String → List String → List String
unfolding is_before
insert_sorted f [] = f ∷ []
insert_sorted f (g ∷ gs) =
    let rest : List String = insert_sorted f gs in if is_before f g then f ∷ g ∷ gs else g ∷ rest

unfoldable pub sort : List String → List String
unfolding insert_sorted
sort [] = []
sort (f ∷ fs) = insert_sorted f (sort fs)

-- `listMigrationFiles`; `none` is a directory that does not exist.
unfoldable pub list_migration_files : Option (List String) → List String
list_migration_files none = []
list_migration_files (some entries) = sort (select is_js entries)

-- The files that are not recorded as applied.
unfoldable pub pending : List String → List String → List String
pending applied files = select (λ f. not (includes applied (migration_name_from_file f))) files

-- What a migration file exports.
pub record Exports : Type 0 where
  pub has_up : Bool
  pub has_down : Bool

-- A call of an export returns or throws.
pub data Called : Type 0 where
  returned : Called
  threw : (message : String) → Called

pub data Command : Type 0 where
  load_applied_names : Command
  read_dir : Command
  require_file : (file : String) → Command
  call_up : (name : String) → Command
  insert_record : (name : String) → Command
  find_last : Command
  file_exists : (file : String) → Command
  call_down : (name : String) → Command
  delete_record : (name : String) → Command

abbrev pub Answer : Command → Type 0
Answer load_applied_names = List String
Answer read_dir = Option (List String)
Answer (require_file file) = Exports
Answer (call_up name) = Called
Answer (insert_record name) = Unit {0}
Answer find_last = Option String
Answer (file_exists file) = Bool
Answer (call_down name) = Called
Answer (delete_record name) = Unit {0}

pub data Error : Type 0 where
  no_up : (name : String) → Error
  no_down : (name : String) → Error
  file_not_found : (name : String) → Error
  migration_error : (message : String) → Error

abbrev pub Runner : Type 0 → Type 0
Runner A = Program Command Answer Error A

-- `status`
unfoldable pub status : Runner (List (String × Bool))
status = do
  applied ← call load_applied_names
  entries ← call read_dir
  done (
      map (λ f. (migration_name_from_file f, includes applied (migration_name_from_file f)))
        (list_migration_files entries))

-- What an export threw goes on.
abbrev pub or_throw : Called → Runner (Unit {0})
or_throw returned = done tt
or_throw (threw message) = failed (migration_error message)

-- The call of `up` and its record, unless the run is dry.
abbrev pub apply_one : Bool → String → Runner (Unit {0})
apply_one true name = done tt
apply_one false name = do result ← call (call_up name); or_throw result; call (insert_record name)

-- The loop of `migrateUp` over the pending files.
unfoldable pub apply_all : Bool → List String → Runner (List String)
apply_all dry [] = done []
apply_all dry (file ∷ files) = do
  m ← call (require_file file)
  let name = migration_name_from_file file
  if m.has_up then done tt else failed (no_up name)
  apply_one dry name
  ran ← apply_all dry files
  done (name ∷ ran)

-- `migrateUp`, under the lock.
unfoldable pub migrate_up : Bool → Runner (List String)
migrate_up dry = do
  applied ← call load_applied_names
  entries ← call read_dir
  apply_all dry (pending applied (list_migration_files entries))

abbrev pub revert_one : Bool → String → Runner (Unit {0})
revert_one true name = done tt
revert_one false name = do
  result ← call (call_down name)
  or_throw result
  call (delete_record name)

abbrev pub revert : Bool → Option String → Runner (Option String)
revert dry none = done none
revert dry (some name) = do
  let file = String.◌++◌ name ".js"
  exists ← call (file_exists file)
  if exists then done tt else failed (file_not_found name)
  m ← call (require_file file)
  if m.has_down then done tt else failed (no_down name)
  revert_one dry name
  done (some name)

-- `migrateDown`, under the lock.
unfoldable pub migrate_down : Bool → Runner (Option String)
migrate_down dry = do last ← call find_last; revert dry last
