-- ===== src/Relations/Grouped.antt =====
-- relations.js: the related records that a record is given, against the grouping by a map.
use davepi.Base.{Bool, List, Option, String, [], if◌then◌else◌, map, select, some_of, ◌==◌, ◌∷◌}
use davepi.Js.{null, Value, Object}
use davepi.Schema.{User, Schema}
use davepi.Relations.{shown, Entries}

module _ (schema_of : String → Option Schema) (user : Option User) (target : Schema) where
  -- The records of a key, as they are shown, in order.
  abbrev pub shown_under : (Object → String) → String → List Object → List Value
  shown_under key k ms = map (shown schema_of user target) (select (λ m. key m == k) ms)

abbrev has_entry : String → Entries → Bool
has_entry k m = some_of (λ e. e.0 == k) m

module _ (schema_of : String → Option Schema) (user : Option User) (target : Schema)
    (key : Object → String) (k : String) where
  -- The first, and the last, of the records of the key, as it is shown, or `null`.
  abbrev pub first_shown : List Object → Value
  first_shown [] = null
  first_shown (m ∷ ms) = if key m == k then shown schema_of user target m else first_shown ms

  abbrev pub last_shown : List Object → Value
  last_shown [] = null
  last_shown (m ∷ ms) =
      let later = last_shown ms in
      if some_of (λ n. key n == k) ms
      then later
      else if key m == k
      then shown schema_of user target m
      else null
