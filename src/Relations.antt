-- ===== src/Relations.antt =====
-- utils/relations.js: the relations of a schema, the `__include` parameter, and the population of records
-- with related ones. `ids` of a relation's records and the answers of the finds are values of any kind.
pub mod Included
pub mod Grouped
pub mod Named
use Prim.Native.Char.{code}
use Prim.Native.String
use davepi.Base.{
  Bool, List, Option, String, [], eqb, false, if◌then◌else◌, is_empty, map, none, not, select, some,
  true, ◌&&◌, ◌++◌, ◌==◌, ◌||◌, ◌∷◌,
}
use davepi.Js.{
  Value, Object, Items, undefined, null, str, arr, obj, prop, empty, get, put, spread, nullish,
  truthy, to_text, array, strict_eq,
}
use davepi.Schema.{User, Schema}
use davepi.Acl.{project_by_acl, id_of}
use davepi.Auth.Words.{trim}
use davepi.Program.{Program, done, failed, ask, call, ◌>>=◌, ◌>>◌}

pub data Kind : Type 0 where
  belongs_to has_many has_one : Kind

-- An entry of the `relations` map, as a schema file writes it.
pub record Declared : Type 0 where
  pub belongs_to_target : Option String
  pub has_many_target : Option String
  pub has_one_target : Option String
  pub local_key : Option String
  pub fk : Option String
  pub foreign_key : Option String
  pub where_filter : Option Object

-- An entry of the normalized map.
pub record Relation : Type 0 where
  pub kind : Kind
  pub target : String
  pub local_key : String
  pub foreign_key : Option String
  pub where_filter : Option Object

-- A text that is there and not empty.
abbrev pub given : Option String → Option String
given none = none
given (some t) = if t == "" then none else some t

-- `a || b`
abbrev pub or_else : Option String → Option String → Option String
or_else none b = b
or_else (some a) b = some a

abbrev pub or_text : Option String → String → String
or_text none b = b
or_text (some a) b = a

abbrev pub child_relation : Kind → Declared → String → Relation
child_relation kind def target = record {
  kind = kind;
  target = target;
  local_key = "";
  foreign_key = or_else (given def.foreign_key) (given def.fk);
  where_filter = def.where_filter;
}

-- The first kind of `ALLOWED_KINDS` that an entry declares, and its relation.
unfoldable pub relation_of : String → Declared → Option Relation
relation_of name def = elim (given def.belongs_to_target) [
  | some target ↦ some (record {
    kind = belongs_to;
    target = target;
    local_key = or_text (or_else (given def.local_key) (given def.fk)) (String.◌++◌ name "Id");
    foreign_key = none;
    where_filter = none;
  })
  | none ↦ elim (given def.has_many_target) [
    | some target ↦ some (child_relation has_many def target)
    | none ↦ elim (given def.has_one_target) [
      | some target ↦ some (child_relation has_one def target)
      | none ↦ none
    ]
  ]
]

unfoldable pub explicit_relations : List (String × Declared) → List (String × Relation)
explicit_relations [] = []
explicit_relations ((name, def) ∷ defs) = elim (relation_of name def) [
  | none ↦ explicit_relations defs
  | some r ↦ (name, r) ∷ explicit_relations defs
]

unfoldable pub find_relation : List (String × Relation) → String → Option Relation
find_relation [] name = none
find_relation ((n, r) ∷ rs) name = if n == name then some r else find_relation rs name

abbrev pub is_there : Option Relation → Bool
is_there none = false
is_there (some r) = true

abbrev is_belongs_to : Kind → Bool
is_belongs_to belongs_to = true
is_belongs_to k = false

-- `explicitLocalKeys.has(key)`
unfoldable pub covers : List (String × Relation) → String → Bool
covers [] key = false
covers ((n, r) ∷ rs) key =
    (is_belongs_to r.kind && not (r.local_key == "") && r.local_key == key) || covers rs key

-- The loop over the fields that have a `reference`, as pairs of a name and a target.
unfoldable pub add_references :
    List (String × Relation)
    → List (String × String)
    → List (String × Relation)
    → List (String × Relation)
add_references explicit [] out = out
add_references explicit ((field, target) ∷ fields) out = add_references explicit fields (
    if is_there (find_relation out field) || covers explicit field
    then out
    else out
      ++ (
        field,
        record {
          kind = belongs_to;
          target = target;
          local_key = field;
          foreign_key = none;
          where_filter = none;
        },
      )
        ∷ [])

-- `normalizeRelations`, of the `relations` map and the fields with a `reference`.
unfoldable pub normalize_relations :
    List (String × Declared) → List (String × String) → List (String × Relation)
normalize_relations relations references =
    add_references (explicit_relations relations) references (explicit_relations relations)

-- `text.split(',')`, with the characters of the current part in reverse order
unfoldable split_from : String → String → List String
split_from part String.[] = part ∷ []
split_from part (String.◌∷◌ c s) =
    let rest : List String = split_from "" s in
    let longer : List String = split_from (String.◌++◌ part (String.◌∷◌ c "")) s in
    if eqb (code c) b',' then part ∷ rest else longer

-- The trimmed parts that are not empty.
unfoldable pub requested_names : String → List String
unfolding split_from
requested_names raw = select (λ s. not (s == "")) (map trim (split_from "" raw))

pub data Error : Type 0 where
  unknown_relations : List String → Error

pub data Parsed : Type 0 where
  includes_of : List String → Parsed
  rejected : Error → Parsed

abbrev pub known : List (String × Relation) → String → Bool
known normalized name = is_there (find_relation normalized name)

abbrev pub check_names : List (String × Relation) → List String → Parsed
check_names normalized names =
    let unknown : List String = select (λ n. not (known normalized n)) names in
    if is_empty unknown then includes_of names else rejected (unknown_relations unknown)

-- `parseIncludes`
unfoldable pub parse_includes : Value → List (String × Relation) → Parsed
parse_includes raw normalized =
    if nullish raw || strict_eq raw (str "")
    then includes_of []
    else check_names normalized (requested_names (to_text raw))

-- `TargetModel.find(filter)` on the collection of a target
pub data Command : Type 0 where
  find : (target : String) → (filter : Object) → Command

abbrev pub Answer : Command → Type 0
Answer (find target filter) = List Object

abbrev pub Include : Type 0 → Type 0
Include A = Program Command Answer Error A

-- A `Map` from a key to the values pushed under it.
abbrev pub Buckets : Type 0
Buckets = List (String × List Value)

-- `map.get(k).push(v)`, after `map.set(k, [])` where the key is new
unfoldable pub push : String → Value → Buckets → Buckets
push k v [] = (k, v ∷ []) ∷ []
push k v ((j, vs) ∷ m) = if j == k then (j, vs ++ v ∷ []) ∷ m else (j, vs) ∷ push k v m

-- `map.get(k) || []`
unfoldable pub bucket : String → Buckets → List Value
bucket k [] = []
bucket k ((j, vs) ∷ m) = if j == k then vs else bucket k m

-- A Map of single values: `map.get(k) || null`, `map.set(k, v)` unless the key is there, and `map.set(k, v)`.
abbrev pub Entries : Type 0
Entries = List (String × Value)

unfoldable pub entry_or_null : String → Entries → Value
entry_or_null k [] = null
entry_or_null k ((j, v) ∷ m) = if j == k then v else entry_or_null k m

unfoldable pub keep_first : String → Value → Entries → Entries
keep_first k v [] = (k, v) ∷ []
keep_first k v ((j, w) ∷ m) = if j == k then (j, w) ∷ m else (j, w) ∷ keep_first k v m

unfoldable pub overwrite : String → Value → Entries → Entries
overwrite k v [] = (k, v) ∷ []
overwrite k v ((j, w) ∷ m) = if j == k then (j, v) ∷ m else (j, w) ∷ overwrite k v m

module _ (schema_of : String → Option Schema) (user : Option User) where
  -- `projectByAcl(m, targetSchema, user)`
  abbrev pub shown : Schema → Object → Value
  shown target m = elim (project_by_acl (some m) target user) [ none ↦ null | some p ↦ obj p ]

  -- The loop that groups the matches by the raw value of their key.
  unfoldable pub group_by : (Object → String) → Schema → List Object → Buckets → Buckets
  group_by key target [] m = m
  group_by key target (o ∷ os) m = group_by key target os (push (key o) (shown target o) m)

  -- The loop of a `hasOne`, and the Map that a `belongsTo` builds.
  unfoldable pub first_by : (Object → String) → Schema → List Object → Entries → Entries
  first_by key target [] m = m
  first_by key target (o ∷ os) m = first_by key target os (keep_first (key o) (shown target o) m)

  unfoldable pub last_by : (Object → String) → Schema → List Object → Entries → Entries
  last_by key target [] m = m
  last_by key target (o ∷ os) m = last_by key target os (overwrite (key o) (shown target o) m)

  -- `records.map((r) => r[localKey]).filter((v) => v != null && v !== '')`
  abbrev pub local_ids : String → List Object → List Value
  local_ids key records =
      select (λ v. not (nullish v) && not (strict_eq v (str ""))) (map (get key) records)

  abbrev pub in_list : List Value → Value
  in_list vs = obj (prop "$in" (arr (array vs)) empty)

  -- The filter of a `belongsTo`.
  unfoldable pub reference_filter : List Value → Object
  reference_filter ids =
      prop "_id" (in_list ids) (prop "userId" (id_of user) (prop "deletedAt" null empty))

  -- The filter of a `hasMany` or a `hasOne`.
  unfoldable pub child_filter : String → List Value → Option Object → Object
  child_filter foreign_key ids where_filter =
      let base : Object =
        put "deletedAt" null (put "userId" (id_of user) (prop foreign_key (in_list ids) empty)) in
      elim where_filter [ none ↦ base | some w ↦ spread base w ]

  -- The value that stands for no related record.
  abbrev pub nothing_for : Kind → Value
  nothing_for has_many = arr (array [])
  nothing_for k = null

  abbrev pub set_all : String → Value → List Object → List Object
  set_all name v records = map (put name v) records

  -- The id of a record as a key; the key of a projected reference is read after the projection.
  abbrev pub id_key : Object → String
  id_key o = to_text (get "_id" o)

  abbrev pub shown_id : Schema → Object → String
  shown_id target o = elim (project_by_acl (some o) target user) [ none ↦ "" | some p ↦ id_key p ]

  unfoldable pub attach_references :
      String → String → Schema → List Object → List Object → List Object
  attach_references name local_key target refs records =
      let by_id : Entries = last_by (shown_id target) target refs [] in
      map (λ r. put name (entry_or_null (to_text (get local_key r)) by_id) r) records

  unfoldable pub attach_children :
      Kind → String → String → Schema → List Object → List Object → List Object
  attach_children has_many name foreign_key target matches records =
      let by_parent : Buckets = group_by (λ m. to_text (get foreign_key m)) target matches [] in
      map (λ r. put name (arr (array (bucket (id_key r) by_parent))) r) records
  attach_children kind name foreign_key target matches records =
      let by_parent : Entries = first_by (λ m. to_text (get foreign_key m)) target matches [] in
      map (λ r. put name (entry_or_null (id_key r) by_parent) r) records

  abbrev pub include_references :
      String → Relation → Schema → List Object → List Value → Include (List Object)
  include_references name def target records [] = done (set_all name null records)
  include_references name def target records (id ∷ ids) = do
    refs ← call (find def.target (reference_filter (id ∷ ids)))
    done (attach_references name def.local_key target refs records)

  abbrev pub include_children :
      String → Relation → Schema → List Object → Option String → Include (List Object)
  include_children name def target records none = done (set_all name (nothing_for def.kind) records)
  include_children name def target records (some foreign_key) = do
    matches ← call (
        find def.target
          (child_filter foreign_key (select truthy (map (get "_id") records)) def.where_filter))
    done (attach_children def.kind name foreign_key target matches records)

  abbrev pub include_kind : String → Relation → Schema → List Object → Kind → Include (List Object)
  include_kind name def target records belongs_to =
      include_references name def target records (local_ids def.local_key records)
  include_kind name def target records kind =
      include_children name def target records def.foreign_key

  -- One turn of the loop of `applyIncludes`.
  abbrev pub include_one : String → Option Relation → List Object → Include (List Object)
  include_one name none records = done records
  include_one name (some def) records = elim (schema_of def.target) [
    | none ↦ done (set_all name (nothing_for def.kind) records)
    | some target ↦ include_kind name def target records def.kind
  ]

  -- `applyIncludes`
  unfoldable pub apply_includes :
      List Object → List (String × Relation) → List String → Include (List Object)
  apply_includes records normalized [] = done records
  apply_includes [] normalized (name ∷ names) = done []
  apply_includes (r ∷ rs) normalized (name ∷ names) = do
    populated ← include_one name (find_relation normalized name) (r ∷ rs)
    apply_includes populated normalized names
