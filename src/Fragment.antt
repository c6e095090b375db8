-- ===== src/Fragment.antt =====
-- utils/scopeResolver.js: `matchesScopeFragment`, which evaluates a filter on a record that was read,
-- and `matchesRoleScope`.
pub mod Merge
use davepi.Base.{
  Bool, List, Option, String, false, if◌then◌else◌, none, not, some, some_of, suc, true, ℕ, ◌&&◌,
  ◌==◌, ◌||◌,
}
use davepi.Js.{
  Value, undefined, null, bool, num, str, arr, obj, Items, nil, cons, Object, empty, prop, get,
  has_own, truthy, nullish, items, to_text, decimal,
}
use davepi.Schema.{User, Schema}
use davepi.Acl.{get_role_scope_filter}

-- `sameId`
unfoldable pub same_id : Value → Value → Bool
same_id a b = to_text a == to_text b

among : Value → List Value → Bool
among actual vs = some_of (λ v. same_id v actual) vs

in_list : Value → Value → Bool
in_list (arr vs) actual = among actual (items vs)
in_list _ actual = false

not_in_list : Value → Value → Bool
not_in_list (arr vs) actual = not (among actual (items vs))
not_in_list _ actual = true

same_bool : Bool → Bool → Bool
same_bool true b = b
same_bool false b = not b

-- An expected value that is an object names one operator; any other is a mismatch.
unfoldable pub matches_operator : Object → Value → Bool
unfolding among in_list not_in_list same_bool
matches_operator expected actual =
    if has_own "$in" expected
    then in_list (get "$in" expected) actual
    else if has_own "$nin" expected
    then not_in_list (get "$nin" expected) actual
    else if has_own "$ne" expected
    then not (same_id (get "$ne" expected) actual)
    else if has_own "$exists" expected
    then same_bool (truthy (get "$exists" expected)) (not (nullish actual))
    else false

-- `key === '$and'` or `key === '$or'`
abbrev pub is_logical : String → Bool
is_logical key = key == "$and" || key == "$or"

-- `matchesScopeFragment`. The entries of an array are those of its indices.
unfoldable mutual
  pub matches_fragment : Object → Value → Bool
  matches_fragment r (obj o) = matches_entries r o
  matches_fragment r (arr vs) = matches_indices r 0 vs
  matches_fragment r undefined = true
  matches_fragment r null = true
  matches_fragment r (bool b) = true
  matches_fragment r (num n) = true
  matches_fragment r (str s) = true

  pub matches_entries : Object → Object → Bool
  matches_entries r empty = true
  matches_entries r (prop k v o) = matches_entry r k v && matches_entries r o

  pub matches_indices : Object → ℕ → Items → Bool
  matches_indices r i nil = true
  matches_indices r i (cons v vs) = matches_entry r (decimal i) v && matches_indices r (suc i) vs

  pub matches_entry : Object → String → Value → Bool
  matches_entry r key (arr vs) =
      if key == "$and"
      then every_fragment r vs
      else if key == "$or"
      then some_fragment r vs
      else same_id (arr vs) (get key r)
  matches_entry r key (obj o) = if is_logical key then false else matches_operator o (get key r)
  matches_entry r key undefined = if is_logical key then false else same_id undefined (get key r)
  matches_entry r key null = if is_logical key then false else same_id null (get key r)
  matches_entry r key (bool b) = if is_logical key then false else same_id (bool b) (get key r)
  matches_entry r key (num n) = if is_logical key then false else same_id (num n) (get key r)
  matches_entry r key (str s) = if is_logical key then false else same_id (str s) (get key r)

  pub every_fragment : Object → Items → Bool
  every_fragment r nil = true
  every_fragment r (cons v vs) = matches_fragment r v && every_fragment r vs

  pub some_fragment : Object → Items → Bool
  some_fragment r nil = false
  some_fragment r (cons v vs) = matches_fragment r v || some_fragment r vs

-- `matchesRoleScope`
unfoldable pub matches_role_scope : Object → Schema → Option User → Bool
matches_role_scope r schema user = elim (get_role_scope_filter schema user) [
  | none ↦ true
  | some scope ↦ matches_fragment r (obj scope)
]
