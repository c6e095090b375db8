-- ===== src/Audit.antt =====
-- packages/davepi-plugin-audit: lib/matcher.js, which resources are audited, and lib/redact.js, which
-- values of a record an audit row hides. Lower case is the language's function on texts. Every object is a
-- plain one: an ObjectId, a date and a buffer are their text.
pub mod Redacted
pub mod Diff
use davepi.Base.{
  Bool, List, String, false, if◌then◌else◌, includes, is_empty, map, not, true, ◌&&◌, ◌==◌,
}
use davepi.Js.{
  Value, undefined, null, bool, num, str, arr, obj, Items, nil, cons, Object, empty, prop, put,
}

-- `shouldAuditResource`; a list that is missing is empty.
unfoldable pub should_audit_resource : String → List String → List String → Bool
should_audit_resource resource include exclude =
    if resource == ""
    then false
    else if not (is_empty exclude) && includes exclude resource
    then false
    else if not (is_empty include)
    then includes include resource
    else true

abbrev pub redacted : Value
redacted = str "[REDACTED]"

module _ (lower : String → String) where
  -- `set.has(k.toLowerCase())`, of the set of the fields in lower case
  abbrev pub is_listed : List String → String → Bool
  is_listed fields k = includes (map lower fields) (lower k)

  -- `walk`; a value that is no array and no object is itself.
  unfoldable mutual
    pub walk : List String → Value → Value
    walk fields undefined = undefined
    walk fields null = null
    walk fields (bool b) = bool b
    walk fields (num n) = num n
    walk fields (str s) = str s
    walk fields (arr vs) = arr (walk_items fields vs)
    walk fields (obj o) = obj (walk_object fields o empty)

    pub walk_items : List String → Items → Items
    walk_items fields nil = nil
    walk_items fields (cons v vs) = cons (walk fields v) (walk_items fields vs)

    pub walk_object : List String → Object → Object → Object
    walk_object fields empty out = out
    walk_object fields (prop k v o) out =
        let shown = walk fields v in
        walk_object fields o (put k (if is_listed fields k then redacted else shown) out)

  -- `redact`
  unfoldable pub redact : List String → Value → Value
  redact fields value = if is_empty fields then value else walk fields value
