-- ===== src/Acl/Owner.antt =====
-- acl.js on ownership: the fields that name a record's owner.
use davepi.Base.{List, Option, String, arith, false, includes, some, true, ◌≡◌}
use davepi.Js.{Value, Object, get, has_own, put, delete, truthy}
use davepi.Js.Laws.{get-put, get-delete, has_own-delete, IsDistinct}
use davepi.Schema.{User, Field, Schema}
use davepi.Acl.{
  Action, skipped, filter_writable, protected_write_fields, id_of, stamp_tenant_fields,
  strip_tenant_fields,
}
use davepi.Acl.Write.{filter_writable-IsWritablePart}

-- Every other property is left as it is.
abbrev pub SameElsewhere : Object → Object → Type 0
SameElsewhere a b = (k : String) → includes protected_write_fields k ≡ false → get k a ≡ get k b

abbrev pub IsOwnedBy : Value → Object → Type 0
IsOwnedBy owner o = (get "userId" o ≡ owner) × (get "accountId" o ≡ owner)

-- For a caller with an id, `stampTenantFields` makes the caller the owner of any target, and changes
-- nothing else.
pub stamp_tenant_fields-IsOwnedBy :
    (target : Object) (user : Option User)
    → truthy (id_of user) ≡ true
    → IsOwnedBy (id_of user) (stamp_tenant_fields target user)
      × SameElsewhere (stamp_tenant_fields target user) target
unfolding stamp_tenant_fields
stamp_tenant_fields-IsOwnedBy target user h = rw h (
  (simp get-put, simp get-put),
  λ k e. ground (
    arith,
    get-put k "accountId" (id_of user) (put "userId" (id_of user) target),
    get-put k "userId" (id_of user) target,
  ),
)

abbrev pub IsUnowned : Object → Type 0
IsUnowned o = (has_own "userId" o ≡ false) × (has_own "accountId" o ≡ false)

-- `stripTenantFields` leaves neither owner field in any target, and changes nothing else.
pub strip_tenant_fields-IsUnowned :
    (target : Object)
    → IsUnowned (strip_tenant_fields target) × SameElsewhere (strip_tenant_fields target) target
unfolding strip_tenant_fields
strip_tenant_fields-IsUnowned target = (
  (
    ground (
      arith,
      has_own-delete "userId" "accountId" (delete "userId" target),
      has_own-delete "userId" "userId" target,
    ),
    ground (arith, has_own-delete "accountId" "accountId" (delete "userId" target)),
  ),
  λ k e.
      ground
        (arith, get-delete k "accountId" (delete "userId" target), get-delete k "userId" target),
)

-- No payload that passes `filterWritable` names an owner, whatever the schema's rules.
pub filter_writable-IsUnowned :
    (schema : Schema) (fields : List Field) (user : Option User) (action : Action) (body : Object)
    → schema.fields ≡ some fields
    → IsDistinct body
    → IsUnowned (filter_writable body schema user action)
unfolding skipped
filter_writable-IsUnowned schema fields user action body e d =
    let part = filter_writable-IsWritablePart schema fields user action body e d in
    (ground (arith, part.own "userId"), ground (arith, part.own "accountId"))
