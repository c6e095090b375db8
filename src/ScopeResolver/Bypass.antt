-- ===== src/ScopeResolver/Bypass.antt =====
-- acl.js and scopeResolver.js: when the scope of the owner does not apply.
use davepi.Base.{List, Option, String, [], arith, none, refl, some, true, ◌∷◌, ◌≡◌}
use davepi.Schema.{User, SchemaAcl, Schema}
use davepi.Acl.{
  user_roles, grants, bypass_user_scope_for_list, bypass_user_scope_for_delete,
  bypass_user_scope_for_write,
}
use davepi.Acl.Read.{Shared, has_overlap_iff}
use davepi.ScopeResolver.{Kind, read, write, delete}
use davepi.ScopeResolver.Filter.{bypass_for}

-- The list of a schema that opens the records of others to a kind of call.
abbrev pub open_to : Kind → SchemaAcl → Option (List String)
open_to read acl = acl.list
open_to write acl = acl.write
open_to delete acl = acl.delete

-- One of the caller's roles stands in the schema's list for the kind.
abbrev pub IsBypass : Kind → Schema → Option User → Type 0
IsBypass kind schema user =
    (acl : SchemaAcl) × (roles : List String) × (schema.acl ≡ some acl)
    × (open_to kind acl ≡ some roles)
    × Shared roles (user_roles user)

grants-Shared :
    (o : Option (List String)) (roles : List String)
    → grants o roles ≡ true
    → (l : List String) × (o ≡ some l) × Shared l roles
unfolding grants
grants-Shared none roles h = absurd (ground arith)
grants-Shared (some l) roles h = (l, refl, (has_overlap_iff l roles).0 (ground arith))

slot-IsBypass :
    (kind : Kind) (schema : Schema) (user : Option User) (o : Option SchemaAcl)
    → schema.acl ≡ o
    → grants (elim o [ none ↦ none | some acl ↦ open_to kind acl ]) (user_roles user) ≡ true
    → IsBypass kind schema user
slot-IsBypass kind schema user none e h = absurd (unfold grants in ground arith)
slot-IsBypass kind schema user (some acl) e h =
    let found = grants-Shared (open_to kind acl) (user_roles user) h in
    (acl, found.0, e, found.1, found.2)

pub bypass_for-IsBypass :
    (kind : Kind) (schema : Schema) (user : Option User)
    → bypass_for kind schema user ≡ true
    → IsBypass kind schema user
unfolding bypass_for bypass_user_scope_for_list bypass_user_scope_for_delete
    bypass_user_scope_for_write
bypass_for-IsBypass read schema user h = slot-IsBypass read schema user schema.acl refl h
bypass_for-IsBypass write schema user h = slot-IsBypass write schema user schema.acl refl h
bypass_for-IsBypass delete schema user h = slot-IsBypass delete schema user schema.acl refl h

Shared-grants : (l roles : List String) → Shared l roles → grants (some l) roles ≡ true
unfolding grants
Shared-grants [] roles (r, h, k) = absurd (ground arith)
Shared-grants (n ∷ ns) roles shared = ground (arith, (has_overlap_iff (n ∷ ns) roles).1 shared)

IsBypass-slot :
    (kind : Kind) (schema : Schema) (user : Option User)
    → IsBypass kind schema user
    → grants (elim schema.acl [ none ↦ none | some acl ↦ open_to kind acl ]) (user_roles user)
      ≡ true
IsBypass-slot kind schema user (acl, roles, e, o, shared) =
    rw e (rw o (Shared-grants roles (user_roles user) shared))

pub IsBypass-bypass_for :
    (kind : Kind) (schema : Schema) (user : Option User)
    → IsBypass kind schema user
    → bypass_for kind schema user ≡ true
unfolding bypass_for bypass_user_scope_for_list bypass_user_scope_for_delete
    bypass_user_scope_for_write
IsBypass-bypass_for read schema user h = IsBypass-slot read schema user h
IsBypass-bypass_for write schema user h = IsBypass-slot write schema user h
IsBypass-bypass_for delete schema user h = IsBypass-slot delete schema user h
