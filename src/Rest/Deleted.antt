-- ===== src/Rest/Deleted.antt =====
-- The commands of `DELETE /api/{version}/{path}/:id` and of `POST /api/{version}/{path}/:id/restore`.
use davepi.Base.{
  Bool, List, Option, String, [], ap, arith, eq_refl, eqb, false, if◌then◌else◌, includes, inl, inr,
  none, refl, some, true, ℕ, ◌∷◌, ◌≡◌,
}
use davepi.Js.{
  undefined, bool, num, arr, Value, Object, null, obj, str, prop, empty, get, put, truthy,
}
use davepi.Schema.{Hook}
use davepi.Acl.{bypass_user_scope_for_delete}
use davepi.Program.{Ensures, call, done, ◌>>=◌, ◌>>◌}
use davepi.ScopeResolver.{hook_of}
use davepi.ScopeResolver.{delete}
use davepi.ScopeResolver.Bypass.{IsBypass, bypass_for-IsBypass}
use davepi.ScopeResolver.Filter.{bypass_for}
use davepi.Rest.{
  Resource, Request, Command, Error, Handler, Reply, find_one, update_one, delete_one, run_hook,
  record_audit, emit_record_event, remove_blob, found_or_404,
}
use davepi.Rest.Steps.{
  Past, Anything, Happened, found_or_404-Ensures, run_before-Ensures, run_after-Ensures,
  audit-Ensures, if-Ensures, branch-Ensures,
}
use davepi.Rest.Targets.{weaken-IsAimed, IsAimed, own_or_any-IsAimed, put-IsAimed}
use davepi.Rest.Created.{IsShownEvent, IsShown-null}
use davepi.Rest.Delete.{
  base_query, soft_delete, before_hard_delete, blob_key, remove_blobs, hard_delete, delete_by_id,
  restore,
}

-- A tombstone that is there.
abbrev pub present : Value
present = obj (prop "$ne" null empty)

module _ (s : Resource) (req : Request) (owner : String) where
  abbrev pub delete_bypass : Bool
  delete_bypass = bypass_user_scope_for_delete s.schema (some req.user)

  -- The key that the metadata of one of the resource's file fields holds in the record.
  abbrev pub IsBlobOf : Object → Value → Type 0
  IsBlobOf found key =
      (name : String) × (meta : Object) × (includes s.file_fields name ≡ true)
      × (get name found ≡ obj meta)
      × (get "key" meta ≡ key)

  blob_key-IsBlobOf :
      (found : Object) (name : String) (v : Value)
      → includes s.file_fields name ≡ true
      → get name found ≡ v
      → truthy (blob_key v) ≡ true
      → IsBlobOf found (blob_key v)
  unfolding truthy
  blob_key-IsBlobOf found name (obj meta) n e h = (name, meta, n, e, refl)
  blob_key-IsBlobOf found name undefined n e h = absurd (ground arith)
  blob_key-IsBlobOf found name null n e h = absurd (ground arith)
  blob_key-IsBlobOf found name (bool b) n e h = absurd (ground arith)
  blob_key-IsBlobOf found name (num m) n e h = absurd (ground arith)
  blob_key-IsBlobOf found name (str t) n e h = absurd (ground arith)
  blob_key-IsBlobOf found name (arr vs) n e h = absurd (ground arith)

  -- What a delete with the tombstone `stamp`, or a restore, may do. It marks only a record that such a
  -- lookup found, it removes a record for good only where soft deletion is off, and a blob only after that.
  abbrev pub Deletes : Value → Value → Past → Command → Type 0
  Deletes condition stamp past (find_one q) =
      IsAimed (IsBypass delete s.schema (some req.user)) req owner q
  Deletes condition stamp past (update_one q set) =
      (found : Object) × Happened (find_one (put "deletedAt" condition (base_query s req)))
        (some found) past
      × (q ≡ prop "_id" (get "_id" found) empty)
      × (set ≡ prop "deletedAt" stamp empty)
  Deletes condition stamp past (delete_one q) =
      IsAimed (IsBypass delete s.schema (some req.user)) req owner q
      × (s.soft_delete_enabled ≡ false)
  Deletes condition stamp past (remove_blob key) =
      ((n : ℕ) × Happened (delete_one (base_query s req)) n past × (eqb n 0 ≡ false))
      × ((found : Object) × Happened (find_one (base_query s req)) (some found) past
          × IsBlobOf found key)
  Deletes condition stamp past (run_hook name ctx) = ctx.user ≡ some req.user
  Deletes condition stamp past (record_audit entry) = Unit
  Deletes condition stamp past (emit_record_event e) = IsShownEvent s req e
  Deletes condition stamp past c = ⊥

  soft_delete-Deletes :
      (now : Value)
      → IsAimed
          (IsBypass delete s.schema (some req.user))
          req
          owner
          (put "deletedAt" null (base_query s req))
      → Ensures (Deletes null now) Anything [] (soft_delete now s req)
  unfolding soft_delete
  soft_delete-Deletes now aimed = (
    aimed,
    λ answer. found_or_404-Ensures (Deletes null now) Anything _ s answer _ λ found is_found.
        run_before-Ensures (Deletes null now) Anything _ "beforeDelete"
          (hook_of (λ h. h.before_delete) s.schema) _ _ refl
          λ past later ignored. (
            (
              found,
              later _ _ (
                  inl (ap (λ a. (find_one (put "deletedAt" null (base_query s req)), a)) is_found)),
              refl,
              refl,
            ),
            λ result. audit-Ensures (Deletes null now) Anything _ s _ _ tt λ past' later'. (
              (
                refl,
                (some (put "deletedAt" now found), refl),
                (some found, refl),
                (some (put "deletedAt" now found), refl),
              ),
              λ told.
                  run_after-Ensures (Deletes null now) Anything _ "afterDelete"
                    (hook_of (λ h. h.after_delete) s.schema) _ _ refl λ _ _. tt,
            ),
          ),
  )

  restore-Deletes :
      IsAimed
        (IsBypass delete s.schema (some req.user))
        req
        owner
        (put "deletedAt" present (base_query s req))
      → Ensures (Deletes present null) Anything [] (restore s req)
  unfolding restore
  restore-Deletes aimed = (
    aimed,
    λ answer. found_or_404-Ensures (Deletes present null) Anything _ s answer _ λ found is_found. (
      (
        found,
        inl (ap (λ a. (find_one (put "deletedAt" present (base_query s req)), a)) is_found),
        refl,
        refl,
      ),
      λ result. audit-Ensures (Deletes present null) Anything _ s _ _ tt λ _ _. tt,
    ),
  )

  before_hard-Ensures :
      (now : Value) (past : Past) (hook : Option Hook) (existing : Option Object)
      (f : Value → Handler Reply)
      → Happened (find_one (base_query s req)) existing past
      → ((past' : Past) (v : Value)
          → Happened (find_one (base_query s req)) existing past'
          → Ensures (Deletes null now) Anything past' (f v))
      → Ensures (Deletes null now) Anything past (before_hard_delete s req hook existing >>= f)
  unfolding found_or_404
  before_hard-Ensures now past none existing f was h = h past null was
  before_hard-Ensures now past (some hook) none f was h = tt
  before_hard-Ensures now past (some hook) (some o) f was h =
      run_before-Ensures (Deletes null now) Anything past "beforeDelete" (some hook) _ f refl
        λ past' later v. h past' v (later _ _ was)

  blob-Ensures :
      (now : Value) (past : Past) (on : Bool) (key : Value) (found : Object) (n : ℕ)
      (rest : Handler (Unit {0})) (f : Unit {0} → Handler Reply)
      → Happened (delete_one (base_query s req)) n past
      → eqb n 0 ≡ false
      → Happened (find_one (base_query s req)) (some found) past
      → (on ≡ true → IsBlobOf found key)
      → ((past' : Past)
          → Happened (delete_one (base_query s req)) n past'
          → Happened (find_one (base_query s req)) (some found) past'
          → Ensures (Deletes null now) Anything past' (rest >>= f))
      → Ensures {E = Error}
          (Deletes null now)
          Anything
          past
          (((if on then call (remove_blob key) else done tt) >> rest) >>= f)
  blob-Ensures now past true key found n rest f d e was its h =
      (((n, d, e), (found, was, its refl)), λ r. h _ (inr d) (inr was))
  blob-Ensures now past false key found n rest f d e was its h = h past d was

  blobs-Ensures :
      (now : Value) (past : Past) (names : List String) (existing : Option Object) (n : ℕ)
      (f : Unit {0} → Handler Reply)
      → Happened (delete_one (base_query s req)) n past
      → eqb n 0 ≡ false
      → Happened (find_one (base_query s req)) existing past
      → ((name : String) → includes names name ≡ true → includes s.file_fields name ≡ true)
      → ((past' : Past) → Ensures (Deletes null now) Anything past' (f tt))
      → Ensures (Deletes null now) Anything past (remove_blobs names existing >>= f)
  unfolding remove_blobs
  blobs-Ensures now past names none n f d e was own h = h past
  blobs-Ensures now past [] (some o) n f d e was own h = h past
  blobs-Ensures now past (name ∷ names) (some o) n f d e was own h =
      let key = blob_key (get name o) in
      blob-Ensures now past (truthy key) key o n (remove_blobs names (some o)) f d e was
        (blob_key-IsBlobOf o name (get name o) (own name (ground (arith, eq_refl name))) refl)
        λ past' d' was'.
          blobs-Ensures now past' names (some o) n f d' e was' (λ j k. own j (ground arith)) h

  hard_delete-Deletes :
      (now : Value)
      → s.soft_delete_enabled ≡ false
      → IsAimed (IsBypass delete s.schema (some req.user)) req owner (base_query s req)
      → Ensures (Deletes null now) Anything [] (hard_delete s req)
  unfolding hard_delete
  hard_delete-Deletes now off aimed = (
    aimed,
    λ existing.
        before_hard-Ensures now _ (hook_of (λ h. h.before_delete) s.schema) existing _ (inl refl)
          λ past v was. (
            (aimed, off),
            λ n.
                branch-Ensures (Deletes null now) Anything _ (eqb n 0) _ _ _ (λ _. tt)
                  λ removed.
                    blobs-Ensures now _ s.file_fields existing n _ (inl refl) removed (inr was)
                      (λ name e. e)
                      λ past'. audit-Ensures (Deletes null now) Anything _ s _ _ tt λ past'' _. (
                        (refl, (existing, refl), (existing, refl), IsShown-null s req),
                        λ told.
                            run_after-Ensures (Deletes null now) Anything _ "afterDelete"
                              (hook_of (λ h. h.after_delete) s.schema) _ _ refl λ _ _. tt,
                      ),
          ),
  )

-- A delete marks or removes only the record of the path's id that is the caller's, or anyone's under the
-- delete bypass: with soft deletion it marks a record that was found untombstoned and removes none, and
-- without it a blob is removed only after its record was, and only one that a file field of that record, as
-- it was found before, names. A restore unmarks only such a record that was
-- found with a tombstone.
pub delete-Deletes :
    (now : Value) (s : Resource) (req : Request) (owner id : String)
    → req.user.user_id ≡ str owner
    → req.id ≡ str id
    → Ensures (Deletes s req owner null now) Anything [] (delete_by_id now s req)
      × Ensures (Deletes s req owner present null) Anything [] (restore s req)
unfolding delete_by_id
delete-Deletes now s req owner id is_owner is_id = (
  if-Ensures (Deletes s req owner null now) Anything [] s.soft_delete_enabled _ _
      (λ on.
        soft_delete-Deletes s req owner now
          (opened _ (put-IsAimed req owner id is_owner is_id bypass null)))
      (λ off.
        hard_delete-Deletes s req owner now off
          (opened _ (own_or_any-IsAimed req owner id is_owner is_id bypass))),
  restore-Deletes s req owner (opened _ (put-IsAimed req owner id is_owner is_id bypass present)),
)
  where
    bypass : Bool
    bypass = delete_bypass s req owner

    opened :
        (q : Object)
        → IsAimed (bypass ≡ true) req owner q
        → IsAimed (IsBypass delete s.schema (some req.user)) req owner q
    opened q =
        weaken-IsAimed (bypass ≡ true) _ req owner q
          λ b. bypass_for-IsBypass delete s.schema (some req.user) (unfold bypass_for in b)
