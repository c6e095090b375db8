-- ===== src/Idempotency/Requests.antt =====
-- The idempotency middleware: a request and its retry under one key.
use davepi.Base.{
  Bool, Bool-cases, String, ap, arith, eq_refl, false, if◌then◌else◌, inl, inr, leb, ltb, none,
  refl, some, subst, text_cases, true, ℕ, ◌&&◌, ◌*◌, ◌+◌, ◌<◌, ◌∙◌, ◌≡◌, ◌≢◌,
}
use davepi.Collection.{Collection}
use davepi.Idempotency.{
  Response, Row, completed, Claim, claimed, conflict, busy, hit, new_row, is_in_progress,
  undisturbed, claim_idempotency, complete_idempotency, abandon_idempotency, finalize, ran,
  replayed, refused, answer, idempotency_middleware,
}
use davepi.Idempotency.Claims.{claim-live, claim-fresh, claim-IsGranted}

abbrev pub is_success : Response → Bool
is_success response = leb 200 response.status && ltb response.status 300

module _ (db : Collection Row) (slot : String) where
  open db use {State, row_at, find_row, update_row, delete_row}

  abbrev pub Handler : Type 0
  Handler = State → Response × State

  -- A handler does not touch the slot of its own request.
  abbrev pub LeavesSlot : Handler → Type 0
  LeavesSlot handler = (u : State) → row_at slot (handler u).1 ≡ row_at slot u

  -- A handler that ran was let through by a claim.
  ran-claimed :
      (handler : Handler) (c : Claim) (t : State) (response : Response) (s1 : State)
      → answer db slot handler (c, t) ≡ (ran response, s1)
      → (c ≡ claimed) × ((handler t).0 ≡ response) × (finalize db slot response (handler t).1 ≡ s1)
  unfolding answer
  ran-claimed handler claimed t response s1 e = (refl, ground arith, ground arith)
  ran-claimed handler conflict t response s1 e = cc
  ran-claimed handler busy t response s1 e = cc
  ran-claimed handler (hit r) t response s1 e = cc

  row-finalize :
      (r : Response) (u : State) (row : Row)
      → row_at slot u ≡ some row
      → is_in_progress row ≡ true
      → row_at slot (finalize db slot r u)
        ≡ (if is_success r then some (record row { progress = completed; response = r }) else none)
  unfolding finalize complete_idempotency abandon_idempotency
  row-finalize r u row e open_row = elim (Bool-cases (is_success r)) [
    | inl good ↦ rw good (rw update_row (rw e (rw open_row refl)))
    | inr bad ↦ rw bad (rw delete_row (rw e (rw open_row refl)))
  ]

  module _ (handler : Handler) (leaves : LeavesSlot handler) (body_hash : String)
      (ttl_seconds now : ℕ) (s s1 : State) (response : Response) where
    abbrev first_row : Row
    first_row = new_row body_hash ttl_seconds now

    -- The row that the first request leaves behind.
    left_row :
        idempotency_middleware db slot body_hash ttl_seconds now handler s ≡ (ran response, s1)
        → row_at slot s1 ≡ (
            if is_success response
            then some (record first_row { progress = completed; response = response })
            else none)
    unfolding idempotency_middleware
    left_row e =
        let claim = claim_idempotency db slot body_hash ttl_seconds now (undisturbed db) s in
        let (granted, answered, final) = ran-claimed handler claim.0 claim.1 response s1 e in
        let whole : claim ≡ (claimed, claim.1) =
          ap (λ (c : Claim). let p : Claim × State = (c, claim.1) in p) granted in
        let written =
          (claim-IsGranted db slot body_hash ttl_seconds now (undisturbed db) s claim.1
            whole).1.3 in
        subst
          (λ x. row_at slot x ≡ (
            if is_success response
            then some (record first_row { progress = completed; response = response })
            else none))
          final
          (row-finalize response (handler claim.1).1 first_row (leaves claim.1 ∙ written) refl)

    -- After a request that ran and answered 2xx, a retry under its key with the same body, while the key
    -- lives, gets the same answer; its handler does not run and nothing changes.
    pub retry_replays :
        (other : Handler) (ttl' later : ℕ)
        → idempotency_middleware db slot body_hash ttl_seconds now handler s ≡ (ran response, s1)
        → is_success response ≡ true
        → later < now + ttl_seconds * 1000
        → idempotency_middleware db slot body_hash ttl' later other s1 ≡ (replayed response, s1)
    unfolding idempotency_middleware answer
    retry_replays other ttl' later e good live =
        rw
          (claim-live db slot body_hash ttl' later (undisturbed db) s1
            (record first_row { progress = completed; response = response })
            (unfold idempotency_middleware in left_row e ∙ rw good refl) refl (ground arith))
          (rw eq_refl refl)

    -- A retry with another body is refused as a conflict, and its handler does not run.
    pub retry_conflicts :
        (other : Handler) (other_hash : String) (ttl' later : ℕ)
        → idempotency_middleware db slot body_hash ttl_seconds now handler s ≡ (ran response, s1)
        → is_success response ≡ true
        → body_hash ≢ other_hash
        → later < now + ttl_seconds * 1000
        → idempotency_middleware db slot other_hash ttl' later other s1
          ≡ (refused "IDEMPOTENCY_CONFLICT", s1)
    unfolding idempotency_middleware answer
    retry_conflicts other other_hash ttl' later e good ne live =
        rw
          (claim-live db slot other_hash ttl' later (undisturbed db) s1
            (record first_row { progress = completed; response = response })
            (left_row e ∙ rw good refl) refl (ground arith))
          (elim (text_cases body_hash other_hash) [
            | inl same ↦ absurd (ne same)
            | inr differ ↦ rw differ refl
          ])

    -- After a request that ran and did not answer 2xx, a request under its key runs, whatever its body.
    pub failure_frees :
        (other : Handler) (other_hash : String) (ttl' later : ℕ)
        → idempotency_middleware db slot body_hash ttl_seconds now handler s ≡ (ran response, s1)
        → is_success response ≡ false
        → (again : Response) × (s2 : State) × (idempotency_middleware db slot other_hash ttl' later
              other s1
            ≡ (ran again, s2))
    unfolding idempotency_middleware answer
    failure_frees other other_hash ttl' later e bad =
        let (t, done, _) =
          claim-fresh db slot other_hash ttl' later (undisturbed db) s1
            (left_row e ∙ rw bad refl) in
        ((other t).0, finalize db slot (other t).0 (other t).1, rw done refl)
