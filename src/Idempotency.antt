-- ===== src/Idempotency.antt =====
-- utils/idempotency.js and middleware/idempotency.js: writes that are retried under one
-- `Idempotency-Key`. A slot is the key, the caller's id and the route in one text; the rows of
-- the slots stand in a collection with a unique index. Times are milliseconds. A handler answers by
-- `res.json`, and its answer is stored by the time that the next request under its key comes.
pub mod Claims
pub mod Requests
use davepi.Base.{
  Bool, Option, String, false, if◌then◌else◌, leb, ltb, none, not, some, true, ℕ, ◌&&◌, ◌*◌, ◌+◌,
  ◌==◌,
}
use davepi.Js.{Value}
use davepi.Collection.{Collection}

pub data Progress : Type 0 where
  in_progress completed : Progress

pub record Response : Type 0 where
  pub status : ℕ
  pub body : Value

-- model/idempotencyKey.js
pub record Row : Type 0 where
  pub body_hash : String
  pub progress : Progress
  pub response : Response
  pub expires_at : ℕ

pub data Claim : Type 0 where
  claimed conflict busy : Claim
  hit : Row → Claim

abbrev no_response : Response
no_response = record { status = 0; body = Value.null }

abbrev pub new_row : String → ℕ → ℕ → Row
new_row body_hash ttl_seconds now = record {
  body_hash = body_hash;
  progress = in_progress;
  response = no_response;
  expires_at = now + ttl_seconds * 1000;
}

abbrev pub is_live : ℕ → Row → Bool
is_live now row = ltb now row.expires_at

abbrev pub is_expired : ℕ → Row → Bool
is_expired now row = leb row.expires_at now

abbrev pub is_in_progress : Row → Bool
is_in_progress row = elim row.progress [ in_progress ↦ true | completed ↦ false ]

-- What the loser of an insert makes of the winner's row.
abbrev pub judge : String → Row → Claim
judge body_hash row =
    if not (row.body_hash == body_hash)
    then conflict
    else if is_in_progress row
    then busy
    else hit row

-- What the client is sent, and whether the handler ran.
pub data Answer : Type 0 where
  ran replayed : Response → Answer
  refused : (code : String) → Answer

module _ (db : Collection Row) where
  open db use {State, insert, find_one, update_one, delete_one}

  -- What other requests do to the collection while a claim goes on: before it reads, before it clears and
  -- before it inserts again.
  pub record Meanwhile : Type 0 where
    pub before_read : State → State
    pub before_clear : State → State
    pub before_retry : State → State

  abbrev pub undisturbed : Meanwhile
  undisturbed = record { before_read = λ s. s; before_clear = λ s. s; before_retry = λ s. s }

  unfoldable pub retry_insert : String → State → Option State → Claim × State
  retry_insert slot s none = (busy, s)
  retry_insert slot s (some t) = (claimed, t)

  -- No live row: the stale one is removed, and the insert tried once more.
  unfoldable pub retry : String → Row → ℕ → Meanwhile → State → Claim × State
  retry slot row now others s =
      let cleared =
        others.before_retry (delete_one slot (is_expired now) (others.before_clear s)) in
      retry_insert slot cleared (insert slot row cleared)

  unfoldable pub reread : String → String → Row → ℕ → Meanwhile → State → Option Row → Claim × State
  reread slot body_hash row now others s none = retry slot row now others s
  reread slot body_hash row now others s (some existing) = (judge body_hash existing, s)

  unfoldable pub after_insert :
      String → String → Row → ℕ → Meanwhile → State → Option State → Claim × State
  after_insert slot body_hash row now others s none =
      let seen = others.before_read s in
      reread slot body_hash row now others seen (find_one slot (is_live now) seen)
  after_insert slot body_hash row now others s (some t) = (claimed, t)

  -- `claimIdempotency`, with what other requests do meanwhile.
  unfoldable pub claim_idempotency : String → String → ℕ → ℕ → Meanwhile → State → Claim × State
  unfolding retry_insert retry reread after_insert
  claim_idempotency slot body_hash ttl_seconds now others s =
      let row = new_row body_hash ttl_seconds now in
      after_insert slot body_hash row now others s (insert slot row s)

  -- `completeIdempotency`
  unfoldable pub complete_idempotency : String → Response → State → State
  complete_idempotency slot response s =
      update_one slot is_in_progress
        (λ row. record row { progress = completed; response = response }) s

  -- `abandonIdempotency`
  unfoldable pub abandon_idempotency : String → State → State
  abandon_idempotency slot s = delete_one slot is_in_progress s

  -- `finalize`: a 2xx answer is stored, any other frees the slot.
  unfoldable pub finalize : String → Response → State → State
  finalize slot response s =
      if leb 200 response.status && ltb response.status 300
      then complete_idempotency slot response s
      else abandon_idempotency slot s

  unfoldable pub answer : String → (State → Response × State) → Claim × State → Answer × State
  answer slot handler (claimed, s) =
      let (response, t) = handler s in (ran response, finalize slot response t)
  answer slot handler (hit row, s) = (replayed row.response, s)
  answer slot handler (conflict, s) = (refused "IDEMPOTENCY_CONFLICT", s)
  answer slot handler (busy, s) = (refused "IDEMPOTENCY_IN_PROGRESS", s)

  -- `idempotencyMiddleware` round a handler, for a request with a key and a caller.
  unfoldable pub idempotency_middleware :
      String → String → ℕ → ℕ → (State → Response × State) → State → Answer × State
  unfolding answer
  idempotency_middleware slot body_hash ttl_seconds now handler s =
      answer slot handler (claim_idempotency slot body_hash ttl_seconds now undisturbed s)
