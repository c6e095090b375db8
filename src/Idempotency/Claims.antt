-- ===== src/Idempotency/Claims.antt =====
-- utils/idempotency.js: when a claim of a slot is granted.
use davepi.Base.{
  Option, Option-cases, String, arith, false, inl, inr, none, not, refl, some, subst, sym, true, ℕ,
  ◌∙◌, ◌≡◌, ◌≢◌, ◌⊎◌,
}
use davepi.Collection.{Collection, keep_if}
use davepi.Idempotency.{
  Row, claimed, new_row, is_live, is_expired, judge, retry_insert, retry, reread, after_insert,
  claim_idempotency, Meanwhile, undisturbed,
}

live_or_expired : (now : ℕ) (r : Row) → is_live now r ≡ not (is_expired now r)
live_or_expired now r = ground arith

judge-ne-claimed : (h : String) (r : Row) → judge h r ≢ claimed
judge-ne-claimed h r e = ground arith

module _ (db : Collection Row) where
  open db use {
    State, row_at, insert, find_one, update_one, delete_one, insert_free, insert_taken, find_row,
    update_row, delete_row,
  }

  -- The slot holds no row that is alive.
  abbrev pub IsFree : String → ℕ → State → Type 0
  IsFree slot now s = keep_if (is_live now) (row_at slot s) ≡ none

  module _ (slot body_hash : String) (ttl_seconds now : ℕ) (others : Meanwhile db) where
    abbrev row : Row
    row = new_row body_hash ttl_seconds now

    -- A claim of a slot with a live row that stays changes nothing, and is judged by that row.
    pub claim-live :
        (s : State) (r : Row)
        → row_at slot s ≡ some r
        → others.before_read s ≡ s
        → is_live now r ≡ true
        → claim_idempotency db slot body_hash ttl_seconds now others s ≡ (judge body_hash r, s)
    unfolding claim_idempotency
    claim-live s r e quiet live =
        let full = insert_taken slot row r s e in
        let seen : find_one slot (is_live now) s ≡ some r =
          find_row slot (is_live now) s ∙ rw e (rw live refl) in
        rw (full, after_insert, quiet) (rw (seen, reread) refl)

    -- A claim of a slot with no row is granted, and writes the claim's row.
    pub claim-fresh :
        (s : State)
        → row_at slot s ≡ none
        → (t : State) × (claim_idempotency db slot body_hash ttl_seconds now others s
            ≡ (claimed, t))
          × (row_at slot t ≡ some row)
    unfolding claim_idempotency
    claim-fresh s e =
        let (t, done, written) = insert_free slot row s e in
        (t, rw (done, after_insert) refl, written)

    insert-written :
        (s t : State)
        → insert slot row s ≡ some t
        → (row_at slot s ≡ none) × (row_at slot t ≡ some row)
    insert-written s t e = elim (Option-cases (row_at slot s)) [
      | inl free ↦
          let (u, done, written) = insert_free slot row s free in
          (free, subst (λ x. row_at slot x ≡ some row) (cc) written)
      | inr (q, taken) ↦ absurd (cc (insert_taken slot row q s taken))
    ]

    -- The collection of the insert that was granted.
    abbrev pub IsGranted : State → Type 0
    IsGranted t =
        (u : State) × (row_at slot u ≡ none)
        × (insert slot row u ≡ some t)
        × (row_at slot t ≡ some row)

    retry-IsGranted :
        (u t : State) → retry_insert db slot u (insert slot row u) ≡ (claimed, t) → IsGranted t
    retry-IsGranted u t e = go (insert slot row u) refl e
      where
        go :
            (o : Option State)
            → insert slot row u ≡ o
            → retry_insert db slot u o ≡ (claimed, t)
            → IsGranted t
        go none done e = unfold retry_insert in cc
        go (some v) done e =
            let same : insert slot row u ≡ some t = done ∙ unfold retry_insert in ground arith in
            let (free, written) = insert-written u t same in (u, free, same, written)

    reread-IsGranted :
        (s t : State) (o : Option Row)
        → reread db slot body_hash row now others s o ≡ (claimed, t)
        → (o ≡ none) × IsGranted t
    reread-IsGranted s t none e = (
      refl,
      retry-IsGranted
          (others.before_retry (delete_one slot (is_expired now) (others.before_clear s))) t
          (unfold reread retry in e),
    )
    reread-IsGranted s t (some r) e =
        absurd (judge-ne-claimed body_hash r (unfold reread in ground arith))

    -- The slot was free when the claim inserted its row first, or when it was read again after that failed.
    abbrev pub WasFree : State → Type 0
    WasFree s = (row_at slot s ≡ none) ⊎ IsFree slot now (others.before_read s)

    -- A granted claim inserted its row at once, or found no live row when it read the slot again, whatever
    -- other requests did before it read, before it cleared the slot and before its second insert; it was
    -- granted by the insert of its own row into a slot that was empty at that moment.
    pub claim-IsGranted :
        (s t : State)
        → claim_idempotency db slot body_hash ttl_seconds now others s ≡ (claimed, t)
        → WasFree s × IsGranted t
    unfolding claim_idempotency
    claim-IsGranted s t e = go (insert slot row s) refl e
      where
        go :
            (o : Option State)
            → insert slot row s ≡ o
            → after_insert db slot body_hash row now others s o ≡ (claimed, t)
            → WasFree s × IsGranted t
        go none done e =
            let (none_live, granted) =
              reread-IsGranted (others.before_read s) t
                (find_one slot (is_live now) (others.before_read s)) (unfold after_insert in e) in
            (inr (sym (find_row slot (is_live now) (others.before_read s)) ∙ none_live), granted)
        go (some v) done e =
            let same : insert slot row s ≡ some t = done ∙ unfold after_insert in ground arith in
            let (free, written) = insert-written s t same in (inl free, (s, free, same, written))

  -- Where no other request interferes, a claim of a slot whose row has expired is granted.
  pub claim-expired :
      (slot body_hash : String) (ttl_seconds now : ℕ) (s : State) (r : Row)
      → row_at slot s ≡ some r
      → is_live now r ≡ false
      → (t : State) × (claim_idempotency db slot body_hash ttl_seconds now (undisturbed db) s
          ≡ (claimed, t))
        × (row_at slot t ≡ some (new_row body_hash ttl_seconds now))
  unfolding claim_idempotency
  claim-expired slot body_hash ttl_seconds now s r e dead =
      let row' = new_row body_hash ttl_seconds now in
      let full = insert_taken slot row' r s e in
      let unseen : find_one slot (is_live now) s ≡ none =
        find_row slot (is_live now) s ∙ rw e (rw dead refl) in
      let gone : row_at slot (delete_one slot (is_expired now) s) ≡ none =
        delete_row slot (is_expired now) s ∙ rw e (ground (arith, live_or_expired now r)) in
      let (t, done, written) = insert_free slot row' (delete_one slot (is_expired now) s) gone in
      (
        t,
        rw (full, after_insert) (rw (unseen, reread) (rw (done, retry, retry_insert) refl)),
        written,
      )
