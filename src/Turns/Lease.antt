-- ===== src/Turns/Lease.antt =====
-- The claims of hermes-backend/src/auto-replies/inbound-turn.service.ts: who holds one, and for
-- how long.
use hermes_n8n.Prelude.{
  map_where-none, Member-count, count-map_where, count_zero-All, count-rewritten, ℕ, ◌+◌, ◌≤◌, ◌≡◌,
  refl, sym, ap, ◌∙◌, Bool, true, false, not, ◌&&◌, Option, none, some, [], arith, inl, inr,
  Bool-cases, Option-cases, ◌==◌, find, count, find-some, All-member, map_where, ==_refl, ==_true,
}
use hermes_n8n.Prisma.{Prisma}
use hermes_n8n.Schema.{Database}
use hermes_n8n.Schema.Messaging.{InboundTurn, TurnStatus, is_processing}
use hermes_n8n.Turns.Claim.{
  claim, complete, release, is_claimable, is_held, start_processing, leave, is_token,
  processing_lease_ms, find_pending, is_pending,
}
use hermes_n8n.Turns.Deadline.{UniqueTurns}

module _ (px : Prisma) where
  open px use {rows, find_unique_rows, update_many_rows, update_many_count, find_first_some}

  -- The row of a turn.
  abbrev pub turn_row : Database px → ℕ → Option InboundTurn
  turn_row db id = find (λ (t : InboundTurn). t.id == id) (rows db.inbound_turns)

  claim-found :
      (db db' : Database px) (turn_id now token : ℕ) (turn : InboundTurn)
      → claim px db turn_id now token ≡ (db', some turn)
      → (count (is_claimable turn_id now) (rows db.inbound_turns) ≡ 1)
        × (turn_row db' turn_id ≡ some turn)
        × (rows db'.inbound_turns
            ≡ map_where
                (is_claimable turn_id now)
                (start_processing now token)
                (rows db.inbound_turns))
  unfolding claim
  claim-found db db' turn_id now token turn h =
      let w = is_claimable turn_id now in
      let f = start_processing now token in
      let n = update_many_count w f db.inbound_turns in
      let r = update_many_rows w f db.inbound_turns in
      let by_id : InboundTurn → Bool = λ a. a.id == turn_id in
      elim (Bool-cases ((px.update_many w f db.inbound_turns).1 == 1)) [
        | inl y ↦
            let k = rw y at h in
            let t : db'.inbound_turns ≡ (px.update_many w f db.inbound_turns).0 = ground arith in
            let found : px.find_unique by_id db'.inbound_turns ≡ some turn = ground arith in
            (
              sym n ∙ ==_true (px.update_many w f db.inbound_turns).1 1 y,
              sym (find_unique_rows by_id db'.inbound_turns) ∙ found,
              ap rows t ∙ r,
            )
        | inr z ↦ absurd (let k = rw z at h in ground (arith, k))
      ]

  pub claim-none :
      (db : Database px) (turn_id now token : ℕ)
      → count (is_claimable turn_id now) (rows db.inbound_turns) ≡ 0
      → (claim px db turn_id now token).1 ≡ none
  unfolding claim
  claim-none db turn_id now token h =
      let n =
        update_many_count (is_claimable turn_id now) (start_processing now token)
          db.inbound_turns in
      rw (n, h, claim)

  -- What a turn of the identifier lacks while a worker holds it under a token since an instant.
  abbrev held_since : ℕ → ℕ → InboundTurn → Bool
  held_since token at t =
      is_processing t.status && is_token token t.processing_token && is_token at t.processing_at

  not_held : ℕ → ℕ → ℕ → InboundTurn → Bool
  not_held turn_id token at t = t.id == turn_id && not (held_since token at t)

  claim-holds :
      (db db' : Database px) (turn_id now token : ℕ) (turn : InboundTurn)
      → UniqueTurns px db
      → claim px db turn_id now token ≡ (db', some turn)
      → (turn.id == turn_id) ≡ true × held_since token now turn ≡ true
  unfolding not_held start_processing
  claim-holds db db' turn_id now token turn u h =
      let (c, e, r) = claim-found db db' turn_id now token turn h in
      let w = is_claimable turn_id now in
      let f = start_processing now token in
      let bound =
        count-rewritten (not_held turn_id token now) w (λ t. t.id == turn_id) f
          (λ a h. ground (arith, h)) (λ a h. ground (arith, h))
          (λ a h. ground (arith, ==_refl token, ==_refl now)) (rows db.inbound_turns) in
      let zero : count (not_held turn_id token now) (rows db'.inbound_turns) ≡ 0 =
        rw r (omega (arith, bound, c, u turn_id)) in
      let m = find-some (λ (t : InboundTurn). t.id == turn_id) (rows db'.inbound_turns) turn e in
      let off =
        All-member (λ a. not_held turn_id token now a ≡ false) (rows db'.inbound_turns) turn
          (count_zero-All (not_held turn_id token now) (rows db'.inbound_turns) zero) m.1 in
      (m.0, ground (arith, off, m.0))

  -- Where turns have unique identifiers, a claimed turn cannot be claimed again until its lease of
  -- fifteen minutes has ended, whoever tries and under whatever token.
  pub claim_leased :
      (db db' : Database px) (turn_id now token now' token' : ℕ) (turn : InboundTurn)
      → UniqueTurns px db
      → claim px db turn_id now token ≡ (db', some turn)
      → now' ≤ now + processing_lease_ms
      → (claim px db' turn_id now' token').1 ≡ none
  unfolding start_processing
  claim_leased db db' turn_id now token now' token' turn u h early =
      let (c, e, r) = claim-found db db' turn_id now token turn h in
      let bound =
        count-rewritten (is_claimable turn_id now') (is_claimable turn_id now)
          (λ t. t.id == turn_id) (start_processing now token) (λ a h. ground (arith, h))
          (λ a h. ground (arith, h)) (λ a h. ground (arith, early)) (rows db.inbound_turns) in
      claim-none db' turn_id now' token' (rw r (omega (arith, bound, c, u turn_id)))

  -- Where turns have unique identifiers, only the worker that holds a turn can complete or release
  -- it: right after a claim under one token, the calls with another token leave every turn as it
  -- is.
  pub other_token_refused :
      (db db' : Database px) (turn_id now token token' : ℕ) (turn : InboundTurn)
      → UniqueTurns px db
      → claim px db turn_id now token ≡ (db', some turn)
      → (token == token') ≡ false
      → (rows (complete px db' turn_id token').inbound_turns ≡ rows db'.inbound_turns)
        × (rows (release px db' turn_id token').inbound_turns ≡ rows db'.inbound_turns)
  unfolding start_processing complete release
  other_token_refused db db' turn_id now token token' turn u h other =
      let (c, e, r) = claim-found db db' turn_id now token turn h in
      let w = is_held turn_id token' in
      let bound =
        count-rewritten w (is_claimable turn_id now) (λ t. t.id == turn_id)
          (start_processing now token) (λ a h. ground (arith, h)) (λ a h. ground (arith, h))
          (λ a h. ground (arith, other)) (rows db.inbound_turns) in
      let zero : count w (rows db'.inbound_turns) ≡ 0 = rw r (omega (arith, bound, c, u turn_id)) in
      let off = count_zero-All w (rows db'.inbound_turns) zero in
      (
        update_many_rows w (leave TurnStatus.processed) db'.inbound_turns
            ∙ map_where-none w (leave TurnStatus.processed) (rows db'.inbound_turns) off,
        update_many_rows w (leave TurnStatus.opened) db'.inbound_turns
            ∙ map_where-none w (leave TurnStatus.opened) (rows db'.inbound_turns) off,
      )

  claim-UniqueTurns :
      (db db' : Database px) (turn_id now token : ℕ) (turn : InboundTurn)
      → UniqueTurns px db
      → claim px db turn_id now token ≡ (db', some turn)
      → UniqueTurns px db'
  unfolding start_processing
  claim-UniqueTurns db db' turn_id now token turn u h = λ id.
      let (c, e, r) = claim-found db db' turn_id now token turn h in
      rw
        (
          r,
          count-map_where (λ (t : InboundTurn). t.id == id) (is_claimable turn_id now)
              (start_processing now token) (λ a h. refl) (rows db.inbound_turns),
        )
        (u id)

  -- Where turns have unique identifiers, a turn that its holder completes right after the claim is
  -- done: it is no longer pending, and no claim gets it.
  pub completed_for_good :
      (db db' : Database px) (turn_id now token now' token' : ℕ) (turn : InboundTurn)
      → UniqueTurns px db
      → claim px db turn_id now token ≡ (db', some turn)
      → (find_pending px (complete px db' turn_id token) turn_id ≡ none)
        × ((claim px (complete px db' turn_id token) turn_id now' token').1 ≡ none)
  unfolding complete leave find_pending
  completed_for_good db db' turn_id now token now' token' turn u h =
      let (c, e, r) = claim-found db db' turn_id now token turn h in
      let (same, held) = claim-holds db db' turn_id now token turn u h in
      let w = is_held turn_id token in
      let f = leave TurnStatus.processed in
      let by_id : InboundTurn → Bool = λ a. a.id == turn_id in
      let u' = claim-UniqueTurns db db' turn_id now token turn u h turn_id in
      let one =
        Member-count w (rows db'.inbound_turns) turn
          (find-some by_id (rows db'.inbound_turns) turn e).1 (ground (arith, same, held)) in
      let after = px.update_many w f db'.inbound_turns in
      let bound =
        count-rewritten (is_pending turn_id) w by_id f (λ a h. ground (arith, h))
          (λ a h. ground (arith, h)) (λ a h. ground arith) (rows db'.inbound_turns) in
      let gone : count (is_pending turn_id) (rows after.0) ≡ 0 =
        rw (update_many_rows w f db'.inbound_turns) (omega (arith, bound, one, u')) in
      let claims =
        count-rewritten (is_claimable turn_id now') w by_id f (λ a h. ground (arith, h))
          (λ a h. ground (arith, h)) (λ a h. ground arith) (rows db'.inbound_turns) in
      let free : count (is_claimable turn_id now') (rows after.0) ≡ 0 =
        rw (update_many_rows w f db'.inbound_turns) (omega (arith, claims, one, u')) in
      (
        none_pending after.0 gone,
        claim-none (complete px db' turn_id token) turn_id now' token' free,
      )
    where
      none_pending :
          (t : px.Table InboundTurn)
          → count (is_pending turn_id) (rows t) ≡ 0
          → px.find_first [] (is_pending turn_id) t ≡ none
      none_pending t z = elim (Option-cases (px.find_first [] (is_pending turn_id) t)) [
        | inl n ↦ n
        | inr (a, k) ↦
            let g = find_first_some [] (is_pending turn_id) t a k in
            absurd (omega (arith, z, Member-count (is_pending turn_id) (rows t) a g.1 g.0))
      ]
