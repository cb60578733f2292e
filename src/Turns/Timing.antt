-- ===== src/Turns/Timing.antt =====
-- When `claim` of hermes-backend/src/auto-replies/inbound-turn.service.ts succeeds, against
-- `nextClaimAt`.
use hermes_n8n.Prelude.{
  ℕ, ◌≤◌, ◌<◌, ◌≡◌, refl, ap, ◌∙◌, Bool, true, false, not, ◌&&◌, none, some, List, [], ◌∷◌, arith,
  inl, inr, Bool-cases, Option-cases, ◌==◌, find, count, find-some, find-map_where, map_where,
}
use hermes_n8n.Prisma.{Prisma}
use hermes_n8n.Schema.{Database}
use hermes_n8n.Schema.Messaging.{InboundTurn}
use hermes_n8n.Turns.Claim.{claim, is_claimable, start_processing, is_pending, next_claim_at}
use hermes_n8n.Turns.Deadline.{UniqueTurns}
use hermes_n8n.Turns.Lease.{turn_row, claim-none}
use hermes_n8n.Turns.Recovery.{is_timely}
use hermes_n8n.Prelude.{Member-count, find-some, count-rewritten}

due_claimable :
    (id now : ℕ) (t : InboundTurn)
    → is_timely t ≡ true
    → is_pending id t ≡ true
    → next_claim_at t < now
    → is_claimable id now t ≡ true
unfolding next_claim_at
due_claimable id now t h p l = elim (Option-cases t.processing_at) [
  | inl e ↦ ground (arith, h, p, e, l)
  | inr (at, e) ↦ ground (arith, h, p, e, l)
]

early_refused :
    (id now : ℕ) (t : InboundTurn)
    → now < next_claim_at t
    → is_timely t ≡ true
    → is_claimable id now t ≡ false
unfolding next_claim_at
early_refused id now t l h = elim (Option-cases t.processing_at) [
  | inl e ↦ ground (arith, e, l, h)
  | inr (at, e) ↦ ground (arith, e, l, h)
]

module _ {A : Type 0} where
  map_where-same : (w : A → Bool) (xs : List A) → map_where w (λ a. a) xs ≡ xs
  map_where-same w [] = refl
  map_where-same w (x ∷ xs) = elim (Bool-cases (w x)) [
    | inl t ↦ rw (t, map_where-same w xs)
    | inr u ↦ rw (u, map_where-same w xs)
  ]

  -- Where one row at most passes `q`, and it fails `w`, no row passes `w`.
  only_row :
      (w q : A → Bool) (xs : List A) (a : A)
      → ((b : A) → w b ≡ true → q b ≡ true)
      → count q xs ≤ 1
      → find q xs ≡ some a
      → w a ≡ false
      → count w xs ≡ 0
  only_row w q xs a wq one e n =
      let out : A → Bool = λ b. q b && not (w b) in
      let m = find-some q xs a e in
      let bound =
        count-rewritten w out q (λ b. b) (λ b h. ground (arith, h)) wq (λ b h. ground (arith, h))
          xs in
      let here = Member-count out xs a m.1 (ground (arith, m.0, n)) in
      let same = ap (count w) (map_where-same out xs) in omega (arith, bound, same, here, one)

module _ (px : Prisma) where
  open px use {rows, find_unique_rows, update_many_rows, update_many_count}

  -- Where turns have unique identifiers, a pending turn, due before its processing began if it is
  -- being processed, can be claimed once the instant of `nextClaimAt` has passed: the claim
  -- succeeds and returns the turn as it is stored under the new token.
  pub claim_when_due :
      (db : Database px) (turn_id now token : ℕ) (t : InboundTurn)
      → UniqueTurns px db
      → turn_row px db turn_id ≡ some t
      → is_timely t ≡ true
      → is_pending turn_id t ≡ true
      → next_claim_at t < now
      → (claim px db turn_id now token).1 ≡ some (start_processing now token t)
  unfolding claim start_processing
  claim_when_due db turn_id now token t u e h p l =
      let w = is_claimable turn_id now in
      let f = start_processing now token in
      let by_id : InboundTurn → Bool = λ a. a.id == turn_id in
      let y = due_claimable turn_id now t h p l in
      let after = px.update_many w f db.inbound_turns in
      let least =
        Member-count w (rows db.inbound_turns) t (find-some by_id (rows db.inbound_turns) t e).1
          y in
      let most =
        count-rewritten (λ a. false) w by_id f (λ a k. ground (arith, k)) (λ a k. ground (arith, k))
          (λ a k. refl) (rows db.inbound_turns) in
      let one : after.1 ≡ 1 =
        update_many_count w f db.inbound_turns ∙ omega (arith, least, most, u turn_id) in
      let found : px.find_unique by_id after.0 ≡ some (f t) =
        find_unique_rows by_id after.0
        ∙ ap (find by_id) (update_many_rows w f db.inbound_turns)
        ∙ find-map_where by_id w f (λ a. refl) (rows db.inbound_turns) t e
        ∙ (rw y) in
      rw (one, claim) found

  -- Where turns have unique identifiers, no claim of a turn, due before its processing began if it
  -- is being processed, succeeds before the instant of `nextClaimAt`.
  pub claim_not_before :
      (db : Database px) (turn_id now token : ℕ) (t : InboundTurn)
      → UniqueTurns px db
      → turn_row px db turn_id ≡ some t
      → is_timely t ≡ true
      → now < next_claim_at t
      → (claim px db turn_id now token).1 ≡ none
  claim_not_before db turn_id now token t u e h l = claim-none px db turn_id now token (
      only_row (is_claimable turn_id now) (λ a. a.id == turn_id) (rows db.inbound_turns) t
        (λ b k. ground (arith, k)) (u turn_id) e (early_refused turn_id now t l h))
