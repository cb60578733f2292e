-- ===== src/Turns/Recovery.antt =====
-- The turns that the scan of hermes-backend/src/auto-replies/inbound-turn-recovery.service.ts
-- queues, against those that `claim` takes.
use hermes_n8n.Prelude.{
  count_zero-All, map-All, ℕ, zero, suc, ◌≡◌, refl, ◌∙◌, Bool, true, false, not, ◌&&◌, ◌||◌, none,
  some, List, [], ◌∷◌, arith, inl, inr, Bool-cases, Option-cases, leb, count, All, ==_refl,
  count-zero,
}
use hermes_n8n.Prisma.{Prisma, asc}
use hermes_n8n.Schema.{Database}
use hermes_n8n.Schema.Messaging.{InboundTurn, is_processing}
use hermes_n8n.Turns.Claim.{is_claimable, recoverable, is_recoverable, take}

-- A turn is being processed since an instant at which it was due.
abbrev pub is_timely : InboundTurn → Bool
is_timely t =
    not (is_processing t.status)
    || (elim t.processing_at [ none ↦ false | some at ↦ leb t.due_at at ])

timely_claimable :
    (now : ℕ) (t : InboundTurn)
    → is_timely t ≡ true
    → is_recoverable now t ≡ true
    → is_claimable t.id now t ≡ true
timely_claimable now t h r = elim (Option-cases t.processing_at) [
  | inl e ↦ ground (arith, h, r, e, ==_refl t.id)
  | inr (at, e) ↦ ground (arith, h, r, e, ==_refl t.id)
]

module _ {A : Type 0} (P : A → Type 0) where
  take-All : (n : ℕ) (xs : List A) → All P xs → All P (take n xs)
  take-All zero xs h = tt
  take-All (suc n) [] h = tt
  take-All (suc n) (x ∷ xs) (h, hs) = (h, take-All n xs hs)

module _ (px : Prisma) where
  open px use {rows, find_many_count}

  -- Where every turn in progress was due when it was claimed, each turn that the recovery finds can
  -- be claimed at that instant, so the jobs that it queues are never in vain.
  pub recoverable-claimable :
      (db : Database px) (now : ℕ)
      → All (λ t. is_timely t ≡ true) (rows db.inbound_turns)
      → All (λ t. is_claimable t.id now t ≡ true) (recoverable px db now)
  unfolding recoverable
  recoverable-claimable db now h =
      let by = asc (λ (t : InboundTurn). t.due_at) ∷ [] in
      let w = is_recoverable now in
      let off : InboundTurn → Bool = λ t. not (is_claimable t.id now t) in
      let found = px.find_many by w db.inbound_turns in
      let no : count off found ≡ 0 =
        find_many_count by w off db.inbound_turns
        ∙ count-zero (λ t. w t && off t) (rows db.inbound_turns)
            (map-All (λ t. is_timely t ≡ true) (λ t. (w t && off t) ≡ false) (in_vain now)
              (rows db.inbound_turns) h) in
      map-All (λ t. off t ≡ false) (λ t. is_claimable t.id now t ≡ true) (λ t k. ground (arith, k))
        (take 100 found) (take-All (λ t. off t ≡ false) 100 found (count_zero-All off found no))
    where
      in_vain :
          (now : ℕ) (t : InboundTurn)
          → is_timely t ≡ true
          → (is_recoverable now t && not (is_claimable t.id now t)) ≡ false
      in_vain now t h = elim (Bool-cases (is_recoverable now t)) [
        | inl y ↦ rw (y, timely_claimable now t h y) refl
        | inr n ↦ rw n refl
      ]
