-- ===== src/Campaigns/Keeps.antt =====
-- What the operations of campaigns.service.ts keep of a recipient that a job has claimed.
use hermes_n8n.Prelude.{
  ℕ, ◌+◌, ◌≤◌, ◌≡◌, refl, sym, subst, Bool, true, false, not, ◌&&◌, ◌||◌, ◌==◌, holds, is_some,
  List, [], ◌∷◌, inl, inr, Bool-cases, Option-cases, All, All-map_where, map_where, map_first,
  count, count-zero, count_zero-All, map-All, arith,
}
use hermes_n8n.Prisma.{Prisma}
use hermes_n8n.Schema.{Database}
use hermes_n8n.Schema.Campaigns.{Campaign, Recipient, is_running}
use hermes_n8n.Campaigns.Send.{
  CampaignJob, Sending, accepted, refused, is_claimable, mark_attempted, mark_released, mark_sent,
  mark_failed, mark_skipped, find_campaign, is_open_in, complete_if_finished, claim_recipient,
  settle, write_recipient, write_campaign,
}
use hermes_n8n.Campaigns.Control.{
  mark_running, Candidate, mark_started, write_candidates, write_start,
}

-- Every row but those of `id` without an attempt.
unfoldable pub barred : ℕ → Recipient → Bool
barred id r = not (r.id == id) || is_some r.send_attempted_at

abbrev pub Barred : ℕ → List Recipient → Type 0
Barred id rs = All (λ r. barred id r ≡ true) rs

All-map_first :
    {A : Type 0} (P : A → Type 0) (p : A → Bool) (f : A → A)
    → ((a : A) → p a ≡ true → P a → P (f a))
    → (xs : List A) → All P xs
    → All P (map_first p f xs)
All-map_first P p f keep [] h = tt
All-map_first P p f keep (x ∷ xs) (h, hs) = elim (Bool-cases (p x)) [
  | inl t ↦ rw t (keep x t h, hs)
  | inr u ↦ rw u (h, All-map_first P p f keep xs hs)
]

barred_other : (id : ℕ) (r : Recipient) → (r.id == id) ≡ false → barred id r ≡ true
unfolding barred
barred_other id r h = rw h refl

pub barred-claimable : (id : ℕ) (r : Recipient) → barred id r ≡ true → is_claimable id r ≡ false
unfolding barred is_claimable
barred-claimable id r h = elim (Bool-cases (r.id == id)) [
  | inl y ↦ elim (Option-cases r.send_attempted_at) [
    | inl e ↦ absurd (ground (arith, rw (y, e) at h))
    | inr (t, e) ↦ rw (y, e) (ground arith)
  ]
  | inr n ↦ rw n refl
]

attempted-barred : (id now : ℕ) (r : Recipient) → barred id (mark_attempted now r) ≡ true
unfolding barred mark_attempted
attempted-barred id now r = ground arith

claimable_id : (id : ℕ) (r : Recipient) → is_claimable id r ≡ true → (r.id == id) ≡ true
unfolding is_claimable
claimable_id id r h = ground (arith, h)

no_claim :
    (id : ℕ) (rs : List Recipient)
    → All (λ r. (r.id == id) ≡ false) rs
    → count (is_claimable id) rs ≡ 0
no_claim id rs h = count-zero (is_claimable id) rs (
    map-All (λ r. (r.id == id) ≡ false) (λ r. is_claimable id r ≡ false)
      (λ r n. barred-claimable id r (barred_other id r n)) rs h)

others-Barred :
    (id now : ℕ) (rs : List Recipient)
    → All (λ r. (r.id == id) ≡ false) rs
    → Barred id (map_where (is_claimable id) (mark_attempted now) rs)
others-Barred id now rs h =
    All-map_where (λ r. barred id r ≡ true) (is_claimable id) (mark_attempted now)
      (λ r q b. attempted-barred id now r) rs
      (map-All (λ r. (r.id == id) ≡ false) (λ r. barred id r ≡ true) (barred_other id) rs h)

-- A claim that has found its one row bars it.
pub claimed-Barred :
    (id now : ℕ) (rs : List Recipient)
    → count (λ (r : Recipient). r.id == id) rs ≤ 1
    → count (is_claimable id) rs ≡ 1
    → Barred id (map_where (is_claimable id) (mark_attempted now) rs)
claimed-Barred id now [] u c = tt
claimed-Barred id now (x ∷ xs) u c = elim (Bool-cases (is_claimable id x)) [
  | inl y ↦
      let no_other : count (λ (r : Recipient). r.id == id) xs ≡ 0 =
        let u' : 1 + count (λ (r : Recipient). r.id == id) xs ≤ 1 = rw (claimable_id id x y) at u in
        omega arith in
      rw y (
        attempted-barred id now x,
        others-Barred id now xs (count_zero-All (λ (r : Recipient). r.id == id) xs no_other),
      )
  | inr n ↦ elim (Bool-cases (x.id == id)) [
    | inl y ↦
        let u' : 1 + count (λ (r : Recipient). r.id == id) xs ≤ 1 = rw y at u in
        let c' : 0 + count (is_claimable id) xs ≡ 1 = rw n at c in
        let none_left : count (is_claimable id) xs ≡ 0 =
          no_claim id xs (count_zero-All (λ (r : Recipient). r.id == id) xs (omega arith)) in
        absurd (omega (arith, c', none_left))
    | inr z ↦
        let u' : 0 + count (λ (r : Recipient). r.id == id) xs ≤ 1 = rw z at u in
        let c' : 0 + count (is_claimable id) xs ≡ 1 = rw n at c in
        rw n (barred_other id x z, claimed-Barred id now xs (omega arith) (omega arith))
  ]
]

module _ (px : Prisma) (id : ℕ) where
  open px use {rows, update_rows, update_many_rows}

  abbrev pub IsBarred : px.Table Recipient → Type 0
  IsBarred t = Barred id (rows t)

  -- A write of one recipient that keeps what is barred.
  pub write_recipient-IsBarred :
      (k : ℕ) (f : Recipient → Recipient) (db : Database px)
      → ((r : Recipient) → (r.id == k) ≡ true → barred id r ≡ true → barred id (f r) ≡ true)
      → IsBarred db.recipients
      → IsBarred (write_recipient px k f db).recipients
  write_recipient-IsBarred k f db keep h =
      rw (update_rows (λ (r : Recipient). r.id == k) f db.recipients) (
        All-map_first (λ r. barred id r ≡ true) (λ (r : Recipient). r.id == k) f keep
          (rows db.recipients) h)

  pub skip-IsBarred :
      (k : ℕ) (db : Database px)
      → IsBarred db.recipients
      → IsBarred (write_recipient px k mark_skipped db).recipients
  unfolding barred mark_skipped
  skip-IsBarred k db h = write_recipient-IsBarred k mark_skipped db (λ r e b. b) h

  pub complete_if_finished-recipients :
      (db : Database px) (campaign_id now : ℕ)
      → (complete_if_finished px db campaign_id now).recipients ≡ db.recipients
  unfolding complete_if_finished
  complete_if_finished-recipients db campaign_id now =
      elim (Option-cases (find_campaign px db campaign_id)) [
        | inl e ↦ rw (e, complete_if_finished) refl
        | inr (c, e) ↦ elim (Bool-cases (is_running c.status)) [
          | inr n ↦ rw (e, complete_if_finished, n) refl
          | inl y ↦ elim (Bool-cases (px.count_rows (is_open_in campaign_id) db.recipients == 0)) [
            | inl z ↦ rw (e, complete_if_finished, y, z) refl
            | inr z ↦ rw (e, complete_if_finished, y, z) refl
          ]
        ]
      ]

  pub finished-IsBarred :
      (db : Database px) (campaign_id now : ℕ)
      → IsBarred db.recipients
      → IsBarred (complete_if_finished px db campaign_id now).recipients
  finished-IsBarred db campaign_id now h =
      subst IsBarred (sym (complete_if_finished-recipients db campaign_id now)) h

  pub claim_recipient-IsBarred :
      (db : Database px) (k now : ℕ)
      → IsBarred db.recipients
      → IsBarred (claim_recipient px db k now).0.recipients
  unfolding claim_recipient
  claim_recipient-IsBarred db k now h =
      rw (update_many_rows (is_claimable k) (mark_attempted now) db.recipients) (
        All-map_where (λ r. barred id r ≡ true) (is_claimable k) (mark_attempted now)
          (λ r q b. attempted-barred id now r) (rows db.recipients) h)

  released_other :
      (k : ℕ) (r : Recipient)
      → (k == id) ≡ false
      → (r.id == k) ≡ true
      → barred id (mark_released r) ≡ true
  unfolding barred mark_released
  released_other k r n e = ground (arith, n, e)

  -- Whether settling the answer of recipient `k` releases `id`.
  unfoldable pub releases : ℕ → Sending → Bool
  releases k (accepted wamid) = false
  releases k (refused error) = k == id && holds error.status 429

  pub settle-IsBarred :
      (db : Database px) (r : Recipient) (job : CampaignJob) (answer : Sending) (now : ℕ)
      → releases r.id answer ≡ false
      → IsBarred db.recipients
      → IsBarred (settle px db r job answer now).0.recipients
  unfolding settle releases barred mark_sent mark_failed
  settle-IsBarred db r job (accepted wamid) now n h =
      finished-IsBarred (write_recipient px r.id (mark_sent wamid now) db) job.campaign_id now
        (write_recipient-IsBarred r.id (mark_sent wamid now) db (λ r e b. b) h)
  settle-IsBarred db r job (refused error) now n h = elim (Bool-cases (holds error.status 429)) [
    | inl y ↦ rw y (
        write_recipient-IsBarred r.id mark_released db
          (λ s e b. released_other r.id s (ground (arith, n, y)) e) h)
    | inr z ↦ rw z (
        finished-IsBarred (write_recipient px r.id (mark_failed error now) db) job.campaign_id now
          (write_recipient-IsBarred r.id (mark_failed error now) db (λ r e b. b) h))
  ]

  write_candidates-IsBarred :
      (cs : List Candidate) (db : Database px)
      → IsBarred db.recipients
      → IsBarred (write_candidates px cs db).recipients
  unfolding write_candidates barred mark_started
  write_candidates-IsBarred [] db h = h
  write_candidates-IsBarred (c ∷ cs) db h =
      write_candidates-IsBarred cs (write_recipient px c.recipient_id (mark_started c.opted_in) db)
        (write_recipient-IsBarred c.recipient_id (mark_started c.opted_in) db (λ r e b. b) h)

  pub write_start-IsBarred :
      (campaign : Campaign) (cs : List Candidate) (now : ℕ) (db : Database px)
      → IsBarred db.recipients
      → IsBarred (write_start px campaign cs now db).recipients
  unfolding write_start
  write_start-IsBarred campaign cs now db h =
      write_candidates-IsBarred cs
        (write_campaign px campaign.id (mark_running campaign.started_at now) db) h
