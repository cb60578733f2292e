-- ===== src/Campaigns/Completion.antt =====
-- When a campaign is completed: campaigns.service.ts, completeIfFinished.
use hermes_n8n.Prelude.{
  find-map_first, ◌⊎◌, ℕ, ◌≡◌, ◌≢◌, refl, sym, ◌∙◌, Bool, true, false, ◌==◌, some, List, [], ◌∷◌,
  Member, inl, inr, Bool-cases, count, All, All-member, count-zero, count_zero-All, arith, find,
  map_first,
}
use hermes_n8n.Prisma.{Prisma}
use hermes_n8n.Schema.{Database}
use hermes_n8n.Schema.Campaigns.{
  Campaign, CampaignStatus, Recipient, RecipientStatus, is_running, is_open_recipient,
}
use hermes_n8n.Campaigns.Send.{
  mark_completed, find_campaign, is_open_in, complete_if_finished, write_campaign,
}

-- A recipient of the campaign that is still to be sent.
pub data Waits : (id : ℕ) → Recipient → Type 0 where
  pending_in :
      (id : ℕ) (r : Recipient)
      → r.campaign_id ≡ id
      → r.status ≡ RecipientStatus.pending
      → Waits id r
  queued_in :
      (id : ℕ) (r : Recipient) → r.campaign_id ≡ id → r.status ≡ RecipientStatus.queued → Waits id r

Waits-is_open_in : (id : ℕ) (r : Recipient) → Waits id r → is_open_in id r ≡ true
unfolding is_open_in
Waits-is_open_in id r (Waits.pending_in i s e h) = ground (arith, e, h)
Waits-is_open_in id r (Waits.queued_in i s e h) = ground (arith, e, h)

open_status :
    (s : RecipientStatus)
    → is_open_recipient s ≡ true
    → (s ≡ RecipientStatus.pending) ⊎ (s ≡ RecipientStatus.queued)
open_status s h = ground (arith, h)

is_open_in-Waits : (id : ℕ) (r : Recipient) → is_open_in id r ≡ true → Waits id r
unfolding is_open_in
is_open_in-Waits id r h = elim (open_status r.status (ground (arith, h))) [
  | inl e ↦ Waits.pending_in id r (ground (arith, h)) e
  | inr e ↦ Waits.queued_in id r (ground (arith, h)) e
]

none-Waits :
    (id : ℕ) (rs : List Recipient)
    → ((r : Recipient) → Member r rs → Waits id r → ⊥)
    → All (λ r. is_open_in id r ≡ false) rs
none-Waits id [] h = tt
none-Waits id (r ∷ rs) h = elim (Bool-cases (is_open_in id r)) [
  | inl y ↦ absurd (h r (inl refl) (is_open_in-Waits id r y))
  | inr n ↦ (n, none-Waits id rs (λ s m. h s (inr m)))
]

one-Waits :
    (id : ℕ) (rs : List Recipient) (r : Recipient)
    → Member r rs
    → Waits id r
    → (count (is_open_in id) rs == 0) ≡ false
one-Waits id rs r m w = elim (Bool-cases (count (is_open_in id) rs == 0)) [
  | inr n ↦ n
  | inl y ↦
      let shut =
        All-member (λ a. is_open_in id a ≡ false) rs r
          (count_zero-All (is_open_in id) rs (ground (arith, y))) m in
      let opened = Waits-is_open_in id r w in absurd (cc)
]

running_status : (s : CampaignStatus) → s ≢ CampaignStatus.running → is_running s ≡ false
running_status s h = ground (arith, h)

-- A row that the test of the update does not find stays what it is.
find-other :
    (p q : Campaign → Bool) (f : Campaign → Campaign)
    → ((a : Campaign) → p (f a) ≡ p a)
    → ((a : Campaign) → q a ≡ true → p a ≡ false)
    → (xs : List Campaign) → find p (map_first q f xs) ≡ find p xs
find-other p q f same apart [] = refl
find-other p q f same apart (x ∷ xs) = elim (Bool-cases (q x)) [
  | inl y ↦ rw (y, same x, apart x y) refl
  | inr n ↦ rw (n, find-other p q f same apart xs) refl
]

module _ (px : Prisma) where
  open px use {rows, find_unique_rows, update_rows, count_rows, count_rows_lem}

  pub find_campaign-write :
      (id : ℕ) (f : Campaign → Campaign) (db : Database px) (c : Campaign)
      → ((a : Campaign) → (f a).id ≡ a.id)
      → find_campaign px db id ≡ some c
      → find_campaign px (write_campaign px id f db) id ≡ some (f c)
  unfolding find_campaign
  find_campaign-write id f db c same h =
      let w : Campaign → Bool = λ c. c.id == id in
      find_unique_rows w (px.update w f db.campaigns)
      ∙ rw (update_rows w f db.campaigns) (
          find-map_first w f (λ a. rw (same a) refl) (rows db.campaigns) c
            (sym (find_unique_rows w db.campaigns) ∙ h))

  -- What completeIfFinished leaves, at `now`, of the campaign `id`, found as `c`.
  pub record Completed (db db' : Database px) (id now : ℕ) (c : Campaign) : Type 0 where
    pub finished :
        c.status ≡ CampaignStatus.running
        → ((r : Recipient) → Member r (rows db.recipients) → Waits id r → ⊥)
        → find_campaign px db' id
          ≡ some (record c { status = CampaignStatus.completed; completed_at = some now })
    pub not_running : c.status ≢ CampaignStatus.running → db' ≡ db
    pub unfinished : (r : Recipient) → Member r (rows db.recipients) → Waits id r → db' ≡ db
    pub others : (other : ℕ) → other ≢ id → find_campaign px db' other ≡ find_campaign px db other
    pub same_recipients : db'.recipients ≡ db.recipients

  finishes :
      (db : Database px) (id now : ℕ) (c : Campaign)
      → find_campaign px db id ≡ some c
      → is_running c.status ≡ true
      → (count (is_open_in id) (rows db.recipients) == 0) ≡ true
      → complete_if_finished px db id now ≡ write_campaign px id (mark_completed now) db
  unfolding complete_if_finished
  finishes db id now c h y z =
      let k : (count_rows (is_open_in id) db.recipients == 0) ≡ true =
        rw (count_rows_lem (is_open_in id) db.recipients) z in
      rw (h, complete_if_finished, y, k) refl

  keeps_running :
      (db : Database px) (id now : ℕ) (c : Campaign)
      → find_campaign px db id ≡ some c
      → is_running c.status ≡ false
      → complete_if_finished px db id now ≡ db
  unfolding complete_if_finished
  keeps_running db id now c h n = rw (h, complete_if_finished, n) refl

  keeps_waiting :
      (db : Database px) (id now : ℕ) (c : Campaign)
      → find_campaign px db id ≡ some c
      → (count (is_open_in id) (rows db.recipients) == 0) ≡ false
      → complete_if_finished px db id now ≡ db
  unfolding complete_if_finished
  keeps_waiting db id now c h z =
      let k : (count_rows (is_open_in id) db.recipients == 0) ≡ false =
        rw (count_rows_lem (is_open_in id) db.recipients) z in
      elim (Bool-cases (is_running c.status)) [
        | inl y ↦ rw (h, complete_if_finished, y, k) refl
        | inr n ↦ rw (h, complete_if_finished, n) refl
      ]

  kept-Completed :
      (db db' : Database px) (id now : ℕ) (c : Campaign)
      → db' ≡ db
      → (c.status ≡ CampaignStatus.running
          → ((r : Recipient) → Member r (rows db.recipients) → Waits id r → ⊥)
          → ⊥)
      → Completed db db' id now c
  kept-Completed db db' id now c e open_one = record {
    finished = λ s h. absurd (open_one s h);
    not_running = λ n. e;
    unfinished = λ r m w. e;
    others = λ other n. rw e refl;
    same_recipients = rw e refl;
  }

  running_not : (s : CampaignStatus) → is_running s ≡ false → s ≡ CampaignStatus.running → ⊥
  running_not s n h = ground (arith, n, h)

  other_campaign :
      (db : Database px) (id now other : ℕ)
      → other ≢ id
      → find_campaign px (write_campaign px id (mark_completed now) db) other
        ≡ find_campaign px db other
  unfolding find_campaign mark_completed
  other_campaign db id now other n =
      let p : Campaign → Bool = λ a. a.id == other in
      let q : Campaign → Bool = λ a. a.id == id in
      find_unique_rows p (px.update q (mark_completed now) db.campaigns)
      ∙ rw (update_rows q (mark_completed now) db.campaigns) (
          find-other p q (mark_completed now) (λ a. refl) (λ a h. ground (arith, h, n))
            (rows db.campaigns))
      ∙ sym (find_unique_rows p db.campaigns)

  -- completeIfFinished completes a campaign, at the present time, exactly if it is running and none
  -- of its recipients is pending or queued; otherwise it changes nothing. It never changes another
  -- campaign or a recipient.
  pub complete_if_finished-Completed :
      (db : Database px) (id now : ℕ) (c : Campaign)
      → find_campaign px db id ≡ some c
      → Completed db (complete_if_finished px db id now) id now c
  unfolding mark_completed
  complete_if_finished-Completed db id now c h = elim (Bool-cases (is_running c.status)) [
    | inr n ↦
        kept-Completed db (complete_if_finished px db id now) id now c
          (keeps_running db id now c h n) (λ s w. running_not c.status n s)
    | inl y ↦ elim (Bool-cases (count (is_open_in id) (rows db.recipients) == 0)) [
      | inr z ↦
          kept-Completed db (complete_if_finished px db id now) id now c
            (keeps_waiting db id now c h z)
            (λ s w. absurd (
              let k =
                count-zero (is_open_in id) (rows db.recipients)
                  (none-Waits id (rows db.recipients) w) in
              ground (arith, k, z)))
      | inl z ↦
          let e = finishes db id now c h y z in
          record {
            finished = λ s w. rw e (find_campaign-write id (mark_completed now) db c (λ a. refl) h);
            not_running = λ n. absurd (let k = running_status c.status n in cc);
            unfinished = λ r m w. absurd (let k = one-Waits id (rows db.recipients) r m w in cc);
            others = λ other n. rw e (other_campaign db id now other n);
            same_recipients = rw e refl;
          }
    ]
  ]
