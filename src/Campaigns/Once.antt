-- ===== src/Campaigns/Once.antt =====
-- A recipient is claimed once: over the runs of campaigns.service.ts, its transactions in any order.
use hermes_n8n.Prelude.{
  ℕ, ◌≤◌, ◌≡◌, refl, sym, ◌∙◌, subst, true, false, ◌==◌, holds, List, [], ◌∷◌, inl, inr, Bool-cases,
  Option-cases, All-map_where, count, count-zero, map-All,
}
use hermes_n8n.Prisma.{Prisma, desc}
use hermes_n8n.Schema.{Database}
use hermes_n8n.Schema.Campaigns.{Campaign, Recipient, RecipientStatus}
use hermes_n8n.Campaigns.Send.{
  CampaignJob, Sending, SafeError, is_claimable, mark_attempted, mark_skipped, claim_recipient,
  settle, write_recipient,
}
use hermes_n8n.Campaigns.Status.{
  is_reached, Report, target, is_refused, event_at, report_status, mark_exhausted, is_exhausted,
  mark_reply, mark_recipient_status, mark_retry_exhausted, mark_replied,
}
use hermes_n8n.Campaigns.Control.{Candidate, write_start}
use hermes_n8n.Campaigns.Keeps.{
  barred, barred-claimable, claimed-Barred, IsBarred, write_recipient-IsBarred, skip-IsBarred,
  finished-IsBarred, claim_recipient-IsBarred, releases, settle-IsBarred, write_start-IsBarred,
}

report_status-barred :
    (id : ℕ) (next : RecipientStatus) (at : ℕ) (report : Report) (r : Recipient)
    → barred id (report_status next at report r) ≡ barred id r
unfolding barred report_status
report_status-barred id RecipientStatus.pending at report r = refl
report_status-barred id RecipientStatus.queued at report r = refl
report_status-barred id RecipientStatus.sent at report r = refl
report_status-barred id RecipientStatus.delivered at report r = refl
report_status-barred id RecipientStatus.read at report r = refl
report_status-barred id RecipientStatus.replied at report r = refl
report_status-barred id RecipientStatus.failed at report r = refl
report_status-barred id RecipientStatus.skipped at report r = refl

module _ (px : Prisma) (id : ℕ) where
  open px use {rows, find_unique, find_first, update_many_rows, update_many_count, update_many}

  mark_recipient_status-IsBarred :
      (db : Database px) (report : Report) (now : ℕ)
      → IsBarred px id db.recipients
      → IsBarred px id (mark_recipient_status px db report now).recipients
  unfolding mark_recipient_status
  mark_recipient_status-IsBarred db report now h =
      let at = event_at report now in
      elim (Option-cases
        (find_unique (λ (r : Recipient). holds r.wamid report.wamid) db.recipients)) [
          | inl e ↦ rw (e, mark_recipient_status) h
          | inr (r, e) ↦ elim (Option-cases (target report.status)) [
            | inl f ↦ rw (e, mark_recipient_status, f) h
            | inr (next, f) ↦ elim (Bool-cases (is_refused r next at)) [
              | inl y ↦ rw (e, mark_recipient_status, f, y) h
              | inr n ↦
                  rw (e, mark_recipient_status, f, n)
                    (finished-IsBarred px id
                      (write_recipient px r.id (report_status next at report) db) r.campaign_id now
                      (write_recipient-IsBarred px id r.id (report_status next at report) db
                        (λ s q b. report_status-barred id next at report s ∙ b) h))
            ]
          ]
        ]

  mark_retry_exhausted-IsBarred :
      (db : Database px) (job : CampaignJob) (error : SafeError) (now : ℕ)
      → IsBarred px id db.recipients
      → IsBarred px id (mark_retry_exhausted px db job error now).recipients
  unfolding mark_retry_exhausted mark_exhausted barred
  mark_retry_exhausted-IsBarred db job error now h =
      let w = is_exhausted job in
      let db' : Database px = record db {
        recipients = (update_many w (mark_exhausted error now) db.recipients).0;
      } in
      let k : IsBarred px id db'.recipients =
        rw (update_many_rows w (mark_exhausted error now) db.recipients) (
          All-map_where (λ r. barred id r ≡ true) w (mark_exhausted error now) (λ r q b. b)
            (rows db.recipients) h) in
      elim (Bool-cases ((update_many w (mark_exhausted error now) db.recipients).1 == 0)) [
        | inl y ↦ rw y k
        | inr n ↦ rw n (finished-IsBarred px id db' job.campaign_id now k)
      ]

  mark_replied-IsBarred :
      (db : Database px) (contact_id now : ℕ)
      → IsBarred px id db.recipients
      → IsBarred px id (mark_replied px db contact_id now).recipients
  unfolding mark_replied mark_reply barred
  mark_replied-IsBarred db contact_id now h =
      elim (Option-cases (
        find_first (desc (λ (r : Recipient). r.created_at) ∷ []) (is_reached contact_id)
          db.recipients)) [
            | inl e ↦ rw (e, mark_replied) h
            | inr (r, e) ↦
                rw (e, mark_replied)
                  (finished-IsBarred px id (write_recipient px r.id (mark_reply now) db)
                    r.campaign_id now
                    (write_recipient-IsBarred px id r.id (mark_reply now) db (λ s q b. b) h))
          ]

  -- One transaction, other than the release of `id` after status 429. Transactions that do not write
  -- recipients, such as the rest of pause and cancel, are `elsewhere`.
  pub data Step (db : Database px) : Database px → Type 0 where
    starts :
        (campaign : Campaign) (cs : List Candidate) (now : ℕ)
        → Step db (write_start px campaign cs now db)
    skips : (k : ℕ) → Step db (write_recipient px k mark_skipped db)
    claims : (k now : ℕ) → Step db (claim_recipient px db k now).0
    settles :
        (r : Recipient) (job : CampaignJob) (answer : Sending) (now : ℕ)
        → releases px id r.id answer ≡ false
        → Step db (settle px db r job answer now).0
    reports : (report : Report) (now : ℕ) → Step db (mark_recipient_status px db report now)
    exhausts :
        (job : CampaignJob) (error : SafeError) (now : ℕ)
        → Step db (mark_retry_exhausted px db job error now)
    replies : (contact_id now : ℕ) → Step db (mark_replied px db contact_id now)
    elsewhere : (db' : Database px) → db'.recipients ≡ db.recipients → Step db db'

  pub data Reach (db : Database px) : Database px → Type 0 where
    here : Reach db db
    next : {db' db'' : Database px} → Reach db db' → Step db' db'' → Reach db db''

  Step-IsBarred :
      (db db' : Database px)
      → Step db db'
      → IsBarred px id db.recipients
      → IsBarred px id db'.recipients
  Step-IsBarred db db' (Step.starts campaign cs now) h =
      write_start-IsBarred px id campaign cs now db h
  Step-IsBarred db db' (Step.skips k) h = skip-IsBarred px id k db h
  Step-IsBarred db db' (Step.claims k now) h = claim_recipient-IsBarred px id db k now h
  Step-IsBarred db db' (Step.settles r job answer now n) h =
      settle-IsBarred px id db r job answer now n h
  Step-IsBarred db db' (Step.reports report now) h = mark_recipient_status-IsBarred db report now h
  Step-IsBarred db db' (Step.exhausts job error now) h =
      mark_retry_exhausted-IsBarred db job error now h
  Step-IsBarred db db' (Step.replies contact_id now) h = mark_replied-IsBarred db contact_id now h
  Step-IsBarred db db' (Step.elsewhere e same) h = subst (IsBarred px id) (sym same) h

  Reach-IsBarred :
      (db db' : Database px)
      → Reach db db'
      → IsBarred px id db.recipients
      → IsBarred px id db'.recipients
  Reach-IsBarred db db' Reach.here h = h
  Reach-IsBarred db db' (Reach.next {db' = b} run step) h =
      Step-IsBarred b db' step (Reach-IsBarred db b run h)

  -- After a claim of a recipient that has found its row, every later claim of that recipient finds
  -- none, so that Meta is not called again for it: whatever is started, sent, reported and replied in
  -- between, in any order, unless Meta's answer for it is status 429. The identifiers of recipients
  -- are unique.
  pub claim_recipient_once :
      (db : Database px) (now : ℕ) (db' : Database px) (later : ℕ)
      → count (λ (r : Recipient). r.id == id) (rows db.recipients) ≤ 1
      → (claim_recipient px db id now).1 ≡ 1
      → Reach (claim_recipient px db id now).0 db'
      → (claim_recipient px db' id later).1 ≡ 0
  unfolding claim_recipient
  claim_recipient_once db now db' later unique claimed run =
      let found : count (is_claimable id) (rows db.recipients) ≡ 1 =
        sym (update_many_count (is_claimable id) (mark_attempted now) db.recipients) ∙ claimed in
      let start : IsBarred px id (claim_recipient px db id now).0.recipients =
        rw (update_many_rows (is_claimable id) (mark_attempted now) db.recipients)
          (claimed-Barred id now (rows db.recipients) unique found) in
      let end = Reach-IsBarred (claim_recipient px db id now).0 db' run start in
      update_many_count (is_claimable id) (mark_attempted later) db'.recipients
      ∙ count-zero (is_claimable id) (rows db'.recipients) (
          map-All (λ r. barred id r ≡ true) (λ r. is_claimable id r ≡ false) (barred-claimable id)
            (rows db'.recipients) end)
