-- ===== src/Campaigns/Calls.antt =====
-- When a job calls Meta: campaigns.service.ts, processSendJob.
use hermes_n8n.Prelude.{
  Member, count, count-Member, Member-map_where, none, ◌≤◌, ◌⊎◌, ℕ, ◌≡◌, refl, subst, true, ◌==◌,
  ==_true, some, inl, inr, Bool-cases, Option-cases, arith,
}
use hermes_n8n.Prisma.{Prisma}
use hermes_n8n.Schema.{Database}
use hermes_n8n.Schema.Messaging.{Contact, Consent}
use hermes_n8n.Schema.Campaigns.{
  Campaign, CampaignStatus, Recipient, RecipientStatus, is_queued, is_running,
}
use hermes_n8n.Campaigns.Send.{claim, CampaignJob, Sending, find_campaign, claim_recipient}
use hermes_n8n.Campaigns.Send.{
  is_opted_in, is_claimable, mark_attempted, Gate, read_gate, has_opted_in, is_ignored,
  process_send_job,
}

Gate-cases :
    (g : Gate)
    → (g ≡ Gate.ignore)
      ⊎ (((r : Recipient) × (g ≡ Gate.skip r)) ⊎ ((r : Recipient) × (g ≡ Gate.claim r)))
Gate-cases Gate.ignore = inl refl
Gate-cases (Gate.skip r) = inr (inl (r, refl))
Gate-cases (Gate.claim r) = inr (inr (r, refl))

claim_of : (r s : Recipient) → Gate.claim r ≡ Gate.claim s → r ≡ s
claim_of r s h = cc

running_status : (s : CampaignStatus) → is_running s ≡ true → s ≡ CampaignStatus.running
running_status s h = ground (arith, h)

queued_status : (s : RecipientStatus) → is_queued s ≡ true → s ≡ RecipientStatus.queued
queued_status s h = ground (arith, h)

module _ (px : Prisma) where
  open px use {rows, find_unique, update_many_rows, update_many_count}

  -- What the first read has found when it lets a recipient through.
  pub record Ready (db : Database px) (job : CampaignJob) (r : Recipient) : Type 0 where
    pub found : find_unique (λ (s : Recipient). s.id == job.recipient_id) db.recipients ≡ some r
    pub of_job : r.campaign_id ≡ job.campaign_id
    pub campaign : Campaign
    pub of_campaign :
        find_unique (λ (c : Campaign). c.id == job.campaign_id) db.campaigns ≡ some campaign
    pub running : campaign.status ≡ CampaignStatus.running
    pub queued : r.status ≡ RecipientStatus.queued
    pub unsent : r.wamid ≡ none
    pub contact : Contact
    pub of_contact : find_unique (λ (c : Contact). c.id == r.contact_id) db.contacts ≡ some contact
    pub willing : contact.marketing_consent_status ≡ Consent.opted_in

  -- A claim has found a row that was queued, without message and without attempt, and has noted the
  -- attempt.
  pub record Attempted (before after : Database px) (id now : ℕ) : Type 0 where
    pub row : Recipient
    pub before_claim : Member row (rows before.recipients)
    pub claimed_id : row.id ≡ id
    pub claimed_queued : row.status ≡ RecipientStatus.queued
    pub claimed_unsent : row.wamid ≡ none
    pub unattempted : row.send_attempted_at ≡ none
    pub after_claim : Member (record row { send_attempted_at = some now }) (rows after.recipients)

  opted_in_contact :
      (db : Database px) (id : ℕ)
      → has_opted_in px db id ≡ true
      → (c : Contact) × (find_unique (λ (a : Contact). a.id == id) db.contacts ≡ some c)
        × (c.marketing_consent_status ≡ Consent.opted_in)
  unfolding has_opted_in
  opted_in_contact db id h =
      elim (Option-cases (find_unique (λ (a : Contact). a.id == id) db.contacts)) [
        | inl e ↦ absurd (cc (rw (e, has_opted_in) at h))
        | inr (c, e) ↦ (c, e, opted_in c.marketing_consent_status (rw (e, has_opted_in) at h))
      ]
    where
      opted_in : (s : Consent) → is_opted_in s ≡ true → s ≡ Consent.opted_in
      opted_in s h = ground (arith, h)

  read_gate-Ready :
      (db : Database px) (job : CampaignJob) (r : Recipient)
      → read_gate px db job ≡ claim r
      → Ready db job r
  unfolding read_gate is_ignored find_campaign
  read_gate-Ready db job r h =
      elim (Option-cases
        (find_unique (λ (s : Recipient). s.id == job.recipient_id) db.recipients)) [
          | inl e ↦ absurd (cc (rw (e, read_gate) at h))
          | inr (s, e) ↦ elim (Option-cases (find_campaign px db s.campaign_id)) [
            | inl f ↦ absurd (cc (rw (e, read_gate, f) at h))
            | inr (c, f) ↦ elim (Bool-cases (is_ignored job s c)) [
              | inl y ↦ absurd (cc (rw (e, read_gate, f, y) at h))
              | inr n ↦ elim (Bool-cases (has_opted_in px db s.contact_id)) [
                | inr z ↦ absurd (cc (rw (e, read_gate, f, n, z) at h))
                | inl w ↦
                    let same : s ≡ r = claim_of s r (rw (e, read_gate, f, n, w) at h) in
                    let of_job : s.campaign_id ≡ job.campaign_id = ground (arith, n) in
                    let (contact, g, k) = opted_in_contact db s.contact_id w in
                    subst (λ x. Ready db job x) same
                      (record {
                        found = e;
                        of_job = of_job;
                        campaign = c;
                        of_campaign = rw of_job at f;
                        running = running_status c.status (ground (arith, n));
                        queued = queued_status s.status (ground (arith, n));
                        unsent = ground (arith, n);
                        contact = contact;
                        of_contact = g;
                        willing = k;
                      })
              ]
            ]
          ]
        ]

  claim_recipient-Attempted :
      (db : Database px) (id now : ℕ)
      → (claim_recipient px db id now).1 ≡ 1
      → Attempted db (claim_recipient px db id now).0 id now
  unfolding claim_recipient is_claimable mark_attempted
  claim_recipient-Attempted db id now h =
      let n : 1 ≤ count (is_claimable id) (rows db.recipients) =
        omega (arith, update_many_count (is_claimable id) (mark_attempted now) db.recipients, h) in
      let (r, m, t) = count-Member (is_claimable id) (rows db.recipients) n in
      record {
        row = r;
        before_claim = m;
        claimed_id = ground (arith, t);
        claimed_queued = queued_status r.status (ground (arith, t));
        claimed_unsent = ground (arith, t);
        unattempted = ground (arith, t);
        after_claim =
            rw (update_many_rows (is_claimable id) (mark_attempted now) db.recipients)
              (Member-map_where (is_claimable id) (mark_attempted now) (rows db.recipients) r m t);
      }

  -- If a job has called Meta, then its first read had found the recipient, of the job's campaign,
  -- queued and without message identifier, the campaign running and the contact opted in; and its
  -- claim, on the database as it was by then, had found a row of that recipient still queued and
  -- without message identifier and attempt, and had noted the attempt in it before the call.
  pub process_send_job-called :
      (others others' : Database px → Database px) (db : Database px) (job : CampaignJob)
      (answer : Sending) (now : ℕ)
      → (process_send_job px others others' db job answer now).1 ≡ true
      → (r : Recipient) × Ready db job r
        × Attempted (others db) (claim_recipient px (others db) r.id now).0 r.id now
  unfolding process_send_job
  process_send_job-called others others' db job answer now h =
      elim (Gate-cases (read_gate px db job)) [
        | inl e ↦ absurd (cc (rw (e, process_send_job) at h))
        | inr (inl (r, e)) ↦ absurd (cc (rw (e, process_send_job) at h))
        | inr (inr (r, e)) ↦ elim (Bool-cases ((claim_recipient px (others db) r.id now).1 == 1)) [
          | inr n ↦ absurd (cc (rw (e, process_send_job, n) at h))
          | inl y ↦ (
            r,
            read_gate-Ready db job r e,
            claim_recipient-Attempted (others db) r.id now
                (==_true (claim_recipient px (others db) r.id now).1 1 y),
          )
        ]
      ]
