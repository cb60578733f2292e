-- ===== src/Campaigns/Send.antt =====
-- The sending of one recipient: campaigns.service.ts, processSendJob and completeIfFinished. The
-- job is its steps: what it reads, the claim, the call of Meta and what it writes of the answer;
-- what other workers do between two steps is a function of the database. Exceptions of the database
-- are left out.
use hermes_n8n.Prelude.{
  ℕ, Bool, true, false, not, ◌&&◌, ◌||◌, ◌==◌, holds, Option, none, some, is_none, is_some, String,
  if◌then◌else◌,
}
use hermes_n8n.Prisma.{Prisma}
use hermes_n8n.Schema.{Database}
use hermes_n8n.Schema.Messaging.{Contact, Consent}
use hermes_n8n.Schema.Campaigns.{
  Campaign, CampaignStatus, Recipient, RecipientStatus, is_running, is_queued, is_open_recipient,
}

-- `meta.toSafeError(error)`.
pub record SafeError : Type 0 where
  pub status : Option ℕ
  pub code : Option String
  pub message : String
  pub retryable : Bool

-- The answer of Meta: a message identifier, or an exception, also for an answer without one.
pub data Sending : Type 0 where
  accepted : (wamid : ℕ) → Sending
  refused : SafeError → Sending

pub record CampaignJob : Type 0 where
  pub campaign_id : ℕ
  pub recipient_id : ℕ

abbrev pub is_opted_in : Consent → Bool
is_opted_in Consent.opted_in = true
is_opted_in _ = false

-- What the job is to do after its first read.
pub data Gate : Type 0 where
  ignore : Gate
  skip : Recipient → Gate
  claim : Recipient → Gate

abbrev unconfirmed : String
unconfirmed = "Entrega no confirmada; no se reintentó para evitar un envío duplicado."

unfoldable pub mark_skipped : Recipient → Recipient
mark_skipped r = record r { status = RecipientStatus.skipped }

unfoldable pub mark_attempted : ℕ → Recipient → Recipient
mark_attempted now r = record r { send_attempted_at = some now }

unfoldable pub mark_released : Recipient → Recipient
mark_released r = record r { send_attempted_at = none }

unfoldable pub mark_sent : ℕ → ℕ → Recipient → Recipient
mark_sent wamid now r = record r {
  status = RecipientStatus.sent;
  wamid = some wamid;
  sent_at = some now;
  error_code = none;
  error_message = none;
}

unfoldable pub mark_failed : SafeError → ℕ → Recipient → Recipient
mark_failed error now r = record r {
  status = RecipientStatus.failed;
  failed_at = some now;
  error_code = error.code;
  error_message = some (if error.retryable then unconfirmed else error.message);
}

unfoldable pub mark_completed : ℕ → Campaign → Campaign
mark_completed now c = record c { status = CampaignStatus.completed; completed_at = some now }

-- The `where` of the claim.
unfoldable pub is_claimable : ℕ → Recipient → Bool
is_claimable id r =
    r.id == id && (is_queued r.status && (is_none r.wamid && is_none r.send_attempted_at))

unfoldable pub is_open_in : ℕ → Recipient → Bool
is_open_in campaign_id r = r.campaign_id == campaign_id && is_open_recipient r.status

unfoldable pub is_ignored : CampaignJob → Recipient → Campaign → Bool
is_ignored job r campaign =
    not (r.campaign_id == job.campaign_id)
    || is_some r.wamid
    || not (is_queued r.status)
    || not (is_running campaign.status)

module _ (px : Prisma) where
  open px use {find_unique, update, update_many, count_rows}

  abbrev pub write_recipient : ℕ → (Recipient → Recipient) → Database px → Database px
  write_recipient id f db = record db {
    recipients = update (λ (r : Recipient). r.id == id) f db.recipients;
  }

  abbrev pub write_campaign : ℕ → (Campaign → Campaign) → Database px → Database px
  write_campaign id f db = record db {
    campaigns = update (λ (c : Campaign). c.id == id) f db.campaigns;
  }

  unfoldable pub find_campaign : Database px → ℕ → Option Campaign
  find_campaign db id = find_unique (λ (c : Campaign). c.id == id) db.campaigns

  -- The consent of the contact of a recipient.
  unfoldable pub has_opted_in : Database px → ℕ → Bool
  has_opted_in db contact_id =
      elim (find_unique (λ (c : Contact). c.id == contact_id) db.contacts) [
        | none ↦ false
        | some c ↦ is_opted_in c.marketing_consent_status
      ]

  unfoldable pub complete_if_finished : Database px → (campaign_id now : ℕ) → Database px
  unfolding find_campaign is_open_in mark_completed
  complete_if_finished db campaign_id now =
      let finished = write_campaign campaign_id (mark_completed now) db in
      let open_recipients = count_rows (is_open_in campaign_id) db.recipients in
      elim (find_campaign db campaign_id) [
        | none ↦ db
        | some campaign ↦
            if not (is_running campaign.status)
            then db
            else if open_recipients == 0
            then finished
            else db
      ]

  unfoldable pub read_gate : Database px → CampaignJob → Gate
  unfolding is_ignored has_opted_in find_campaign
  read_gate db job =
      elim (find_unique (λ (r : Recipient). r.id == job.recipient_id) db.recipients) [
        | none ↦ ignore
        | some r ↦ elim (find_campaign db r.campaign_id) [
          | none ↦ ignore
          | some campaign ↦
              if is_ignored job r campaign
              then ignore
              else if has_opted_in db r.contact_id
              then claim r
              else skip r
        ]
      ]

  unfoldable pub claim_recipient : Database px → (id now : ℕ) → Database px × ℕ
  unfolding is_claimable mark_attempted
  claim_recipient db id now =
      let r = update_many (is_claimable id) (mark_attempted now) db.recipients in
      (record db { recipients = r.0 }, r.1)

  -- What is written of the answer, and whether the exception goes on to the queue, which retries.
  unfoldable pub settle : Database px → Recipient → CampaignJob → Sending → ℕ → Database px × Bool
  unfolding complete_if_finished mark_sent mark_released mark_failed
  settle db r job (accepted wamid) now = (
    complete_if_finished (write_recipient r.id (mark_sent wamid now) db) job.campaign_id now,
    false,
  )
  settle db r job (refused error) now =
      if holds error.status 429 then (write_recipient r.id mark_released db, true) else (
        complete_if_finished (write_recipient r.id (mark_failed error now) db) job.campaign_id now,
        false,
      )

  -- The job, with the databases that it meets at its three steps. The answer says whether Meta was
  -- called, and whether the exception goes on to the queue.
  unfoldable pub process_send_job :
      (others others' : Database px → Database px)
      → Database px
      → CampaignJob
      → Sending
      → ℕ
      → Database px × Bool × Bool
  unfolding read_gate claim_recipient settle mark_skipped
  process_send_job others others' db job answer now = elim (read_gate db job) [
    | ignore ↦ (db, false, false)
    | skip r ↦ (write_recipient r.id mark_skipped (others db), false, false)
    | claim r ↦
        let c = claim_recipient (others db) r.id now in
        let s = settle (others' c.0) r job answer now in
        if c.1 == 1 then (s.0, true, s.1) else (c.0, false, false)
  ]
