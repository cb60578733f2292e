-- ===== src/Campaigns/Status.antt =====
-- What Meta and the contacts report: campaigns.service.ts, markRecipientStatus, markRetryExhausted,
-- markReplied, optOut and sanitizeError. A time in a report is a whole number of seconds.
use hermes_n8n.Prelude.{
  ℕ, ◌*◌, Bool, true, false, ◌&&◌, ◌||◌, ◌==◌, ltb, holds, Option, none, some, is_none, String, [],
  ◌∷◌, if◌then◌else◌,
}
use hermes_n8n.Prisma.{Prisma, desc}
use hermes_n8n.Schema.{Database}
use hermes_n8n.Schema.Messaging.{Contact, Consent}
use hermes_n8n.Schema.Campaigns.{Recipient, RecipientStatus, is_queued}
use hermes_n8n.Campaigns.Send.{CampaignJob, SafeError, complete_if_finished, write_recipient}

-- The `status` of a report.
pub data MetaStatus : Type 0 where
  sent delivered read failed unrecognized : MetaStatus

-- The report of a status: `timestamp` if it is written in digits, and the error after `String` and
-- `sanitizeError`.
pub record Report : Type 0 where
  pub wamid : ℕ
  pub status : MetaStatus
  pub timestamp : Option ℕ
  pub error_code : Option String
  pub error_message : Option String

unfoldable pub rank : RecipientStatus → ℕ
rank RecipientStatus.queued = 0
rank RecipientStatus.pending = 0
rank RecipientStatus.sent = 1
rank RecipientStatus.delivered = 2
rank RecipientStatus.read = 3
rank RecipientStatus.replied = 4
rank RecipientStatus.failed = 4
rank RecipientStatus.skipped = 4

unfoldable pub target : MetaStatus → Option RecipientStatus
target sent = some RecipientStatus.sent
target delivered = some RecipientStatus.delivered
target read = some RecipientStatus.read
target failed = some RecipientStatus.failed
target unrecognized = none

unfoldable pub is_terminal : RecipientStatus → Bool
is_terminal RecipientStatus.replied = true
is_terminal RecipientStatus.failed = true
is_terminal RecipientStatus.skipped = true
is_terminal _ = false

unfoldable pub event_at : Report → ℕ → ℕ
event_at report now = elim report.timestamp [ none ↦ now | some seconds ↦ seconds * 1000 ]

-- Whether the report is older than what the recipient has seen.
unfoldable pub is_stale : Option ℕ → ℕ → Bool
is_stale none at = false
is_stale (some seen) at = ltb at seen

unfoldable pub is_refused : Recipient → RecipientStatus → ℕ → Bool
unfolding rank is_terminal is_stale
is_refused r next at =
    is_terminal r.status || ltb (rank next) (rank r.status) || is_stale r.meta_timestamp at

unfoldable pub report_status : RecipientStatus → ℕ → Report → Recipient → Recipient
report_status RecipientStatus.sent at report r = record r {
  status = RecipientStatus.sent;
  meta_timestamp = some at;
  sent_at = some at;
}
report_status RecipientStatus.delivered at report r = record r {
  status = RecipientStatus.delivered;
  meta_timestamp = some at;
  delivered_at = some at;
}
report_status RecipientStatus.read at report r = record r {
  status = RecipientStatus.read;
  meta_timestamp = some at;
  read_at = some at;
}
report_status RecipientStatus.failed at report r = record r {
  status = RecipientStatus.failed;
  meta_timestamp = some at;
  failed_at = some at;
  error_code = report.error_code;
  error_message = report.error_message;
}
report_status next at report r = record r { status = next; meta_timestamp = some at }

abbrev exhausted_message : String
exhausted_message = "Meta rechazó repetidamente la solicitud por límite de tasa."

unfoldable pub mark_exhausted : SafeError → ℕ → Recipient → Recipient
mark_exhausted error now r = record r {
  status = RecipientStatus.failed;
  failed_at = some now;
  error_code = error.code;
  error_message = some exhausted_message;
}

unfoldable pub is_exhausted : CampaignJob → Recipient → Bool
is_exhausted job r =
    r.id == job.recipient_id
    && (r.campaign_id == job.campaign_id && (is_queued r.status && is_none r.wamid))

unfoldable pub mark_reply : ℕ → Recipient → Recipient
mark_reply now r = record r { status = RecipientStatus.replied; replied_at = some now }

abbrev is_delivery : RecipientStatus → Bool
is_delivery RecipientStatus.sent = true
is_delivery RecipientStatus.delivered = true
is_delivery RecipientStatus.read = true
is_delivery _ = false

unfoldable pub is_reached : ℕ → Recipient → Bool
is_reached contact_id r = r.contact_id == contact_id && is_delivery r.status

module _ (px : Prisma) where
  open px use {find_unique, find_first, update, update_many}

  unfoldable pub mark_recipient_status : Database px → Report → ℕ → Database px
  unfolding target event_at is_refused report_status complete_if_finished
  mark_recipient_status db report now =
      let at = event_at report now in
      elim (find_unique (λ (r : Recipient). holds r.wamid report.wamid) db.recipients) [
        | none ↦ db
        | some r ↦ elim (target report.status) [
          | none ↦ db
          | some next ↦
              let written = write_recipient px r.id (report_status next at report) db in
              let reported = complete_if_finished px written r.campaign_id now in
              if is_refused r next at then db else reported
        ]
      ]

  unfoldable pub mark_retry_exhausted : Database px → CampaignJob → SafeError → ℕ → Database px
  unfolding is_exhausted mark_exhausted complete_if_finished
  mark_retry_exhausted db job error now =
      let r = update_many (is_exhausted job) (mark_exhausted error now) db.recipients in
      let db' : Database px = record db { recipients = r.0 } in
      let done = complete_if_finished px db' job.campaign_id now in if r.1 == 0 then db' else done

  unfoldable pub mark_replied : Database px → (contact_id now : ℕ) → Database px
  unfolding is_reached mark_reply complete_if_finished
  mark_replied db contact_id now =
      elim (find_first (desc (λ (r : Recipient). r.created_at) ∷ []) (is_reached contact_id)
        db.recipients) [
          | none ↦ db
          | some r ↦
              complete_if_finished px (write_recipient px r.id (mark_reply now) db) r.campaign_id
                now
        ]

  unfoldable pub opt_out : Database px → ℕ → Database px
  opt_out db contact_id = record db {
    contacts =
        update (λ (c : Contact). c.id == contact_id)
          (λ c. record c { marketing_consent_status = Consent.opted_out }) db.contacts;
  }
