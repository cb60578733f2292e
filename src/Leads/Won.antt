-- ===== src/Leads/Won.antt =====
-- `recordWonMilestone` of hermes-backend/src/leads/leads.service.ts.
use hermes_n8n.Prelude.{ℕ, Bool, not, ◌&&◌, ◌==◌, Option, none, some, holds, if◌then◌else◌}
use hermes_n8n.Prisma.{Prisma}
use hermes_n8n.Schema.{Database}
use hermes_n8n.Schema.Crm.{Lead, Conversion, EventType, SyncJob, is_contract_won}
use hermes_n8n.Outcome.{HttpError, Result, ok, err}
use hermes_n8n.Text.{same_text}

-- `Number(value)`, where null is 0.
abbrev pub number_of : Option ℕ → ℕ
number_of none = 0
number_of (some n) = n

abbrev pub or_now : Option ℕ → ℕ → ℕ
or_now none now = now
or_now (some t) now = t

unfoldable pub new_conversion : ℕ → ℕ → Lead → ℕ → Conversion
new_conversion id now lead user_id = record {
  id = id;
  event_type = EventType.contract_won;
  lead_id = some lead.id;
  contact_id = some lead.contact_id;
  occurred_at = or_now lead.won_at now;
  verified_by_user_id = some user_id;
  value = lead.contracted_amount;
  currency = lead.commercial_currency;
  commercial_reference = lead.contract_reference;
}

-- The recorded milestone says what the lead says.
abbrev pub agrees : Conversion → Lead → Bool
agrees c lead =
    number_of c.value == number_of lead.contracted_amount
    && same_text c.currency lead.commercial_currency
    && same_text c.commercial_reference lead.contract_reference

abbrev pub is_won_of : ℕ → Conversion → Bool
is_won_of lead_id c = holds c.lead_id lead_id && is_contract_won c.event_type

module _ (px : Prisma) where
  open px use {Table, find_unique, create}

  unfoldable pub upsert_conversion : Database px → Lead → ℕ → ℕ → ℕ → Database px × Conversion
  upsert_conversion db lead user_id id now = elim (find_unique (is_won_of lead.id) db.conversions) [
    | some c ↦ (db, c)
    | none ↦
        let c = new_conversion id now lead user_id in
        (record db { conversions = create c db.conversions }, c)
  ]

  unfoldable pub upsert_job : Database px → ℕ → Bool → Database px
  upsert_job db conversion_id validate_only =
      elim (find_unique (λ (j : SyncJob). j.conversion_id == conversion_id) db.sync_jobs) [
        | some j ↦ db
        | none ↦ record db {
          sync_jobs =
              create (record { conversion_id = conversion_id; validate_only = validate_only })
                db.sync_jobs;
        }
      ]

  unfoldable pub record_won_milestone :
      (send_enabled : Bool) → Database px → Lead → (user_id id now : ℕ) → Result (Database px)
  unfolding upsert_conversion upsert_job new_conversion
  record_won_milestone send_enabled db lead user_id id now =
      let (db', conversion) = upsert_conversion db lead user_id id now in
      if agrees conversion lead
      then ok (upsert_job db' conversion.id (not send_enabled))
      else err HttpError.conflict
