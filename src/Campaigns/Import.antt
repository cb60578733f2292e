-- ===== src/Campaigns/Import.antt =====
-- The import of contacts into a campaign: campaigns.service.ts, importContacts. Names, the time and
-- the source of a consent and the number of recipients of a campaign are left out; the identifiers of
-- new rows come with the row that makes them.
use hermes_n8n.Prelude.{
  ℕ, suc, not, ◌&&◌, ◌==◌, leb, Option, none, some, List, [], ◌∷◌, if◌then◌else◌, any, length,
}
use hermes_n8n.Text.{Units}
use hermes_n8n.Prisma.{Prisma}
use hermes_n8n.Outcome.{Result, ok, HttpError, require, ◌>>=◌, ◌>>◌}
use hermes_n8n.Schema.{Database}
use hermes_n8n.Schema.Messaging.{Contact, Consent}
use hermes_n8n.Schema.Crm.{Action}
use hermes_n8n.Schema.Campaigns.{Campaign, CampaignStatus, Recipient, RecipientStatus}
use hermes_n8n.Campaigns.Phone.{normalize_e164_phone, gives_consent}
use hermes_n8n.Campaigns.Send.{is_opted_in, write_campaign}
use hermes_n8n.Campaigns.Control.{require_campaign, is_startable, audit}

pub record ImportRow : Type 0 where
  pub phone : Units
  pub consent : Option Units
  pub new_contact_id : ℕ
  pub new_recipient_id : ℕ
  pub now : ℕ

pub record Summary : Type 0 where
  pub valid : ℕ
  pub invalid : ℕ
  pub duplicates : ℕ
  pub without_consent : ℕ
  pub eligible : ℕ
  pub imported : ℕ

abbrev pub nothing_yet : Summary
nothing_yet = record {
  valid = 0;
  invalid = 0;
  duplicates = 0;
  without_consent = 0;
  eligible = 0;
  imported = 0;
}

abbrev pub count_invalid : Summary → Summary
count_invalid s = record s { invalid = suc s.invalid }

abbrev pub count_duplicate : Summary → Summary
count_duplicate s = record s { duplicates = suc s.duplicates }

abbrev pub count_unwilling : Summary → Summary
count_unwilling s = record s { valid = suc s.valid; without_consent = suc s.without_consent }

abbrev pub count_imported : Summary → Summary
count_imported s = record s {
  valid = suc s.valid;
  eligible = suc s.eligible;
  imported = suc s.imported;
}

-- A prior opt-out stays.
abbrev renewed : Consent → Consent
renewed Consent.opted_out = Consent.opted_out
renewed _ = Consent.opted_in

unfoldable pub new_recipient : ℕ → ℕ → ℕ → ℕ → Recipient
new_recipient id campaign_id contact_id now = record {
  id = id;
  campaign_id = campaign_id;
  contact_id = contact_id;
  status = RecipientStatus.pending;
  wamid = none;
  send_attempted_at = none;
  meta_timestamp = none;
  sent_at = none;
  delivered_at = none;
  read_at = none;
  replied_at = none;
  failed_at = none;
  error_code = none;
  error_message = none;
  created_at = now;
}

abbrev pub max_rows : ℕ
max_rows = 500

module _ (px : Prisma) where
  open px use {find_unique, update, create}

  pub record Import : Type 0 where
    pub db : Database px
    pub seen : List ℕ
    pub summary : Summary

  -- The contact of a number, updated or created, and its consent.
  unfoldable pub import_contact : Database px → (phone id : ℕ) → Database px × Contact
  import_contact db phone id = elim (find_unique (λ (c : Contact). c.wa_id == phone) db.contacts) [
    | some existing ↦
        let consent = renewed existing.marketing_consent_status in
        let f : Contact → Contact = λ c. record c { marketing_consent_status = consent } in
        (
          record db { contacts = update (λ (c : Contact). c.id == existing.id) f db.contacts },
          f existing,
        )
    | none ↦
        let c : Contact = record {
          id = id;
          wa_id = phone;
          marketing_consent_status = Consent.opted_in;
        } in
        (record db { contacts = create c db.contacts }, c)
  ]

  unfoldable pub upsert_recipient : Database px → (id campaign_id contact_id now : ℕ) → Database px
  unfolding new_recipient
  upsert_recipient db id campaign_id contact_id now =
      elim (find_unique
        (λ (r : Recipient). r.campaign_id == campaign_id && r.contact_id == contact_id)
        db.recipients) [
          | some r ↦ db
          | none ↦ record db {
            recipients = create (new_recipient id campaign_id contact_id now) db.recipients;
          }
        ]

  -- One row of the file.
  unfoldable pub import_row : (lower : Units → Units) → ℕ → ImportRow → Import → Import
  unfolding normalize_e164_phone gives_consent import_contact upsert_recipient
  import_row lower campaign_id row i = elim (normalize_e164_phone row.phone) [
    | none ↦ record i { summary = count_invalid i.summary }
    | some phone ↦
        let repeated : Import = record i { summary = count_duplicate i.summary } in
        let unwilling : Import = record {
          db = i.db;
          seen = phone ∷ i.seen;
          summary = count_unwilling i.summary;
        } in
        let c = import_contact i.db phone row.new_contact_id in
        let opted_out : Import = record {
          db = c.0;
          seen = phone ∷ i.seen;
          summary = count_unwilling i.summary;
        } in
        let imported : Import = record {
          db = upsert_recipient c.0 row.new_recipient_id campaign_id c.1.id row.now;
          seen = phone ∷ i.seen;
          summary = count_imported i.summary;
        } in
        if any (λ p. p == phone) i.seen
        then repeated
        else if not (gives_consent lower row.consent)
        then unwilling
        else if is_opted_in c.1.marketing_consent_status
        then imported
        else opted_out
  ]

  unfoldable pub import_rows : (lower : Units → Units) → ℕ → List ImportRow → Import → Import
  unfolding import_row
  import_rows lower campaign_id [] i = i
  import_rows lower campaign_id (row ∷ rows) i =
      import_rows lower campaign_id rows (import_row lower campaign_id row i)

  unfoldable pub import_contacts :
      (lower : Units → Units)
      → Database px
      → ℕ
      → List ImportRow
      → (user_id : ℕ) → Result (Database px × Summary)
  unfolding require_campaign is_startable import_rows audit
  import_contacts lower db id rows user_id =
      require (leb (length rows) max_rows) HttpError.bad_request
      >> require_campaign px db id
      >>= λ campaign.
          require (is_startable campaign.status) HttpError.bad_request
          >> (let i =
                import_rows lower id rows (record { db = db; seen = []; summary = nothing_yet }) in
              let ready : Campaign → Campaign = λ c. record c { status = CampaignStatus.ready } in
              ok (
                audit px (write_campaign px id ready i.db) Action.campaign_contacts_imported user_id
                    id,
                i.summary,
              ))
