-- ===== src/Campaigns/Imported.antt =====
-- What an import leaves: campaigns.service.ts, importContacts.
use hermes_n8n.Prelude.{
  ℕ, suc, ◌+◌, ◌≡◌, refl, sym, ◌∙◌, subst, Bool, ◌&&◌, ◌==◌, leb, List, [], ◌∷◌, inl, inr,
  Bool-cases, Option-cases, any, length, Grows-refl, Grows-append, Grows-trans, arith,
}
use hermes_n8n.Text.{Units}
use hermes_n8n.Prisma.{Prisma}
use hermes_n8n.Outcome.{ok}
use hermes_n8n.Schema.{Database}
use hermes_n8n.Schema.Messaging.{Contact}
use hermes_n8n.Schema.Campaigns.{Recipient}
use hermes_n8n.Campaigns.Phone.{normalize_e164_phone, gives_consent}
use hermes_n8n.Campaigns.Send.{is_opted_in, find_campaign}
use hermes_n8n.Campaigns.Control.{require_campaign, is_startable, audit}
use hermes_n8n.Campaigns.Import.{
  ImportRow, Summary, nothing_yet, new_recipient, max_rows, Import, import_contact,
  upsert_recipient, import_row, import_rows, import_contacts,
}
use hermes_n8n.Campaigns.Summary.{
  Counts, IsWaiting, Adds, new-IsWaiting, counted_invalid, counted_duplicate, counted_unwilling,
  counted_imported,
}

module _ (px : Prisma) where
  open px use {rows, find_unique, create_rows}

  import_contact-recipients :
      (db : Database px) (phone id : ℕ)
      → (import_contact px db phone id).0.recipients ≡ db.recipients
  unfolding import_contact
  import_contact-recipients db phone id =
      elim (Option-cases (find_unique (λ (c : Contact). c.wa_id == phone) db.contacts)) [
        | inl e ↦ rw (e, import_contact) refl
        | inr (c, e) ↦ rw (e, import_contact) refl
      ]

  upsert_recipient-Adds :
      (db : Database px) (id campaign_id contact_id now : ℕ)
      → Adds campaign_id
          (rows db.recipients)
          (rows (upsert_recipient px db id campaign_id contact_id now).recipients)
  unfolding upsert_recipient
  upsert_recipient-Adds db id campaign_id contact_id now =
      let w : Recipient → Bool = λ r. r.campaign_id == campaign_id && r.contact_id == contact_id in
      elim (Option-cases (find_unique w db.recipients)) [
        | inl e ↦
            rw
              (
                e,
                upsert_recipient,
                create_rows (new_recipient id campaign_id contact_id now) db.recipients,
              )
              (Grows-append (λ a b. b ≡ a) (IsWaiting campaign_id) (λ a. refl) (rows db.recipients)
                (new_recipient id campaign_id contact_id now)
                (new-IsWaiting id campaign_id contact_id now))
        | inr (r, e) ↦
            rw (e, upsert_recipient)
              (Grows-refl (λ a b. b ≡ a) (IsWaiting campaign_id) (λ a. refl) (rows db.recipients))
      ]

  -- The loop after `n` rows.
  record Goes (campaign_id n : ℕ) (before : List Recipient) (i : Import px) : Type 0 where
    counts : Counts n i.summary
    adds : Adds campaign_id before (rows i.db.recipients)

  Adds-trans :
      (campaign_id : ℕ) (xs ys zs : List Recipient)
      → Adds campaign_id xs ys
      → Adds campaign_id ys zs
      → Adds campaign_id xs zs
  Adds-trans campaign_id =
      Grows-trans (λ a b. b ≡ a) (IsWaiting campaign_id) (λ a b c h k. k ∙ h)
        (λ a b h w. subst (IsWaiting campaign_id) (sym h) w)

  import_row-Goes :
      (lower : Units → Units) (campaign_id n : ℕ) (before : List Recipient) (row : ImportRow)
      (i : Import px)
      → Goes campaign_id n before i
      → Goes campaign_id (suc n) before (import_row px lower campaign_id row i)
  unfolding import_row
  import_row-Goes lower campaign_id n before row i g =
      let c = g.counts in
      elim (Option-cases (normalize_e164_phone row.phone)) [
        | inl e ↦
            rw (e, import_row) (record { counts = counted_invalid n i.summary c; adds = g.adds })
        | inr (phone, e) ↦
            let k = import_contact px i.db phone row.new_contact_id in
            let kept : Adds campaign_id before (rows k.0.recipients) =
              rw (import_contact-recipients i.db phone row.new_contact_id) g.adds in
            elim (Bool-cases (any (λ p. p == phone) i.seen)) [
              | inl y ↦
                  rw (e, import_row, y)
                    (record { counts = counted_duplicate n i.summary c; adds = g.adds })
              | inr u ↦ elim (Bool-cases (gives_consent lower row.consent)) [
                | inr no_consent ↦
                    rw (e, import_row, u, no_consent)
                      (record { counts = counted_unwilling n i.summary c; adds = g.adds })
                | inl y ↦ elim (Bool-cases (is_opted_in k.1.marketing_consent_status)) [
                  | inr out ↦
                      rw (e, import_row, u, y, out)
                        (record { counts = counted_unwilling n i.summary c; adds = kept })
                  | inl z ↦
                      rw (e, import_row, u, y, z)
                        (record {
                          counts = counted_imported n i.summary c;
                          adds =
                              Adds-trans campaign_id before (rows k.0.recipients)
                                (rows
                                  (upsert_recipient px k.0 row.new_recipient_id campaign_id k.1.id
                                    row.now).recipients)
                                kept
                                (upsert_recipient-Adds k.0 row.new_recipient_id campaign_id k.1.id
                                  row.now);
                        })
                ]
              ]
            ]
      ]

  import_rows-Goes :
      (lower : Units → Units) (campaign_id : ℕ) (before : List Recipient) (file : List ImportRow)
      (n : ℕ) (i : Import px)
      → Goes campaign_id n before i
      → Goes campaign_id (n + length file) before (import_rows px lower campaign_id file i)
  unfolding import_rows
  import_rows-Goes lower campaign_id before [] n i g =
      subst (λ k. Goes campaign_id k before i) (omega arith) g
  import_rows-Goes lower campaign_id before (row ∷ file) n i g =
      subst
        (λ k.
          Goes campaign_id k before
            (import_rows px lower campaign_id file (import_row px lower campaign_id row i)))
        (omega arith)
        (import_rows-Goes lower campaign_id before file (suc n)
          (import_row px lower campaign_id row i)
          (import_row-Goes lower campaign_id n before row i g))

  import_contacts_result :
      (lower : Units → Units) (db : Database px) (id : ℕ) (file : List ImportRow) (user_id : ℕ)
      (db' : Database px) (summary : Summary)
      → import_contacts px lower db id file user_id ≡ ok (db', summary)
      → ◌≡◌ {A = px.Table Recipient × Summary}
          (
            (import_rows px lower id file
                (record { db = db; seen = []; summary = nothing_yet })).db.recipients,
            (import_rows px lower id file
                (record { db = db; seen = []; summary = nothing_yet })).summary,
          )
          (db'.recipients, summary)
  unfolding import_contacts require_campaign audit
  import_contacts_result lower db id file user_id db' summary h =
      elim (Bool-cases (leb (length file) max_rows)) [
        | inr n ↦ absurd (cc (rw n at h))
        | inl y ↦ elim (Option-cases (find_campaign px db id)) [
          | inl e ↦ absurd (cc (rw (y, e) at h))
          | inr (c, e) ↦ elim (Bool-cases (is_startable c.status)) [
            | inr n ↦ absurd (cc (rw (y, e, n) at h))
            | inl z ↦ read_off (rw (y, e, z) at h)
          ]
        ]
      ]
    where
      read_off :
          {a : Database px × Summary}
          → ok a ≡ ok (db', summary)
          → ◌≡◌ {A = px.Table Recipient × Summary} (a.0.recipients, a.1) (db'.recipients, summary)
      read_off {a} k = let e : ◌≡◌ {A = Database px × Summary} a (db', summary) = cc k in rw e refl

  -- An import that returns counts every row of the file once, as valid, invalid or a duplicate, and
  -- every valid one as imported or as without consent; it leaves the recipients that there were as
  -- they are, and adds only pending recipients of its campaign for which nothing was sent.
  pub import_contacts-Adds :
      (lower : Units → Units) (db : Database px) (id : ℕ) (file : List ImportRow) (user_id : ℕ)
      (db' : Database px) (summary : Summary)
      → import_contacts px lower db id file user_id ≡ ok (db', summary)
      → Counts (length file) summary × Adds id (rows db.recipients) (rows db'.recipients)
  import_contacts-Adds lower db id file user_id db' summary h =
      let start : Import px = record { db = db; seen = []; summary = nothing_yet } in
      let i = import_rows px lower id file start in
      let e : ◌≡◌ {A = px.Table Recipient × Summary} (i.db.recipients, i.summary)
          (db'.recipients, summary) =
        import_contacts_result lower db id file user_id db' summary h in
      let zero_first : 0 + length file ≡ length file = omega arith in
      let g : Goes id (length file) (rows db.recipients) i =
        subst (λ k. Goes id k (rows db.recipients) i) zero_first
          (import_rows-Goes lower id (rows db.recipients) file 0 start (record {
            counts = record { rows_counted = refl; valid_counted = refl; all_imported = refl };
            adds = Grows-refl (λ a b. b ≡ a) (IsWaiting id) (λ a. refl) (rows db.recipients);
          })) in
      subst
        (λ (p : px.Table Recipient × Summary).
          Counts (length file) p.1 × Adds id (rows db.recipients) (rows p.0))
        e (g.counts, g.adds)
