-- ===== src/Campaigns/Progress.antt =====
-- How far recipients come: campaigns.service.ts, markRecipientStatus.
use hermes_n8n.Prelude.{
  Grows-map_first, find-Member, Grows-refl, Grows, ℕ, ◌≤◌, ◌≡◌, refl, sym, ◌∙◌, subst, false, ◌==◌,
  ==_refl, holds, some, inl, inr, Bool-cases, Option-cases, find-some, count, arith,
}
use hermes_n8n.Prisma.{Prisma}
use hermes_n8n.Schema.{Database}
use hermes_n8n.Schema.Campaigns.{Recipient, RecipientStatus}
use hermes_n8n.Campaigns.Send.{write_recipient}
use hermes_n8n.Campaigns.Status.{
  is_stale, Report, target, is_terminal, is_refused, event_at, report_status, mark_recipient_status,
}
use hermes_n8n.Campaigns.Keeps.{complete_if_finished-recipients}
use hermes_n8n.Campaigns.Life.{Leads, IsFinal, IsFinal-is_terminal, target-Leads}

-- A recipient moves on, never back to a report of an earlier time, and stays as it is in a final
-- status.
pub record Advances (a b : Recipient) : Type 0 where
  pub on : Leads a.status b.status
  pub final : IsFinal a.status → b ≡ a
  pub in_time :
      (seen : ℕ)
      → a.meta_timestamp ≡ some seen
      → (at : ℕ) × (b.meta_timestamp ≡ some at) × (seen ≤ at)
  pub same_id : b.id ≡ a.id
  pub same_campaign : b.campaign_id ≡ a.campaign_id
  pub same_contact : b.contact_id ≡ a.contact_id
  pub same_message : b.wamid ≡ a.wamid
  pub same_attempt : b.send_attempted_at ≡ a.send_attempted_at

Advances-refl : (a : Recipient) → Advances a a
Advances-refl a = record {
  on = Leads.stays a.status;
  final = λ f. refl;
  in_time = λ seen h. (seen, h, omega arith);
  same_id = refl;
  same_campaign = refl;
  same_contact = refl;
  same_message = refl;
  same_attempt = refl;
}

-- What a report writes, beside the times and the error.
record Writes (next : RecipientStatus) (at : ℕ) (a b : Recipient) : Type 0 where
  status : b.status ≡ next
  time : b.meta_timestamp ≡ some at
  same_id : b.id ≡ a.id
  same_campaign : b.campaign_id ≡ a.campaign_id
  same_contact : b.contact_id ≡ a.contact_id
  same_message : b.wamid ≡ a.wamid
  same_attempt : b.send_attempted_at ≡ a.send_attempted_at

report_status-Writes :
    (next : RecipientStatus) (at : ℕ) (report : Report) (r : Recipient)
    → Writes next at r (report_status next at report r)
unfolding report_status
report_status-Writes RecipientStatus.pending at report r = record {
  status = refl;
  time = refl;
  same_id = refl;
  same_campaign = refl;
  same_contact = refl;
  same_message = refl;
  same_attempt = refl;
}
report_status-Writes RecipientStatus.queued at report r = record {
  status = refl;
  time = refl;
  same_id = refl;
  same_campaign = refl;
  same_contact = refl;
  same_message = refl;
  same_attempt = refl;
}
report_status-Writes RecipientStatus.sent at report r = record {
  status = refl;
  time = refl;
  same_id = refl;
  same_campaign = refl;
  same_contact = refl;
  same_message = refl;
  same_attempt = refl;
}
report_status-Writes RecipientStatus.delivered at report r = record {
  status = refl;
  time = refl;
  same_id = refl;
  same_campaign = refl;
  same_contact = refl;
  same_message = refl;
  same_attempt = refl;
}
report_status-Writes RecipientStatus.read at report r = record {
  status = refl;
  time = refl;
  same_id = refl;
  same_campaign = refl;
  same_contact = refl;
  same_message = refl;
  same_attempt = refl;
}
report_status-Writes RecipientStatus.replied at report r = record {
  status = refl;
  time = refl;
  same_id = refl;
  same_campaign = refl;
  same_contact = refl;
  same_message = refl;
  same_attempt = refl;
}
report_status-Writes RecipientStatus.failed at report r = record {
  status = refl;
  time = refl;
  same_id = refl;
  same_campaign = refl;
  same_contact = refl;
  same_message = refl;
  same_attempt = refl;
}
report_status-Writes RecipientStatus.skipped at report r = record {
  status = refl;
  time = refl;
  same_id = refl;
  same_campaign = refl;
  same_contact = refl;
  same_message = refl;
  same_attempt = refl;
}

reported-Advances :
    (next : RecipientStatus) (at : ℕ) (report : Report) (r : Recipient)
    → target report.status ≡ some next
    → is_refused r next at ≡ false
    → Advances r (report_status next at report r)
unfolding is_refused is_stale
reported-Advances next at report r e h =
    let w = report_status-Writes next at report r in
    let open_status : is_terminal r.status ≡ false = ground (arith, h) in
    record {
      on =
          subst (Leads r.status) (sym w.status)
            (target-Leads report.status r.status next e open_status (ground (arith, h)));
      final = λ f. absurd (closed r.status f open_status);
      in_time = λ seen k. (at, w.time, ground (arith, h, k));
      same_id = w.same_id;
      same_campaign = w.same_campaign;
      same_contact = w.same_contact;
      same_message = w.same_message;
      same_attempt = w.same_attempt;
    }
  where
    closed : (s : RecipientStatus) → IsFinal s → is_terminal s ≡ false → ⊥
    closed s f h = let k = IsFinal-is_terminal s f in cc

same_row : (r a : Recipient) → some r ≡ some a → r ≡ a
same_row r a h = cc

module _ (px : Prisma) where
  open px use {rows, find_unique, find_unique_rows, update_rows, count_rows, count_rows_lem}

  -- A report of a status leaves every recipient as it is or moves it along its life, from pending
  -- or queued over sent and delivered to read, or from any of these to failed, never by a report of
  -- an earlier time than it has seen, whatever order the reports come in; recipients that have
  -- replied, failed or been skipped stay as they are; none comes or goes, or changes its campaign,
  -- contact, message or attempt. The identifiers of recipients are unique.
  pub mark_recipient_status-Advances :
      (db : Database px) (report : Report) (now : ℕ)
      → ((id : ℕ) → count (λ (r : Recipient). r.id == id) (rows db.recipients) ≤ 1)
      → Grows Advances
          (λ r. ⊥)
          (rows db.recipients)
          (rows (mark_recipient_status px db report now).recipients)
  unfolding mark_recipient_status
  mark_recipient_status-Advances db report now unique =
      let at = event_at report now in
      let same = Grows-refl Advances (λ r. ⊥) Advances-refl (rows db.recipients) in
      elim (Option-cases
        (find_unique (λ (r : Recipient). holds r.wamid report.wamid) db.recipients)) [
          | inl e ↦ rw (e, mark_recipient_status) same
          | inr (r, e) ↦ elim (Option-cases (target report.status)) [
            | inl f ↦ rw (e, mark_recipient_status, f) same
            | inr (next, f) ↦ elim (Bool-cases (is_refused r next at)) [
              | inl y ↦ rw (e, mark_recipient_status, f, y) same
              | inr n ↦
                  let m =
                    find-some (λ (r : Recipient). holds r.wamid report.wamid) (rows db.recipients) r
                      (sym (
                          find_unique_rows (λ (r : Recipient). holds r.wamid report.wamid)
                            db.recipients)
                        ∙ e) in
                  let found =
                    find-Member (λ (s : Recipient). s.id == r.id) (rows db.recipients) r
                      (unique r.id) m.1 (==_refl r.id) in
                  rw
                    (
                      e,
                      mark_recipient_status,
                      f,
                      n,
                      complete_if_finished-recipients px 0
                          (write_recipient px r.id (report_status next at report) db) r.campaign_id
                          now,
                      update_rows (λ (s : Recipient). s.id == r.id) (report_status next at report)
                          db.recipients,
                    )
                    (Grows-map_first Advances (λ r. ⊥) Advances-refl
                      (λ (s : Recipient). s.id == r.id) (report_status next at report)
                      (rows db.recipients)
                      (λ a h.
                        subst (λ x. Advances x (report_status next at report x))
                          (same_row r a (sym found ∙ h)) (reported-Advances next at report r f n)))
            ]
          ]
        ]
