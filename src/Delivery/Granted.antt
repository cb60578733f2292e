-- ===== src/Delivery/Granted.antt =====
-- What a claim leaves, and what becomes of it: the row that a worker has claimed, and the one that it
-- has left for too long.
use hermes_n8n.Prelude.{
  ◌==◌, All, find-some, find-map_where, ◌∙◌, refl, false, true, some, ℕ, ◌+◌, ◌<◌, ◌≡◌, none, arith,
  inl, inr, Option-cases,
}
use hermes_n8n.Prisma.{Prisma}
use hermes_n8n.Schema.{Database}
use hermes_n8n.Schema.Messaging.{Contact, Conversation, Message}
use hermes_n8n.Schema.Delivery.{Reason, DeliveryStatus, Delivery}
use hermes_n8n.Delivery.Claim.{
  claim_current, refused, claim, claimed, reason_now, dispatch, find_conversation, find_contact,
  find_message, open_handoff, latest_inbound,
}
use hermes_n8n.Delivery.Settle.{
  confirm, owns_claim, recover_expired_claims, is_expired, mark_ambiguous,
}
use hermes_n8n.Delivery.Eligibility.{ineligibility_reason}
use hermes_n8n.Delivery.Eligible.{MaySend, ineligibility_reason_iff}
use hermes_n8n.Delivery.Lifecycle.{IsWellFormed}
use hermes_n8n.Delivery.Ownership.{row_of, claim_found}

module _ (px : Prisma) where
  open px use {rows, find_unique_rows, update_many_rows}

  -- The delivery may be sent in the context that the database holds of it.
  pub record Sendable (db : Database px) (d : Delivery) (now : ℕ) : Type 0 where
    pub conversation : Conversation
    pub contact : Contact
    pub source : Message
    pub latest : Message
    pub of_conversation : find_conversation px db d.conversation_id ≡ some conversation
    pub of_contact : find_contact px db d.contact_id ≡ some contact
    pub of_source : find_message px db d.source_message_id ≡ some source
    pub of_latest : latest_inbound px db d.conversation_id ≡ some latest
    pub may :
        MaySend d conversation contact (open_handoff px db d.conversation_id) source latest now

  reason_now-Sendable :
      (db : Database px) (d : Delivery) (now : ℕ)
      → reason_now px db d now ≡ none
      → Sendable db d now
  unfolding reason_now ineligibility_reason
  reason_now-Sendable db d now h = elim (Option-cases (find_conversation px db d.conversation_id)) [
    | inl e ↦ absurd (cc (rw (e, reason_now) at h))
    | inr (conversation, e) ↦ elim (Option-cases (find_contact px db d.contact_id)) [
      | inl f ↦ absurd (cc (rw (e, f, reason_now) at h))
      | inr (contact, f) ↦ elim (Option-cases (find_message px db d.source_message_id)) [
        | inl g ↦ absurd (cc (rw (e, f, g, reason_now) at h))
        | inr (source, g) ↦ elim (Option-cases (latest_inbound px db d.conversation_id)) [
          | inl k ↦ absurd (cc (rw (e, f, g, k, reason_now) at h))
          | inr (latest, k) ↦ record {
            conversation = conversation;
            contact = contact;
            source = source;
            latest = latest;
            of_conversation = e;
            of_contact = f;
            of_source = g;
            of_latest = k;
            may =
                (ineligibility_reason_iff d conversation contact
                    (open_handoff px db d.conversation_id) source latest now).0
                  (rw (e, f, g, k, reason_now) at h);
          }
        ]
      ]
    ]
  ]

  -- On a ledger of well-formed rows, a claim that succeeds found the row prepared and with a
  -- context in which it may be sent, and leaves it dispatching under the new token, begun at the
  -- time of the claim and with its lease ending one minute later, one attempt more, and otherwise
  -- as it was.
  pub claim-claimed :
      (db db' : Database px) (operation current : Delivery) (now token wa_id token' : ℕ)
      → All IsWellFormed (rows db.deliveries)
      → claim px db operation now token ≡ (db', claimed current wa_id token')
      → (row_of px db operation.id ≡ some current)
        × (current.status ≡ DeliveryStatus.prepared)
        × Sendable db current now
        × (token' ≡ token)
        × (row_of px db' operation.id
            ≡ some (record current {
              status = DeliveryStatus.dispatching;
              claim_token = some token;
              claim_expires_at = some (now + 60_000);
              dispatch_started_at = some now;
              attempts = current.attempts + 1;
            }))
  unfolding dispatch
  claim-claimed db db' operation current now token wa_id token' w h =
      let c = claim_found px db db' operation current now token wa_id token' w h in
      (c.0, c.1, reason_now-Sendable db current now c.2, c.3, c.4)

  confirm_without_claim :
      (db : Database px) (operation d : Delivery) (token wamid now message_id : ℕ)
      → row_of px db operation.id ≡ some d
      → owns_claim operation.id token d ≡ false
      → (d.id == operation.id) ≡ true
      → confirm px db operation token wamid now message_id ≡ none
  unfolding confirm
  confirm_without_claim db operation d token wamid now message_id e n same =
      ground (arith, find_unique_rows (λ (a : Delivery). a.id == operation.id) db.deliveries)

  refused_terminal :
      (db : Database px) (operation d : Delivery) (now token : ℕ)
      → row_of px db operation.id ≡ some d
      → d.status ≡ DeliveryStatus.ambiguous
      → d.reason_code ≡ some Reason.claim_expired
      → claim px db operation now token ≡ (db, refused true Reason.claim_expired)
  unfolding claim claim_current
  refused_terminal db operation d now token e s r =
      ground (arith, find_unique_rows (λ (a : Delivery). a.id == operation.id) db.deliveries)

  -- A worker that is too late cannot settle its claim: once the lease has run out and the
  -- recovery has taken the row, the row is ambiguous with no claim on it; in that database a
  -- confirmation under whatever token is refused and rolled back, and every claim of the row, at
  -- whatever time, is refused as terminal and changes nothing.
  pub late_confirm_refused :
      (db : Database px) (operation d : Delivery) (token wamid at now message_id until : ℕ)
      → row_of px db operation.id ≡ some d
      → d.status ≡ DeliveryStatus.dispatching
      → d.claim_expires_at ≡ some until
      → until < now
      → let db' = (recover_expired_claims px db now).0 in
        (row_of px db' operation.id
          ≡ some (record d {
            status = DeliveryStatus.ambiguous;
            ambiguous_at = some now;
            reason_code = some Reason.claim_expired;
            claim_token = none;
            claim_expires_at = none;
          }))
        × (confirm px db' operation token wamid at message_id ≡ none)
        × ((later another : ℕ)
            → claim px db' operation later another ≡ (db', refused true Reason.claim_expired))
  unfolding recover_expired_claims mark_ambiguous
  late_confirm_refused db operation d token wamid at now message_id until e s l b =
      let id = operation.id in
      let x : is_expired now d ≡ true = ground (arith, s, l, b) in
      let db' : Database px = (recover_expired_claims px db now).0 in
      let d' : Delivery = mark_ambiguous now Reason.claim_expired d in
      let r : row_of px db' id ≡ some d' =
        rw
          (update_many_rows (is_expired now) (mark_ambiguous now Reason.claim_expired)
            db.deliveries)
          (find-map_where (λ a. a.id == id) (is_expired now)
              (mark_ambiguous now Reason.claim_expired) (λ a. refl) (rows db.deliveries) d e
            ∙ (rw x)) in
      let m = find-some (λ (a : Delivery). a.id == id) (rows db.deliveries) d e in
      (
        r,
        confirm_without_claim db' operation d' token wamid at message_id r (ground arith) m.0,
        λ later another. refused_terminal db' operation d' later another r refl refl,
      )
