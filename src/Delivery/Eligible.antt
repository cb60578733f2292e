-- ===== src/Delivery/Eligible.antt =====
-- When a prepared row may be sent, stated apart from the tests of the service and their order.
use hermes_n8n.Prelude.{
  ℕ, zero, suc, ◌+◌, ◌*◌, ◌≤◌, ◌<◌, ◌≡◌, ◌≢◌, ◌↔◌, ◌⊎◌, refl, sym, subst, ◌∙◌, inl, inr, true,
  false, Option, none, some, arith, Bool-cases, Option-cases, ltb, leb,
}
use hermes_n8n.Schema.Messaging.{
  Consent, Contact, Conversation, ConversationStatus, Message, Payload,
}
use hermes_n8n.Schema.Delivery.{Delivery, Metadata}
use hermes_n8n.Schema.Crm.{Handoff}
use hermes_n8n.Delivery.Eligibility.{
  ineligibility_reason, provider_timestamp, timestamp_or, millis_or, conversation_turn_id,
  turn_differs, turn_moved_on, whatsapp_reply_window, is_opted_out,
}

-- When a message was sent, in milliseconds: what its payload says, in seconds or milliseconds, or
-- else when its row was made.
pub data SentAt : Option ℕ → (created_at at : ℕ) → Type 0 where
  unknown : (created : ℕ) → SentAt none created created
  zero_time : (created : ℕ) → SentAt (some 0) created created
  seconds : (n created : ℕ) → 0 < n → n < 10_000_000_000 → SentAt (some n) created (n * 1000)
  millis :
      (n created : ℕ) → 10_000_000_000 ≤ n → n ≤ 8_640_000_000_000_000 → SentAt (some n) created n
  no_date : (n created : ℕ) → 8_640_000_000_000_000 < n → SentAt (some n) created created

-- The `timestamp` of the payload of a message, if there are both.
abbrev pub stamp_of : Option Payload → Option ℕ
stamp_of none = none
stamp_of (some p) = p.timestamp

-- The turn that a delivery names, if it names one.
pub data Names : Option Metadata → ℕ → Type 0 where
  names : (m : Metadata) (t : ℕ) → m.conversation_turn_id ≡ some t → Names (some m) t

-- The delivery answers the newest message of a contact who wants it, in an open conversation, within
-- 24 hours.
pub record MaySend (d : Delivery) (conversation : Conversation) (contact : Contact)
    (handoff : Option Handoff) (source latest : Message) (now : ℕ) : Type 0 where
  pub source_at : ℕ
  pub latest_at : ℕ
  pub source_sent : SentAt (stamp_of source.raw_payload) source.created_at source_at
  pub latest_sent : SentAt (stamp_of latest.raw_payload) latest.created_at latest_at
  pub same_turn : (t : ℕ) → Names d.metadata t → source.inbound_turn_id ≡ some t
  pub latest_turn : (t u : ℕ) → Names d.metadata t → latest.inbound_turn_id ≡ some u → u ≡ t
  pub newest : (latest.id ≡ source.id) ⊎ (latest_at ≤ source_at)
  pub consent : contact.marketing_consent_status ≢ Consent.opted_out
  pub nobody_took_over : (handoff ≡ none) ⊎ (d.allow_handed_off ≡ true)
  pub conversation_open :
      (conversation.status ≡ ConversationStatus.active)
      ⊎ ((d.allow_handed_off ≡ true) × (conversation.status ≡ ConversationStatus.handed_off))
  pub window_open : now < latest_at + 86_400_000

millis_or-SentAt : (n created : ℕ) → SentAt (some n) created (millis_or n created)
unfolding millis_or
millis_or-SentAt zero created = SentAt.zero_time created
millis_or-SentAt (suc n) created = elim (Bool-cases (ltb (suc n) 10_000_000_000)) [
  | inl y ↦
      let e : millis_or (suc n) created ≡ suc n * 1000 = ground arith in
      subst (SentAt (some (suc n)) created) (sym e)
        (SentAt.seconds (suc n) created (omega arith) (ground arith))
  | inr z ↦ elim (Bool-cases (leb (suc n) 8_640_000_000_000_000)) [
    | inl y ↦
        let e : millis_or (suc n) created ≡ suc n = ground arith in
        subst (SentAt (some (suc n)) created) (sym e)
          (SentAt.millis (suc n) created (ground arith) (ground arith))
    | inr n' ↦
        let e : millis_or (suc n) created ≡ created = ground arith in
        subst (SentAt (some (suc n)) created) (sym e)
          (SentAt.no_date (suc n) created (ground arith))
  ]
]

stamp-SentAt : (o : Option ℕ) (created : ℕ) → SentAt o created (timestamp_or o created)
unfolding timestamp_or
stamp-SentAt none created = SentAt.unknown created
stamp-SentAt (some n) created = millis_or-SentAt n created

stamped : (m : Message) → provider_timestamp m ≡ timestamp_or (stamp_of m.raw_payload) m.created_at
unfolding provider_timestamp timestamp_or
stamped m = elim (Option-cases m.raw_payload) [
  | inl e ↦ rw (e, provider_timestamp) refl
  | inr (p, e) ↦ rw (e, provider_timestamp) refl
]

SentAt-stamp : (o : Option ℕ) (created at : ℕ) → SentAt o created at → at ≡ timestamp_or o created
unfolding timestamp_or millis_or
SentAt-stamp o created at (SentAt.unknown c) = refl
SentAt-stamp o created at (SentAt.zero_time c) = ground arith
SentAt-stamp o created at (SentAt.seconds n c h k) = ground (arith, h, k)
SentAt-stamp o created at (SentAt.millis n c h k) = ground (arith, h, k)
SentAt-stamp o created at (SentAt.no_date n c h) = ground (arith, h)

sent-SentAt : (m : Message) → SentAt (stamp_of m.raw_payload) m.created_at (provider_timestamp m)
sent-SentAt m =
    subst (SentAt (stamp_of m.raw_payload) m.created_at) (sym (stamped m))
      (stamp-SentAt (stamp_of m.raw_payload) m.created_at)

SentAt-sent :
    (m : Message) (at : ℕ)
    → SentAt (stamp_of m.raw_payload) m.created_at at
    → at ≡ provider_timestamp m
SentAt-sent m at h = SentAt-stamp (stamp_of m.raw_payload) m.created_at at h ∙ sym (stamped m)

-- The tests on turns.
same_turn-Names :
    (md : Option Metadata) (turn : Option ℕ)
    → turn_differs (conversation_turn_id md) turn ≡ false
    → (t : ℕ) → Names md t
    → turn ≡ some t
unfolding conversation_turn_id
same_turn-Names md turn h t (Names.names m u e) = ground (arith, e, h)

Names-same_turn :
    (md : Option Metadata) (turn : Option ℕ)
    → ((t : ℕ) → Names md t → turn ≡ some t)
    → turn_differs (conversation_turn_id md) turn ≡ false
unfolding conversation_turn_id
Names-same_turn none turn h = refl
Names-same_turn (some m) turn h = elim (Option-cases m.conversation_turn_id) [
  | inl e ↦ rw e refl
  | inr (t, e) ↦ rw (e, h t (Names.names m t e)) (ground arith)
]

latest_turn-Names :
    (md : Option Metadata) (turn : Option ℕ)
    → turn_moved_on (conversation_turn_id md) turn ≡ false
    → (t u : ℕ) → Names md t
    → turn ≡ some u
    → u ≡ t
unfolding conversation_turn_id
latest_turn-Names md turn h t u (Names.names m v e) k = ground (arith, e, h, k)

Names-latest_turn :
    (md : Option Metadata) (turn : Option ℕ)
    → ((t u : ℕ) → Names md t → turn ≡ some u → u ≡ t)
    → turn_moved_on (conversation_turn_id md) turn ≡ false
unfolding conversation_turn_id
Names-latest_turn none turn h = refl
Names-latest_turn (some m) turn h = elim (Option-cases m.conversation_turn_id) [
  | inl e ↦ rw e refl
  | inr (t, e) ↦ elim (Option-cases turn) [
    | inl f ↦ rw (e, f) refl
    | inr (u, f) ↦ rw (e, f) (ground (arith, h t u (Names.names m t e) f))
  ]
]

module _ (d : Delivery) (conversation : Conversation) (contact : Contact) (handoff : Option Handoff)
    (source latest : Message) (now : ℕ) where
  consent_of : (c : Consent) → is_opted_out c ≡ false → c ≢ Consent.opted_out
  consent_of c h = ground arith

  reason-none :
      ineligibility_reason d
          (some conversation)
          (some contact)
          handoff
          (some source)
          (some latest)
          now
        ≡ none
      → MaySend d conversation contact handoff source latest now
  unfolding ineligibility_reason whatsapp_reply_window
  reason-none h = record {
    source_at = provider_timestamp source;
    latest_at = provider_timestamp latest;
    source_sent = sent-SentAt source;
    latest_sent = sent-SentAt latest;
    same_turn = same_turn-Names d.metadata source.inbound_turn_id (ground (arith, h));
    latest_turn = latest_turn-Names d.metadata latest.inbound_turn_id (ground (arith, h));
    newest = ground arith;
    consent = consent_of contact.marketing_consent_status (ground arith);
    nobody_took_over = ground arith;
    conversation_open = ground arith;
    window_open = ground arith;
  }

  none-reason :
      MaySend d conversation contact handoff source latest now
      → ineligibility_reason d
          (some conversation)
          (some contact)
          handoff
          (some source)
          (some latest)
          now
        ≡ none
  unfolding ineligibility_reason whatsapp_reply_window
  none-reason m =
      let s : m.source_at ≡ provider_timestamp source =
        SentAt-sent source m.source_at m.source_sent in
      let l : m.latest_at ≡ provider_timestamp latest =
        SentAt-sent latest m.latest_at m.latest_sent in
      let a = Names-same_turn d.metadata source.inbound_turn_id m.same_turn in
      let b = Names-latest_turn d.metadata latest.inbound_turn_id m.latest_turn in
      let newest : (latest.id ≡ source.id)
          ⊎ (provider_timestamp latest ≤ provider_timestamp source) =
        rw (← s, ← l) m.newest in
      let window : now < provider_timestamp latest + 86_400_000 = rw (← l) m.window_open in
      ground (arith, a, b, newest, m.consent, m.nobody_took_over, m.conversation_open, window)

  -- With a conversation, a contact, the message answered and the newest message at hand, no
  -- reason against the dispatch is found exactly when the delivery may be sent: the message
  -- answered stands in the turn that the delivery names and the newest one in no other, the newest
  -- one is the one answered or was not sent later, the contact has not opted out, the conversation
  -- is active and in no open handoff unless the delivery allows one, and the newest message was
  -- sent less than 24 hours ago, by the time in its payload if there is a valid one.
  pub ineligibility_reason_iff :
      (ineligibility_reason d
          (some conversation)
          (some contact)
          handoff
          (some source)
          (some latest)
          now
        ≡ none)
      ↔ MaySend d conversation contact handoff source latest now
  ineligibility_reason_iff = (reason-none, none-reason)
