-- ===== src/Turns/Schedule.antt =====
-- `schedule` and `milliseconds` of hermes-backend/src/auto-replies/inbound-turn.service.ts.
use hermes_n8n.Prelude.{
  ℕ, ◌+◌, min, Bool, false, ◌&&◌, Option, none, some, [], ◌∷◌, ◌==◌, leb, ltb, if◌then◌else◌,
}
use hermes_n8n.Prisma.{Prisma, desc}
use hermes_n8n.Schema.{Database}
use hermes_n8n.Schema.Messaging.{Message, InboundTurn, TurnStatus, is_opened}
use hermes_n8n.Outcome.{Result, ok, HttpError, ◌>>=◌, ◌>>◌, require, or_throw}

pub record Inbound : Type 0 where
  pub conversation_id : ℕ
  pub contact_id : ℕ
  pub inbound_message_id : ℕ

abbrev pub max_safe_integer : ℕ
max_safe_integer = 9_007_199_254_740_991

-- The configured value is `none` unless `Number` makes it a whole number that is not negative.
unfoldable pub milliseconds : Option ℕ → ℕ → ℕ
milliseconds none fallback = fallback
milliseconds (some configured) fallback =
    if leb configured max_safe_integer && ltb 0 configured then configured else fallback

-- The two settings of the service.
pub record Settings : Type 0 where
  pub debounce : Option ℕ
  pub max_wait : Option ℕ

unfoldable pub debounce_of : Settings → ℕ
unfolding milliseconds
debounce_of s = milliseconds s.debounce 4000

unfoldable pub max_wait_of : Settings → ℕ
unfolding milliseconds
max_wait_of s = milliseconds s.max_wait 12_000

abbrev pub first_at_of : Option InboundTurn → ℕ → ℕ
first_at_of none now = now
first_at_of (some t) now = t.first_at

-- `dueAt`: the end of the pause or of the longest wait, whichever is earlier.
unfoldable pub due_at_of : Settings → Option InboundTurn → ℕ → ℕ
due_at_of s opened now = min (now + debounce_of s) (first_at_of opened now + max_wait_of s)

unfoldable pub extend : ℕ → ℕ → ℕ → InboundTurn → InboundTurn
extend now due_at message_id t = record t {
  last_at = now;
  due_at = due_at;
  last_message_id = message_id;
}

unfoldable pub new_turn : Settings → Inbound → ℕ → ℕ → ℕ → InboundTurn
new_turn s input message_id id now = record {
  id = id;
  conversation_id = input.conversation_id;
  contact_id = input.contact_id;
  first_at = now;
  last_at = now;
  due_at = now + min (debounce_of s) (max_wait_of s);
  last_message_id = message_id;
  status = TurnStatus.opened;
  processing_at = none;
  processing_token = none;
}

abbrev pub in_turn : ℕ → Message → Bool
in_turn turn_id m = elim m.inbound_turn_id [ none ↦ false | some id ↦ id == turn_id ]

module _ (px : Prisma) where
  open px use {find_unique, find_first, count_rows, create, update}

  abbrev pub find_inbound : Database px → ℕ → Option Message
  find_inbound db id = find_unique (λ (m : Message). m.id == id) db.messages

  abbrev pub find_turn : Database px → ℕ → Option InboundTurn
  find_turn db id = find_unique (λ (t : InboundTurn). t.id == id) db.inbound_turns

  abbrev pub is_waiting : ℕ → ℕ → InboundTurn → Bool
  is_waiting conversation_id now t =
      t.conversation_id == conversation_id && is_opened t.status && ltb now t.due_at

  -- The open turn that takes the message, extended, or a new one.
  unfoldable pub take_turn :
      Database px → Settings → Inbound → Message → ℕ → ℕ → Database px × InboundTurn
  unfolding due_at_of extend new_turn
  take_turn db s input inbound id now =
      let opened =
        find_first (desc (λ (t : InboundTurn). t.first_at) ∷ [])
          (is_waiting input.conversation_id now) db.inbound_turns in
      elim opened [
        | some t ↦
            let f = extend now (due_at_of s (some t) now) inbound.id in
            (
              record db {
                inbound_turns = update (λ (a : InboundTurn). a.id == t.id) f db.inbound_turns;
              },
              f t,
            )
        | none ↦
            let t = new_turn s input inbound.id id now in
            (record db { inbound_turns = create t db.inbound_turns }, t)
      ]

  unfoldable pub join_turn : Database px → Message → InboundTurn → Database px
  join_turn db inbound turn = record db {
    messages =
        update (λ (m : Message). m.id == inbound.id)
          (λ m. record m {
            inbound_turn_id = some turn.id;
            inbound_turn_position = some (count_rows (in_turn turn.id) db.messages);
          })
          db.messages;
  }

  unfoldable pub schedule_found :
      Database px → Settings → Inbound → Message → ℕ → ℕ → Result (Database px × InboundTurn)
  unfolding take_turn join_turn
  schedule_found db s input inbound id now = elim inbound.inbound_turn_id [
    | some turn_id ↦ or_throw (find_turn db turn_id) HttpError.internal >>= λ t. ok (db, t)
    | none ↦
        let (taken, turn) = take_turn db s input inbound id now in
        ok (join_turn taken inbound turn, turn)
  ]

  -- The identifier is the one a new turn would get.
  unfoldable pub schedule :
      Database px → Settings → Inbound → (id now : ℕ) → Result (Database px × InboundTurn)
  unfolding schedule_found
  schedule db s input id now =
      or_throw (find_inbound db input.inbound_message_id) HttpError.internal >>= λ inbound.
      require
        (inbound.conversation_id == input.conversation_id && inbound.contact_id == input.contact_id)
        HttpError.internal
      >> schedule_found db s input inbound id now
