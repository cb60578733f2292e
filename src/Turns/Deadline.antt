-- ===== src/Turns/Deadline.antt =====
-- What `schedule` of hermes-backend/src/auto-replies/inbound-turn.service.ts gives a message.
use hermes_n8n.Outcome.{ok}
use hermes_n8n.Prisma.{Prisma, desc}
use hermes_n8n.Schema.{Database}
use hermes_n8n.Schema.Messaging.{Message, InboundTurn}
use hermes_n8n.Prelude.{
  ℕ, ◌≤◌, ◌≡◌, refl, sym, ap, subst, ◌∙◌, Bool, true, ◌&&◌, none, some, [], ◌∷◌, arith, inl, inr,
  Bool-cases, Option-cases, ◌==◌, find, count, find-Member, find-some, find-map_first,
  find-append_none, ==_refl, ==_true,
}
use hermes_n8n.Turns.Taking.{Takes, take_turn-Takes}
use hermes_n8n.Turns.Schedule.{
  in_turn, schedule, schedule_found, take_turn, join_turn, due_at_of, extend, new_turn, Settings,
  Inbound, is_waiting, find_inbound, find_turn,
}

module _ (px : Prisma) where
  open px use {rows, find_first_some}

  schedule-found :
      (db : Database px) (s : Settings) (input : Inbound) (id now : ℕ) (m : Message)
      → find_inbound px db input.inbound_message_id ≡ some m
      → (m.conversation_id == input.conversation_id && m.contact_id == input.contact_id) ≡ true
      → schedule px db s input id now ≡ schedule_found px db s input m id now
  unfolding schedule
  schedule-found db s input id now m e b = rw (e, b, schedule)

  open px use {find_unique_rows, update_rows, create_rows}

  inbound_id :
      (db : Database px) (id : ℕ) (m : Message) → find_inbound px db id ≡ some m → m.id ≡ id
  inbound_id db id m e =
      let w : Message → Bool = λ a. a.id == id in
      ==_true m.id id
        (find-some w (rows db.messages) m (sym (find_unique_rows w db.messages) ∙ e)).0

  -- The message's row, once it has joined the turn.
  abbrev pub joined : Database px → Message → InboundTurn → Message
  joined db m turn = record m {
    inbound_turn_id = some turn.id;
    inbound_turn_position = some (px.count_rows (in_turn turn.id) db.messages);
  }

  join_turn-found :
      (db : Database px) (id : ℕ) (m : Message) (turn : InboundTurn)
      → find_inbound px db id ≡ some m
      → find_inbound px (join_turn px db m turn) id ≡ some (joined db m turn)
  unfolding join_turn
  join_turn-found db id m turn e =
      let w : Message → Bool = λ a. a.id == id in
      let f : Message → Message = λ a. joined db a turn in
      let h : find w (rows db.messages) ≡ some m = sym (find_unique_rows w db.messages) ∙ e in
      let t = px.update w f db.messages in
      let step : find_inbound px (record db { messages = t }) id ≡ some (f m) =
        find_unique_rows w t
        ∙ ap (find w) (update_rows w f db.messages)
        ∙ find-map_first w f (λ a. refl) (rows db.messages) m h in
      subst
        (λ k. px.find_unique w (px.update (λ (a : Message). a.id == k) f db.messages) ≡ some (f m))
        (sym (inbound_id db id m e)) step

  -- Turns have unique identifiers.
  abbrev pub UniqueTurns : Database px → Type 0
  UniqueTurns db = (id : ℕ) → count (λ (t : InboundTurn). t.id == id) (rows db.inbound_turns) ≤ 1

  take_turn-found :
      (db : Database px) (s : Settings) (input : Inbound) (m : Message) (id now : ℕ)
      → UniqueTurns db
      → find_turn px db id ≡ none
      → (find_turn px (take_turn px db s input m id now).0 (take_turn px db s input m id now).1.id)
        ≡ some (take_turn px db s input m id now).1
  unfolding take_turn extend new_turn
  take_turn-found db s input m id now u fresh =
      let by = desc (λ (t : InboundTurn). t.first_at) ∷ [] in
      let w = is_waiting px input.conversation_id now in
      elim (Option-cases (px.find_first by w db.inbound_turns)) [
        | inl e ↦
            let t = new_turn s input m.id id now in
            let v : InboundTurn → Bool = λ a. a.id == id in
            rw (e, take_turn)
              (find_unique_rows v (px.create t db.inbound_turns)
                ∙ ap (find v) (create_rows t db.inbound_turns)
                ∙ find-append_none v (rows db.inbound_turns) t
                    (sym (find_unique_rows v db.inbound_turns) ∙ fresh) (==_refl id))
        | inr (t, e) ↦
            let v : InboundTurn → Bool = λ a. a.id == t.id in
            let f = extend now (due_at_of s (some t) now) m.id in
            rw (e, take_turn)
              (find_unique_rows v (px.update v f db.inbound_turns)
                ∙ ap (find v) (update_rows v f db.inbound_turns)
                ∙ find-map_first v f (λ a. refl) (rows db.inbound_turns) t
                    (find-Member v (rows db.inbound_turns) t (u t.id)
                      (find_first_some by w db.inbound_turns t e).1 (==_refl t.id)))
      ]

  schedule-taken :
      (db db' : Database px) (s : Settings) (input : Inbound) (id now : ℕ) (m : Message)
      (turn : InboundTurn)
      → find_inbound px db input.inbound_message_id ≡ some m
      → m.inbound_turn_id ≡ none
      → schedule px db s input id now ≡ ok (db', turn)
      → (turn ≡ (take_turn px db s input m id now).1)
        × (db' ≡ join_turn px (take_turn px db s input m id now).0 m turn)
        × ((m.conversation_id == input.conversation_id && m.contact_id == input.contact_id) ≡ true)
  unfolding schedule schedule_found
  schedule-taken db db' s input id now m turn e n h =
      let b = m.conversation_id == input.conversation_id && m.contact_id == input.contact_id in
      elim (Bool-cases b) [
        | inl t ↦ let k = rw (e, t, n, schedule) at h in (ground arith, ground arith, t)
        | inr f ↦ absurd (ground arith)
      ]

  take_turn-messages :
      (db : Database px) (s : Settings) (input : Inbound) (m : Message) (id now : ℕ)
      → (take_turn px db s input m id now).0.messages ≡ db.messages
  unfolding take_turn
  take_turn-messages db s input m id now = ground arith

  -- A message that is in no turn yet, if it is scheduled, goes into a turn of its conversation whose
  -- last message it becomes: one that was open and not due, which keeps its identifier, contact and
  -- start, or, if there was none, a new one that starts with the message. The turn is due exactly at
  -- the earlier of two instants, the end of the pause after the message and the end of the longest
  -- wait after the turn's start, where each setting counts if it is positive and at most the largest
  -- safe integer, and is 4 and 12 seconds otherwise; and the message's row names that turn.
  pub schedule-Takes :
      (db db' : Database px) (s : Settings) (input : Inbound) (id now : ℕ) (m : Message)
      (turn : InboundTurn)
      → find_inbound px db input.inbound_message_id ≡ some m
      → m.inbound_turn_id ≡ none
      → schedule px db s input id now ≡ ok (db', turn)
      → Takes px db s input m.id id now turn
        × (find_inbound px db' input.inbound_message_id
            ≡ some (joined (take_turn px db s input m id now).0 m turn))
  schedule-Takes db db' s input id now m turn e n h =
      let (t, d, b) = schedule-taken db db' s input id now m turn e n h in
      let taken = (take_turn px db s input m id now).0 in
      (
        subst (Takes px db s input m.id id now) (sym t) (take_turn-Takes px db s input m id now),
        rw d (
            join_turn-found taken input.inbound_message_id m turn (
              subst
                (λ k. px.find_unique (λ (a : Message). a.id == input.inbound_message_id) k ≡ some m)
                (sym (take_turn-messages db s input m id now)) e)),
      )

  -- A message is scheduled once: where turns have unique identifiers and a new turn would get a
  -- fresh one, scheduling the message again, at any time and under any settings, changes nothing
  -- and returns the turn that took it.
  pub schedule_idempotent :
      (db db' : Database px) (s s' : Settings) (input : Inbound) (id id' now now' : ℕ) (m : Message)
      (turn : InboundTurn)
      → UniqueTurns db
      → find_turn px db id ≡ none
      → find_inbound px db input.inbound_message_id ≡ some m
      → m.inbound_turn_id ≡ none
      → schedule px db s input id now ≡ ok (db', turn)
      → schedule px db' s' input id' now' ≡ ok (db', turn)
  unfolding schedule schedule_found join_turn
  schedule_idempotent db db' s s' input id id' now now' m turn u fresh e n h =
      let (t, d, b) = schedule-taken db db' s input id now m turn e n h in
      let row = (schedule-Takes db db' s input id now m turn e n h).1 in
      let found : find_turn px (take_turn px db s input m id now).0 turn.id ≡ some turn =
        rw t (take_turn-found db s input m id now u fresh) in
      let held : find_turn px db' turn.id ≡ some turn = rw d found in rw (row, b, held, schedule)
