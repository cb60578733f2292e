-- ===== src/Turns/Taking.antt =====
-- What a turn promises the message that it takes: `schedule` and `milliseconds` of
-- hermes-backend/src/auto-replies/inbound-turn.service.ts.
use hermes_n8n.Prisma.{Prisma, desc}
use hermes_n8n.Schema.{Database}
use hermes_n8n.Schema.Messaging.{Message, InboundTurn, TurnStatus}
use hermes_n8n.Prelude.{
  false, zero, All, All-member, leb, suc, min, Member, ◌⊎◌, Option, ◌<◌, ℕ, ◌+◌, ◌≤◌, ◌≡◌, refl,
  sym, subst, true, none, some, [], ◌∷◌, arith, inl, inr, Bool-cases, Option-cases,
}
use hermes_n8n.Turns.Schedule.{
  milliseconds, take_turn, due_at_of, debounce_of, max_wait_of, extend, new_turn, Settings, Inbound,
  is_waiting,
}

-- The value of a setting: what is configured, if it is positive and exact, or else the default.
pub data IsSetting : (configured : Option ℕ) (default value : ℕ) → Type 0 where
  unset : (default : ℕ) → IsSetting none default default
  zero_set : (default : ℕ) → IsSetting (some 0) default default
  too_large : (n default : ℕ) → 9_007_199_254_740_991 < n → IsSetting (some n) default default
  configured : (n default : ℕ) → 0 < n → n ≤ 9_007_199_254_740_991 → IsSetting (some n) default n

milliseconds-IsSetting :
    (configured : Option ℕ) (default : ℕ)
    → IsSetting configured default (milliseconds configured default)
unfolding milliseconds
milliseconds-IsSetting none default = IsSetting.unset default
milliseconds-IsSetting (some zero) default = IsSetting.zero_set default
milliseconds-IsSetting (some (suc n)) default =
    elim (Bool-cases (leb (suc n) 9_007_199_254_740_991)) [
      | inl y ↦
          let e : milliseconds (some (suc n)) default ≡ suc n = ground arith in
          subst (IsSetting (some (suc n)) default) (sym e)
            (IsSetting.configured (suc n) default (omega arith) (ground arith))
      | inr z ↦
          let e : milliseconds (some (suc n)) default ≡ default = ground arith in
          subst (IsSetting (some (suc n)) default) (sym e)
            (IsSetting.too_large (suc n) default (ground arith))
    ]

-- An open turn of the conversation that is not due yet.
pub record IsOpenTurn (conversation_id now : ℕ) (t : InboundTurn) : Type 0 where
  pub same_conversation : t.conversation_id ≡ conversation_id
  pub status : t.status ≡ TurnStatus.opened
  pub not_due : now < t.due_at

module _ (px : Prisma) where
  open px use {rows, find_first_some, find_first_none}

  -- The turn extends one that was open and not due.
  pub record Extended (db : Database px) (input : Inbound) (now : ℕ) (t : InboundTurn)
      : Type 0 where
    pub old : InboundTurn
    pub stored : Member old (rows db.inbound_turns)
    pub open_turn : IsOpenTurn input.conversation_id now old
    pub same_id : t.id ≡ old.id
    pub same_contact : t.contact_id ≡ old.contact_id
    pub same_start : t.first_at ≡ old.first_at

  -- The turn begins with the message, since no turn was open and not due.
  pub record Begun (db : Database px) (input : Inbound) (id now : ℕ) (t : InboundTurn)
      : Type 0 where
    pub new_id : t.id ≡ id
    pub contact : t.contact_id ≡ input.contact_id
    pub start : t.first_at ≡ now
    pub none_open :
        (a : InboundTurn)
        → Member a (rows db.inbound_turns)
        → IsOpenTurn input.conversation_id now a
        → ⊥

  -- What a turn promises the message it has just taken.
  pub record Takes (db : Database px) (s : Settings) (input : Inbound) (message_id id now : ℕ)
      (t : InboundTurn) : Type 0 where
    pub conversation : t.conversation_id ≡ input.conversation_id
    pub last : t.last_message_id ≡ message_id
    pub last_at : t.last_at ≡ now
    pub opened : t.status ≡ TurnStatus.opened
    pub origin : Extended db input now t ⊎ Begun db input id now t
    pub pause : ℕ
    pub wait : ℕ
    pub pause_set : IsSetting s.debounce 4000 pause
    pub wait_set : IsSetting s.max_wait 12_000 wait
    pub due : t.due_at ≡ min (now + pause) (t.first_at + wait)

  waiting-IsOpenTurn :
      (c now : ℕ) (t : InboundTurn) → is_waiting px c now t ≡ true → IsOpenTurn c now t
  waiting-IsOpenTurn c now t h = record {
    same_conversation = ground (arith, h);
    status = ground (arith, h);
    not_due = ground (arith, h);
  }

  IsOpenTurn-waiting :
      (c now : ℕ) (t : InboundTurn) → IsOpenTurn c now t → is_waiting px c now t ≡ true
  IsOpenTurn-waiting c now t o = ground (arith, o.same_conversation, o.status, o.not_due)

  none_waiting :
      (db : Database px) (c now : ℕ) (a : InboundTurn)
      → All (λ t. is_waiting px c now t ≡ false) (rows db.inbound_turns)
      → Member a (rows db.inbound_turns)
      → IsOpenTurn c now a
      → ⊥
  none_waiting db c now a closed m o =
      let n = All-member (λ t. is_waiting px c now t ≡ false) (rows db.inbound_turns) a closed m in
      let y = IsOpenTurn-waiting c now a o in cc

  pub take_turn-Takes :
      (db : Database px) (s : Settings) (input : Inbound) (inbound : Message) (id now : ℕ)
      → Takes db s input inbound.id id now (take_turn px db s input inbound id now).1
  unfolding take_turn extend new_turn due_at_of debounce_of max_wait_of
  take_turn-Takes db s input inbound id now =
      let by = desc (λ (t : InboundTurn). t.first_at) ∷ [] in
      let w = is_waiting px input.conversation_id now in
      elim (Option-cases (px.find_first by w db.inbound_turns)) [
        | inl e ↦
            let closed = find_first_none by w db.inbound_turns e in
            rw (e, take_turn)
              (record {
                conversation = refl;
                last = refl;
                last_at = refl;
                opened = refl;
                origin = inr (record {
                  new_id = refl;
                  contact = refl;
                  start = refl;
                  none_open = λ a m o. none_waiting db input.conversation_id now a closed m o;
                });
                pause = debounce_of s;
                wait = max_wait_of s;
                pause_set = milliseconds-IsSetting s.debounce 4000;
                wait_set = milliseconds-IsSetting s.max_wait 12_000;
                due = omega arith;
              })
        | inr (t, e) ↦
            let h = find_first_some by w db.inbound_turns t e in
            let o = waiting-IsOpenTurn input.conversation_id now t h.0 in
            rw (e, take_turn)
              (record {
                conversation = o.same_conversation;
                last = refl;
                last_at = refl;
                opened = o.status;
                origin = inl (record {
                  old = t;
                  stored = h.1;
                  open_turn = o;
                  same_id = refl;
                  same_contact = refl;
                  same_start = refl;
                });
                pause = debounce_of s;
                wait = max_wait_of s;
                pause_set = milliseconds-IsSetting s.debounce 4000;
                wait_set = milliseconds-IsSetting s.max_wait 12_000;
                due = refl;
              })
      ]
