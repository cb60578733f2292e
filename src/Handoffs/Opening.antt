-- ===== src/Handoffs/Opening.antt =====
-- `create` of hermes-backend/src/handoff/handoff.service.ts and the table of handoffs.
use hermes_n8n.Prelude.{
  ℕ, ◌≡◌, refl, sym, subst, ◌∙◌, Bool, ◌&&◌, Option, none, some, [], ◌∷◌, arith, inl, inr,
  Bool-cases, Option-cases, ◌==◌, count, count-zero,
}
use hermes_n8n.Prisma.{Prisma, desc}
use hermes_n8n.Schema.{Database}
use hermes_n8n.Schema.Messaging.{Conversation}
use hermes_n8n.Schema.Crm.{Handoff, Lead}
use hermes_n8n.Outcome.{Result, ok, err, ◌>>=◌}
use hermes_n8n.Handoffs.Create.{
  CreateHandoff, Commercial, create_handoff, reuse_or_open, commercial_steps, log_created, hand_off,
  new_handoff, is_open_of, request_callback, advance_lead, conversation_of, is_closed,
}
use hermes_n8n.Handoffs.Create.{is_for}
use hermes_n8n.Handoffs.Invariant.{IsSingle, OkSingle, created-IsSingle}

module _ (px : Prisma) where
  open px use {rows, find_unique_rows, update_rows, create_rows, find_first_some, find_first_none}

  advance_lead-handoffs :
      (db : Database px) (l : Lead) (c : Commercial)
      → (advance_lead px db l c).handoffs ≡ db.handoffs
  unfolding advance_lead
  advance_lead-handoffs db l c = ground arith

  request_callback-handoffs :
      (db : Database px) (conversation_id lead_id : ℕ) (c : Commercial) (task_id now : ℕ)
      → (request_callback px db conversation_id lead_id c task_id now).handoffs ≡ db.handoffs
  unfolding request_callback
  request_callback-handoffs db conversation_id lead_id c task_id now = ground arith

  abbrev Untouched : Database px → Result (Database px × Bool) → Type 0
  Untouched db (err e) = Unit
  Untouched db (ok (db', b)) = db'.handoffs ≡ db.handoffs

  commercial_steps-Untouched :
      (db : Database px) (c : Conversation) (id : ℕ) (k : Option Commercial) (task_id now : ℕ)
      → Untouched db (commercial_steps px db c id k task_id now)
  unfolding commercial_steps
  commercial_steps-Untouched db c id none task_id now = refl
  commercial_steps-Untouched db c id (some k) task_id now =
      let by = desc (λ (l : Lead). l.created_at) ∷ [] in
      let w : Lead → Bool = λ l. l.contact_id == c.contact_id && is_for id l.conversation_id in
      elim (Option-cases (px.find_first by w db.leads)) [
        | inl e ↦ rw (e, commercial_steps) tt
        | inr (l, e) ↦
            rw (e, commercial_steps)
              (request_callback-handoffs (advance_lead px db l k) id l.id k task_id now
                ∙ advance_lead-handoffs db l k)
      ]

  log_created-handoffs :
      (db : Database px) (actor : Option ℕ) (id : ℕ)
      → (log_created px db actor id).handoffs ≡ db.handoffs
  unfolding log_created
  log_created-handoffs db none id = refl
  log_created-handoffs db (some user_id) id = refl

  reuse_or_open-IsSingle :
      (db : Database px) (dto : CreateHandoff) (actor : Option ℕ) (k : Option Commercial)
      (changed : Bool) (id now : ℕ)
      → count (λ (h : Handoff). h.id == id) (rows db.handoffs) ≡ 0
      → IsSingle px db.handoffs
      → IsSingle px (reuse_or_open px db dto actor k changed id now).0.handoffs
  unfolding reuse_or_open new_handoff
  reuse_or_open-IsSingle db dto actor k changed id now fresh s =
      let by = desc (λ (h : Handoff). h.created_at) ∷ [] in
      let w = is_open_of px dto.conversation_id in
      let h = new_handoff dto k id now in
      let talks =
        px.update (λ (c : Conversation). c.id == dto.conversation_id) hand_off db.conversations in
      let opened : Database px = record db {
        conversations = talks;
        handoffs = px.create h db.handoffs;
      } in
      elim (Option-cases (px.find_first by w db.handoffs)) [
        | inr (h, e) ↦ rw (e, reuse_or_open) s
        | inl e ↦
            rw (e, reuse_or_open)
              (subst (IsSingle px) (sym (log_created-handoffs opened actor id)) (
                created-IsSingle px db.handoffs h fresh
                  (count-zero w (rows db.handoffs) (find_first_none by w db.handoffs e)) s))
      ]

  abbrev Settled :
      Database px
      → CreateHandoff
      → Option ℕ
      → Option Commercial
      → ℕ
      → ℕ
      → Result (Database px × Bool)
      → Type 0
  Settled db dto actor k id now r =
      OkSingle px (r >>= λ (steps, changed). ok (reuse_or_open px steps dto actor k changed id now))

  after_steps :
      (db : Database px) (dto : CreateHandoff) (actor : Option ℕ) (k : Option Commercial)
      (id now : ℕ)
      → count (λ (h : Handoff). h.id == id) (rows db.handoffs) ≡ 0
      → IsSingle px db.handoffs
      → (r : Result (Database px × Bool)) → Untouched db r
      → Settled db dto actor k id now r
  after_steps db dto actor k id now fresh s (err e) u = tt
  after_steps db dto actor k id now fresh s (ok (db', changed)) u =
      reuse_or_open-IsSingle db' dto actor k changed id now
        (subst (λ t. count (λ (h : Handoff). h.id == id) (rows t) ≡ 0) (sym u) fresh)
        (subst (IsSingle px) (sym u) s)

  pub create_handoff-IsSingle :
      (db : Database px) (dto : CreateHandoff) (actor : Option ℕ) (k : Option Commercial)
      (id task_id now : ℕ)
      → count (λ (h : Handoff). h.id == id) (rows db.handoffs) ≡ 0
      → IsSingle px db.handoffs
      → OkSingle px (create_handoff px db dto actor k id task_id now)
  unfolding create_handoff
  create_handoff-IsSingle db dto actor k id task_id now fresh s =
      elim (Option-cases (conversation_of px db dto.conversation_id)) [
        | inl e ↦ rw (e, create_handoff) tt
        | inr (c, e) ↦ elim (Bool-cases (is_closed c.status)) [
          | inl y ↦ rw (e, create_handoff) (rw y tt)
          | inr n ↦
              rw (e, create_handoff)
                (rw n (
                  after_steps db dto actor k id now fresh s
                    (commercial_steps px db c dto.conversation_id k task_id now)
                    (commercial_steps-Untouched db c dto.conversation_id k task_id now)))
        ]
      ]
