-- ===== src/Handoffs/Single.antt =====
-- Runs of hermes-backend/src/handoff/handoff.service.ts: its transactions as steps on the
-- database, and the table of handoffs over a run.
use hermes_n8n.Prelude.{
  ℕ, ◌≡◌, refl, subst, true, ◌&&◌, Option, some, inl, inr, Bool-cases, Option-cases, ◌==◌, count,
}
use hermes_n8n.Prisma.{Prisma}
use hermes_n8n.Schema.{Database}
use hermes_n8n.Schema.Crm.{Handoff, is_open_handoff}
use hermes_n8n.Outcome.{ok}
use hermes_n8n.Handoffs.Create.{CreateHandoff, Commercial, Opened, create_handoff}
use hermes_n8n.Handoffs.Attend.{
  assign, assign_open, resolve, resolve_open, get_open_handoff, find_handoff, take_over, keep_human,
  close_handoff, ResolveHandoff, audit_resolution, is_anothers, is_keep, is_in_progress,
}
use hermes_n8n.Handoffs.Create.{is_for}
use hermes_n8n.Handoffs.Invariant.{IsSingle, OkSingle, updated-IsSingle}
use hermes_n8n.Handoffs.Opening.{create_handoff-IsSingle}

module _ (px : Prisma) where
  open px use {rows, find_unique_rows, update_rows, create_rows, find_first_some, find_first_none}

  assign_open-IsSingle :
      (db : Database px) (h : Handoff) (id agent_id actor : ℕ)
      → find_handoff px db id ≡ some h
      → is_open_handoff h.status ≡ true
      → IsSingle px db.handoffs
      → IsSingle px (assign_open px db h id agent_id actor).0.handoffs
  unfolding assign_open take_over
  assign_open-IsSingle db h id agent_id actor e y s =
      elim (Bool-cases (is_in_progress h.status && is_for agent_id h.assigned_agent_id)) [
        | inl t ↦ rw (t, assign_open) s
        | inr n ↦
            rw (n, assign_open)
              (updated-IsSingle px db.handoffs id (take_over agent_id) h e
                (record { same_id = refl; same_conversation = refl; closed = λ k. y }) s)
      ]

  resolve_open-IsSingle :
      (db : Database px) (h : Handoff) (id : ℕ) (dto : ResolveHandoff) (actor now : ℕ)
      → find_handoff px db id ≡ some h
      → is_open_handoff h.status ≡ true
      → IsSingle px db.handoffs
      → IsSingle px (resolve_open px db h id dto actor now).0.handoffs
  unfolding resolve_open keep_human close_handoff audit_resolution
  resolve_open-IsSingle db h id dto actor now e y s = elim (Bool-cases (is_keep dto.action)) [
    | inl t ↦
        rw (t, resolve_open)
          (updated-IsSingle px db.handoffs id (keep_human h dto actor) h e
            (record { same_id = refl; same_conversation = refl; closed = λ k. y }) s)
    | inr n ↦
        rw (n, resolve_open)
          (updated-IsSingle px db.handoffs id (close_handoff h dto actor now) h e
            (record { same_id = refl; same_conversation = refl; closed = λ k. y }) s)
  ]

  assign-IsSingle :
      (db : Database px) (id agent_id actor : ℕ)
      → IsSingle px db.handoffs
      → OkSingle px (assign px db id agent_id actor)
  unfolding assign get_open_handoff
  assign-IsSingle db id agent_id actor s = elim (Option-cases (find_handoff px db id)) [
    | inl e ↦ rw (e, assign) tt
    | inr (h, e) ↦ elim (Bool-cases (is_open_handoff h.status)) [
      | inr n ↦ rw (e, assign) (rw n tt)
      | inl y ↦ elim (Bool-cases (is_anothers agent_id h.assigned_agent_id)) [
        | inl t ↦ rw (e, assign) (rw (y, t) tt)
        | inr f ↦ rw (e, assign) (rw (y, f) (assign_open-IsSingle db h id agent_id actor e y s))
      ]
    ]
  ]

  resolve-IsSingle :
      (db : Database px) (id : ℕ) (dto : ResolveHandoff) (actor now : ℕ)
      → IsSingle px db.handoffs
      → OkSingle px (resolve px db id dto actor now)
  unfolding resolve get_open_handoff
  resolve-IsSingle db id dto actor now s = elim (Option-cases (find_handoff px db id)) [
    | inl e ↦ rw (e, resolve) tt
    | inr (h, e) ↦ elim (Bool-cases (is_open_handoff h.status)) [
      | inr n ↦ rw (e, resolve) (rw n tt)
      | inl y ↦ elim (Bool-cases (is_for actor h.assigned_agent_id)) [
        | inr f ↦ rw (e, resolve) (rw (y, f) tt)
        | inl t ↦ rw (e, resolve) (rw (y, t) (resolve_open-IsSingle db h id dto actor now e y s))
      ]
    ]
  ]

  -- One transaction of the service. A new handoff is given an identifier that is not in use.
  pub data Step (db : Database px) : Database px → Type 0 where
    creates :
        {db' : Database px} (dto : CreateHandoff) (actor : Option ℕ) (k : Option Commercial)
        (id task_id now : ℕ) (o : Opened)
        → count (λ (h : Handoff). h.id == id) (rows db.handoffs) ≡ 0
        → create_handoff px db dto actor k id task_id now ≡ ok (db', o)
        → Step db db'
    assigns :
        {db' : Database px} (id agent_id actor : ℕ) (h : Handoff)
        → assign px db id agent_id actor ≡ ok (db', h)
        → Step db db'
    resolves :
        {db' : Database px} (id : ℕ) (dto : ResolveHandoff) (actor now : ℕ) (h : Handoff)
        → resolve px db id dto actor now ≡ ok (db', h)
        → Step db db'

  pub data Reach (db : Database px) : Database px → Type 0 where
    here : Reach db db
    next : {db' db'' : Database px} → Reach db db' → Step db' db'' → Reach db db''

  Step-IsSingle :
      (db db' : Database px) → IsSingle px db.handoffs → Step db db' → IsSingle px db'.handoffs
  Step-IsSingle db db' s (Step.creates dto actor k id task_id now o fresh h) =
      subst (OkSingle px) h (create_handoff-IsSingle px db dto actor k id task_id now fresh s)
  Step-IsSingle db db' s (Step.assigns id agent_id actor h e) =
      subst (OkSingle px) e (assign-IsSingle db id agent_id actor s)
  Step-IsSingle db db' s (Step.resolves id dto actor now h e) =
      subst (OkSingle px) e (resolve-IsSingle db id dto actor now s)

  -- Every run of the service keeps the identifiers of handoffs unique and at most one handoff of
  -- each conversation open.
  pub Reach-IsSingle :
      (db db' : Database px) → IsSingle px db.handoffs → Reach db db' → IsSingle px db'.handoffs
  Reach-IsSingle db db' s here = s
  Reach-IsSingle db db'' s (Reach.next {db' = db'} run step) =
      Step-IsSingle db' db'' (Reach-IsSingle db db' s run) step
