-- ===== src/Handoffs/Invariant.antt =====
-- The invariant of the table of handoffs, and the writes of
-- hermes-backend/src/handoff/handoff.service.ts that keep it.
use hermes_n8n.Prelude.{
  Grows, Grows-map_first, count-Changes, ℕ, ◌+◌, ◌≤◌, ◌≡◌, refl, ap, subst, ◌∙◌, Bool, true, some,
  [], ◌∷◌, arith, inl, inr, Bool-cases, ◌==◌, count, ==_true, count-append,
}
use hermes_n8n.Prisma.{Prisma}
use hermes_n8n.Schema.{Database}
use hermes_n8n.Schema.Crm.{Handoff, is_open_handoff}
use hermes_n8n.Outcome.{Result, ok, err}
use hermes_n8n.Handoffs.Create.{is_open_of}

-- A handoff keeps its identifier and its conversation, and is never opened again.
pub record HandoffEvolves (a b : Handoff) : Type 0 where
  pub same_id : b.id ≡ a.id
  pub same_conversation : b.conversation_id ≡ a.conversation_id
  pub closed : is_open_handoff b.status ≡ true → is_open_handoff a.status ≡ true

module _ (px : Prisma) where
  open px use {rows, find_unique_rows, update_rows, create_rows, find_first_some, find_first_none}

  -- The invariant of the table: unique identifiers, and at most one open handoff of a conversation.
  pub record IsSingle (t : px.Table Handoff) : Type 0 where
    pub unique : (id : ℕ) → count (λ (h : Handoff). h.id == id) (rows t) ≤ 1
    pub one_open : (c : ℕ) → count (is_open_of px c) (rows t) ≤ 1

  pub updated-IsSingle :
      (t : px.Table Handoff) (id : ℕ) (f : Handoff → Handoff) (h : Handoff)
      → px.find_unique (λ (a : Handoff). a.id == id) t ≡ some h
      → HandoffEvolves h (f h)
      → IsSingle t
      → IsSingle (px.update (λ (a : Handoff). a.id == id) f t)
  updated-IsSingle t id f h e step s =
      let w : Handoff → Bool = λ a. a.id == id in
      let after = px.update w f t in
      let g : Grows HandoffEvolves (λ a. ⊥) (rows t) (rows after) = rw (update_rows w f t) (
        Grows-map_first HandoffEvolves (λ a. ⊥)
          (λ a. record { same_id = refl; same_conversation = refl; closed = λ k. k }) w f (rows t)
          λ a k.
            let same : h ≡ a = ground (arith, e, k, find_unique_rows w t) in
            subst (λ x. HandoffEvolves x (f x)) same step) in
      record {
        unique = λ id. omega (
          arith,
          s.unique id,
          count-Changes HandoffEvolves (λ (h : Handoff). h.id == id)
              (λ a b e h. ground (arith, e.same_id, h)) (rows t) (rows after) g,
        );
        one_open = λ c. omega (
          arith,
          s.one_open c,
          count-Changes HandoffEvolves (is_open_of px c)
              (λ a b e h. ground (arith, e.same_conversation, e.closed, h)) (rows t) (rows after) g,
        );
      }

  pub created-IsSingle :
      (t : px.Table Handoff) (h : Handoff)
      → count (λ (a : Handoff). a.id == h.id) (rows t) ≡ 0
      → count (is_open_of px h.conversation_id) (rows t) ≡ 0
      → IsSingle t
      → IsSingle (px.create h t)
  created-IsSingle t h fresh free s =
      let added : (p : Handoff → Bool)
          → count p (rows (px.create h t)) ≡ count p (rows t) + count p (h ∷ []) =
        λ p. ap (count p) (create_rows h t) ∙ count-append p (rows t) (h ∷ []) in
      record {
        unique = λ id. elim (Bool-cases (h.id == id)) [
          | inl y ↦
              let none_there =
                subst (λ k. count (λ (a : Handoff). a.id == k) (rows t) ≡ 0) (==_true h.id id y)
                  fresh in
              rw (added (λ (a : Handoff). a.id == id), y) (omega (arith, none_there))
          | inr n ↦ rw (added (λ (a : Handoff). a.id == id), n) (omega (arith, s.unique id))
        ];
        one_open = λ c. elim (Bool-cases (h.conversation_id == c)) [
          | inl y ↦
              let none_there =
                subst (λ k. count (is_open_of px k) (rows t) ≡ 0) (==_true h.conversation_id c y)
                  free in
              rw (added (is_open_of px c), y)
                (elim (Bool-cases (is_open_handoff h.status)) [
                  | inl k ↦ rw k (omega (arith, none_there))
                  | inr k ↦ rw k (omega (arith, none_there))
                ])
          | inr n ↦ rw (added (is_open_of px c), n) (omega (arith, s.one_open c))
        ];
      }

  abbrev pub OkSingle : {A : Type 0} → Result (Database px × A) → Type 0
  OkSingle (err e) = Unit
  OkSingle (ok (db, a)) = IsSingle db.handoffs
