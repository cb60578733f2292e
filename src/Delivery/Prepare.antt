-- ===== src/Delivery/Prepare.antt =====
-- Lemmas and theorems on `prepareBatch` of
-- hermes-backend/src/automated-deliveries/automated-delivery.service.ts.
use hermes_n8n.Prelude.{
  ℕ, suc, ◌≡◌, refl, Bool, true, Option, some, List, [], ◌∷◌, arith, Option-cases, inl, inr, find,
  All, find-append_some, find-append_none, ap, ◌∙◌,
}
use hermes_n8n.Prisma.{Prisma}
use hermes_n8n.Schema.{Database}
use hermes_n8n.Schema.Delivery.{Delivery, DeliveryKind, OperationKey, same_key, same_kind}
use hermes_n8n.Delivery.Settle.{
  Part, PrepareBatch, key_of, new_delivery, upsert_part, prepare_parts, number_parts, prepare_batch,
}

same_kind_refl : (k : DeliveryKind) → same_kind k k ≡ true
same_kind_refl DeliveryKind.hermes_reply = refl
same_kind_refl DeliveryKind.system_notice = refl

same_key_refl : (k : OperationKey) → same_key k k ≡ true
same_key_refl k = ground (arith, same_kind_refl k.delivery_kind)

module _ (px : Prisma) where
  open px use {rows, find_unique_rows, create_rows}

  -- The row that an operation key names.
  abbrev pub keyed : Database px → OperationKey → Option Delivery
  keyed db key = find (λ (d : Delivery). same_key d.operation_key key) (rows db.deliveries)

  module _ (input : PrepareBatch) where
    upsert_part-some :
        (db : Database px) (id : ℕ) (part : Part) (d : Delivery)
        → keyed db (key_of input part) ≡ some d
        → upsert_part px input db (id, part) ≡ db
    unfolding upsert_part
    upsert_part-some db id part d e =
        rw
          (
            find_unique_rows (λ (a : Delivery). same_key a.operation_key (key_of input part))
                db.deliveries,
            upsert_part,
          )
          (rw e)

    -- A key that is taken keeps its row, and the key of the part is taken afterwards.
    upsert_part-keeps :
        (db : Database px) (id : ℕ) (part : Part) (key : OperationKey) (d : Delivery)
        → keyed db key ≡ some d
        → keyed (upsert_part px input db (id, part)) key ≡ some d
    unfolding upsert_part
    upsert_part-keeps db id part key d e =
        elim (Option-cases (
          px.find_unique (λ (a : Delivery). same_key a.operation_key (key_of input part))
            db.deliveries)) [
              | inr (r, f) ↦ rw (f, upsert_part) e
              | inl f ↦
                  rw (f, upsert_part)
                    (rw (create_rows (new_delivery id input part) db.deliveries) (
                      find-append_some (λ (a : Delivery). same_key a.operation_key key)
                        (rows db.deliveries) (new_delivery id input part ∷ []) d e))
            ]

    upsert_part-takes :
        (db : Database px) (id : ℕ) (part : Part)
        → (d : Delivery) × (keyed (upsert_part px input db (id, part)) (key_of input part) ≡ some d)
    unfolding upsert_part new_delivery
    upsert_part-takes db id part =
        let w : Delivery → Bool = λ a. same_key a.operation_key (key_of input part) in
        elim (Option-cases (px.find_unique w db.deliveries)) [
          | inr (r, f) ↦ (r, rw (f, upsert_part) (rw (← find_unique_rows w db.deliveries) f))
          | inl f ↦ (
            new_delivery id input part,
            rw (f, upsert_part)
                (rw (create_rows (new_delivery id input part) db.deliveries) (
                  find-append_none w (rows db.deliveries) (new_delivery id input part)
                    (rw (← find_unique_rows w db.deliveries) f)
                    (same_key_refl (key_of input part)))),
          )
        ]

    prepare_parts-keeps :
        (ps : List (ℕ × Part)) (db : Database px) (key : OperationKey) (d : Delivery)
        → keyed db key ≡ some d
        → keyed (prepare_parts px input ps db) key ≡ some d
    unfolding prepare_parts
    prepare_parts-keeps [] db key d e = e
    prepare_parts-keeps ((id, part) ∷ ps) db key d e =
        prepare_parts-keeps ps (upsert_part px input db (id, part)) key d
          (upsert_part-keeps db id part key d e)

    abbrev pub IsTaken : Database px → Part → Type 0
    IsTaken db part = (d : Delivery) × (keyed db (key_of input part) ≡ some d)

    prepare_parts-takes :
        (parts : List Part) (id : ℕ) (db : Database px)
        → All (IsTaken (prepare_parts px input (number_parts px id parts) db)) parts
    unfolding prepare_parts number_parts
    prepare_parts-takes [] id db = tt
    prepare_parts-takes (part ∷ parts) id db =
        let db' : Database px = upsert_part px input db (id, part) in
        let (d, e) = upsert_part-takes db id part in
        (
          (d, prepare_parts-keeps (number_parts px (suc id) parts) db' (key_of input part) d e),
          prepare_parts-takes parts (suc id) db',
        )

    prepare_parts-again :
        (parts : List Part) (id : ℕ) (db : Database px)
        → All (IsTaken db) parts
        → prepare_parts px input (number_parts px id parts) db ≡ db
    unfolding prepare_parts number_parts
    prepare_parts-again [] id db h = refl
    prepare_parts-again (part ∷ parts) id db ((d, e), hs) =
        ap (prepare_parts px input (number_parts px (suc id) parts))
          (upsert_part-some db id part d e)
        ∙ prepare_parts-again parts (suc id) db hs

    -- Preparing a batch twice is preparing it once, whatever identifiers the second run draws:
    -- no part gets a second row, and no row that is there is changed.
    pub prepare_batch_idempotent :
        (db : Database px) (id id' : ℕ)
        → prepare_batch px (prepare_batch px db input id) input id' ≡ prepare_batch px db input id
    unfolding prepare_batch
    prepare_batch_idempotent db id id' =
        prepare_parts-again input.parts id'
          (prepare_parts px input (number_parts px id input.parts) db)
          (prepare_parts-takes input.parts id db)
