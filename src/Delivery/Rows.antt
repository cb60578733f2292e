-- ===== src/Delivery/Rows.antt =====
-- The rows of the ledger before and after `prepareBatch` of
-- hermes-backend/src/automated-deliveries/automated-delivery.service.ts.
use hermes_n8n.Prelude.{
  subst, Bool, ℕ, suc, ◌≡◌, refl, sym, ◌∙◌, true, none, List, [], ◌∷◌, ◌++◌, ◌⊎◌, arith,
  Option-cases, inl, inr, Member, All, find-some,
}
use hermes_n8n.Prisma.{Prisma}
use hermes_n8n.Schema.{Database}
use hermes_n8n.Schema.Delivery.{
  Delivery, DeliveryKind, DeliveryStatus, OperationKey, same_key, same_kind,
}
use hermes_n8n.Delivery.Settle.{
  Part, PrepareBatch, key_of, new_delivery, upsert_part, prepare_parts, number_parts, prepare_batch,
}

Member-left : (a : Delivery) (xs ys : List Delivery) → Member a xs → Member a (xs ++ ys)
Member-left a [] ys m = elim m [ ]
Member-left a (x ∷ xs) ys (inl e) = inl e
Member-left a (x ∷ xs) ys (inr m) = inr (Member-left a xs ys m)

Member-last : (a : Delivery) (xs : List Delivery) → Member a (xs ++ a ∷ [])
Member-last a [] = inl refl
Member-last a (x ∷ xs) = inr (Member-last a xs)

Member-append :
    (a b : Delivery) (xs : List Delivery) → Member a (xs ++ b ∷ []) → Member a xs ⊎ (a ≡ b)
Member-append a b [] (inl e) = inr e
Member-append a b [] (inr m) = elim m [ ]
Member-append a b (x ∷ xs) (inl e) = inl (inl e)
Member-append a b (x ∷ xs) (inr m) = elim (Member-append a b xs m) [
  | inl k ↦ inl (inr k)
  | inr e ↦ inr e
]

same_kind-true : (k l : DeliveryKind) → same_kind k l ≡ true → k ≡ l
same_kind-true DeliveryKind.hermes_reply DeliveryKind.hermes_reply h = refl
same_kind-true DeliveryKind.system_notice DeliveryKind.system_notice h = refl
same_kind-true DeliveryKind.hermes_reply DeliveryKind.system_notice h = cc
same_kind-true DeliveryKind.system_notice DeliveryKind.hermes_reply h = cc

same_fields :
    (a b : OperationKey)
    → a.source_message_id ≡ b.source_message_id
    → a.delivery_kind ≡ b.delivery_kind
    → a.part_index ≡ b.part_index
    → a ≡ b
same_fields a b h k l = cc

same_key-true : (a b : OperationKey) → same_key a b ≡ true → a ≡ b
same_key-true a b h =
    same_fields a b (ground (arith, h))
      (same_kind-true a.delivery_kind b.delivery_kind (ground (arith, h))) (ground (arith, h))

-- A row that a batch writes: a part of it, waiting for its first attempt.
pub record Written (input : PrepareBatch) (d : Delivery) : Type 0 where
  pub part : Part
  pub of_batch : Member part input.parts
  pub key : d.operation_key ≡ record {
    source_message_id = input.source_message_id;
    delivery_kind = input.delivery_kind;
    part_index = part.part_index;
  }
  pub kind : d.delivery_kind ≡ input.delivery_kind
  pub index : d.part_index ≡ part.part_index
  pub conversation : d.conversation_id ≡ input.conversation_id
  pub contact : d.contact_id ≡ input.contact_id
  pub source : d.source_message_id ≡ input.source_message_id
  pub sender : d.sender ≡ input.sender
  pub content : d.content ≡ part.content
  pub metadata : d.metadata ≡ part.metadata
  pub allow_handed_off : d.allow_handed_off ≡ input.allow_handed_off
  pub status : d.status ≡ DeliveryStatus.prepared
  pub attempts : d.attempts ≡ 0
  pub unclaimed : d.claim_token ≡ none
  pub unleased : d.claim_expires_at ≡ none
  pub unsent : d.wamid ≡ none
  pub no_message : d.outbound_message_id ≡ none
  pub no_reason : d.reason_code ≡ none

module _ (input : PrepareBatch) where
  new_delivery-Written :
      (id : ℕ) (part : Part) → Member part input.parts → Written input (new_delivery id input part)
  unfolding new_delivery
  new_delivery-Written id part m = record {
    part = part;
    of_batch = m;
    key = refl;
    kind = refl;
    index = refl;
    conversation = refl;
    contact = refl;
    source = refl;
    sender = refl;
    content = refl;
    metadata = refl;
    allow_handed_off = refl;
    status = refl;
    attempts = refl;
    unclaimed = refl;
    unleased = refl;
    unsent = refl;
    no_message = refl;
    no_reason = refl;
  }

module _ (px : Prisma) (input : PrepareBatch) where
  open px use {rows, find_unique_rows, create_rows}

  -- The part has a row under its key.
  pub record HasRow (db : Database px) (part : Part) : Type 0 where
    pub row : Delivery
    pub stored : Member row (rows db.deliveries)
    pub key : row.operation_key ≡ record {
      source_message_id = input.source_message_id;
      delivery_kind = input.delivery_kind;
      part_index = part.part_index;
    }

  -- What parts of the batch do to the ledger: rows stay, and the rows that come are written by it.
  record Extends (db db' : Database px) : Type 0 where
    kept : (d : Delivery) → Member d (rows db.deliveries) → Member d (rows db'.deliveries)
    come :
        (d : Delivery)
        → Member d (rows db'.deliveries)
        → Member d (rows db.deliveries) ⊎ Written input d

  Extends-refl : (db : Database px) → Extends db db
  Extends-refl db = record { kept = λ d m. m; come = λ d m. inl m }

  Extends-trans : (a b c : Database px) → Extends a b → Extends b c → Extends a c
  Extends-trans a b c g h = record {
    kept = λ d m. h.kept d (g.kept d m);
    come = λ d m. elim (h.come d m) [ inl k ↦ g.come d k | inr w ↦ inr w ];
  }

  upsert_part-Extends :
      (db : Database px) (id : ℕ) (part : Part)
      → Member part input.parts
      → Extends db (upsert_part px input db (id, part))
        × HasRow (upsert_part px input db (id, part)) part
  unfolding upsert_part new_delivery
  upsert_part-Extends db id part p =
      let w : Delivery → Bool = λ a. same_key a.operation_key (key_of input part) in
      elim (Option-cases (px.find_unique w db.deliveries)) [
        | inr (r, f) ↦
            let m =
              find-some w (rows db.deliveries) r (sym (find_unique_rows w db.deliveries) ∙ f) in
            rw (f, upsert_part)
              (
                Extends-refl db,
                record {
                  row = r;
                  stored = m.1;
                  key = same_key-true r.operation_key (key_of input part) m.0;
                },
              )
        | inl f ↦
            let row = new_delivery id input part in
            let new = new_delivery-Written input id part p in
            let db' : Database px = record db { deliveries = px.create row db.deliveries } in
            rw (f, upsert_part)
              (
                record {
                  kept = λ d m.
                      rw (create_rows row db.deliveries)
                        (Member-left d (rows db.deliveries) (row ∷ []) m);
                  come = λ d m.
                      elim (Member-append d row (rows db.deliveries)
                        (rw (create_rows row db.deliveries) at m)) [
                          | inl k ↦ inl k
                          | inr e ↦ inr (subst (Written input) (sym e) new)
                        ];
                },
                record {
                  row = row;
                  stored =
                      rw (create_rows row db.deliveries) (Member-last row (rows db.deliveries));
                  key = refl;
                },
              )
      ]

  HasRow-Extends :
      (db db' : Database px) → Extends db db' → (part : Part) → HasRow db part → HasRow db' part
  HasRow-Extends db db' g part h = record {
    row = h.row;
    stored = g.kept h.row h.stored;
    key = h.key;
  }

  prepare_parts-Extends :
      (parts : List Part) (id : ℕ) (db : Database px)
      → ((part : Part) → Member part parts → Member part input.parts)
      → Extends db (prepare_parts px input (number_parts px id parts) db)
        × All (HasRow (prepare_parts px input (number_parts px id parts) db)) parts
  unfolding prepare_parts number_parts
  prepare_parts-Extends [] id db within = (Extends-refl db, tt)
  prepare_parts-Extends (part ∷ parts) id db within =
      let db' : Database px = upsert_part px input db (id, part) in
      let (first, row) = upsert_part-Extends db id part (within part (inl refl)) in
      let (rest, more) = prepare_parts-Extends parts (suc id) db' (λ p m. within p (inr m)) in
      let last : Database px = prepare_parts px input (number_parts px (suc id) parts) db' in
      (Extends-trans db db' last first rest, (HasRow-Extends db' last rest part row, more))

  -- After a batch is prepared, every part of it has a row under its key, every row of before is
  -- there as it was, and every other row is a part of the batch, with that part's key, content and
  -- metadata, addressed and allowed as the batch says, prepared and not yet attempted, claimed or
  -- sent.
  pub prepare_batch_rows :
      (db : Database px) (id : ℕ)
      → All (HasRow (prepare_batch px db input id)) input.parts
        × ((d : Delivery)
            → Member d (rows db.deliveries)
            → Member d (rows (prepare_batch px db input id).deliveries))
        × ((d : Delivery)
            → Member d (rows (prepare_batch px db input id).deliveries)
            → Member d (rows db.deliveries) ⊎ Written input d)
  unfolding prepare_batch
  prepare_batch_rows db id =
      let (g, h) = prepare_parts-Extends input.parts id db (λ p m. m) in (h, g.kept, g.come)
