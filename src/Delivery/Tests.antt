-- ===== src/Delivery/Tests.antt =====
-- Runs of the delivery ledger on a database in memory, at which its theorems apply.
use hermes_n8n.Prisma.Sort.{first, sort}
use hermes_n8n.Prelude.{
  arith, true, ◌↔◌, ◌⊎◌, Member, length, ℕ, ◌+◌, ◌≡◌, refl, false, none, some, [], ◌∷◌, All,
}
use hermes_n8n.Prisma.Memory.{memory}
use hermes_n8n.Schema.{Database}
use hermes_n8n.Schema.Messaging.{Sender}
use hermes_n8n.Schema.Delivery.{Delivery, DeliveryKind, DeliveryStatus, Reason}
use hermes_n8n.Delivery.Settle.{
  confirm, recover_expired_claims, PrepareBatch, prepare_batch, key_of,
}
use hermes_n8n.Delivery.Batch.{Round, accepted, deliver_prepared_batch, operations_of}
use hermes_n8n.Delivery.Claim.{claim, claimed, refused}
use hermes_n8n.Delivery.Evolution.{Evolution, Evolution-refl}
use hermes_n8n.Fixtures.{someone, talk, question, empty_db}
use hermes_n8n.Delivery.Accounting.{Accounts, deliver_prepared_batch-Accounts}
use hermes_n8n.Delivery.Lifecycle.{IsWellFormed}
use hermes_n8n.Delivery.Ownership.{row_of, claim_exclusive}
use hermes_n8n.Delivery.Granted.{Sendable, claim-claimed, late_confirm_refused}
use hermes_n8n.Delivery.Eligible.{MaySend, ineligibility_reason_iff}
use hermes_n8n.Delivery.Eligibility.{
  provider_timestamp, whatsapp_reply_window, conversation_turn_id, ineligibility_reason,
}
use hermes_n8n.Delivery.Prepare.{prepare_batch_idempotent}
use hermes_n8n.Delivery.Rows.{HasRow, Written, prepare_batch_rows}
use hermes_n8n.Delivery.Progress.{IsFair, deliver_prepared_batch-Evolution}

abbrev answer : PrepareBatch
answer = record {
  delivery_kind = DeliveryKind.hermes_reply;
  conversation_id = 2;
  contact_id = 1;
  source_message_id = 3;
  sender = Sender.hermes;
  allow_handed_off = false;
  parts =
      record { part_index = 0; content = "hola"; metadata = none }
      ∷ record { part_index = 1; content = "adios"; metadata = none }
      ∷ [];
}

abbrev first_part : Delivery
first_part = record {
  id = 10;
  operation_key = key_of answer (record { part_index = 0; content = "hola"; metadata = none });
  delivery_kind = DeliveryKind.hermes_reply;
  part_index = 0;
  conversation_id = 2;
  contact_id = 1;
  source_message_id = 3;
  outbound_message_id = none;
  sender = Sender.hermes;
  content = "hola";
  allow_handed_off = false;
  status = DeliveryStatus.prepared;
  attempts = 0;
  claim_token = none;
  claim_expires_at = none;
  dispatch_started_at = none;
  confirmed_at = none;
  ambiguous_at = none;
  rejected_at = none;
  suppressed_at = none;
  wamid = none;
  reason_code = none;
  metadata = none;
}

abbrev prepared_db : Database memory
prepared_db = record empty_db { deliveries = first_part ∷ [] }

abbrev quiet : ℕ → Round memory
quiet k = record {
  test_at = 2000;
  claim_at = 2000;
  claim_token = 70 + k;
  before_claim = λ db. db;
  response = λ s. accepted 88;
  before_settle = λ db. db;
  settle_at = 2001;
  message_id = 40 + k;
}

quiet-IsFair : (k : ℕ) → IsFair memory (quiet k)
quiet-IsFair k = record { claims = Evolution-refl memory; settles = Evolution-refl memory }

deliver_prepared_batch-Evolution_example :
    Evolution memory prepared_db (deliver_prepared_batch memory quiet prepared_db 3).db
deliver_prepared_batch-Evolution_example =
    deliver_prepared_batch-Evolution memory quiet quiet-IsFair prepared_db 3

-- The part is sent.
delivers : length (deliver_prepared_batch memory quiet prepared_db 3).sent ≡ 1
unfolding deliver_prepared_batch sort claim ineligibility_reason first conversation_turn_id
    whatsapp_reply_window provider_timestamp confirm
delivers = refl

deliver_prepared_batch-Accounts_example :
    Accounts 0
      (length (deliver_prepared_batch memory quiet prepared_db 3).sent)
      (deliver_prepared_batch memory quiet prepared_db 3).outcome
unfolding deliver_prepared_batch operations_of sort
deliver_prepared_batch-Accounts_example = deliver_prepared_batch-Accounts memory quiet prepared_db 3

first_part-IsWellFormed : All IsWellFormed (memory.rows prepared_db.deliveries)
first_part-IsWellFormed =
    (record { token = refl; lease = refl; receipt = refl; message = refl }, tt)

abbrev token : ℕ
token = 70

abbrev claimed_db : Database memory
claimed_db = (claim memory prepared_db first_part 2000 70).0

claims_first :
    claim memory prepared_db first_part 2000 70 ≡ (claimed_db, claimed first_part 593_900 70)
unfolding claim ineligibility_reason first conversation_turn_id whatsapp_reply_window
    provider_timestamp
claims_first = refl

claim-claimed_example :
    (row_of memory prepared_db 10 ≡ some first_part)
    × (first_part.status ≡ DeliveryStatus.prepared)
    × Sendable memory prepared_db first_part 2000
    × (token ≡ token)
    × (row_of memory claimed_db 10
        ≡ some (record first_part {
          status = DeliveryStatus.dispatching;
          claim_token = some 70;
          claim_expires_at = some 62_000;
          dispatch_started_at = some 2000;
          attempts = 1;
        }))
claim-claimed_example =
    claim-claimed memory prepared_db claimed_db first_part first_part 2000 70 593_900 70
      first_part-IsWellFormed claims_first

claim_exclusive_example :
    claim memory claimed_db first_part 2001 71
    ≡ (claimed_db, refused false Reason.delivery_in_progress)
claim_exclusive_example =
    claim_exclusive memory prepared_db claimed_db first_part first_part 2000 70 593_900 70
      first_part-IsWellFormed claims_first 2001 71

abbrev dispatched : Delivery
dispatched = record first_part {
  status = DeliveryStatus.dispatching;
  claim_token = some 70;
  claim_expires_at = some 62_000;
}

abbrev dispatched_db : Database memory
dispatched_db = record empty_db { deliveries = dispatched ∷ [] }

abbrev recovered_db : Database memory
recovered_db = (recover_expired_claims memory dispatched_db 90_000).0

late_confirm_refused_example :
    (row_of memory recovered_db 10
      ≡ some (record dispatched {
        status = DeliveryStatus.ambiguous;
        ambiguous_at = some 90_000;
        reason_code = some Reason.claim_expired;
        claim_token = none;
        claim_expires_at = none;
      }))
    × (confirm memory recovered_db first_part 70 88 90_001 40 ≡ none)
    × ((later another : ℕ)
        → claim memory recovered_db first_part later another
          ≡ (recovered_db, refused true Reason.claim_expired))
late_confirm_refused_example =
    late_confirm_refused memory dispatched_db first_part dispatched 70 88 90_001 90_000 40 62_000
      refl refl refl (omega arith)

ineligibility_reason_iff_example :
    (ineligibility_reason first_part
        (some talk)
        (some someone)
        none
        (some question)
        (some question)
        2000
      ≡ none)
    ↔ MaySend first_part talk someone none question question 2000
ineligibility_reason_iff_example =
    ineligibility_reason_iff first_part talk someone none question question 2000

prepare_batch_idempotent_example :
    prepare_batch memory (prepare_batch memory prepared_db answer 20) answer 30
    ≡ prepare_batch memory prepared_db answer 20
prepare_batch_idempotent_example = prepare_batch_idempotent memory answer prepared_db 20 30

-- The first batch of an empty ledger.
prepare_batch_rows_example :
    All (HasRow memory answer (prepare_batch memory empty_db answer 20)) answer.parts
    × ((d : Delivery) → Member d [] → Member d (prepare_batch memory empty_db answer 20).deliveries)
    × ((d : Delivery)
        → Member d (prepare_batch memory empty_db answer 20).deliveries
        → Member d [] ⊎ Written answer d)
prepare_batch_rows_example = prepare_batch_rows memory answer empty_db 20
