-- ===== src/Lib.antt =====
-- Verification of the backend of hermes_n8n, a WhatsApp sales assistant with a CRM.
--
-- The program (hermes-backend/src, NestJS over PostgreSQL through Prisma) answers the messages of
-- contacts with a bot and lets agents take conversations over. Messages that arrive together form
-- an inbound turn, which a worker claims and answers; each automatic message is a row of a ledger
-- of deliveries, which a worker claims, sends and settles; payments by bank transfer run from
-- instructions over proofs to a decision and send their notices through the ledger; a handoff
-- gives a conversation to an agent and stops the bot, since the ledger suppresses what is not
-- allowed there. Replies are divided into messages of limited length; a guard refuses messages and
-- replies beyond quotas that it keeps in Redis; campaigns send templates to contacts that have opted
-- in.
--
-- Files:
-- Prelude: shared names, Boolean tests, lists of rows (selection, counting, rewriting, growth).
-- Prisma: the database client, a record of operations and their documented laws that every
--   component takes as a parameter; Prisma/Memory is the client over lists.
-- Schema: the rows of hermes-backend/prisma/schema.prisma, and the database as a record of tables.
-- Text, Outcome: texts and HTTP exceptions.
-- Delivery: hermes-backend/src/automated-deliveries/automated-delivery.service.ts.
--   Eligibility has ineligibilityReason, providerTimestamp and whatsappReplyWindow of
--   hermes-backend/src/meta/whatsapp-service-window.ts; Claim has claim; Settle has prepareBatch,
--   confirm, handleDispatchFailure and recoverExpiredClaims; Batch has deliverPreparedBatch,
--   recoverBatch and getBatchProgress. The other children are proofs.
-- Payments: hermes-backend/src/payments. Policy has transfer-intent.policy.ts; Transfer and
--   Instructions have maybeSendInstructions and reconcileInstruction; Proof has detectProof and
--   maybeReplyWithStatus; Review has startReview, approve, reject and sendDecisionNotice.
-- Leads: recordWonMilestone of hermes-backend/src/leads/leads.service.ts.
-- Turns: hermes-backend/src/auto-replies/inbound-turn.service.ts and
--   inbound-turn-recovery.service.ts. Schedule has schedule; Claim has the rest.
-- Handoffs: hermes-backend/src/handoff/handoff.service.ts. Create has create; Attend has assign
--   and resolve.
-- Splitter: hermes-backend/src/auto-replies/whatsapp-message-splitter.ts. Normal, Words and Pack have
--   the code; the other children are proofs.
-- Guard: hermes-backend/src/conversation-guard/conversation-guard.service.ts. Redis is the interface
--   of the commands it sends, with their documented laws, and Memory has two instances; Content,
--   Quota and Inspect have the code; the other children are proofs.
-- Campaigns: hermes-backend/src/campaigns/campaigns.service.ts. Send has processSendJob and
--   completeIfFinished; Status has markRecipientStatus, markRetryExhausted, markReplied and optOut;
--   Control has start, pause and cancel; Import has importContacts, and Phone
--   hermes-backend/src/campaigns/phone-normalizer.ts; the other children are proofs.
-- Calendar: hermes-backend/src/integrations/google-calendar/slot-engine.ts. Slots has the code;
--   the other children are proofs.
-- Tasks: hermes-backend/src/tasks/tasks.service.ts. Requests has requestCallback, requestQuote,
--   requestHermesReview and update; Joining and Again are proofs.
-- Fixtures and the Tests of each component: rows and runs at which the theorems are applied.
--
-- How the code is read:
-- An operation takes the database and returns it with its answer. A transaction is one step, as
-- its locks make it; an exception rolls it back, so an error has no database. The transactions of
-- others between two steps of a batch are functions of the database, which the theorems
-- quantify over.
-- Identifiers, tokens and instants (milliseconds) are natural numbers, amounts are cents. A
-- transaction reads the clock once. Random identifiers and tokens, the clock, the settings, the
-- answers of the WhatsApp client, the decryption of an account and what a regular expression
-- finds in a text are arguments. The key of a delivery is the triple that its text spells.
-- The hours allowed for a review and the times in a payload are whole numbers.
-- Loops run over the rows read or the parts given, by recursion on the list. Only the loop that
-- slices a long word and the one over the quarters of a day run on fuel, the length of the word and
-- the milliseconds until closing; the theorems on them show that it is enough.
-- A report on a recipient of a campaign and an import of contacts are one step each, although their
-- statements have no transaction around them.
-- The guard's operations come one after the other, between them any other; Redis may fail at each
-- command, before or after it has taken effect.
--
-- Not modelled: the JSON of audit logs, the titles of tasks, log lines, events after a
-- transaction, timers, the stripping of fields from an answer, the administration of bank
-- accounts, pure reads for the CRM, and the components that PROJECT.json lists as such, among
-- them the reply pipeline, the media and the creation of campaigns, advertising, meetings and
-- the connection of the guard to Redis.
pub mod Prelude
pub mod Prisma
pub mod Schema
pub mod Splitter
pub mod Guard
pub mod Campaigns
pub mod Tasks
pub mod Calendar
pub mod Delivery
pub mod Text
pub mod Outcome
pub mod Payments
pub mod Leads
pub mod Turns
pub mod Handoffs
pub mod Fixtures
