-- ===== src/Schema.antt =====
-- The tables of hermes-backend/prisma/schema.prisma that the modelled services read and write.
pub mod Messaging
pub mod Delivery
pub mod Crm
pub mod Campaigns
use hermes_n8n.Prisma.{Prisma}
use Messaging.{Contact, Conversation, Message, InboundTurn}
use Campaigns.{Campaign, Recipient}
use Crm.{
  Handoff, Lead, Task, AuditLog, BankAccount, TransferPayment, ProofMessage, Conversion, SyncJob,
}

pub record Database (px : Prisma) : Type 0 where
  pub contacts : px.Table Contact
  pub conversations : px.Table Conversation
  pub messages : px.Table Message
  pub inbound_turns : px.Table InboundTurn
  pub deliveries : px.Table Delivery.Delivery
  pub handoffs : px.Table Handoff
  pub leads : px.Table Lead
  pub tasks : px.Table Task
  pub audit_logs : px.Table AuditLog
  pub bank_accounts : px.Table BankAccount
  pub transfers : px.Table TransferPayment
  pub proofs : px.Table ProofMessage
  pub conversions : px.Table Conversion
  pub sync_jobs : px.Table SyncJob
  pub campaigns : px.Table Campaign
  pub recipients : px.Table Recipient
