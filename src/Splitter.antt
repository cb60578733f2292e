-- ===== src/Splitter.antt =====
-- The division of a reply into WhatsApp messages: auto-replies/whatsapp-message-splitter.ts.
-- A text is the list of its UTF-16 code units, so that `length` counts what the source counts.
pub mod Normal
pub mod Words
pub mod Pack
mod Letters
pub mod Limits
mod Offers
pub mod Division
mod Tests
