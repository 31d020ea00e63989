-- ===== src/Refs.antt =====
-- The tokens by which messages, wiki pages and pins name a document, a task, a board and the like:
-- web/src/components/*card/*ref.ts, web/src/components/reftokens.ts and web/src/notifications/mentions.ts.
pub mod Scheme
pub mod RoundTrip
pub mod Split
pub mod Spells
pub mod Weave
pub mod Woven
mod Codec
mod Tests
