-- ===== src/Chat.antt =====
-- The chat client: web/src/chat/types.ts, cache.ts and typing.ts.
pub mod Types
pub mod Query
pub mod Cache
pub mod Typing
pub mod Events
mod Tests
