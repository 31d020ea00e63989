-- ===== src/Board.antt =====
-- Live editing of whiteboards: web/src/whiteboards/sync/protocol.ts and useBoardSync.ts.
pub mod Protocol
pub mod Store
pub mod Sync
mod Tests
