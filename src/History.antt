-- ===== src/History.antt =====
-- web/src/components/history/historyLayout.ts: the layout of a design's history.
pub mod Events
pub mod Tracks
pub mod Hours
pub mod Declutter
mod Tests
