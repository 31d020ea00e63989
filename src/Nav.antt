-- ===== src/Nav.antt =====
-- Where the browser is: the reducer of web/src/state/nav.tsx and the permalinks of
-- web/src/state/navUrl.ts.
pub mod State
pub mod Url
pub mod Jumps
mod Tests
