-- ===== src/Wiki.antt =====
-- The wiki of a project: web/src/wiki/.
pub mod Slug
pub mod Drafts
pub mod Session
pub mod Editor
pub mod Links
mod Tests
