-- ===== src/Session.antt =====
-- internal/session: target identifiers, the scrollback buffer, bookmarks and the session manager.
pub mod TargetId
pub mod Scrollback
pub mod Bookmark
pub mod Manager
