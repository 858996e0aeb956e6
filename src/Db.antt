-- ===== src/Db.antt =====
-- packages/db: the cursors of the lists.
pub mod Cursor
mod Tests
