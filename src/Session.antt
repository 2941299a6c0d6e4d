-- ===== src/Session.antt =====
-- The two programs over one line: main.c and master.c of
-- project-spec/meta-user/recipes-apps/autostart/src.
pub mod Request
pub mod Answer
pub mod Exchange
pub mod Tests
