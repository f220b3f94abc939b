-- ===== src/Ops.antt =====
-- apps/server/src/ops: diagnosis of an installation.
pub mod Doctor
