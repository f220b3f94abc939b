-- ===== src/Imports.antt =====
-- apps/server/src/imports: what an import of a Telegram Desktop export declares.
pub mod Coverage
