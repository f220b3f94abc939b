-- ===== src/Telegram.antt =====
-- apps/server/src/telegram and the operations on its tasks: the way of an update from the Bot API
-- into the message store.
pub mod Tables
pub mod Inbox
pub mod Worker
pub mod Operations
pub mod Delivery
