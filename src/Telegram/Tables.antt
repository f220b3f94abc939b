-- ===== src/Telegram/Tables.antt =====
-- The rows of apps/server/src/db/schema.ts that the inbox, the workers and the owner's operations
-- share. A task's primary key is random; the update id, which is unique too, stands for it. Times
-- are in milliseconds. Update ids are natural numbers, as the Bot API gives them.
use koharu_suite.Prelude.{ℕ, Bool, true, false, ◌&&◌, Option, none, some, List}
use koharu_suite.Prelude.Texts.{Text}
use koharu_suite.Prelude.Int.{ℤ}

pub data UpdateType : Type 0 where
  channel_post edited_channel_post : UpdateType

-- An update of the Bot API: the chats of the two kinds of post, and all the rest as a text.
pub record Update : Type 0 where
  pub update_id : ℕ
  pub channel_post_chat : Option ℤ
  pub edited_channel_post_chat : Option ℤ
  pub content : Text

-- `telegram_ingest_tasks`.
pub record Task : Type 0 where
  pub bot_id : ℕ
  pub telegram_update_id : ℕ
  pub telegram_chat_id : ℤ
  pub update_type : UpdateType
  pub raw_json : Option Update
  pub attempt_count : ℕ
  pub available_at : ℕ
  pub processed_at : Option ℕ
  pub blocked_at : Option ℕ
  pub skipped_at : Option ℕ
  pub skip_reason : Option Text
  pub last_error : Option Text
  pub updated_at : ℕ

-- `telegram_polling_state`, a table of at most one row.
pub record PollingState : Type 0 where
  pub bot_id : ℕ
  pub next_update_id : Option ℕ

-- `telegram_poll_receipts`.
pub record Receipt : Type 0 where
  pub bot_id : ℕ
  pub requested_offset : Option ℕ
  pub checkpoint_offset : ℕ
  pub returned_first_update_id : ℕ
  pub returned_last_update_id : ℕ
  pub returned_count : ℕ
  pub accepted_count : ℕ
  pub ignored_count : ℕ

-- `telegram_channel_allowlist`.
pub record Channel : Type 0 where
  pub telegram_chat_id : ℤ
  pub enabled : Bool
  pub disabled_at : Option ℕ

pub data AuditAction : Type 0 where
  task_retry task_skip channel_enable channel_disable : AuditAction

-- `operation_audit_events`; the target is a task or a channel.
pub record AuditEvent : Type 0 where
  pub action : AuditAction
  pub target_task : Option ℕ
  pub target_channel : Option ℤ
  pub reason : Option Text

pub record Database : Type 0 where
  pub polling : Option PollingState
  pub tasks : List Task
  pub channels : List Channel
  pub receipts : List Receipt
  pub audit : List AuditEvent

abbrev pub is_null {ℓ} : {A : Type ℓ} → Option A → Bool
is_null none = true
is_null (some a) = false

-- `processed_at is null and skipped_at is null`.
abbrev pub unfinished : Task → Bool
unfinished t = is_null t.processed_at && is_null t.skipped_at
