-- ===== src/Telegram/Operations.antt =====
-- apps/server/src/admin/operations.ts: what the owner does to blocked tasks and to channels. The
-- actor of an audit event is left out. Each operation is one transaction.
pub mod Effects
use koharu_suite.Prelude.{
  ℕ, Bool, true, false, not, ◌&&◌, ◌||◌, Option, none, some, List, [], ◌∷◌, ◌++◌, ltb, ◌==◌,
  if◌then◌else◌, Result, ok, err, ◌>>=◌, ◌>>◌, throw_if, length, find,
}
use koharu_suite.Prelude.Texts.{Text, trim}
use koharu_suite.Prelude.Int.{ℤ, eqb_ℤ}
use koharu_suite.Telegram.Tables.{
  Task, Channel, AuditAction, task_retry, task_skip, channel_enable, channel_disable, AuditEvent,
  Database, is_null, unfinished,
}
use koharu_suite.Telegram.Worker.{update_where_id}

pub data OperationError : Type 0 where
  not_found conflict invalid_reason : OperationError

-- `normalizedReason`.
unfoldable pub normalized_reason : Text → Result OperationError Text
normalized_reason value =
    let reason = trim value in
    if ltb (length reason) 1 || ltb 500 (length reason) then err invalid_reason else ok reason

abbrev pub find_task : ℕ → List Task → Result OperationError Task
find_task id tasks = elim (find (λ t. t.telegram_update_id == id) tasks) [
  | none ↦ err not_found
  | some t ↦ ok t
]

-- A task that is blocked and not finished.
unfoldable pub blocked_task : ℕ → List Task → Result OperationError Task
blocked_task id tasks = do
  task ← find_task id tasks
  throw_if (not (unfinished task) || is_null task.blocked_at) conflict
  ok task

abbrev pub task_event : AuditAction → ℕ → Text → AuditEvent
task_event action id reason = record {
  action = action;
  target_task = some id;
  target_channel = none;
  reason = some reason;
}

-- `retryTask`.
unfoldable pub retry_task : ℕ → Text → ℕ → Database → Result OperationError Database
retry_task id reason_value now db = do
  reason ← normalized_reason reason_value
  task ← blocked_task id db.tasks
  ok (record db {
    tasks =
        update_where_id id
          (λ t. record t {
            attempt_count = 0;
            available_at = now;
            blocked_at = none;
            updated_at = now;
          })
          db.tasks;
    audit = db.audit ++ task_event task_retry id reason ∷ [];
  })

-- `skipTask`.
unfoldable pub skip_task : ℕ → Text → ℕ → Database → Result OperationError Database
skip_task id reason_value now db = do
  reason ← normalized_reason reason_value
  task ← blocked_task id db.tasks
  ok (record db {
    tasks =
        update_where_id id
          (λ t. record t { skipped_at = some now; skip_reason = some reason; updated_at = now })
          db.tasks;
    audit = db.audit ++ task_event task_skip id reason ∷ [];
  })

abbrev update_channel : ℤ → (Channel → Channel) → List Channel → List Channel
update_channel id f [] = []
update_channel id f (c ∷ cs) =
    (if eqb_ℤ c.telegram_chat_id id then f c else c) ∷ update_channel id f cs

abbrev same_flag : Bool → Bool → Bool
same_flag true b = b
same_flag false b = not b

-- `setChannelEnabled`, without the view of the channel that it returns.
unfoldable pub set_channel_enabled : ℤ → Bool → ℕ → Database → Result OperationError Database
set_channel_enabled chat enabled now db =
    elim (find (λ c. eqb_ℤ c.telegram_chat_id chat) db.channels) [
      | none ↦ err not_found
      | some channel ↦ ok (
          if same_flag channel.enabled enabled then db else record db {
            channels =
                update_channel chat
                  (λ c. record c {
                    enabled = enabled;
                    disabled_at = if enabled then none else some now;
                  })
                  db.channels;
            audit =
                db.audit
                ++ record {
                  action = if enabled then channel_enable else channel_disable;
                  target_task = none;
                  target_channel = some chat;
                  reason = none;
                }
                  ∷ [];
          })
    ]
