-- ===== src/Telegram/Worker.antt =====
-- apps/server/src/telegram/worker.ts: `TelegramWorkerPool.processOne`, one task per transaction,
-- and the message that is kept of a failure. What the inner savepoint does (normalising the update
-- and storing the message) is an argument, `deliver`; a failure rolls it back. The loop that calls
-- `processOne` until it is stopped, with a pause where there was no task, is not modelled.
pub mod Backoff
pub mod Progress
use koharu_suite.Prelude.{
  ℕ, ◌+◌, ◌-◌, ◌*◌, ◌^◌, Bool, true, false, not, ◌&&◌, ◌||◌, Option, none, some, List, [], ◌∷◌,
  ◌++◌, map, ltb, leb, ◌==◌, if◌then◌else◌, Result, ok, err, length, any, keep, min, take,
}
use koharu_suite.Prelude.Texts.{Text, codes, is_letter, is_digit}
use koharu_suite.Prelude.Int.{ℤ, eqb_ℤ}
use koharu_suite.Telegram.Tables.{Update, Task, Database, is_null, unfinished}

abbrev pub max_attempts : ℕ
max_attempts = 10

-- `retryDelayMilliseconds`; `Math.max(0, n - 1)` is `n - 1` on natural numbers.
unfoldable pub retry_delay_milliseconds : ℕ → ℕ
retry_delay_milliseconds attempt_count = min 300_000 (1_000 * 2 ^ (attempt_count - 1))

-- What is thrown: an `Error` with its name and its `code`, where that is a text, or another value.
pub data Reason : Type 0 where
  error : Text → Option Text → Reason
  other : Reason

-- `/[A-Za-z0-9_.-]/`
abbrev pub is_safe_unit : ℕ → Bool
is_safe_unit c = is_letter c || is_digit c || (c == b'_') || (c == b'.') || (c == b'-')

-- `replaceAll(/[^A-Za-z0-9_.-]/g, '').slice(0, 80)`
abbrev pub cleaned : Text → Text
cleaned s = take 80 (keep is_safe_unit s)

abbrev pub cleaned_code : Option Text → Text
cleaned_code none = []
cleaned_code (some s) = cleaned s

abbrev pub or_text : Text → Text → Text
or_text [] d = d
or_text (c ∷ s) d = c ∷ s

abbrev with_code : Text → Text → Text
with_code name [] = name ++ codes ": task processing failed"
with_code name (c ∷ code) = name ++ codes " (" ++ (c ∷ code) ++ codes "): task processing failed"

-- `safeErrorMessage`.
unfoldable pub safe_error_message : Reason → Text
safe_error_message other = codes "Telegram task processing failed"
safe_error_message (error name code) =
    with_code (or_text (cleaned name) (codes "Error")) (cleaned_code code)

-- `not exists (select 1 from … earlier …)`: an unfinished task of the same chat that came earlier.
abbrev pub blocks : Task → Task → Bool
blocks t e =
    eqb_ℤ e.telegram_chat_id t.telegram_chat_id
    && ltb e.telegram_update_id t.telegram_update_id
    && unfinished e

-- The `where` clause, and the rows that no other transaction has locked.
abbrev pub is_runnable : (ℕ → Bool) → ℕ → List Task → Task → Bool
is_runnable locked now tasks t =
    unfinished t
    && is_null t.blocked_at
    && leb t.available_at now
    && not (any tasks (blocks t))
    && not (locked t.telegram_update_id)

-- `order by telegram_update_id limit 1`.
unfoldable pub earliest : List Task → Option Task
earliest [] = none
earliest (t ∷ ts) = elim (earliest ts) [
  | none ↦ some t
  | some u ↦ some (if ltb u.telegram_update_id t.telegram_update_id then u else t)
]

unfoldable pub candidate : (ℕ → Bool) → ℕ → List Task → Option Task
candidate locked now tasks = earliest (keep (is_runnable locked now tasks) tasks)

-- `update … where id = task.id`.
abbrev pub update_where_id : ℕ → (Task → Task) → List Task → List Task
update_where_id id f [] = []
update_where_id id f (t ∷ ts) =
    (if t.telegram_update_id == id then f t else t) ∷ update_where_id id f ts

unfoldable pub mark_processed : ℕ → Task → Task
mark_processed now t = record t {
  last_error = none;
  processed_at = some now;
  raw_json = none;
  updated_at = now;
}

-- The columns that a failed attempt sets, from the attempt count of the claimed row.
unfoldable pub mark_failed : ℕ → ℕ → Reason → Task → Task
mark_failed now attempts reason t = record t {
  attempt_count = attempts;
  available_at = now + retry_delay_milliseconds attempts;
  blocked_at = if leb max_attempts attempts then some now else none;
  last_error = some (safe_error_message reason);
  updated_at = now;
}

module _ {S : Type 0} (deliver : Task → S → Result Reason S) where
  unfoldable pub run_task : ℕ → Task → Database → S → Database × S
  run_task now task db store = elim (deliver task store) [
    | ok after ↦ (
      record db { tasks = update_where_id task.telegram_update_id (mark_processed now) db.tasks },
      after,
    )
    | err reason ↦ (
      record db {
        tasks =
            update_where_id task.telegram_update_id
              (mark_failed now (task.attempt_count + 1) reason) db.tasks;
      },
      store,
    )
  ]

  -- `processOne`: whether there was a task. The database's clock chooses the task, the worker's
  -- clock stamps it.
  unfoldable pub process_one : (ℕ → Bool) → ℕ → ℕ → Database → S → Bool × Database × S
  process_one locked db_now now db store = elim (candidate locked db_now db.tasks) [
    | none ↦ (false, db, store)
    | some task ↦ let (db', store') = run_task now task db store in (true, db', store')
  ]

-- The savepoint's work over the parts that other modules implement: `normalizeChannelUpdate` and
-- the writer.
unfoldable pub deliver_update {ℓ} :
    {P : Type 0} {S : Type ℓ}
    → (Update → ℤ → Option P)
    → (P → S → Result Reason S)
    → Task
    → S
    → Result Reason S
deliver_update normalize ingest task store = elim task.raw_json [
  | none ↦ err (error (codes "Error") none)
  | some update ↦ elim (normalize update task.telegram_chat_id) [
    | none ↦ err (error (codes "Error") none)
    | some post ↦ ingest post store
  ]
]
