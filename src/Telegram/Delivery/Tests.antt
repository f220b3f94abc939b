-- ===== src/Telegram/Delivery/Tests.antt =====
-- A run of the inbox, a worker and the owner over one channel, and the theorems at it.
use koharu_suite.Prelude.{
  ℕ, ◌+◌, ◌*◌, ◌≡◌, ◌≤◌, ◌<◌, refl, suc, min, Bool, true, false, Option, none, some, List, [], ◌∷◌,
  Result, ok, err, ◌>>=◌, All,
}
use koharu_suite.Prelude.Texts.{codes, trim}
use koharu_suite.Prelude.Int.{ℤ, negsuc}
use koharu_suite.Telegram.Tables.{Update, Task, Channel, Database, task_retry}
use koharu_suite.Telegram.Inbox.{
  candidates_of, insert_task, insert_tasks, first_id, last_id, store_batch, checkpoint_batch,
  bind_bot,
}
use koharu_suite.Telegram.Worker.{
  Reason, error, earliest, candidate, mark_processed, mark_failed, run_task, process_one,
  retry_delay_milliseconds, is_runnable, max_attempts, blocks, safe_error_message,
}
use koharu_suite.Telegram.Worker.Progress.{IsPass, process_one-claims}
use koharu_suite.Telegram.Worker.Backoff.{retry_delay_milliseconds_lem, mark_failed-runnable}
use koharu_suite.Telegram.Operations.{normalized_reason, blocked_task, retry_task, skip_task}
use koharu_suite.Telegram.Operations.Effects.{IsRetry, retry_task-IsRetry, skip_task-blocks}
use koharu_suite.Telegram.Delivery.{
  World, start, world_of, recorded, works, binds, polls, Reach, here, next,
}
use koharu_suite.Telegram.Delivery.Invariant.{IsOrdered, Settles}
use koharu_suite.Telegram.Delivery.Order.{delivered_in_order, delivered_settled}

running : Unit {0}
unfolding ◌>>=◌ trim candidates_of insert_task insert_tasks first_id last_id store_batch
    checkpoint_batch bind_bot earliest candidate mark_processed mark_failed run_task process_one
    recorded normalized_reason blocked_task retry_task skip_task retry_delay_milliseconds
    safe_error_message
running = tt

abbrev chat : ℤ
chat = negsuc 99

abbrev post : ℕ → Update
post id = record {
  update_id = id;
  channel_post_chat = some chat;
  edited_channel_post_chat = none;
  content = codes "post";
}

abbrev channels : List Channel
channels = record { telegram_chat_id = chat; enabled = true; disabled_at = none } ∷ []

-- A store that counts the messages.
abbrev deliver : Task → ℕ → Result Reason ℕ
deliver t n = ok (suc n)

abbrev database_of {ℓ} : {E : Type ℓ} → Database → Result E (Option ℕ × Database) → Database
database_of db (ok (n, db')) = db'
database_of db (err e) = db

abbrev unbound : World ℕ
unbound = start 0 channels

abbrev bound : Database
bound = database_of unbound.db (bind_bot unbound.db 7)

abbrev polled : Database
polled = database_of bound (checkpoint_batch 1000 bound 7 none (post 5 ∷ post 6 ∷ []))

abbrev free : ℕ → Bool
free id = false

abbrev waiting : World ℕ
waiting = record { db = polled; store = 0; log = [] }

abbrev work : World ℕ → World ℕ
work w = world_of (process_one (recorded deliver) free 2000 2000 w.db (w.store, w.log))

bound_run : bind_bot unbound.db 7 ≡ ok (none, bound)
unfolding running
bound_run = refl

polled_run : checkpoint_batch 1000 bound 7 none (post 5 ∷ post 6 ∷ []) ≡ ok (some 7, polled)
unfolding running
polled_run = refl

delivered_run : (work (work waiting)).log ≡ (chat, 6) ∷ (chat, 5) ∷ []
unfolding running
delivered_run = refl

run : Reach deliver unbound (work (work waiting))
run =
    next
      (next
        (next (next here (binds 7 none bound bound_run))
          (polls 1000 7 none (some 7) (post 5 ∷ post 6 ∷ []) polled polled_run))
        (works free 2000 2000))
      (works free 2000 2000)

delivered_in_order_example : IsOrdered (work (work waiting)).log
delivered_in_order_example = delivered_in_order deliver 0 channels (work (work waiting)) run

delivered_settled_example :
    All (λ e. All (Settles e) (work (work waiting)).db.tasks) (work (work waiting)).log
delivered_settled_example = delivered_settled deliver 0 channels (work (work waiting)) run

retry_delay_milliseconds_lem_example :
    (1000 ≤ retry_delay_milliseconds 3)
    × (retry_delay_milliseconds 3 ≤ 300000)
    × (retry_delay_milliseconds 1 ≡ 1000)
    × (retry_delay_milliseconds 5 ≡ min 300000 (2 * retry_delay_milliseconds 4))
retry_delay_milliseconds_lem_example = retry_delay_milliseconds_lem 3

abbrev network_down : Reason
network_down = error (codes "FetchError") (some (codes "ECONNRESET"))

abbrev task_5 : Task
task_5 = record {
  bot_id = 7;
  telegram_update_id = 5;
  telegram_chat_id = chat;
  update_type = koharu_suite.Telegram.Tables.channel_post;
  raw_json = some (post 5);
  attempt_count = 0;
  available_at = 1000;
  processed_at = none;
  blocked_at = none;
  skipped_at = none;
  skip_reason = none;
  last_error = none;
  updated_at = 1000;
}

failed_once : is_runnable free 9000 [] (mark_failed 2000 1 network_down task_5) ≡ true
unfolding running
failed_once = refl

mark_failed-runnable_example : (2000 + 1000 ≤ 9000) × (1 < max_attempts)
mark_failed-runnable_example =
    mark_failed-runnable free 2000 9000 1 network_down task_5 [] failed_once

-- The database once the task has failed for the tenth time.
abbrev stuck : Database
stuck = record {
  polling = none;
  tasks = mark_failed 2000 10 network_down task_5 ∷ [];
  channels = channels;
  receipts = [];
  audit = [];
}

abbrev settled {ℓ} : {E : Type ℓ} → Result E Database → Database
settled (ok db) = db
settled (err e) = stuck

retried_run :
    retry_task 5 (codes " fixed ") 9000 stuck
    ≡ ok (settled (retry_task 5 (codes " fixed ") 9000 stuck))
unfolding running
retried_run = refl

retry_task-IsRetry_example :
    IsRetry 5 (codes " fixed ") 9000 stuck (settled (retry_task 5 (codes " fixed ") 9000 stuck))
retry_task-IsRetry_example =
    retry_task-IsRetry 5 (codes " fixed ") 9000 stuck
      (settled (retry_task 5 (codes " fixed ") 9000 stuck)) retried_run

skipped_run :
    skip_task 5 (codes "lost") 9000 stuck ≡ ok (settled (skip_task 5 (codes "lost") 9000 stuck))
unfolding running
skipped_run = refl

skip_task-blocks_example :
    All
      (λ e. e.telegram_update_id ≡ 5 → (t : Task) → blocks t e ≡ false)
      (settled (skip_task 5 (codes "lost") 9000 stuck)).tasks
skip_task-blocks_example =
    skip_task-blocks 5 (codes "lost") 9000 stuck (settled (skip_task 5 (codes "lost") 9000 stuck))
      skipped_run

process_one-claims_example :
    IsPass deliver free 2000 2000 polled 0 (process_one deliver free 2000 2000 polled 0)
process_one-claims_example = process_one-claims deliver free 2000 2000 polled 0
