-- ===== src/Telegram/Delivery.antt =====
-- The inbox, the workers and the owner's operations on one database, in any interleaving. Each step
-- is one transaction of inbox-repository.ts, worker.ts or operations.ts. A log beside the message
-- store notes what a worker has delivered to it; no code reads the log.
mod Invariant
mod Worked
pub mod Order
mod Tests
use koharu_suite.Prelude.{ℕ, ◌≡◌, Bool, Option, none, some, List, [], ◌∷◌, Result, ok, err}
use koharu_suite.Prelude.Texts.{Text}
use koharu_suite.Prelude.Int.{ℤ}
use koharu_suite.Telegram.Tables.{Update, Task, Channel, Database}
use koharu_suite.Telegram.Inbox.{checkpoint_batch, bind_bot}
use koharu_suite.Telegram.Worker.{Reason, process_one}
use koharu_suite.Telegram.Operations.{retry_task, skip_task, set_channel_enabled}

-- A chat and the id of an update of it.
abbrev pub Delivered : Type 0
Delivered = ℤ × ℕ

module _ {S : Type 0} (deliver : Task → S → Result Reason S) where
  -- The delivery with its note in the log, the newest first.
  unfoldable pub recorded : Task → S × List Delivered → Result Reason (S × List Delivered)
  recorded t (store, log) = elim (deliver t store) [
    | ok after ↦ ok (after, (t.telegram_chat_id, t.telegram_update_id) ∷ log)
    | err reason ↦ err reason
  ]

pub record World (S : Type 0) : Type 0 where
  pub db : Database
  pub store : S
  pub log : List Delivered

abbrev pub world_of : {S : Type 0} → Bool × Database × (S × List Delivered) → World S
world_of (worked, db, (store, log)) = record { db = db; store = store; log = log }

-- Nothing polled yet, over any allowlist.
abbrev pub start : {S : Type 0} → S → List Channel → World S
start store channels = record {
  db = record { polling = none; tasks = []; channels = channels; receipts = []; audit = [] };
  store = store;
  log = [];
}

module _ {S : Type 0} (deliver : Task → S → Result Reason S) where
  pub data Step (w : World S) : World S → Type 0 where
    works :
        (locked : ℕ → Bool) (db_now now : ℕ)
        → Step w (world_of (process_one (recorded deliver) locked db_now now w.db (w.store, w.log)))
    binds :
        (bot : ℕ) (next : Option ℕ) (db' : Database)
        → bind_bot w.db bot ≡ ok (next, db')
        → Step w (record w { db = db' })
    polls :
        (now bot : ℕ) (requested next : Option ℕ) (updates : List Update) (db' : Database)
        → checkpoint_batch now w.db bot requested updates ≡ ok (next, db')
        → Step w (record w { db = db' })
    retries :
        (id now : ℕ) (reason : Text) (db' : Database)
        → retry_task id reason now w.db ≡ ok db'
        → Step w (record w { db = db' })
    skips :
        (id now : ℕ) (reason : Text) (db' : Database)
        → skip_task id reason now w.db ≡ ok db'
        → Step w (record w { db = db' })
    toggles :
        (chat : ℤ) (enabled : Bool) (now : ℕ) (db' : Database)
        → set_channel_enabled chat enabled now w.db ≡ ok db'
        → Step w (record w { db = db' })

  pub data Reach (w : World S) : World S → Type 0 where
    here : Reach w w
    next : {u v : World S} → Reach w u → Step u v → Reach w v
