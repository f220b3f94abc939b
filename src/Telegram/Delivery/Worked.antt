-- ===== src/Telegram/Delivery/Worked.antt =====
-- The worker's transaction keeps the invariant of the delivery.
use koharu_suite.Prelude.{
  ℕ, ◌+◌, ◌<◌, ◌≡◌, sym, Bool, true, false, List, [], ◌∷◌, arith, All, All-both, All-map, any,
  Bool-cases, Option-cases, Result-cases, inl, inr, ◌==◌, ltb, if◌then◌else◌, All-of_any, Result,
  ltb→lt, ltb→ge,
}
use koharu_suite.Prelude.Int.{eqb_ℤ_refl}
use koharu_suite.Telegram.Tables.{Task, unfinished}
use koharu_suite.Telegram.Worker.{
  Reason, is_runnable, blocks, candidate, update_where_id, mark_processed, mark_failed, run_task,
  process_one,
}
use koharu_suite.Telegram.Delivery.{Delivered, World, world_of, recorded}
use koharu_suite.Telegram.Delivery.Invariant.{
  cursor, Below, Settles, IsSound, All-update, candidate-All,
}

All-swap {ℓ κ μ} :
    {A : Type ℓ} {B : Type κ} (R : A → B → Type μ) (xs : List A) (ys : List B)
    → All (λ x. All (R x) ys) xs
    → All (λ y. All (λ x. R x y) xs) ys
All-swap R xs [] h = tt
All-swap R xs (y ∷ ys) h = (
  All-map _ (λ x. R x y) (λ x k. k.0) xs h,
  All-swap R xs ys (All-map _ (λ x. All (R x) ys) (λ x k. k.1) xs h),
)

mark_processed-Settles :
    (e : Delivered) (now : ℕ) (t : Task) → Settles e t → Settles e (mark_processed now t)
unfolding mark_processed
mark_processed-Settles e now t h = λ chat late. ground arith

mark_failed-Settles :
    (e : Delivered) (now attempts : ℕ) (reason : Reason) (t : Task)
    → Settles e t
    → Settles e (mark_failed now attempts reason t)
unfolding mark_failed
mark_failed-Settles e now attempts reason t h = h

-- Of a runnable task.
module _ (locked : ℕ → Bool) (now : ℕ) (ts : List Task) (t : Task)
    (runnable : is_runnable locked now ts t ≡ true) where
  runnable-unfinished : unfinished t ≡ true
  runnable-unfinished = ground arith

  runnable-first : any ts (blocks t) ≡ false
  runnable-first = ground arith

-- A task of the chat that comes no later is finished, or is the task itself.
first-Settles :
    (now : ℕ) (t u : Task)
    → blocks t u ≡ false
    → Settles
        (t.telegram_chat_id, t.telegram_update_id)
        (if u.telegram_update_id == t.telegram_update_id then mark_processed now u else u)
unfolding mark_processed
first-Settles now t u h = λ chat late. ground (arith, eqb_ℤ_refl t.telegram_chat_id)

first-All-Settles :
    (now : ℕ) (t : Task) (ts : List Task)
    → All (λ u. blocks t u ≡ false) ts
    → All
        (Settles (t.telegram_chat_id, t.telegram_update_id))
        (update_where_id t.telegram_update_id (mark_processed now) ts)
first-All-Settles now t [] h = tt
first-All-Settles now t (u ∷ us) (h, hs) = (first-Settles now t u h, first-All-Settles now t us hs)

-- What was delivered of the chat of an unfinished task is older than the task.
unfinished-later :
    (t : Task) (e : Delivered)
    → unfinished t ≡ true
    → Settles e t
    → e.0 ≡ t.telegram_chat_id
    → e.1 < t.telegram_update_id
unfinished-later t e open' h chat = elim (Bool-cases (ltb e.1 t.telegram_update_id)) [
  | inl before ↦ ltb→lt _ _ before
  | inr after ↦ absurd (cc (open', h (sym chat) (ltb→ge _ _ after)))
]

module _ {S : Type 0} (w : World S) (sound : IsSound w) (now : ℕ) (t : Task) where
  abbrev TaskFacts : Task → Type 0
  TaskFacts u = Below (cursor w.db.polling) u.telegram_update_id × All (λ e. Settles e u) w.log

  all_facts : All TaskFacts w.db.tasks
  all_facts =
      All-both _ _ w.db.tasks sound.tasks_below (All-swap Settles w.log w.db.tasks sound.settled)

  -- A failed attempt.
  failed-IsSound :
      (attempts : ℕ) (reason : Reason)
      → IsSound (record w {
        db = record w.db {
          tasks = update_where_id t.telegram_update_id (mark_failed now attempts reason) w.db.tasks;
        };
      })
  failed-IsSound attempts reason = record {
    tasks_below =
        All-update _ t.telegram_update_id (mark_failed now attempts reason) w.db.tasks
          (λ u h. unfold mark_failed in h) sound.tasks_below;
    log_below = sound.log_below;
    settled =
        All-map (λ e. All (Settles e) w.db.tasks) _
          (λ e.
            All-update (Settles e) t.telegram_update_id (mark_failed now attempts reason) w.db.tasks
              (mark_failed-Settles e now attempts reason))
          w.log sound.settled;
    ordered = sound.ordered;
  }

  -- A delivery.
  processed-IsSound :
      (store : S)
      → unfinished t ≡ true
      → Below (cursor w.db.polling) t.telegram_update_id
      → All (λ e. Settles e t) w.log
      → All (λ u. blocks t u ≡ false) w.db.tasks
      → IsSound (record {
        db = record w.db {
          tasks = update_where_id t.telegram_update_id (mark_processed now) w.db.tasks;
        };
        store = store;
        log = (t.telegram_chat_id, t.telegram_update_id) ∷ w.log;
      })
  processed-IsSound store open' below settles first = record {
    tasks_below =
        All-update _ t.telegram_update_id (mark_processed now) w.db.tasks
          (λ u h. unfold mark_processed in h) sound.tasks_below;
    log_below = (below, sound.log_below);
    settled = (
      first-All-Settles now t w.db.tasks first,
      All-map (λ e. All (Settles e) w.db.tasks) _
          (λ e.
            All-update (Settles e) t.telegram_update_id (mark_processed now) w.db.tasks
              (mark_processed-Settles e now))
          w.log sound.settled,
    );
    ordered = (
      All-map (λ e. Settles e t) _ (λ e h. unfinished-later t e open' h) w.log settles,
      sound.ordered,
    );
  }

module _ {S : Type 0} (deliver : Task → S → Result Reason S) (w : World S) (sound : IsSound w) where
  pub works-IsSound :
      (locked : ℕ → Bool) (db_now now : ℕ)
      → IsSound (world_of (process_one (recorded deliver) locked db_now now w.db (w.store, w.log)))
  unfolding process_one run_task recorded
  works-IsSound locked db_now now = elim (Option-cases (candidate locked db_now w.db.tasks)) [
    | inl idle ↦ rw (idle, process_one) sound
    | inr (t, found) ↦
        let ((below, settles), runnable) =
          candidate-All (TaskFacts w sound now t) locked db_now w.db.tasks t
            (all_facts w sound now t) found in
        elim (Result-cases (deliver t w.store)) [
          | inl (store, delivered) ↦
              rw (found, process_one, delivered, run_task, recorded)
                (processed-IsSound w sound now t store
                  (runnable-unfinished locked db_now w.db.tasks t runnable) below settles
                  (All-of_any (blocks t) w.db.tasks
                    (runnable-first locked db_now w.db.tasks t runnable)))
          | inr (reason, refused) ↦
              rw (found, process_one, refused, run_task, recorded)
                (failed-IsSound w sound now t (t.attempt_count + 1) reason)
        ]
  ]
