-- ===== src/Telegram/Delivery/Order.antt =====
-- Whatever the interleaving, the messages of a chat are delivered in the order of their updates.
use koharu_suite.Prelude.{
  ℕ, ◌+◌, ◌≤◌, ◌<◌, ◌≡◌, refl, sym, ap, ◌∙◌, subst, Bool, Option, none, some, List, [], ◌∷◌, arith,
  All, All-map, All-both, keep, All-keep, ok, Result, unchain, unthrow, ok-injective,
}
use koharu_suite.Prelude.Texts.{Text}
use koharu_suite.Prelude.Int.{ℤ}
use koharu_suite.Telegram.Tables.{Update, Task, PollingState, Channel, Database}
use koharu_suite.Telegram.Inbox.{
  Candidate, candidates_of, is_allowed, first_id, last_id, checkpoint_batch, bind_bot, store_batch,
  insert_tasks,
}
use koharu_suite.Telegram.Inbox.Checkpoint.{
  IsStored, IsCheckpoint, checkpoint_batch-Checkpointed, checkpoint_batch-IsCheckpoint,
}
use koharu_suite.Telegram.Inbox.Rows.{batch_bounds, candidates_of-All, insert_tasks-All}
use koharu_suite.Telegram.Worker.{Reason, update_where_id}
use koharu_suite.Telegram.Operations.{retry_task, skip_task, set_channel_enabled}
use koharu_suite.Telegram.Delivery.{
  Delivered, World, start, Step, works, binds, polls, retries, skips, toggles, Reach, here, next,
}
use koharu_suite.Telegram.Delivery.Invariant.{
  cursor, Below, Settles, IsOrdered, IsSound, All-update,
}
use koharu_suite.Telegram.Delivery.Worked.{works-IsSound}

module _ {S : Type 0} (w : World S) (sound : IsSound w) where
  -- A transaction that changes neither the tasks nor the cursor.
  kept-IsSound :
      (db' : Database)
      → db'.tasks ≡ w.db.tasks
      → cursor db'.polling ≡ cursor w.db.polling
      → IsSound (record w { db = db' })
  kept-IsSound db' tasks polling = record {
    tasks_below =
        subst (λ c. All (λ t. Below c t.telegram_update_id) db'.tasks) (sym polling)
          (subst (All _) (sym tasks) sound.tasks_below);
    log_below = subst (λ c. All (λ e. Below c e.1) w.log) (sym polling) sound.log_below;
    settled = subst (λ ts. All (λ e. All (Settles e) ts) w.log) (sym tasks) sound.settled;
    ordered = sound.ordered;
  }

  -- An update of rows that keeps their ids and chats, and finishes at most.
  updated-IsSound :
      (id : ℕ) (f : Task → Task) (db' : Database)
      → db'.tasks ≡ update_where_id id f w.db.tasks
      → db'.polling ≡ w.db.polling
      → ((t : Task) → (f t).telegram_update_id ≡ t.telegram_update_id)
      → ((e : Delivered) (t : Task) → Settles e t → Settles e (f t))
      → IsSound (record w { db = db' })
  updated-IsSound id f db' tasks polling same settles = record {
    tasks_below =
        subst (λ p. All (λ t. Below (cursor p) t.telegram_update_id) db'.tasks) (sym polling)
          (subst (All _) (sym tasks) (
            All-update _ id f w.db.tasks
              (λ t h. subst (Below (cursor w.db.polling)) (sym (same t)) h) sound.tasks_below));
    log_below = subst (λ p. All (λ e. Below (cursor p) e.1) w.log) (sym polling) sound.log_below;
    settled =
        subst (λ ts. All (λ e. All (Settles e) ts) w.log) (sym tasks)
          (All-map (λ e. All (Settles e) w.db.tasks) _
            (λ e. All-update (Settles e) id f w.db.tasks (settles e)) w.log sound.settled);
    ordered = sound.ordered;
  }

  retries-IsSound :
      (id now : ℕ) (reason : Text) (db' : Database)
      → retry_task id reason now w.db ≡ ok db'
      → IsSound (record w { db = db' })
  unfolding retry_task
  retries-IsSound id now reason db' h = unchain _ _ h λ _ _ h1. unchain _ _ h1 λ _ _ h2.
      let e = sym (ok-injective h2) in
      updated-IsSound id _ db' (ap (λ d. d.tasks) e) (ap (λ d. d.polling) e) (λ t. refl)
        (λ d t s. s)

  skips-IsSound :
      (id now : ℕ) (reason : Text) (db' : Database)
      → skip_task id reason now w.db ≡ ok db'
      → IsSound (record w { db = db' })
  unfolding skip_task
  skips-IsSound id now reason db' h = unchain _ _ h λ _ _ h1. unchain _ _ h1 λ _ _ h2.
      let e = sym (ok-injective h2) in
      updated-IsSound id _ db' (ap (λ d. d.tasks) e) (ap (λ d. d.polling) e) (λ t. refl)
        (λ d t s chat late. ground arith)

  toggles-IsSound :
      (chat : ℤ) (enabled : Bool) (now : ℕ) (db' : Database)
      → set_channel_enabled chat enabled now w.db ≡ ok db'
      → IsSound (record w { db = db' })
  unfolding set_channel_enabled
  toggles-IsSound chat enabled now db' h = kept-IsSound db' (ground arith) (ground arith)

  binds-IsSound :
      (bot : ℕ) (n : Option ℕ) (db' : Database)
      → bind_bot w.db bot ≡ ok (n, db')
      → IsSound (record w { db = db' })
  unfolding bind_bot
  binds-IsSound bot n db' h = unthrow _ _ _ h λ _ h1.
      let e = ok-injective h1 in
      kept-IsSound db' (sym (ap (λ r. r.1.tasks) e))
        (sym (ap (λ r. cursor r.1.polling) e) ∙ bound (w.db.polling))
    where
      bound :
          (p : Option PollingState)
          → cursor (
              some (elim p as (λ _. PollingState) [
                | some s ↦ s
                | none ↦ record { bot_id = bot; next_update_id = none }
              ]))
            ≡ cursor p
      bound none = refl
      bound (some s) = refl

Below-advance :
    (o : Option ℕ) (first last n : ℕ)
    → ((c : ℕ) → o ≡ some c → c ≤ first)
    → first ≤ last
    → Below o n
    → (n < first) × (n < last + 1)
Below-advance none first last n h k b = absurd b
Below-advance (some c) first last n h k b = let le = h c refl in (omega arith, omega arith)

-- The candidates of a batch carry its ids.
accepted-bounds :
    (p : Candidate → Bool) (u : Update) (us : List Update)
    → All
        (λ c. (first_id u us ≤ c.update.update_id) × (c.update.update_id ≤ last_id u us))
        (keep p (candidates_of (u ∷ us)))
accepted-bounds p u us =
    All-map _ _ (λ c h. h.0) (keep p (candidates_of (u ∷ us)))
      (All-keep _ p (candidates_of (u ∷ us)) (
        candidates_of-All (λ n. (first_id u us ≤ n) × (n ≤ last_id u us)) (u ∷ us)
          (batch_bounds u us)))

module _ {S : Type 0} (w : World S) (sound : IsSound w) where
  stored-IsSound :
      (now bot : ℕ) (requested n : Option ℕ) (u : Update) (us : List Update) (db' : Database)
      → IsStored now w.db bot requested u us n db'
      → IsCheckpoint w.db bot requested u us n db'
      → IsSound (record w { db = db' })
  unfolding store_batch
  stored-IsSound now bot requested n u us db' s c =
      let allowed = λ (k : Candidate). is_allowed w.db.channels k.chat_id in
      let order = λ (m : ℕ) (b : Below (cursor w.db.polling) m).
        Below-advance requested (first_id u us) (last_id u us) m c.forward
          (omega (arith, (batch_bounds u us).0)) (subst (λ p. Below (cursor p) m) c.was_at b) in
      let tasks : insert_tasks s.state.bot_id now w.db.tasks (keep allowed (candidates_of (u ∷ us)))
          ≡ db'.tasks =
        ap (λ r. r.1.tasks) s.result in
      let polling : cursor db'.polling ≡ some (last_id u us + 1) =
        ap cursor c.durable ∙ c.advanced in
      record {
        tasks_below =
            subst (λ o. All (λ t. Below o t.telegram_update_id) db'.tasks) (sym polling)
              (subst (All _) tasks (
                insert_tasks-All s.state.bot_id now (λ t. t.telegram_update_id < last_id u us + 1)
                  w.db.tasks _
                  (All-map _ _ (λ t b. (order t.telegram_update_id b).1) w.db.tasks
                    sound.tasks_below)
                  (All-map _ _ (λ k b. omega (arith, b.1)) _ (accepted-bounds allowed u us))));
        log_below =
            subst (λ o. All (λ e. Below o e.1) w.log) (sym polling)
              (All-map _ _ (λ e b. (order e.1 b).1) w.log sound.log_below);
        settled =
            subst (λ ts. All (λ e. All (Settles e) ts) w.log) tasks
              (All-map _ _
                (λ e h. insert_tasks-All s.state.bot_id now (Settles e) w.db.tasks _ h.0 (
                  All-map _ _
                    (λ k b chat late. absurd (omega (arith, (order e.1 h.1).0, b.0, late))) _
                    (accepted-bounds allowed u us)))
                w.log (All-both _ _ w.log sound.settled sound.log_below));
        ordered = sound.ordered;
      }

  polls-IsSound :
      (now bot : ℕ) (requested n : Option ℕ) (updates : List Update) (db' : Database)
      → checkpoint_batch now w.db bot requested updates ≡ ok (n, db')
      → IsSound (record w { db = db' })
  polls-IsSound now bot requested n [] db' h =
      let same =
        checkpoint_batch-Checkpointed now w.db bot requested [] n db' w.db.polling refl h in
      kept-IsSound w sound db' (ap (λ d. d.tasks) same) (ap (λ d. cursor d.polling) same)
  polls-IsSound now bot requested n (u ∷ us) db' h =
      stored-IsSound now bot requested n u us db'
        (checkpoint_batch-Checkpointed now w.db bot requested (u ∷ us) n db' w.db.polling refl h)
        (checkpoint_batch-IsCheckpoint now w.db bot requested u us n db' h)

module _ {S : Type 0} (deliver : Task → S → Result Reason S) where
  Step-IsSound : {v w : World S} → Step deliver v w → IsSound v → IsSound w
  Step-IsSound {v} (works locked db_now now) s = works-IsSound deliver v s locked db_now now
  Step-IsSound {v} (binds bot n db' h) s = binds-IsSound v s bot n db' h
  Step-IsSound {v} (polls now bot requested n updates db' h) s =
      polls-IsSound v s now bot requested n updates db' h
  Step-IsSound {v} (retries id now reason db' h) s = retries-IsSound v s id now reason db' h
  Step-IsSound {v} (skips id now reason db' h) s = skips-IsSound v s id now reason db' h
  Step-IsSound {v} (toggles chat enabled now db' h) s = toggles-IsSound v s chat enabled now db' h

  Reach-IsSound : {v w : World S} → IsSound v → Reach deliver v w → IsSound w
  Reach-IsSound s here = s
  Reach-IsSound s (next r step) = Step-IsSound step (Reach-IsSound s r)

start-IsSound : {S : Type 0} (store : S) (channels : List Channel) → IsSound (start store channels)
start-IsSound store channels = record {
  tasks_below = tt;
  log_below = tt;
  settled = tt;
  ordered = tt;
}

-- In any interleaving of polls, workers and owner's operations that begins with an empty inbox, and
-- whatever the delivery of a message does, the log of deliveries is ordered: within a chat each
-- delivery has a greater update id than all before it, so none is repeated or overtaken.
pub delivered_in_order :
    {S : Type 0} (deliver : Task → S → Result Reason S) (store : S) (channels : List Channel)
    (w : World S)
    → Reach deliver (start store channels) w
    → IsOrdered w.log
delivered_in_order deliver store channels w r =
    (Reach-IsSound deliver (start-IsSound store channels) r).ordered

-- In any such interleaving from an empty inbox, once an update of a chat has been delivered, no task
-- of that chat with this update id or a smaller one is left unfinished.
pub delivered_settled :
    {S : Type 0} (deliver : Task → S → Result Reason S) (store : S) (channels : List Channel)
    (w : World S)
    → Reach deliver (start store channels) w
    → All (λ e. All (Settles e) w.db.tasks) w.log
delivered_settled deliver store channels w r =
    (Reach-IsSound deliver (start-IsSound store channels) r).settled
