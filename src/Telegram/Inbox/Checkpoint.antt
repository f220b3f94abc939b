-- ===== src/Telegram/Inbox/Checkpoint.antt =====
-- What a checkpoint has checked when it succeeds, and what it leaves in the database.
use koharu_suite.Prelude.{
  ℕ, ◌+◌, ◌≤◌, ◌≡◌, refl, ap, ◌∙◌, subst, inl, inr, Bool, true, false, not, Option, none, some,
  List, [], ◌∷◌, ◌++◌, arith, All, keep, ok, unthrow, ok-injective, Bool-cases, ==_iff,
}
use koharu_suite.Telegram.Tables.{Update, Task, PollingState, Database}
use koharu_suite.Telegram.Inbox.{
  candidates_of, is_allowed, has_task, first_id, last_id, same_offset, is_older, later_offset,
  store_batch, checkpoint_batch,
}
use koharu_suite.Telegram.Inbox.Rows.{batch_bounds, insert_tasks_complete, insert_tasks-grows}

-- A checkpoint that stored a batch.
pub record IsStored (now : ℕ) (db : Database) (bot_id : ℕ) (requested : Option ℕ) (u : Update)
    (us : List Update) (next : Option ℕ) (db' : Database) : Type 0 where
  pub state : PollingState
  pub bound : db.polling ≡ some state
  pub same_bot : state.bot_id ≡ bot_id
  pub at_cursor : state.next_update_id ≡ requested
  pub not_older : is_older requested (first_id u us) ≡ false
  pub result : store_batch now state requested db u us ≡ (next, db')

same_offset-eq : (a b : Option ℕ) → same_offset a b ≡ true → a ≡ b
same_offset-eq none none h = refl
same_offset-eq none (some b) h = cc
same_offset-eq (some a) none h = cc
same_offset-eq (some a) (some b) h = ap some ((==_iff a b).0 h)

-- A checkpoint of an empty batch changes nothing; one of any other batch stores it.
abbrev pub Checkpointed : ℕ → Database → ℕ → Option ℕ → List Update → Option ℕ → Database → Type 0
Checkpointed now db bot_id requested [] next db' = db' ≡ db
Checkpointed now db bot_id requested (u ∷ us) next db' =
    IsStored now db bot_id requested u us next db'

not-false : (b : Bool) → not b ≡ false → b ≡ true
not-false b h = ground arith

module _ (now : ℕ) (db : Database) (bot_id : ℕ) (requested : Option ℕ) where
  pub checkpoint_batch-Checkpointed :
      (updates : List Update) (next : Option ℕ) (db' : Database) (polling : Option PollingState)
      → db.polling ≡ polling
      → checkpoint_batch now db bot_id requested updates ≡ ok (next, db')
      → Checkpointed now db bot_id requested updates next db'
  unfolding checkpoint_batch
  checkpoint_batch-Checkpointed us next db' none e h = absurd (cc (rw (e, checkpoint_batch) at h))
  checkpoint_batch-Checkpointed [] next db' (some state) e h =
      unthrow _ _ _ (rw (e, checkpoint_batch) at h) λ _ h1. unthrow _ _ _ h1 λ _ h2. ground arith
  checkpoint_batch-Checkpointed (u ∷ us) next db' (some state) e h =
      unthrow _ _ _ (rw (e, checkpoint_batch) at h) λ bot h1. unthrow _ _ _ h1 λ offset h2.
        unthrow _ _ _ h2 λ young h3. record {
          state = state;
          bound = e;
          same_bot = (==_iff _ _).0 (not-false _ bot);
          at_cursor = same_offset-eq _ _ (not-false _ offset);
          not_older = young;
          result = ok-injective h3;
        }

-- The database after a batch `u ∷ us` that was polled with the offset `requested`.
pub record IsCheckpoint (db : Database) (bot_id : ℕ) (requested : Option ℕ) (u : Update)
    (us : List Update) (next : Option ℕ) (db' : Database) : Type 0 where
  -- The cursor moves behind the last update, also in the row; the batch was not older than it.
  pub advanced : next ≡ some (last_id u us + 1)
  pub durable : db'.polling ≡ some (record { bot_id = bot_id; next_update_id = next })
  pub was_at : db.polling ≡ some (record { bot_id = bot_id; next_update_id = requested })
  pub forward : (c : ℕ) → requested ≡ some c → c ≤ first_id u us
  -- Each update of an enabled channel has a task, and no task is lost or changed.
  pub complete :
      All
        (λ c.
          is_allowed db.channels c.chat_id ≡ true → has_task db'.tasks c.update.update_id ≡ true)
        (candidates_of (u ∷ us))
  pub grown : (new : List Task) × (db'.tasks ≡ db.tasks ++ new)
  -- The allowlist and the audit trail are left alone.
  pub channels : db'.channels ≡ db.channels
  pub audit : db'.audit ≡ db.audit

not_older-le :
    (requested : Option ℕ) (first : ℕ)
    → is_older requested first ≡ false
    → (c : ℕ) → requested ≡ some c
    → c ≤ first
not_older-le none first h c e = absurd (cc)
not_older-le (some d) first h c e = ground arith

later_offset-next :
    (o : Option ℕ) (first last : ℕ)
    → ((c : ℕ) → o ≡ some c → c ≤ first)
    → first ≤ last
    → later_offset o (last + 1) ≡ last + 1
later_offset-next none first last h k = refl
later_offset-next (some d) first last h k = ground (arith, h d refl)

first-le-last : (u : Update) (us : List Update) → first_id u us ≤ last_id u us
first-le-last u us = omega (arith, (batch_bounds u us).0)

keep_complete :
    {A : Type 0} (P : A → Type 0) (p : A → Bool) (xs : List A)
    → All P (keep p xs)
    → All (λ x. p x ≡ true → P x) xs
keep_complete P p [] h = tt
keep_complete P p (x ∷ xs) h = elim (Bool-cases (p x)) [
  | inl yes' ↦ let (here, rest) = rw yes' at h in ((λ _. here), keep_complete P p xs rest)
  | inr no' ↦ ((λ e. absurd (cc (e, no'))), keep_complete P p xs (rw no' at h))
]

module _ (now : ℕ) (db : Database) (bot_id : ℕ) (requested : Option ℕ) (u : Update)
    (us : List Update) where
  store_batch-IsCheckpoint :
      db.polling ≡ some (record { bot_id = bot_id; next_update_id = requested })
      → ((c : ℕ) → requested ≡ some c → c ≤ first_id u us)
      → let r =
          store_batch now
            (record { bot_id = bot_id; next_update_id = requested })
            requested
            db
            u
            us in
        IsCheckpoint db bot_id requested u us r.0 r.1
  unfolding store_batch
  store_batch-IsCheckpoint bound forward = record {
    advanced =
        ap some
          (later_offset-next requested (first_id u us) (last_id u us) forward (first-le-last u us));
    durable = refl;
    was_at = bound;
    forward = forward;
    complete =
        keep_complete _ (λ c. is_allowed db.channels c.chat_id) (candidates_of (u ∷ us))
          (insert_tasks_complete bot_id now db.tasks _);
    grown = insert_tasks-grows bot_id now db.tasks _;
    channels = refl;
    audit = refl;
  }

pub checkpoint_batch-IsCheckpoint :
    (now : ℕ) (db : Database) (bot_id : ℕ) (requested : Option ℕ) (u : Update) (us : List Update)
    (next : Option ℕ) (db' : Database)
    → checkpoint_batch now db bot_id requested (u ∷ us) ≡ ok (next, db')
    → IsCheckpoint db bot_id requested u us next db'
checkpoint_batch-IsCheckpoint now db bot_id requested u us next db' h =
    let s =
      checkpoint_batch-Checkpointed now db bot_id requested (u ∷ us) next db' db.polling refl h in
    let row : s.state ≡ record { bot_id = bot_id; next_update_id = requested } =
      λ i. record { bot_id = s.same_bot i; next_update_id = s.at_cursor i } in
    subst (λ r. IsCheckpoint db bot_id requested u us r.0 r.1)
      (subst (λ st. store_batch now st requested db u us ≡ (next, db')) row s.result)
      (store_batch-IsCheckpoint now db bot_id requested u us (s.bound ∙ ap some row)
        (not_older-le requested (first_id u us) s.not_older))
