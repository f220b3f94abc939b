-- ===== src/Telegram/Operations/Effects.antt =====
-- What the owner's operations leave behind.
use mathlib.Core.List.{Mem, mem-cons_self, mem-cons_of_mem}
use koharu_suite.Prelude.{
  ℕ, ◌≤◌, ◌≡◌, ◌≢◌, refl, sym, ap, subst, ◌∙◌, Bool, true, false, not, &&-true, ◌||◌, Option, none,
  some, List, [], ◌∷◌, ◌++◌, arith, All, ==_iff, ◌==◌, ltb, ltb→ge, ||-false, length, find,
  Bool-cases, Option-cases, some-injective, inl, inr, ok, unchain, unthrow, ok-injective,
}
use koharu_suite.Prelude.Texts.{Text, trim}
use koharu_suite.Telegram.Tables.{Task, Database, is_null, unfinished, task_retry}
use koharu_suite.Telegram.Worker.{update_where_id, blocks}
use koharu_suite.Telegram.Operations.{
  normalized_reason, find_task, blocked_task, task_event, retry_task, skip_task,
}

-- What holds of the updated row holds of every row with the id.
update_where_id-All :
    (id : ℕ) (f : Task → Task) (Q : Task → Type 0) (tasks : List Task)
    → ((t : Task) → t.telegram_update_id ≡ id → Q (f t))
    → All (λ e. e.telegram_update_id ≡ id → Q e) (update_where_id id f tasks)
update_where_id-All id f Q [] h = tt
update_where_id-All id f Q (t ∷ ts) h = (
  elim (Bool-cases (t.telegram_update_id == id)) [
    | inl same ↦ rw same (λ _. h t ((==_iff _ id).0 same))
    | inr different ↦ rw different (λ same. absurd (ground (arith, same, different)))
  ],
  update_where_id-All id f Q ts h,
)

-- A row before and after a retry of the task with an id: another row is the same, the row of the
-- task has no attempts, is due now and not blocked, and nothing else of it is touched.
pub record IsRetried (id now : ℕ) (before after : Task) : Type 0 where
  pub others : before.telegram_update_id ≢ id → after ≡ before
  pub reset :
      before.telegram_update_id ≡ id
      → (after.attempt_count ≡ 0) × (after.available_at ≡ now) × (after.blocked_at ≡ none)
  pub same_id : after.telegram_update_id ≡ before.telegram_update_id
  pub same_chat : after.telegram_chat_id ≡ before.telegram_chat_id
  pub same_update : after.raw_json ≡ before.raw_json
  pub same_end : (after.processed_at ≡ before.processed_at) × (after.skipped_at ≡ before.skipped_at)

-- Two tables with the same number of rows, related row by row.
abbrev pub RowByRow : (Task → Task → Type 0) → List Task → List Task → Type 0
RowByRow R [] [] = Unit {0}
RowByRow R [] (e ∷ es) = ⊥
RowByRow R (t ∷ ts) [] = ⊥
RowByRow R (t ∷ ts) (e ∷ es) = R t e × RowByRow R ts es

-- What a retry that succeeds says of its arguments, and of the database before and after.
pub record IsRetry (id : ℕ) (value : Text) (now : ℕ) (db db' : Database) : Type 0 where
  pub reason_fits : (1 ≤ length (trim value)) × (length (trim value) ≤ 500)
  pub was_blocked :
      (t : Task) × Mem t db.tasks
      × (t.telegram_update_id ≡ id)
      × (t.processed_at ≡ none)
      × (t.skipped_at ≡ none)
      × (t.blocked_at ≢ none)
  pub rows : RowByRow (IsRetried id now) db.tasks db'.tasks
  pub kept :
      (db'.polling ≡ db.polling) × (db'.channels ≡ db.channels) × (db'.receipts ≡ db.receipts)
  pub noted : db'.audit ≡ db.audit ++ task_event task_retry id (trim value) ∷ []

retried : ℕ → Task → Task
retried now t = record t {
  attempt_count = 0;
  available_at = now;
  blocked_at = none;
  updated_at = now;
}

update_where_id-RowByRow :
    (id now : ℕ) (tasks : List Task)
    → RowByRow (IsRetried id now) tasks (update_where_id id (retried now) tasks)
unfolding retried
update_where_id-RowByRow id now [] = tt
update_where_id-RowByRow id now (t ∷ ts) = (
  elim (Bool-cases (t.telegram_update_id == id)) [
    | inl same ↦ rw same (record {
      others = λ other. absurd (other ((==_iff _ id).0 same));
      reset = λ e. (refl, refl, refl);
      same_id = refl;
      same_chat = refl;
      same_update = refl;
      same_end = (refl, refl);
    })
    | inr different ↦ rw different (record {
      others = λ other. refl;
      reset = λ same. absurd (ground (arith, same, different));
      same_id = refl;
      same_chat = refl;
      same_update = refl;
      same_end = (refl, refl);
    })
  ],
  update_where_id-RowByRow id now ts,
)

normalized_reason-fits :
    (value reason : Text)
    → normalized_reason value ≡ ok reason
    → (reason ≡ trim value) × (1 ≤ length (trim value)) × (length (trim value) ≤ 500)
unfolding normalized_reason
normalized_reason-fits value reason h =
    elim (Bool-cases (ltb (length (trim value)) 1 || ltb 500 (length (trim value)))) [
      | inl bad ↦ absurd (cc (rw bad at h))
      | inr good ↦
          let (long, short) = ||-false _ _ good in
          (sym (ok-injective (rw good at h)), ltb→ge _ _ long, ltb→ge _ _ short)
    ]

find-Mem :
    (id : ℕ) (tasks : List Task) (t : Task)
    → find (λ e. e.telegram_update_id == id) tasks ≡ some t
    → Mem t tasks × (t.telegram_update_id ≡ id)
find-Mem id [] t h = absurd (cc)
find-Mem id (u ∷ ts) t h = elim (Bool-cases (u.telegram_update_id == id)) [
  | inl same ↦
      subst (λ x. Mem x (u ∷ ts) × (x.telegram_update_id ≡ id)) (some-injective (rw same at h))
        (mem-cons_self, (==_iff _ id).0 same)
  | inr different ↦
      let (member, id') = find-Mem id ts t (rw different at h) in (mem-cons_of_mem u member, id')
]

find_task-Mem :
    (id : ℕ) (tasks : List Task) (t : Task)
    → find_task id tasks ≡ ok t
    → Mem t tasks × (t.telegram_update_id ≡ id)
find_task-Mem id tasks t h = elim (Option-cases (find (λ e. e.telegram_update_id == id) tasks)) [
  | inl none' ↦ absurd (cc (rw (none', find_task) at h))
  | inr (u, found) ↦
      find-Mem id tasks t (found ∙ ap some (ok-injective (rw (found, find_task) at h)))
]

not-false : (b : Bool) → not b ≡ false → b ≡ true
not-false true h = refl
not-false false h = absurd (cc)

null-none {ℓ} : {A : Type ℓ} (o : Option A) → is_null o ≡ true → o ≡ none
null-none none h = refl
null-none (some a) h = absurd (cc)

not_null {ℓ} : {A : Type ℓ} (o : Option A) → is_null o ≡ false → o ≢ none
not_null none h = absurd (cc)
not_null (some a) h = cc

blocked_task-Mem :
    (id : ℕ) (tasks : List Task) (t : Task)
    → blocked_task id tasks ≡ ok t
    → Mem t tasks
      × (t.telegram_update_id ≡ id)
      × (t.processed_at ≡ none)
      × (t.skipped_at ≡ none)
      × (t.blocked_at ≢ none)
unfolding blocked_task
blocked_task-Mem id tasks t h = unchain _ _ h λ u found h1. unthrow _ _ _ h1 λ stuck h2.
    let (member, id') = find_task-Mem id tasks u found in
    let (finished, blocked) = ||-false _ _ stuck in
    let (p, s) = &&-true _ _ (not-false (unfinished u) finished) in
    subst
      (λ x.
        Mem x tasks
        × (x.telegram_update_id ≡ id)
        × (x.processed_at ≡ none)
        × (x.skipped_at ≡ none)
        × (x.blocked_at ≢ none))
      (ok-injective h2)
      (
        member,
        id',
        null-none u.processed_at p,
        null-none u.skipped_at s,
        not_null u.blocked_at blocked,
      )

-- A retry succeeds only for a reason of 1 to 500 characters without the spaces around it, and for a
-- task of the table that is blocked and neither processed nor skipped. It leaves the task with no
-- attempts, due now and not blocked, keeps its update, its chat and every other row, touches no
-- channel, receipt or cursor, and notes the reason in the audit.
pub retry_task-IsRetry :
    (id : ℕ) (value : Text) (now : ℕ) (db db' : Database)
    → retry_task id value now db ≡ ok db'
    → IsRetry id value now db db'
unfolding retry_task retried
retry_task-IsRetry id value now db db' h = unchain _ _ h λ reason trimmed h1.
    unchain _ _ h1 λ task blocked h2.
      let (same, long, short) = normalized_reason-fits value reason trimmed in
      subst (IsRetry id value now db) (ok-injective h2) (record {
        reason_fits = (long, short);
        was_blocked =
            let (member, is_task, p, s, b) = blocked_task-Mem id db.tasks task blocked in
            (task, member, is_task, p, s, b);
        rows = update_where_id-RowByRow id now db.tasks;
        kept = (refl, refl, refl);
        noted = ap (λ r. db.audit ++ task_event task_retry id r ∷ []) same;
      })

skipped-blocks : (t e : Task) → unfinished e ≡ false → blocks t e ≡ false
skipped-blocks t e h = ground arith

-- A skip that succeeds frees the chat: the skipped task blocks no other task.
pub skip_task-blocks :
    (id : ℕ) (value : Text) (now : ℕ) (db db' : Database)
    → skip_task id value now db ≡ ok db'
    → All (λ e. e.telegram_update_id ≡ id → (t : Task) → blocks t e ≡ false) db'.tasks
unfolding skip_task
skip_task-blocks id value now db db' h = unchain _ _ h λ reason trimmed h1.
    unchain _ _ h1 λ task blocked h2.
      subst (λ d. All (λ e. e.telegram_update_id ≡ id → (t : Task) → blocks t e ≡ false) d.tasks)
        (ok-injective h2)
        (update_where_id-All id _ (λ e. (t : Task) → blocks t e ≡ false) db.tasks
          (λ t same u.
            skipped-blocks u
              (record t { skipped_at = some now; skip_reason = some reason; updated_at = now })
              (ground arith)))
