-- ===== src/Telegram/Worker/Progress.antt =====
-- Which task the worker of apps/server/src/telegram/worker.ts takes, and that it does not pass over one.
use mathlib.Core.List.{Mem}
use koharu_suite.Prelude.{
  ℕ, ◌≤◌, ◌<◌, ◌≡◌, refl, subst, sym, Bool, true, false, Option, none, some, List, [], ◌∷◌, arith,
  ltb, lt→ltb, ltb→lt, ltb→ge, leb→le, le→leb_true, ◌⊎◌, ◌↔◌, any, keep, All, All-map, All-keep,
  All-of_keep, All-of_any, any-of_All, All-Mem, Result, Bool-cases, Option-cases, &&-true, not-true,
  some-injective, inl, inr,
}
use koharu_suite.Prelude.Int.{eq_of_eqb_ℤ, eqb_ℤ_refl}
use koharu_suite.Telegram.Tables
use koharu_suite.Telegram.Tables.{Task, Database, is_null}
use koharu_suite.Telegram.Worker.{
  Reason, blocks, is_runnable, earliest, candidate, run_task, process_one,
}

-- A task that is neither processed nor skipped.
abbrev pub IsUnfinished : Task → Type 0
IsUnfinished t = (t.processed_at ≡ none) × (t.skipped_at ≡ none)

-- What the queue asks of a task that a worker may take at a time, in words of the table.
pub record MayRun (locked : ℕ → Bool) (now : ℕ) (tasks : List Task) (t : Task) : Type 0 where
  pub unfinished : IsUnfinished t
  pub unblocked : t.blocked_at ≡ none
  pub due : t.available_at ≤ now
  pub first_of_chat :
      All
        (λ e.
          e.telegram_chat_id ≡ t.telegram_chat_id
          → e.telegram_update_id < t.telegram_update_id
          → ¬ (IsUnfinished e))
        tasks
  pub unlocked : locked t.telegram_update_id ≡ false

null_iff {ℓ} : {A : Type ℓ} (o : Option A) → (is_null o ≡ true) ↔ (o ≡ none)
null_iff none = (λ h. refl, λ h. refl)
null_iff (some a) = (λ h. absurd (cc), λ h. absurd (cc))

unfinished_iff : (t : Task) → (Tables.unfinished t ≡ true) ↔ (IsUnfinished t)
unfinished_iff t = (
  λ h. let (p, s) = &&-true _ _ h in ((null_iff t.processed_at).0 p, (null_iff t.skipped_at).0 s),
  λ h. rw (h.0, h.1) refl,
)

not_blocked :
    (t e : Task)
    → blocks t e ≡ false
    → e.telegram_chat_id ≡ t.telegram_chat_id
    → e.telegram_update_id < t.telegram_update_id
    → ¬ (IsUnfinished e)
not_blocked t e h chat before u = absurd (
    cc (
      rw
        (
          chat,
          eqb_ℤ_refl t.telegram_chat_id,
          lt→ltb e.telegram_update_id t.telegram_update_id before,
          u.0,
          u.1,
        )
        at h))

blocks_not :
    (t e : Task)
    → (e.telegram_chat_id ≡ t.telegram_chat_id
        → e.telegram_update_id < t.telegram_update_id
        → ¬ (IsUnfinished e))
    → blocks t e ≡ false
blocks_not t e h = elim (Bool-cases (blocks t e)) [
  | inr no' ↦ no'
  | inl yes' ↦
      let (h1, open') = &&-true _ _ yes' in
      let (chat, before) = &&-true _ _ h1 in
      absurd (h (eq_of_eqb_ℤ _ _ chat) (ltb→lt _ _ before) ((unfinished_iff e).0 open'))
]

module _ (locked : ℕ → Bool) (now : ℕ) (tasks : List Task) (t : Task) where
  MayRun-of_test : is_runnable locked now tasks t ≡ true → MayRun locked now tasks t
  MayRun-of_test h =
      let (h1, free) = &&-true _ _ h in
      let (h2, first) = &&-true _ _ h1 in
      let (h3, due) = &&-true _ _ h2 in
      let (open', unblocked) = &&-true _ _ h3 in
      record {
        unfinished = (unfinished_iff t).0 open';
        unblocked = (null_iff t.blocked_at).0 unblocked;
        due = leb→le _ _ due;
        first_of_chat =
            All-map _ _ (not_blocked t) tasks
              (All-of_any (blocks t) tasks (not-true (any tasks (blocks t)) first));
        unlocked = not-true (locked t.telegram_update_id) free;
      }

  test_of_MayRun : MayRun locked now tasks t → is_runnable locked now tasks t ≡ true
  test_of_MayRun m =
      rw
        (
          m.unfinished.0,
          m.unfinished.1,
          m.unblocked,
          le→leb_true t.available_at now m.due,
          any-of_All (blocks t) tasks (All-map _ _ (blocks_not t) tasks m.first_of_chat),
          m.unlocked,
        )
        refl

earliest-none : (ts : List Task) → earliest ts ≡ none → ts ≡ []
unfolding earliest
earliest-none [] e = refl
earliest-none (t ∷ ts) e = elim (Option-cases (earliest ts)) [
  | inl none' ↦ absurd (cc (rw (none', earliest) at e))
  | inr (s, found) ↦ absurd (cc (rw (found, earliest) at e))
]

-- A task of which something holds, and none in the list came earlier.
abbrev IsLeast : (Task → Type 0) → List Task → Task → Type 0
IsLeast Q ts t = Q t × All (λ u. t.telegram_update_id ≤ u.telegram_update_id) ts

earliest-IsLeast :
    (Q : Task → Type 0) (ts : List Task) (t : Task)
    → earliest ts ≡ some t
    → All Q ts
    → IsLeast Q ts t
unfolding earliest
earliest-IsLeast Q [] t e h = absurd (cc)
earliest-IsLeast Q (u ∷ ts) t e (h, hs) = elim (Option-cases (earliest ts)) [
  | inl none' ↦
      let same : u ≡ t = some-injective (rw (none', earliest) at e) in
      subst (IsLeast Q (u ∷ ts)) same
        (h, (omega arith, subst (All _) (sym (earliest-none ts none')) tt))
  | inr (s, found) ↦
      let (q, least) = earliest-IsLeast Q ts s found hs in
      elim (Bool-cases (ltb s.telegram_update_id u.telegram_update_id)) [
        | inl lower ↦
            let same : s ≡ t = some-injective (rw (found, lower, earliest) at e) in
            subst (IsLeast Q (u ∷ ts)) same (q, (omega (arith, ltb→lt _ _ lower), least))
        | inr higher ↦
            let same : u ≡ t = some-injective (rw (found, higher, earliest) at e) in
            subst (IsLeast Q (u ∷ ts)) same (
              h,
              (omega arith, All-map _ _ (λ v le. omega (arith, le, ltb→ge _ _ higher)) ts least),
            )
      ]
]

module _ {S : Type 0} (deliver : Task → S → Result Reason S) where
  -- What the attempt at a task reports and leaves.
  abbrev pub attempted : ℕ → Task → Database → S → Bool × Database × S
  attempted now t db store =
      let (db', store') = run_task deliver now t db store in (true, db', store')

  -- A pass of the worker: no task may run and nothing changes, or the earliest that may run is
  -- attempted.
  abbrev pub IsPass : (ℕ → Bool) → ℕ → ℕ → Database → S → Bool × Database × S → Type 0
  IsPass locked db_now now db store result =
      All (λ u. ¬ (MayRun locked db_now db.tasks u)) db.tasks × (result ≡ (false, db, store))
      ⊎ (t : Task) × Mem t db.tasks
        × MayRun locked db_now db.tasks t
        × All (λ u. MayRun locked db_now db.tasks u → t.telegram_update_id ≤ u.telegram_update_id)
            db.tasks
        × (result ≡ attempted now t db store)

-- The worker passes over no task it may run. Where no task is unfinished, not blocked, due, not
-- locked and the first unfinished one of its chat, it changes nothing and reports that there was
-- none; otherwise it reports that there was one and attempts a task of the table that meets these
-- conditions, with the lowest update id among all that do.
pub process_one-claims :
    {S : Type 0} (deliver : Task → S → Result Reason S) (locked : ℕ → Bool) (db_now now : ℕ)
    (db : Database) (store : S)
    → IsPass deliver locked db_now now db store (process_one deliver locked db_now now db store)
unfolding candidate process_one
process_one-claims deliver locked db_now now db store =
    let test = is_runnable locked db_now db.tasks in
    elim (Option-cases (earliest (keep test db.tasks))) [
      | inl none' ↦
          rw (none', process_one)
            (inl (
              All-map (λ u. test u ≡ true → false ≡ true) _
                  (λ u no' m. absurd (cc (no' (test_of_MayRun locked db_now db.tasks u m))))
                  db.tasks
                  (All-of_keep (λ u. false ≡ true) test db.tasks
                    (subst (All (λ u. false ≡ true)) (sym (earliest-none _ none')) tt)),
              refl,
            ))
      | inr (t, found) ↦
          let ((member, runnable), least) =
            earliest-IsLeast (λ u. Mem u db.tasks × (test u ≡ true)) (keep test db.tasks) t found
              (All-keep (λ u. Mem u db.tasks) test db.tasks (All-Mem db.tasks)) in
          rw (found, process_one)
            (inr (
              t,
              member,
              MayRun-of_test locked db_now db.tasks t runnable,
              All-map (λ u. test u ≡ true → t.telegram_update_id ≤ u.telegram_update_id) _
                  (λ u le m. le (test_of_MayRun locked db_now db.tasks u m)) db.tasks
                  (All-of_keep _ test db.tasks least),
              refl,
            ))
    ]
