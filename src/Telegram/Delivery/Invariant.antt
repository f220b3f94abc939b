-- ===== src/Telegram/Delivery/Invariant.antt =====
-- What all transactions keep: the tasks and the log lie below the cursor, and behind a delivered
-- update no task of its chat is left unfinished.
use koharu_suite.Prelude.{
  ℕ, ◌≤◌, ◌<◌, ◌≡◌, subst, Bool, true, false, Option, none, some, List, [], ◌∷◌, arith, All,
  All-keep, Bool-cases, inl, inr, ◌==◌, ltb, Option-cases,
}
use koharu_suite.Telegram.Tables.{Task, PollingState, unfinished}
use koharu_suite.Telegram.Worker.{is_runnable, earliest, candidate, update_where_id}
use koharu_suite.Telegram.Delivery.{Delivered, World}

-- The cursor of the polling state.
abbrev pub cursor : Option PollingState → Option ℕ
cursor none = none
cursor (some s) = s.next_update_id

-- Nothing is below a cursor that was never set.
abbrev pub Below : Option ℕ → ℕ → Type 0
Below none n = ⊥
Below (some c) n = n < c

-- No unfinished task of the entry's chat at or before the entry.
abbrev pub Settles : Delivered → Task → Type 0
Settles e t = t.telegram_chat_id ≡ e.0 → t.telegram_update_id ≤ e.1 → unfinished t ≡ false

-- The newest first: each entry is later than all older entries of its chat.
abbrev pub IsOrdered : List Delivered → Type 0
IsOrdered [] = Unit {0}
IsOrdered (e ∷ log) = All (λ d. d.0 ≡ e.0 → d.1 < e.1) log × IsOrdered log

pub record IsSound {S : Type 0} (w : World S) : Type 0 where
  pub tasks_below : All (λ t. Below (cursor w.db.polling) t.telegram_update_id) w.db.tasks
  pub log_below : All (λ e. Below (cursor w.db.polling) e.1) w.log
  pub settled : All (λ e. All (Settles e) w.db.tasks) w.log
  pub ordered : IsOrdered w.log

-- Lemmas on the queries.
pub All-update :
    (Q : Task → Type 0) (id : ℕ) (f : Task → Task) (ts : List Task)
    → ((t : Task) → Q t → Q (f t))
    → All Q ts
    → All Q (update_where_id id f ts)
All-update Q id f [] keeps h = tt
All-update Q id f (t ∷ ts) keeps (h, hs) = elim (Bool-cases (t.telegram_update_id == id)) [
  | inl hit ↦ rw hit (keeps t h, All-update Q id f ts keeps hs)
  | inr miss ↦ rw miss (h, All-update Q id f ts keeps hs)
]

earliest-All :
    (Q : Task → Type 0) (ts : List Task) (t : Task) → All Q ts → earliest ts ≡ some t → Q t
unfolding earliest
earliest-All Q [] t h e = absurd (cc)
earliest-All Q (u ∷ us) t (h, hs) e = elim (Option-cases (earliest us)) [
  | inl nothing ↦ subst Q (ground arith) h
  | inr (v, found) ↦
      let later : Q v = earliest-All Q us v hs found in
      elim (Bool-cases (ltb v.telegram_update_id u.telegram_update_id)) [
        | inl before ↦ subst Q (ground arith) later
        | inr after ↦ subst Q (ground arith) h
      ]
]

-- The claimed task is one of the table, and was runnable.
pub candidate-All :
    (Q : Task → Type 0) (locked : ℕ → Bool) (now : ℕ) (ts : List Task) (t : Task)
    → All Q ts
    → candidate locked now ts ≡ some t
    → Q t × (is_runnable locked now ts t ≡ true)
unfolding candidate
candidate-All Q locked now ts t h e =
    earliest-All (λ u. Q u × (is_runnable locked now ts u ≡ true)) _ t
      (All-keep Q (is_runnable locked now ts) ts h) e
