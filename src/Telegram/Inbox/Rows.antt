-- ===== src/Telegram/Inbox/Rows.antt =====
-- The task rows that a batch of updates adds.
use mathlib.Core.List.{append-nil, append_assoc}
use koharu_suite.Prelude.{
  ℕ, ◌≤◌, ◌≡◌, sym, ap, ◌∙◌, inl, inr, true, Option, none, some, List, [], ◌∷◌, ◌++◌, arith, All,
  All-append, All-map, Bool-cases,
}
use koharu_suite.Telegram.Tables.{Update, Task}
use koharu_suite.Telegram.Inbox.{
  Candidate, channel_update, candidate_of, candidates_of, new_task, has_task, insert_task,
  insert_tasks, first_id, last_id,
}

-- The ids of a batch lie between its first and its last.
pub batch_bounds :
    (u : Update) (us : List Update)
    → All (λ v. (first_id u us ≤ v.update_id) × (v.update_id ≤ last_id u us)) (u ∷ us)
unfolding first_id last_id
batch_bounds u [] = ((omega arith, omega arith), tt)
batch_bounds u (v ∷ vs) = (
  (omega arith, omega arith),
  All-map (λ w. (first_id v vs ≤ w.update_id) × (w.update_id ≤ last_id v vs)) _
      (λ w h. (omega (arith, h.0), omega (arith, h.1))) (v ∷ vs) (batch_bounds v vs),
)

candidate_of-All :
    (P : ℕ → Type 0) (u : Update) (d : Option _)
    → P u.update_id
    → All (λ c. P c.update.update_id) (candidate_of u d)
candidate_of-All P u none h = tt
candidate_of-All P u (some (chat, kind)) h = (h, tt)

-- What holds of the ids of the updates holds of the ids of their candidates.
pub candidates_of-All :
    (P : ℕ → Type 0) (us : List Update)
    → All (λ u. P u.update_id) us
    → All (λ c. P c.update.update_id) (candidates_of us)
unfolding candidates_of
candidates_of-All P [] h = tt
candidates_of-All P (u ∷ us) (h, hs) =
    All-append _ (candidate_of u (channel_update u)) (candidates_of us)
      (candidate_of-All P u (channel_update u) h) (candidates_of-All P us hs)

module _ (bot_id now : ℕ) where
  pub insert_tasks-All :
      (Q : Task → Type 0) (tasks : List Task) (cs : List Candidate)
      → All Q tasks
      → All (λ c. Q (new_task bot_id now c)) cs
      → All Q (insert_tasks bot_id now tasks cs)
  unfolding insert_tasks insert_task
  insert_tasks-All Q tasks [] h k = h
  insert_tasks-All Q tasks (c ∷ cs) h (k, ks) =
      insert_tasks-All Q (insert_task bot_id now tasks c) cs
        (elim (Bool-cases (has_task tasks c.update.update_id)) [
          | inl old ↦ rw (old, insert_task) h
          | inr new ↦ rw (new, insert_task) (All-append Q tasks _ h (k, tt))
        ])
        ks

  has_task-append :
      (ts us : List Task) (id : ℕ) → has_task ts id ≡ true → has_task (ts ++ us) id ≡ true
  has_task-append [] us id h = absurd (cc)
  has_task-append (t ∷ ts) us id h = ground (arith, has_task-append ts us id)

  has_task-new :
      (ts : List Task) (c : Candidate)
      → has_task (ts ++ new_task bot_id now c ∷ []) c.update.update_id ≡ true
  has_task-new [] c = ground arith
  has_task-new (t ∷ ts) c = ground (arith, has_task-new ts c)

  has_task-insert_task :
      (tasks : List Task) (c : Candidate) (id : ℕ)
      → has_task tasks id ≡ true
      → has_task (insert_task bot_id now tasks c) id ≡ true
  unfolding insert_task
  has_task-insert_task tasks c id h =
      ground (arith, has_task-append tasks (new_task bot_id now c ∷ []) id h)

  has_task-insert_task_self :
      (tasks : List Task) (c : Candidate)
      → has_task (insert_task bot_id now tasks c) c.update.update_id ≡ true
  unfolding insert_task
  has_task-insert_task_self tasks c = elim (Bool-cases (has_task tasks c.update.update_id)) [
    | inl old ↦ rw (old, insert_task) old
    | inr new ↦ rw (new, insert_task) (has_task-new tasks c)
  ]

  has_task-insert_tasks :
      (tasks : List Task) (cs : List Candidate) (id : ℕ)
      → has_task tasks id ≡ true
      → has_task (insert_tasks bot_id now tasks cs) id ≡ true
  unfolding insert_tasks
  has_task-insert_tasks tasks [] id h = h
  has_task-insert_tasks tasks (c ∷ cs) id h =
      has_task-insert_tasks (insert_task bot_id now tasks c) cs id
        (has_task-insert_task tasks c id h)

  -- Every candidate that is inserted has a task afterwards.
  pub insert_tasks_complete :
      (tasks : List Task) (cs : List Candidate)
      → All (λ c. has_task (insert_tasks bot_id now tasks cs) c.update.update_id ≡ true) cs
  unfolding insert_tasks
  insert_tasks_complete tasks [] = tt
  insert_tasks_complete tasks (c ∷ cs) = (
    has_task-insert_tasks (insert_task bot_id now tasks c) cs c.update.update_id
        (has_task-insert_task_self tasks c),
    insert_tasks_complete (insert_task bot_id now tasks c) cs,
  )

  insert_task-grows :
      (tasks : List Task) (c : Candidate)
      → (new : List Task) × (insert_task bot_id now tasks c ≡ tasks ++ new)
  unfolding insert_task
  insert_task-grows tasks c = elim (Bool-cases (has_task tasks c.update.update_id)) [
    | inl old ↦ ([], rw (old, insert_task) (sym (append-nil tasks)))
    | inr fresh ↦ (new_task bot_id now c ∷ [], rw (fresh, insert_task))
  ]

  -- The rows that were there stay as they are, in front of the new ones.
  pub insert_tasks-grows :
      (tasks : List Task) (cs : List Candidate)
      → (new : List Task) × (insert_tasks bot_id now tasks cs ≡ tasks ++ new)
  unfolding insert_tasks
  insert_tasks-grows tasks [] = ([], sym (append-nil tasks))
  insert_tasks-grows tasks (c ∷ cs) =
      let (one, first) = insert_task-grows tasks c in
      let (rest, later) = insert_tasks-grows (insert_task bot_id now tasks c) cs in
      (one ++ rest, later ∙ ap (λ ts. ts ++ rest) first ∙ append_assoc tasks one rest)
