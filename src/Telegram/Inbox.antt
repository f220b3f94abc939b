-- ===== src/Telegram/Inbox.antt =====
-- apps/server/src/telegram/inbox-repository.ts: `TelegramInboxRepository`. Each operation is one
-- transaction, so an error leaves the database as it was. The advisory lock that keeps a second
-- poller away is not modelled.
pub mod Rows
pub mod Checkpoint
use koharu_suite.Prelude.{
  ℕ, ◌+◌, ◌-◌, Bool, true, false, not, ◌&&◌, ◌||◌, Option, none, some, List, [], ◌∷◌, ◌++◌, map,
  ltb, ◌==◌, if◌then◌else◌, Result, ok, err, ◌>>=◌, ◌>>◌, throw_if, length, any, keep, min, max,
}
use koharu_suite.Prelude.Int.{ℤ, eqb_ℤ}
use koharu_suite.Telegram.Tables.{
  UpdateType, channel_post, edited_channel_post, Update, Task, PollingState, Receipt, Channel,
  Database,
}

pub data InboxError : Type 0 where
  bound_to_another_bot state_does_not_match offset_does_not_match : InboxError
  older_than_requested : InboxError

-- `channelUpdate`.
abbrev pub channel_update : Update → Option (ℤ × UpdateType)
channel_update u = elim u.channel_post_chat [
  | some chat ↦ some (chat, channel_post)
  | none ↦ elim u.edited_channel_post_chat [
    | some chat ↦ some (chat, edited_channel_post)
    | none ↦ none
  ]
]

pub record Candidate : Type 0 where
  pub chat_id : ℤ
  pub update_type : UpdateType
  pub update : Update

abbrev candidate_of : Update → Option (ℤ × UpdateType) → List Candidate
candidate_of u none = []
candidate_of u (some (chat, kind)) = record { chat_id = chat; update_type = kind; update = u } ∷ []

-- `updates.flatMap(…)`.
unfoldable pub candidates_of : List Update → List Candidate
candidates_of [] = []
candidates_of (u ∷ us) = candidate_of u (channel_update u) ++ candidates_of us

-- The enabled rows of the allowlist among the candidates' chats hold the candidate's chat.
abbrev pub is_allowed : List Channel → ℤ → Bool
is_allowed channels chat = any channels λ c. c.enabled && eqb_ℤ c.telegram_chat_id chat

-- The values of a new row, with the defaults of the other columns.
abbrev pub new_task : ℕ → ℕ → Candidate → Task
new_task bot_id now c = record {
  bot_id = bot_id;
  telegram_update_id = c.update.update_id;
  telegram_chat_id = c.chat_id;
  update_type = c.update_type;
  raw_json = some c.update;
  attempt_count = 0;
  available_at = now;
  processed_at = none;
  blocked_at = none;
  skipped_at = none;
  skip_reason = none;
  last_error = none;
  updated_at = now;
}

abbrev pub has_task : List Task → ℕ → Bool
has_task tasks id = any tasks λ t. t.telegram_update_id == id

-- `insert … on conflict (telegram_update_id) do nothing`.
unfoldable pub insert_task : ℕ → ℕ → List Task → Candidate → List Task
insert_task bot_id now tasks c =
    if has_task tasks c.update.update_id then tasks else tasks ++ new_task bot_id now c ∷ []

unfoldable pub insert_tasks : ℕ → ℕ → List Task → List Candidate → List Task
insert_tasks bot_id now tasks [] = tasks
insert_tasks bot_id now tasks (c ∷ cs) = insert_tasks bot_id now (insert_task bot_id now tasks c) cs

-- `Math.min(...ids)` and `Math.max(...ids)` of a batch that is not empty.
unfoldable pub first_id : Update → List Update → ℕ
first_id u [] = u.update_id
first_id u (v ∷ vs) = min u.update_id (first_id v vs)

unfoldable pub last_id : Update → List Update → ℕ
last_id u [] = u.update_id
last_id u (v ∷ vs) = max u.update_id (last_id v vs)

abbrev pub same_offset : Option ℕ → Option ℕ → Bool
same_offset none none = true
same_offset none (some b) = false
same_offset (some a) none = false
same_offset (some a) (some b) = a == b

abbrev pub is_older : Option ℕ → ℕ → Bool
is_older none first = false
is_older (some offset) first = ltb first offset

abbrev pub later_offset : Option ℕ → ℕ → ℕ
later_offset none batch_next = batch_next
later_offset (some next) batch_next = if ltb next batch_next then batch_next else next

-- `insert … on conflict (bot_id, checkpoint_offset) do nothing`.
abbrev pub insert_receipt : List Receipt → Receipt → List Receipt
insert_receipt rs r =
    if any rs (λ s. (s.bot_id == r.bot_id) && (s.checkpoint_offset == r.checkpoint_offset))
    then rs
    else rs ++ r ∷ []

-- The receipt of a batch.
abbrev pub receipt_of : ℕ → Option ℕ → ℕ → Update → List Update → ℕ → Receipt
receipt_of bot_id requested next u us accepted = record {
  bot_id = bot_id;
  requested_offset = requested;
  checkpoint_offset = next;
  returned_first_update_id = first_id u us;
  returned_last_update_id = last_id u us;
  returned_count = length (u ∷ us);
  accepted_count = accepted;
  ignored_count = length (u ∷ us) - accepted;
}

-- The part of `checkpointBatch` behind its guards, for a batch that is not empty.
unfoldable pub store_batch :
    ℕ → PollingState → Option ℕ → Database → Update → List Update → Option ℕ × Database
store_batch now state requested db u us =
    let accepted = keep (λ c. is_allowed db.channels c.chat_id) (candidates_of (u ∷ us)) in
    let next = later_offset state.next_update_id (last_id u us + 1) in
    (
      some next,
      record db {
        tasks = insert_tasks state.bot_id now db.tasks accepted;
        receipts =
            insert_receipt db.receipts
              (receipt_of state.bot_id requested next u us (length accepted));
        polling = some (record state { next_update_id = some next });
      },
    )

-- `checkpointBatch`: the cursor and the database after the batch.
unfoldable pub checkpoint_batch :
    ℕ → Database → ℕ → Option ℕ → List Update → Result InboxError (Option ℕ × Database)
checkpoint_batch now db bot_id requested updates = elim db.polling [
  | none ↦ err state_does_not_match
  | some state ↦ do
    throw_if (not (state.bot_id == bot_id)) state_does_not_match
    throw_if (not (same_offset state.next_update_id requested)) offset_does_not_match
    elim updates [
      | [] ↦ ok (state.next_update_id, db)
      | u ∷ us ↦ do
        throw_if (is_older requested (first_id u us)) older_than_requested
        ok (store_batch now state requested db u us)
    ]
]

-- `bindBot`: the row is made if there is none, and the bot must be the one that it names.
unfoldable pub bind_bot : Database → ℕ → Result InboxError (Option ℕ × Database)
bind_bot db bot_id =
    let state : PollingState = elim db.polling [
      | some s ↦ s
      | none ↦ record { bot_id = bot_id; next_update_id = none }
    ] in
    do
      throw_if (not (state.bot_id == bot_id)) bound_to_another_bot
      ok (state.next_update_id, record db { polling = some state })
