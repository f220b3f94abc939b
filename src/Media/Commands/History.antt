-- ===== src/Media/Commands/History.antt =====
-- Any sequence of the operations of apps/server/src/media-cache/command-queue.ts on its table.
use koharu_suite.Prelude.{ℕ, ◌≡◌, Bool, false, Option, List, ok, any}
use koharu_suite.Prelude.Texts.{Text}
use koharu_suite.Media.Commands.{Fields, CommandRow, ClaimedCommand}
use koharu_suite.Media.Commands.Queue.{
  CommandInput, has_id, enqueue, enqueue_recache_on_access, claim, renew, succeed, fail,
}

-- One operation that succeeds. The tokens that claims draw are those that `Drawn` allows; a new row
-- has an id that no row has, since the id is the table's primary key.
pub data Step (Drawn : ℕ → Type 0) (rows : List CommandRow) : List CommandRow → Type 0 where
  enqueues :
      (id now : ℕ) (input : CommandInput) (after : List CommandRow)
      → any rows (has_id id) ≡ false
      → enqueue id now input rows ≡ ok after
      → Step Drawn rows after
  recaches :
      (eligible : Text → Text → Bool) (id now : ℕ) (object backend : Text)
      → any rows (has_id id) ≡ false
      → Step Drawn rows (enqueue_recache_on_access eligible id now object backend rows).1
  claims :
      (locked : ℕ → Bool) (now : ℕ) (owner : Text) (token : ℕ) (command : Option ClaimedCommand)
      (after : List CommandRow)
      → Drawn token
      → claim locked now owner token rows ≡ ok (command, after)
      → Step Drawn rows after
  renews :
      (now : ℕ) (command : ClaimedCommand) (after : List CommandRow)
      → renew now command rows ≡ ok after
      → Step Drawn rows after
  succeeds :
      (now : ℕ) (command : ClaimedCommand) (result : Fields) (after : List CommandRow)
      → succeed now command result rows ≡ ok after
      → Step Drawn rows after
  fails :
      (now : ℕ) (command : ClaimedCommand) (code : Text) (after : List CommandRow)
      → fail now command code rows ≡ ok after
      → Step Drawn rows after

pub data Steps (Drawn : ℕ → Type 0) (rows : List CommandRow) : List CommandRow → Type 0 where
  here : Steps Drawn rows rows
  next :
      {between after : List CommandRow}
      → Steps Drawn rows between
      → Step Drawn between after
      → Steps Drawn rows after

abbrev pub AnyToken : ℕ → Type 0
AnyToken token = Unit
