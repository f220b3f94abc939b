-- ===== src/Media/Commands.antt =====
-- apps/server/src/media-cache/command-queue.ts: the queue of the media cache's commands and the
-- processor that works on them. The rows are those of `mediaCacheCommands` in
-- apps/server/src/db/schema.ts; their UUIDs are numbers, times are in milliseconds.
pub mod Payload
pub mod Checks
pub mod Sized
pub mod Queue
pub mod Results
pub mod Shapes
pub mod Recorded
pub mod Sanitized
pub mod Runs
pub mod Processor
pub mod Dispatch
pub mod History
pub mod Inversion
pub mod Sound
pub mod Entered
pub mod Kept
pub mod Choosing
pub mod Claiming
pub mod Fencing
pub mod Phases
pub mod Refinement
pub mod Pages
pub mod Settling
mod Tests
use koharu_suite.Prelude.{ℕ, Bool, true, false, Option, none, some, List, [], ◌∷◌}
use koharu_suite.Prelude.Texts.{Text}
use koharu_suite.Prelude.Int.{ℤ}
use koharu_suite.Prelude.Numbers.{JsNumber}

-- `MediaCacheCommandOperation`.
pub data Operation : Type 0 where
  evict migrate prune reconcile restore : Operation

-- `MediaCacheCommandState`.
pub data CommandState : Type 0 where
  failed pending running succeeded : CommandState

-- `InternalMediaCacheCommandInitiatorKind`.
pub data InitiatorKind : Type 0 where
  local_operator owner_session worker : InitiatorKind

-- A value of a result object.
pub data ResultValue : Type 0 where
  truth : Bool → ResultValue
  number : JsNumber → ResultValue
  text : Text → ResultValue
  unsupported : ResultValue

-- `Record<string, unknown>`: the properties in their order.
abbrev pub Fields : Type 0
Fields = List (Text × ResultValue)

-- A row of `media_cache_commands`.
pub record CommandRow : Type 0 where
  pub id : ℕ
  pub operation : Operation
  pub state : CommandState
  pub object_id : Option Text
  pub source_backend_id : Option Text
  pub target_backend_id : Option Text
  pub target_bytes : Option ℤ
  pub initiator_kind : InitiatorKind
  pub initiator_id : Text
  pub reason : Text
  pub attempt_count : ℕ
  pub lease_owner : Option Text
  pub lease_token : Option ℕ
  pub lease_expires_at : Option ℕ
  pub result : Option Fields
  pub error_code : Option Text
  pub created_at : ℕ
  pub updated_at : ℕ
  pub completed_at : Option ℕ

-- `ClaimedMediaCacheCommand`: a command with the token of its lease.
pub record ClaimedCommand : Type 0 where
  pub id : ℕ
  pub initiator_id : Text
  pub initiator_kind : InitiatorKind
  pub reason : Text
  pub token : ℕ
  pub operation : Operation
  pub object_id : Option Text
  pub source_backend_id : Option Text
  pub target_backend_id : Option Text
  pub target_bytes : Option ℤ

pub data CommandError : Type 0 where
  invalid_initiator_or_reason invalid_initiator_kind invalid_target : CommandError
  invalid_lease_owner invalid_claimed_payload lease_is_stale : CommandError

abbrev pub is_running : CommandState → Bool
is_running running = true
is_running failed = false
is_running pending = false
is_running succeeded = false

abbrev pub is_pending : CommandState → Bool
is_pending pending = true
is_pending failed = false
is_pending running = false
is_pending succeeded = false

-- Whether an optional text is a JavaScript truth: neither absent nor empty.
abbrev pub is_given : Option Text → Bool
is_given none = false
is_given (some []) = false
is_given (some (c ∷ s)) = true

abbrev pub is_null {ℓ} : {A : Type ℓ} → Option A → Bool
is_null none = true
is_null (some a) = false
