-- ===== src/Media/Commands/Checks.antt =====
-- apps/server/src/db/schema.ts: the CHECK constraints of `mediaCacheCommands`.
use koharu_suite.Prelude.{
  ℕ, ◌+◌, Bool, false, not, ◌&&◌, Option, none, some, [], ◌∷◌, leb, ◌==◌, if◌then◌else◌, all,
}
use koharu_suite.Prelude.Texts.{Text}
use koharu_suite.Prelude.Int.{ℤ}
use koharu_suite.Media.Commands.{
  Operation, evict, migrate, prune, reconcile, restore, CommandState, failed, pending, running,
  succeeded, CommandRow, is_null,
}
use koharu_suite.Media.Commands.Payload.{same_id, no_size, worker_misused}

-- `media_cache_commands_target_check`.
abbrev pub target_check : Operation → Option Text → Option Text → Option Text → Option ℤ → Bool
target_check evict object source target bytes =
    not (is_null object) && is_null source && is_null target && is_null bytes
target_check reconcile object source target bytes =
    is_null object && is_null source && is_null target && is_null bytes
target_check migrate object source target bytes =
    not (is_null source) && not (is_null target) && not (same_id source target) && is_null bytes
target_check restore object source target bytes =
    not (is_null object) && is_null source && not (is_null target) && is_null bytes
target_check prune object source target bytes =
    is_null object && is_null source && not (is_null target) && not (no_size bytes)

abbrev pub is_high_surrogate : ℕ → Bool
is_high_surrogate c = leb 0xd800 c && leb c 0xdbff

abbrev pub is_low_surrogate : ℕ → Bool
is_low_surrogate c = leb 0xdc00 c && leb c 0xdfff

-- The characters of a text of UTF-16 units, given whether a high surrogate stands before it.
abbrev pub characters_after : Bool → Text → ℕ
characters_after high [] = 0
characters_after high (c ∷ s) =
    (if high && is_low_surrogate c then 0 else 1) + characters_after (is_high_surrogate c) s

-- `length` of the database, which counts characters.
abbrev pub characters : Text → ℕ
characters s = characters_after false s

abbrev pub btrim_start : Text → Text
btrim_start [] = []
btrim_start (c ∷ s) = if c == 0x20 then btrim_start s else c ∷ s

abbrev pub btrim_end : Text → Text
btrim_end [] = []
btrim_end (c ∷ s) = if all (c ∷ s) (λ d. d == 0x20) then [] else c ∷ btrim_end s

-- `btrim` of the database, which strips spaces only.
abbrev pub btrim : Text → Text
btrim s = btrim_end (btrim_start s)

-- `length(btrim(…)) between 1 and …`.
unfoldable pub is_sized : ℕ → Text → Bool
is_sized most s = leb 1 (characters (btrim s)) && leb (characters (btrim s)) most

-- `media_cache_commands_initiator_check`.
abbrev pub initiator_check : CommandRow → Bool
initiator_check r = is_sized 255 r.initiator_id && is_sized 500 r.reason

-- The conjuncts of the next constraint on the lease's owner.
abbrev pub owner_check : Option Text → Bool
owner_check none = false
owner_check (some owner) = is_sized 255 owner

-- `media_cache_commands_lease_check`.
abbrev pub lease_check : CommandState → Option Text → Option ℕ → Option ℕ → Option ℕ → Bool
lease_check running owner token expires completed =
    owner_check owner && not (is_null token) && not (is_null expires) && is_null completed
lease_check failed owner token expires completed = is_null owner && is_null token && is_null expires
lease_check pending owner token expires completed =
    is_null owner && is_null token && is_null expires
lease_check succeeded owner token expires completed =
    is_null owner && is_null token && is_null expires

-- `media_cache_commands_terminal_check`.
abbrev pub terminal_check {ℓ} :
    {A : Type ℓ} → CommandState → Option A → Option Text → Option ℕ → Bool
terminal_check succeeded result error completed =
    not (is_null result) && is_null error && not (is_null completed)
terminal_check failed result error completed =
    is_null result && not (is_null error) && not (is_null completed)
terminal_check pending result error completed = is_null result && is_null error && is_null completed
terminal_check running result error completed = is_null result && is_null error && is_null completed

-- The constraints on the payload and on who may enter it, which no update changes.
abbrev pub payload_checks : CommandRow → Bool
payload_checks r =
    target_check r.operation r.object_id r.source_backend_id r.target_backend_id r.target_bytes
    && not (worker_misused r.initiator_kind r.operation)

-- The constraints on the life of the command.
abbrev pub life_checks : CommandRow → Bool
life_checks r =
    leb r.attempt_count 100
    && lease_check r.state r.lease_owner r.lease_token r.lease_expires_at r.completed_at
    && terminal_check r.state r.result r.error_code r.completed_at
