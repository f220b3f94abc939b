-- ===== src/Media/Commands/Payload.antt =====
-- apps/server/src/media-cache/command-queue.ts: the payload of a command, as it is entered
-- (`normalizeCommandPayload`) and as it is read back (`hydrateClaimedCommand`). Values of any type
-- are told apart as far as the code does.
use koharu_suite.Prelude.{
  ℕ, Bool, true, false, not, ◌||◌, Option, none, some, ltb, ◌==◌, if◌then◌else◌, Result, ok, err,
  ◌>>=◌, ◌>>◌, throw_if, length,
}
use koharu_suite.Prelude.Texts.{Text, text_eq, trim}
use koharu_suite.Prelude.Int.{ℤ, pos, ltb_ℤ}
use koharu_suite.Media.Commands.{
  Operation, evict, migrate, prune, reconcile, restore, InitiatorKind, local_operator,
  owner_session, worker, CommandRow, ClaimedCommand, CommandError, invalid_initiator_kind,
  invalid_target, invalid_claimed_payload, is_given, is_null,
}

-- An id of the input, `unknown` in the source: absent or null, a text, or anything else.
pub data RawId : Type 0 where
  absent : RawId
  text : Text → RawId
  no_text : RawId

pub data RawBytes : Type 0 where
  absent : RawBytes
  bigint : ℤ → RawBytes
  no_bigint : RawBytes

pub data RawKind : Type 0 where
  absent local_kind owner_kind other_kind : RawKind

-- `normalizeInitiatorKind`.
unfoldable pub normalize_initiator_kind : RawKind → Result CommandError InitiatorKind
normalize_initiator_kind absent = ok owner_session
normalize_initiator_kind local_kind = ok local_operator
normalize_initiator_kind owner_kind = ok owner_session
normalize_initiator_kind other_kind = err invalid_initiator_kind

-- `normalizeOptionalId`.
unfoldable pub normalize_optional_id : RawId → ℕ → Result CommandError (Option Text)
normalize_optional_id absent max_length = ok none
normalize_optional_id no_text max_length = err invalid_target
normalize_optional_id (text value) max_length =
    let normalized = trim value in
    if (length normalized == 0) || ltb max_length (length normalized)
    then err invalid_target
    else ok (some normalized)

pub record Payload : Type 0 where
  pub object_id : Option Text
  pub source_backend_id : Option Text
  pub target_backend_id : Option Text
  pub target_bytes : Option ℤ

abbrev pub has_bytes : RawBytes → Bool
has_bytes absent = false
has_bytes (bigint n) = true
has_bytes no_bigint = true

abbrev pub bytes_of : RawBytes → Option ℤ
bytes_of absent = none
bytes_of (bigint n) = some n
bytes_of no_bigint = none

abbrev pub same_id : Option Text → Option Text → Bool
same_id none none = true
same_id none (some t) = false
same_id (some s) none = false
same_id (some s) (some t) = text_eq s t

-- `targetBytes === null || targetBytes < 0n`.
abbrev pub no_size : Option ℤ → Bool
no_size none = true
no_size (some n) = ltb_ℤ n (pos 0)

abbrev pub payload : Option Text → Option Text → Option Text → Option ℤ → Payload
payload object source target bytes = record {
  object_id = object;
  source_backend_id = source;
  target_backend_id = target;
  target_bytes = bytes;
}

abbrev pub check_target : Bool → Payload → Result CommandError Payload
check_target true p = err invalid_target
check_target false p = ok p

-- The `switch` of `normalizeCommandPayload`.
abbrev pub payload_of :
    Operation → Option Text → Option Text → Option Text → RawBytes → Result CommandError Payload
payload_of evict object source target bytes =
    check_target (is_null object || not (is_null source) || not (is_null target) || has_bytes bytes)
      (payload object none none none)
payload_of migrate object source target bytes =
    check_target (is_null source || is_null target || same_id source target || has_bytes bytes)
      (payload object source target none)
payload_of prune object source target bytes =
    check_target
      (not (is_null object) || not (is_null source) || is_null target || no_size (bytes_of bytes))
      (payload none none target (bytes_of bytes))
payload_of reconcile object source target bytes =
    check_target
      (not (is_null object) || not (is_null source) || not (is_null target) || has_bytes bytes)
      (payload none none none none)
payload_of restore object source target bytes =
    check_target (is_null object || not (is_null source) || is_null target || has_bytes bytes)
      (payload object none target none)

-- `normalizeCommandPayload`.
unfoldable pub normalize_command_payload :
    Operation → RawId → RawId → RawId → RawBytes → Result CommandError Payload
normalize_command_payload operation object source target bytes = do
  object_id ← normalize_optional_id object 255
  source_backend_id ← normalize_optional_id source 64
  target_backend_id ← normalize_optional_id target 64
  payload_of operation object_id source_backend_id target_backend_id bytes

abbrev pub worker_misused : InitiatorKind → Operation → Bool
worker_misused local_operator o = false
worker_misused owner_session o = false
worker_misused worker evict = true
worker_misused worker migrate = true
worker_misused worker prune = true
worker_misused worker reconcile = true
worker_misused worker restore = false

-- The tests of the `switch` of `hydrateClaimedCommand`.
abbrev pub payload_refused : Operation → Option Text → Option Text → Option Text → Option ℤ → Bool
payload_refused evict object source target bytes =
    not (is_given object) || is_given source || is_given target || not (is_null bytes)
payload_refused migrate object source target bytes =
    not (is_given source) || not (is_given target) || same_id source target || not (is_null bytes)
payload_refused prune object source target bytes =
    is_given object || is_given source || not (is_given target) || no_size bytes
payload_refused reconcile object source target bytes =
    is_given object || is_given source || is_given target || not (is_null bytes)
payload_refused restore object source target bytes =
    not (is_given object) || is_given source || not (is_given target) || not (is_null bytes)

-- What the claimed command keeps of the row's payload.
abbrev pub kept_payload : Operation → CommandRow → Payload
kept_payload evict r = payload r.object_id none none none
kept_payload migrate r = payload r.object_id r.source_backend_id r.target_backend_id none
kept_payload prune r = payload none none r.target_backend_id r.target_bytes
kept_payload reconcile r = payload none none none none
kept_payload restore r = payload r.object_id none r.target_backend_id none

abbrev claimed : CommandRow → ℕ → Payload → ClaimedCommand
claimed r token p = record {
  id = r.id;
  initiator_id = r.initiator_id;
  initiator_kind = r.initiator_kind;
  reason = r.reason;
  token = token;
  operation = r.operation;
  object_id = p.object_id;
  source_backend_id = p.source_backend_id;
  target_backend_id = p.target_backend_id;
  target_bytes = p.target_bytes;
}

-- `hydrateClaimedCommand`.
unfoldable pub hydrate_claimed_command : CommandRow → ℕ → Result CommandError ClaimedCommand
hydrate_claimed_command r token = do
  throw_if (worker_misused r.initiator_kind r.operation) invalid_claimed_payload
  throw_if
      (payload_refused r.operation r.object_id r.source_backend_id r.target_backend_id
        r.target_bytes)
      invalid_claimed_payload
  ok (claimed r token (kept_payload r.operation r))
