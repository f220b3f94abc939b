-- ===== src/Media/Commands/Queue.antt =====
-- apps/server/src/media-cache/command-queue.ts: `PostgresMediaCacheCommandQueue`. Each operation is
-- one transaction or one statement, so an error leaves the rows as they were. New UUIDs and the
-- database's clock are arguments.
use koharu_suite.Prelude.{
  ℕ, ◌+◌, ◌*◌, Bool, true, false, not, ◌&&◌, ◌||◌, Option, none, some, List, [], ◌∷◌, ◌++◌, ltb,
  leb, ◌==◌, if◌then◌else◌, Result, ok, ◌>>=◌, ◌>>◌, throw_if, length, any, keep,
}
use koharu_suite.Prelude.Texts.{Text, codes, text_eq, trim}
use koharu_suite.Media.Commands.{
  Operation, restore, CommandState, failed, pending, running, succeeded, InitiatorKind, worker,
  Fields, CommandRow, ClaimedCommand, CommandError, invalid_initiator_or_reason,
  invalid_lease_owner, lease_is_stale, is_running, is_pending,
}
use koharu_suite.Media.Commands.Payload.{
  RawId, RawBytes, RawKind, Payload, normalize_initiator_kind, normalize_command_payload, payload,
  hydrate_claimed_command, same_id,
}

abbrev pub command_lease_ms : ℕ
command_lease_ms = 5 * 60_000

abbrev pub max_attempts : ℕ
max_attempts = 100

pub record CommandInput : Type 0 where
  pub operation : Operation
  pub initiator_id : Text
  pub initiator_kind : RawKind
  pub reason : Text
  pub object_id : RawId
  pub source_backend_id : RawId
  pub target_backend_id : RawId
  pub target_bytes : RawBytes

-- A new row, with the defaults of the other columns.
abbrev pub new_row : ℕ → ℕ → Operation → InitiatorKind → Text → Text → Payload → CommandRow
new_row id now operation kind initiator_id reason p = record {
  id = id;
  operation = operation;
  state = pending;
  object_id = p.object_id;
  source_backend_id = p.source_backend_id;
  target_backend_id = p.target_backend_id;
  target_bytes = p.target_bytes;
  initiator_kind = kind;
  initiator_id = initiator_id;
  reason = reason;
  attempt_count = 0;
  lease_owner = none;
  lease_token = none;
  lease_expires_at = none;
  result = none;
  error_code = none;
  created_at = now;
  updated_at = now;
  completed_at = none;
}

-- `enqueue`.
unfoldable pub enqueue :
    ℕ → ℕ → CommandInput → List CommandRow → Result CommandError (List CommandRow)
enqueue id now input rows = do
  kind ← normalize_initiator_kind input.initiator_kind
  throw_if
      ((length (trim input.initiator_id) == 0)
        || ltb 255 (length (trim input.initiator_id))
        || (length (trim input.reason) == 0)
        || ltb 500 (length (trim input.reason)))
      invalid_initiator_or_reason
  p ←
      normalize_command_payload input.operation input.object_id input.source_backend_id
        input.target_backend_id input.target_bytes
  ok (
      rows
      ++ new_row id now input.operation kind (trim input.initiator_id) (trim input.reason) p ∷ [])

abbrev pub is_restore : Operation → Bool
is_restore restore = true
is_restore other = false

-- The last condition of the query: no restore of the object to the local backend is under way, has
-- failed in the last five minutes or has succeeded in the last thirty seconds.
abbrev pub blocks_recache : ℕ → CommandState → ℕ → Bool
blocks_recache now pending updated = true
blocks_recache now running updated = true
blocks_recache now failed updated = ltb now (updated + 300_000)
blocks_recache now succeeded updated = ltb now (updated + 30_000)

abbrev pub is_local_restore : Text → CommandRow → Bool
is_local_restore object r =
    same_id r.object_id (some object)
    && is_restore r.operation
    && same_id r.target_backend_id (some (codes "local"))

abbrev pub recent_restore : ℕ → Text → CommandRow → Bool
recent_restore now object r = is_local_restore object r && blocks_recache now r.state r.updated_at

abbrev pub is_worker : InitiatorKind → Bool
is_worker worker = true
is_worker other = false

-- A conflict on `media_cache_commands_active_restore_unique`.
abbrev pub active_restore : Text → CommandRow → Bool
active_restore object r =
    is_local_restore object r
    && is_worker r.initiator_kind
    && (is_pending r.state || is_running r.state)

abbrev pub recache_row : ℕ → ℕ → Text → CommandRow
recache_row id now object =
    new_row id now restore worker (codes "media-recache-scheduler")
      (codes "Restore local hot copy after durable public read")
      (payload (some object) none (some (codes "local")) none)

-- `enqueueRecacheOnAccess`: whether a command was entered. What the query asks of the other tables
-- is the argument `eligible`, of the object and the source backend.
unfoldable pub enqueue_recache_on_access :
    (Text → Text → Bool) → ℕ → ℕ → Text → Text → List CommandRow → Bool × List CommandRow
enqueue_recache_on_access eligible id now object_value backend_value rows =
    let object = trim object_value in
    let backend = trim backend_value in
    if (length object == 0) || (length backend == 0) || text_eq backend (codes "local")
    then (false, rows)
    else if not (eligible object backend && not (any rows (recent_restore now object)))
    then (false, rows)
    else if any rows (active_restore object)
    then (false, rows)
    else (true, rows ++ recache_row id now object ∷ [])

-- `lease_expires_at <= now`, which is not true of null.
abbrev pub lapsed : ℕ → Option ℕ → Bool
lapsed now none = false
lapsed now (some e) = leb e now

-- `update … set … where …`
abbrev pub update_where :
    (CommandRow → Bool) → (CommandRow → CommandRow) → List CommandRow → List CommandRow
update_where p f [] = []
update_where p f (r ∷ rs) = (if p r then f r else r) ∷ update_where p f rs

abbrev pub is_exhausted : ℕ → CommandRow → Bool
is_exhausted now r =
    is_running r.state && lapsed now r.lease_expires_at && leb max_attempts r.attempt_count

abbrev pub exhaust : ℕ → CommandRow → CommandRow
exhaust now r = record r {
  completed_at = some now;
  error_code = some (codes "retry_exhausted");
  lease_expires_at = none;
  lease_owner = none;
  lease_token = none;
  state = failed;
  updated_at = now;
}

abbrev pub is_claimable : ℕ → CommandRow → Bool
is_claimable now r =
    is_pending r.state
    || (is_running r.state && lapsed now r.lease_expires_at && ltb r.attempt_count max_attempts)

-- `order by created_at, id`.
abbrev pub is_earlier : CommandRow → CommandRow → Bool
is_earlier r s = ltb r.created_at s.created_at || ((r.created_at == s.created_at) && ltb r.id s.id)

-- `limit 1`.
unfoldable pub first_row : List CommandRow → Option CommandRow
first_row [] = none
first_row (r ∷ rs) = elim (first_row rs) [
  | none ↦ some r
  | some s ↦ some (if is_earlier s r then s else r)
]

abbrev pub lease : ℕ → Text → ℕ → CommandRow → CommandRow
lease now owner token r = record r {
  attempt_count = r.attempt_count + 1;
  lease_expires_at = some (now + command_lease_ms);
  lease_owner = some owner;
  lease_token = some token;
  state = running;
  updated_at = now;
}

abbrev pub has_id : ℕ → CommandRow → Bool
has_id id r = r.id == id

-- The claim of the candidate that was selected.
abbrev pub claim_candidate :
    ℕ
    → Text
    → ℕ
    → List CommandRow
    → Option CommandRow
    → Result CommandError (Option ClaimedCommand × List CommandRow)
claim_candidate now owner token rows none = ok (none, rows)
claim_candidate now owner token rows (some r) = do
  command ← hydrate_claimed_command r token
  ok (some command, update_where (has_id r.id) (lease now owner token) rows)

-- `claim`; rows that other transactions have locked are skipped.
unfoldable pub claim :
    (ℕ → Bool)
    → ℕ
    → Text
    → ℕ
    → List CommandRow
    → Result CommandError (Option ClaimedCommand × List CommandRow)
claim locked now owner_value token rows = do
  throw_if ((length (trim owner_value) == 0) || ltb 255 (length (trim owner_value)))
      invalid_lease_owner
  let current = update_where (is_exhausted now) (exhaust now) rows
  claim_candidate now (trim owner_value) token current
      (first_row (keep (λ r. is_claimable now r && not (locked r.id)) current))

abbrev pub same_token : Option ℕ → ℕ → Bool
same_token none token = false
same_token (some t) token = t == token

-- The row of a command whose lease is still held under the command's token.
abbrev pub is_held : ℕ → ℕ → CommandRow → Bool
is_held id token r = (r.id == id) && is_running r.state && same_token r.lease_token token

-- The update of such a row; without one the lease is stale.
abbrev pub update_held :
    ClaimedCommand
    → (CommandRow → CommandRow)
    → List CommandRow
    → Result CommandError (List CommandRow)
update_held c f rows = do
  throw_if (not (any rows (is_held c.id c.token))) lease_is_stale
  ok (update_where (is_held c.id c.token) f rows)

abbrev pub renewed : ℕ → CommandRow → CommandRow
renewed now r = record r { lease_expires_at = some (now + command_lease_ms); updated_at = now }

-- `renew`.
unfoldable pub renew : ℕ → ClaimedCommand → List CommandRow → Result CommandError (List CommandRow)
renew now c rows = update_held c (renewed now) rows

abbrev pub completed : ℕ → Fields → CommandRow → CommandRow
completed now result r = record r {
  completed_at = some now;
  lease_expires_at = none;
  lease_owner = none;
  lease_token = none;
  result = some result;
  state = succeeded;
  updated_at = now;
}

-- `succeed`.
unfoldable pub succeed :
    ℕ → ClaimedCommand → Fields → List CommandRow → Result CommandError (List CommandRow)
succeed now c result rows = update_held c (completed now result) rows

abbrev pub given_up : ℕ → Text → CommandRow → CommandRow
given_up now code r = record r {
  completed_at = some now;
  error_code = some code;
  lease_expires_at = none;
  lease_owner = none;
  lease_token = none;
  state = failed;
  updated_at = now;
}

-- `fail`.
unfoldable pub fail :
    ℕ → ClaimedCommand → Text → List CommandRow → Result CommandError (List CommandRow)
fail now c code rows = update_held c (given_up now code) rows
