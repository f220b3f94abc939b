-- ===== src/Media/Commands/Processor.antt =====
-- apps/server/src/media-cache/command-queue.ts: `MediaCacheCommandProcessor`. The queue, the
-- database, the eviction and maintenance services and the storage operations are the fields of a
-- record; so are whether the signal is aborted, the clock and the error of an abort.
use koharu_suite.Prelude.{
  ℕ, ◌+◌, ◌*◌, Bool, true, false, not, Option, none, some, List, [], ◌∷◌, if◌then◌else◌,
}
use koharu_suite.Prelude.Texts.{Text, codes, text_eq, has}
use koharu_suite.Prelude.Decimal.{show}
use koharu_suite.Prelude.Numbers.{whole}
use koharu_suite.Media.Commands.{
  InitiatorKind, local_operator, owner_session, worker, ResultValue, truth, number, text, Fields,
  ClaimedCommand,
}
use koharu_suite.Media.Commands.Results.{StorageOperation}
use koharu_suite.Media.Commands.Runs.{Thrown, Run, done, raise, raise_if, ◌>>=◌, ◌>>◌}

abbrev pub eviction_lease_ms : ℕ
eviction_lease_ms = 2 * 60_000

abbrev pub error_of : Text → Thrown
error_of message = record {
  is_dom_exception = false;
  is_error = true;
  name = codes "Error";
  message = message;
}

-- The columns of the object that `evict` selects.
pub record CachedObject : Type 0 where
  pub blob_sha256 : Option Text
  pub state : Text

pub record EvictionRequest : Type 0 where
  pub expires_at : ℕ
  pub owner : Text
  pub initiator_id : Text
  pub initiator_kind : InitiatorKind
  pub reason : Text
  pub sha256 : Text

pub record EvictionResult : Type 0 where
  pub evicted_object_count : ℕ
  pub file_outcome : Text
  pub physical_bytes_removed : ℕ
  pub ready_bytes : ℕ

-- The counts of a page of `reconcile`, and their totals.
pub record Totals : Type 0 where
  pub checked : ℕ
  pub missing : ℕ
  pub orphan_failed : ℕ
  pub orphan_found : ℕ
  pub orphan_recovered : ℕ
  pub repair_failed : ℕ
  pub repaired : ℕ

pub record ReconcilePage : Type 0 where
  pub counts : Totals
  pub next_cursor : Option Text

-- `CommandStorageOperations`; each gets the command and a way to renew its lease.
pub record StorageOperations (S : Type 0) : Type 0 where
  pub run : StorageOperation → ClaimedCommand → Run S (Unit {0}) → Run S Fields

-- What the processor calls. `reconcile_page` gets the cursor, the initiator's id and kind and the
-- reason.
pub record Services (S : Type 0) : Type 0 where
  pub claim_command : Run S (Option ClaimedCommand)
  pub renew_command : ClaimedCommand → Run S (Unit {0})
  pub succeed_command : ClaimedCommand → Fields → Run S (Unit {0})
  pub fail_command : ClaimedCommand → Text → Run S (Unit {0})
  pub find_object : Text → Run S (Option CachedObject)
  pub clock : Run S (Option ℕ)
  pub evict_blob : EvictionRequest → Run S (Option EvictionResult)
  pub reconcile_page : Option Text → Text → InitiatorKind → Text → Run S ReconcilePage
  pub storage : Option (StorageOperations S)
  pub lease_owner : Text
  pub is_aborted : S → Bool
  pub abort_error : Thrown

abbrev pub add_counts : Totals → Totals → Totals
add_counts t p = record {
  checked = t.checked + p.checked;
  missing = t.missing + p.missing;
  orphan_failed = t.orphan_failed + p.orphan_failed;
  orphan_found = t.orphan_found + p.orphan_found;
  orphan_recovered = t.orphan_recovered + p.orphan_recovered;
  repair_failed = t.repair_failed + p.repair_failed;
  repaired = t.repaired + p.repaired;
}

abbrev pub no_counts : Totals
no_counts = record {
  checked = 0;
  missing = 0;
  orphan_failed = 0;
  orphan_found = 0;
  orphan_recovered = 0;
  repair_failed = 0;
  repaired = 0;
}

abbrev pub count_field : Text → ℕ → Text × ResultValue
count_field key n = (key, number (whole n))

-- `{ ...totals, pages }`.
abbrev pub totals_fields : Totals → ℕ → Fields
totals_fields t pages =
    count_field (codes "checked") t.checked
    ∷ count_field (codes "missing") t.missing
    ∷ count_field (codes "orphanFailed") t.orphan_failed
    ∷ count_field (codes "orphanFound") t.orphan_found
    ∷ count_field (codes "orphanRecovered") t.orphan_recovered
    ∷ count_field (codes "repairFailed") t.repair_failed
    ∷ count_field (codes "repaired") t.repaired
    ∷ count_field (codes "pages") pages
    ∷ []

-- `externalCommandInitiatorKind`.
abbrev pub external_kind : {S : Type 0} → InitiatorKind → Run S InitiatorKind
external_kind local_operator = done local_operator
external_kind owner_session = done owner_session
external_kind worker = raise (error_of (codes "invalid_media_cache_command_payload"))

-- A cursor that is not the empty text.
abbrev pub given_cursor : Option Text → Option Text
given_cursor none = none
given_cursor (some []) = none
given_cursor (some (c ∷ t)) = some (c ∷ t)

-- What the loop of `reconcile` carries: the totals, the cursor, the cursors seen and the pages.
pub record ReconcileState : Type 0 where
  pub totals : Totals
  pub cursor : Option Text
  pub seen : List Text
  pub pages : ℕ

-- `seenCursors.has(cursor)`.
abbrev pub is_seen : List Text → Option Text → Bool
is_seen seen none = false
is_seen seen (some cursor) = has seen cursor

abbrev pub add_seen : Option Text → List Text → List Text
add_seen none seen = seen
add_seen (some cursor) seen = cursor ∷ seen

abbrev pub first_state : ReconcileState
first_state = record { totals = no_counts; cursor = none; seen = []; pages = 0 }

module _ {S : Type 0} (v : Services S) where
  -- `signal?.throwIfAborted()`.
  abbrev pub throw_if_aborted : Run S (Unit {0})
  throw_if_aborted s = raise_if (v.is_aborted s) v.abort_error s

  abbrev object_eviction : ClaimedCommand → Text → Run S Fields
  object_eviction c sha256 = do
    clock ← v.clock
    now ← elim clock [
      | none ↦ raise (error_of (codes "PostgreSQL returned an invalid media cache command clock"))
      | some now ↦ done now
    ]
    evicted ← v.evict_blob (record {
      expires_at = now + eviction_lease_ms;
      owner = v.lease_owner;
      initiator_id = c.initiator_id;
      initiator_kind = c.initiator_kind;
      reason = c.reason;
      sha256 = sha256;
    })
    elim evicted [
      | none ↦ raise (error_of (codes "object_not_evictable"))
      | some r ↦ done (
          count_field (codes "evictedObjectCount") r.evicted_object_count
          ∷ (codes "fileOutcome", text r.file_outcome)
          ∷ (codes "physicalBytesRemoved", text (show r.physical_bytes_removed))
          ∷ (codes "readyBytes", text (show r.ready_bytes))
          ∷ [])
    ]

  abbrev evict_object : ClaimedCommand → CachedObject → Run S Fields
  evict_object c object =
      if text_eq object.state (codes "evicted")
      then done
          ((codes "alreadyApplied", truth true) ∷ count_field (codes "evictedObjectCount") 0 ∷ [])
      else if not (has (codes "deleting" ∷ codes "ready" ∷ []) object.state)
      then raise (error_of (codes "object_not_evictable"))
      else elim (given_cursor object.blob_sha256) [
        | none ↦ raise (error_of (codes "object_not_evictable"))
        | some sha256 ↦ object_eviction c sha256
      ]

  -- `evict`.
  abbrev pub evict_command : ClaimedCommand → Run S Fields
  evict_command c = do
    throw_if_aborted
    elim (given_cursor c.object_id) [
      | none ↦ raise (error_of (codes "invalid_target"))
      | some id ↦ do
        object ← v.find_object id
        elim object [ none ↦ raise (error_of (codes "invalid_target")) | some o ↦ evict_object c o ]
    ]
