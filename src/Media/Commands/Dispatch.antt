-- ===== src/Media/Commands/Dispatch.antt =====
-- apps/server/src/media-cache/command-queue.ts: the loop of `reconcile`, the storage operations, and
-- one run of the processor.
use koharu_suite.Prelude.{
  ℕ, zero, suc, ◌+◌, Bool, true, false, ◌&&◌, Option, none, some, ltb, if◌then◌else◌, Result, ok,
  err,
}
use koharu_suite.Prelude.Texts.{Text, codes, text_eq}
use koharu_suite.Media.Commands.{
  Operation, evict, migrate, prune, reconcile, restore, Fields, ClaimedCommand, is_null,
}
use koharu_suite.Media.Commands.Results.{
  StorageOperation, to_migrate, to_prune, to_restore, sanitize_storage_operation_result,
}
use koharu_suite.Media.Commands.Runs.{Thrown, Run, done, raise, raise_if, attempt, ◌>>=◌, ◌>>◌}
use koharu_suite.Media.Commands.Processor.{
  Services, ReconcilePage, ReconcileState, add_counts, totals_fields, external_kind, given_cursor,
  is_seen, add_seen, first_state, throw_if_aborted, evict_command, error_of,
}

abbrev pub page_limit : ℕ
page_limit = 10_000

-- `classifyCommandError`.
abbrev classify_error : Thrown → Text
classify_error e =
    if text_eq e.message (codes "invalid_target")
    then codes "invalid_target"
    else if text_eq e.message (codes "object_not_evictable")
    then codes "object_not_evictable"
    else if text_eq e.message (codes "reconcile_cursor_loop")
    then codes "reconcile_cursor_loop"
    else if text_eq e.message (codes "reconcile_page_limit")
    then codes "reconcile_page_limit"
    else if text_eq e.message (codes "storage_operation_unavailable")
    then codes "storage_operation_unavailable"
    else if text_eq e.name (codes "MediaCacheEvictionError")
    then codes "eviction_failed"
    else codes "operation_failed"

unfoldable pub classify_command_error : Thrown → Text
classify_command_error e =
    if e.is_dom_exception && text_eq e.name (codes "AbortError")
    then codes "aborted"
    else if e.is_error
    then classify_error e
    else codes "operation_failed"

abbrev pub next_state : ReconcileState → ReconcilePage → ReconcileState
next_state st page = record {
  totals = add_counts st.totals page.counts;
  cursor = given_cursor page.next_cursor;
  seen = add_seen (given_cursor page.next_cursor) st.seen;
  pages = st.pages + 1;
}

module _ {S : Type 0} (v : Services S) where
  -- One page of the loop of `reconcile`, and the state for the next.
  unfoldable pub reconcile_step : ClaimedCommand → ReconcileState → Run S ReconcileState
  reconcile_step c st = do
    raise_if (ltb page_limit (st.pages + 1)) (error_of (codes "reconcile_page_limit"))
    throw_if_aborted v
    v.renew_command c
    kind ← external_kind c.initiator_kind
    page ← v.reconcile_page st.cursor c.initiator_id kind c.reason
    raise_if (is_seen st.seen (given_cursor page.next_cursor))
        (error_of (codes "reconcile_cursor_loop"))
    done (next_state st page)

  -- The loop: `none` where the fuel is used up.
  unfoldable pub reconcile_pages :
      ℕ → ClaimedCommand → ReconcileState → Run S (Option ReconcileState)
  reconcile_pages zero c st = done none
  reconcile_pages (suc fuel) c st = do
    next ← reconcile_step c st
    if is_null next.cursor then done (some next) else reconcile_pages fuel c next

  -- `reconcile`.
  unfoldable pub reconcile_command : ℕ → ClaimedCommand → Run S (Option Fields)
  reconcile_command fuel c = do
    final ← reconcile_pages fuel c first_state
    elim final [ none ↦ done none | some st ↦ done (some (totals_fields st.totals st.pages)) ]

  -- `runStorageOperation`.
  abbrev pub run_storage_operation : StorageOperation → ClaimedCommand → Run S Fields
  run_storage_operation o c = do
    throw_if_aborted v
    elim v.storage [
      | none ↦ raise (error_of (codes "storage_operation_unavailable"))
      | some operations ↦ do
        v.renew_command c
        result ← operations.run o c (v.renew_command c)
        done (sanitize_storage_operation_result o result)
    ]

  abbrev given_fields : Run S Fields → Run S (Option Fields)
  given_fields m = do fields ← m; done (some fields)

  -- `dispatch`.
  abbrev pub dispatch : ℕ → Operation → ClaimedCommand → Run S (Option Fields)
  dispatch fuel evict c = given_fields (evict_command v c)
  dispatch fuel migrate c = given_fields (run_storage_operation to_migrate c)
  dispatch fuel prune c = given_fields (run_storage_operation to_prune c)
  dispatch fuel restore c = given_fields (run_storage_operation to_restore c)
  dispatch fuel reconcile c = reconcile_command fuel c

  -- The renewals of the timer, with the first error of them. They run beside the dispatch; they are
  -- taken after it.
  abbrev pub renewals : ℕ → ClaimedCommand → Run S (Option Thrown)
  renewals zero c = done none
  renewals (suc n) c = do
    renewed ← attempt (v.renew_command c)
    later ← renewals n c
    elim renewed [ ok unit ↦ done later | err e ↦ done (some e) ]

  -- The end of the `try`, where the dispatch gave a result.
  abbrev pub conclude : ClaimedCommand → Option Thrown → Fields → Run S (Unit {0})
  conclude c (some e) result = raise e
  conclude c none result = v.succeed_command c result

  -- The `catch`.
  abbrev pub recover : ClaimedCommand → Thrown → Run S (Unit {0})
  recover c e s =
      if v.is_aborted s then (err e, s) else v.fail_command c (classify_command_error e) s

  abbrev pub caught : ClaimedCommand → Result Thrown (Unit {0}) → Run S (Unit {0})
  caught c (ok unit) = done tt
  caught c (err e) = recover c e

  abbrev pub settle :
      ClaimedCommand → Option Thrown → Result Thrown (Option Fields) → Run S (Option Bool)
  settle c late (err e) = do recover c e; done (some true)
  settle c late (ok none) = done none
  settle c late (ok (some result)) = do
    concluded ← attempt (conclude c late result)
    caught c concluded
    done (some true)

  -- What `runOnce` does with what it claimed, where the renewal timer fires so many times; `none`
  -- where the fuel of the reconciliation is used up.
  abbrev pub process : ℕ → ℕ → Option ClaimedCommand → Run S (Option Bool)
  process fuel ticks none = done (some false)
  process fuel ticks (some c) = do
    dispatched ← attempt (dispatch fuel c.operation c)
    late ← renewals ticks c
    settle c late dispatched

  -- `runOnce`.
  unfoldable pub run_once : ℕ → ℕ → Run S (Option Bool)
  run_once fuel ticks = do throw_if_aborted v; command ← v.claim_command; process fuel ticks command
