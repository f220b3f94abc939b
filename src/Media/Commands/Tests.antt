-- ===== src/Media/Commands/Tests.antt =====
-- Runs of the command queue and of its processor, and the theorems at them.
use koharu_suite.Prelude.{
  ℕ, ◌+◌, ◌≡◌, ◌≢◌, ◌↔◌, ◌<◌, refl, arith, Bool, true, false, ◌||◌, Option, none, some, List, [],
  ◌∷◌, ltb, ◌==◌, if◌then◌else◌, Result, ok, err, any, length,
}
use koharu_suite.Prelude.Texts.{Text, codes, trim}
use koharu_suite.Prelude.Numbers.{whole}
use koharu_suite.Media.Commands.{
  reconcile, restore, Fields, number, text, truth, CommandRow, ClaimedCommand, is_given,
}
use koharu_suite.Media.Commands.Payload.{
  absent, text, owner_kind, normalize_initiator_kind, normalize_optional_id,
  normalize_command_payload, hydrate_claimed_command,
}
use koharu_suite.Media.Commands.Queue.{
  CommandInput, enqueue, enqueue_recache_on_access, claim, renew, succeed, fail, first_row, is_held,
}
use koharu_suite.Media.Commands.Results.{to_migrate, field, sanitize_storage_operation_result}
use koharu_suite.Media.Commands.Shapes.{shapes, IsListed}
use koharu_suite.Media.Commands.Sanitized.{field-sanitize_storage_operation_result}
use koharu_suite.Media.Commands.History.{Steps, here, next, enqueues, claims, succeeds, AnyToken}
use koharu_suite.Media.Commands.Kept.{IsSoundTable}
use koharu_suite.Media.Commands.Claiming.{IsClaimed, reachable-IsSoundTable, claim-IsClaimed}
use koharu_suite.Media.Commands.Fencing.{IsFenced, succeed-IsFenced}
use koharu_suite.Media.Commands.Phases.{Evolves}
use koharu_suite.Media.Commands.Refinement.{queue-Evolves}
use koharu_suite.Media.Commands.Runs.{done, ◌>>=◌}
use koharu_suite.Media.Commands.Processor.{
  Services, ReconcilePage, Totals, no_counts, first_state, error_of,
}
use koharu_suite.Media.Commands.Dispatch.{
  classify_command_error, reconcile_step, reconcile_pages, reconcile_command, run_once,
}
use koharu_suite.Media.Commands.Pages.{IsEnd, reconcile_pages-ends}
use koharu_suite.Media.Commands.Settling.{over_queue, holds_lease, run_once-settles}

running : Unit {0}
unfolding trim koharu_suite.Prelude.◌>>=◌ ◌>>=◌ normalize_initiator_kind normalize_optional_id
    normalize_command_payload hydrate_claimed_command enqueue enqueue_recache_on_access claim renew
    succeed fail first_row sanitize_storage_operation_result classify_command_error reconcile_step
    reconcile_pages reconcile_command run_once
running = tt

abbrev input : CommandInput
input = record {
  operation = reconcile;
  initiator_id = codes " owner ";
  initiator_kind = owner_kind;
  reason = codes "after a restore";
  object_id = absent;
  source_backend_id = absent;
  target_backend_id = absent;
  target_bytes = absent;
}

abbrev free : ℕ → Bool
free id = false

abbrev rows_of {ℓ} : {E : Type ℓ} → Result E (List CommandRow) → List CommandRow
rows_of (ok rows) = rows
rows_of (err e) = []

abbrev claimed_of {ℓ} :
    {E : Type ℓ}
    → Result E (Option ClaimedCommand × List CommandRow)
    → Option ClaimedCommand × List CommandRow
claimed_of (ok result) = result
claimed_of (err e) = (none, [])

abbrev entered : List CommandRow
entered = rows_of (enqueue 1 1000 input [])

abbrev leased : Option ClaimedCommand × List CommandRow
leased = claimed_of (claim free 2000 (codes "worker") 77 entered)

abbrev command : ClaimedCommand
command = record {
  id = 1;
  initiator_id = codes "owner";
  initiator_kind = koharu_suite.Media.Commands.owner_session;
  reason = codes "after a restore";
  token = 77;
  operation = reconcile;
  object_id = none;
  source_backend_id = none;
  target_backend_id = none;
  target_bytes = none;
}

abbrev finished : List CommandRow
finished = rows_of (succeed 3000 command [] leased.1)

entered_run : enqueue 1 1000 input [] ≡ ok entered
unfolding running
entered_run = refl

leased_run : claim free 2000 (codes "worker") 77 entered ≡ ok (some command, leased.1)
unfolding running
leased_run = refl

finished_run : succeed 3000 command [] leased.1 ≡ ok finished
unfolding running
finished_run = refl

entering : Steps AnyToken [] entered
entering = next here (enqueues 1 1000 input entered refl entered_run)

finishing : Steps AnyToken entered finished
finishing =
    next (next here (claims free 2000 (codes "worker") 77 (some command) leased.1 tt leased_run))
      (succeeds 3000 command [] finished finished_run)

reachable-IsSoundTable_example : IsSoundTable entered
reachable-IsSoundTable_example = reachable-IsSoundTable entered entering

named : ((length (trim (codes "worker")) == 0) || ltb 255 (length (trim (codes "worker")))) ≡ false
unfolding running
named = refl

claim-IsClaimed_example :
    IsClaimed free 2000 77 entered (claim free 2000 (codes "worker") 77 entered)
claim-IsClaimed_example = claim-IsClaimed free 2000 (codes "worker") 77 entered entering named

queue-Evolves_example : Evolves entered finished
queue-Evolves_example = queue-Evolves entered finished entering finishing

-- A second command is entered and claimed under another token.
abbrev reentered : List CommandRow
reentered = rows_of (enqueue 2 4000 input finished)

abbrev released : Option ClaimedCommand × List CommandRow
released = claimed_of (claim free 5000 (codes "worker") 78 reentered)

reentered_run : enqueue 2 4000 input finished ≡ ok reentered
unfolding running
reentered_run = refl

released_run : claim free 5000 (codes "worker") 78 reentered ≡ ok released
unfolding running
released_run = refl

fresh_run : any finished (koharu_suite.Media.Commands.Queue.has_id 2) ≡ false
unfolding running
fresh_run = refl

other_token : ◌≢◌ {A = ℕ} 78 77
other_token = omega arith

later : Steps (λ drawn. drawn ≢ 77) finished released.1
later =
    next (next here (enqueues 2 4000 input reentered fresh_run reentered_run))
      (claims free 5000 (codes "worker") 78 released.0 released.1 other_token released_run)

succeed-IsFenced_example : IsFenced command released.1
succeed-IsFenced_example =
    succeed-IsFenced 3000 command [] leased.1 finished released.1 finished_run later

abbrev migrated : Fields
migrated =
    (codes "migratedBytes", text (codes "1024"))
    ∷ (codes "path", text (codes "/var/cache"))
    ∷ (codes "hasMore", number (whole 1))
    ∷ []

field-sanitize_storage_operation_result_example :
    (field (codes "migratedBytes") (sanitize_storage_operation_result to_migrate migrated)
      ≡ some (text (codes "1024")))
    ↔ ((field (codes "migratedBytes") migrated ≡ some (text (codes "1024")))
        × IsListed (shapes to_migrate) (codes "migratedBytes") (text (codes "1024")))
field-sanitize_storage_operation_result_example =
    field-sanitize_storage_operation_result to_migrate migrated (codes "migratedBytes")
      (text (codes "1024")) (refl, (refl, (refl, tt)))

sanitized_run :
    sanitize_storage_operation_result to_migrate migrated
    ≡ (codes "migratedBytes", text (codes "1024")) ∷ []
unfolding running
sanitized_run = refl

-- A maintenance service that answers with two pages, beside a clock that stands still.
abbrev page_after : Option Text → ReconcilePage
page_after none = record {
  counts = record no_counts { checked = 3 };
  next_cursor = some (codes "c1");
}
page_after (some cursor) = record { counts = record no_counts { checked = 2 }; next_cursor = none }

abbrev World : Type 0
World = List CommandRow × ℕ

abbrev services : Services World
services = record {
  claim_command = done none;
  renew_command = λ c. done tt;
  succeed_command = λ c result. done tt;
  fail_command = λ c code. done tt;
  find_object = λ id. done none;
  clock = done (some 2000);
  evict_blob = λ request. done none;
  reconcile_page = λ cursor id kind reason. done (page_after cursor);
  storage = none;
  lease_owner = codes "worker";
  is_aborted = λ w. false;
  abort_error = error_of (codes "AbortError");
}

abbrev processor : Services World
processor = over_queue (λ w. w) (λ w. free) (λ w. 77) services

reconciled_run :
    (reconcile_command processor 10_001 command (leased.1, 2000)).0
    ≡ ok (
        some (
          koharu_suite.Media.Commands.Processor.totals_fields (record no_counts { checked = 5 }) 2))
unfolding running
reconciled_run = refl

processed_run : (run_once processor 10_001 1 (entered, 2000)).0 ≡ ok (some true)
unfolding running
processed_run = refl

reconcile_pages-ends_example :
    IsEnd (reconcile_pages processor 10_001 command first_state (leased.1, 2000)).0
reconcile_pages-ends_example =
    reconcile_pages-ends processor command 10_001 (leased.1, 2000) (omega arith)

run_once-settles_example :
    (c : ClaimedCommand) × ((processor.claim_command (entered, 2000)).0 ≡ ok (some c))
    × (holds_lease
          (λ w. w)
          (λ w. free)
          (λ w. 77)
          services
          c
          (run_once processor 10_001 1 (entered, 2000)).1
        ≡ false)
run_once-settles_example =
    run_once-settles (λ w. w) (λ w. free) (λ w. 77) services 10_001 1 (entered, 2000) processed_run
