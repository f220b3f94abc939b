-- ===== src/Media/Commands/Settling.antt =====
-- A run of the processor of apps/server/src/media-cache/command-queue.ts over any queue with the
-- laws of `IsControl`, and over the queue of that file.
use koharu_suite.Prelude.{
  ℕ, ◌≡◌, refl, sym, ap, ◌∙◌, subst, Bool, true, false, Option, none, some, List, inl, inr, Result,
  ok, err, any, Bool-cases, Result-cases,
}
use koharu_suite.Prelude.Texts.{Text, codes}
use koharu_suite.Media.Commands.{
  CommandRow, ClaimedCommand, CommandError, Fields, invalid_initiator_or_reason,
  invalid_initiator_kind, invalid_target, invalid_lease_owner, invalid_claimed_payload,
  lease_is_stale,
}
use koharu_suite.Media.Commands.Queue.{is_held, claim, renew, succeed, fail, completed, given_up}
use koharu_suite.Media.Commands.Runs.{Thrown, Run, attempt, ◌>>=◌, ◌>>◌}
use koharu_suite.Media.Commands.Processor.{Services, error_of, throw_if_aborted}
use koharu_suite.Media.Commands.Dispatch.{
  classify_command_error, dispatch, renewals, conclude, recover, caught, settle, process, run_once,
}
use koharu_suite.Media.Commands.Pages.{unrun}
use koharu_suite.Media.Commands.Fencing.{
  update_held-IsEnded, none_held, completed-ended, given_up-ended,
}

-- What the processor relies on: a command that was completed or failed is no longer held.
pub record IsControl {S : Type 0} (v : Services S) (holds : ClaimedCommand → S → Bool)
    : Type 0 where
  pub succeed_ends :
      (c : ClaimedCommand) (result : Fields) (s : S)
      → (v.succeed_command c result s).0 ≡ ok tt
      → holds c (v.succeed_command c result s).1 ≡ false
  pub fail_ends :
      (c : ClaimedCommand) (code : Text) (s : S)
      → (v.fail_command c code s).0 ≡ ok tt
      → holds c (v.fail_command c code s).1 ≡ false

-- Inversion of a run, with a property of the state it reaches.
follow :
    {S A B : Type 0} (P : S → Type 0) (m : Run S A) (f : A → Run S B) (s : S) {b : B}
    → ((m >>= f) s).0 ≡ ok b
    → ((a : A) → (m s).0 ≡ ok a → (f a (m s).1).0 ≡ ok b → P (f a (m s).1).1)
    → P ((m >>= f) s).1
unfolding ◌>>=◌
follow P m f s h k = elim (Result-cases (m s).0) [
  | inl (a, e) ↦ rw e (k a e (rw e at h))
  | inr (x, e) ↦ absurd (cc (rw e at h))
]

ran :
    {S A B : Type 0} (m : Run S A) (f : A → Run S B) (s : S) {a : A}
    → (m s).0 ≡ ok a
    → (m >>= f) s ≡ f a (m s).1
unfolding ◌>>=◌
ran m f s e = rw e refl

unaborted :
    {S B : Type 0} (v : Services S) (k : Run S B) (s : S) {b : B}
    → ((throw_if_aborted v >> k) s).0 ≡ ok b
    → ((throw_if_aborted v >> k) s ≡ k s) × ((k s).0 ≡ ok b)
unfolding ◌>>=◌
unaborted v k s h = elim (Bool-cases (v.is_aborted s)) [
  | inl stopped ↦ absurd (cc (rw stopped at h))
  | inr going ↦ (rw going refl, rw going at h)
]

module _ {S : Type 0} (v : Services S) (holds : ClaimedCommand → S → Bool)
    (control : IsControl v holds) where
  abbrev IsFree : ClaimedCommand → S → Type 0
  IsFree c s = holds c s ≡ false

  recovered :
      (c : ClaimedCommand) (e : Thrown) (s : S)
      → (recover v c e s).0 ≡ ok tt
      → IsFree c (recover v c e s).1
  recovered c e s h = elim (Bool-cases (v.is_aborted s)) [
    | inl stopped ↦ absurd (cc (rw stopped at h))
    | inr going ↦ rw going (control.fail_ends c (classify_command_error e) s (rw going at h))
  ]

  concluded :
      (c : ClaimedCommand) (late : Option Thrown) (result : Fields) (s : S)
      → (conclude v c late result s).0 ≡ ok tt
      → IsFree c (conclude v c late result s).1
  concluded c (some e) result s h = absurd (cc)
  concluded c none result s h = control.succeed_ends c result s h

  caught-free :
      (c : ClaimedCommand) (late : Option Thrown) (result : Fields) (s : S)
      (r : Result Thrown (Unit {0}))
      → (conclude v c late result s).0 ≡ r
      → (caught v c r (conclude v c late result s).1).0 ≡ ok tt
      → IsFree c (caught v c r (conclude v c late result s).1).1
  caught-free c late result s (ok unit) e h = concluded c late result s e
  caught-free c late result s (err x) e h = recovered c x _ h

  settled :
      (c : ClaimedCommand) (late : Option Thrown) (r : Result Thrown (Option Fields)) (s : S)
      → (settle v c late r s).0 ≡ ok (some true)
      → IsFree c (settle v c late r s).1
  settled c late (err e) s h = follow (IsFree c) _ _ s h λ unit gone h1. recovered c e s gone
  settled c late (ok none) s h = absurd (cc)
  settled c late (ok (some result)) s h =
      follow (IsFree c) (attempt (conclude v c late result)) _ s h λ a tried h1.
        follow (IsFree c) (caught v c a) _ _ h1
          λ unit gone h2. caught-free c late result s a (value tried) gone
    where
      value :
          {a b : Result Thrown (Unit {0})}
          → ◌≡◌ {A = Result Thrown (Result Thrown (Unit {0}))} (ok a) (ok b)
          → a ≡ b
      value h = cc

  processed :
      (fuel ticks : ℕ) (o : Option ClaimedCommand) (s : S)
      → (process v fuel ticks o s).0 ≡ ok (some true)
      → (c : ClaimedCommand) × (o ≡ some c) × IsFree c (process v fuel ticks o s).1
  processed fuel ticks none s h = absurd (cc)
  processed fuel ticks (some c) s h = (
    c,
    refl,
    follow (IsFree c) (attempt (dispatch v fuel c.operation c)) _ s h λ r tried h1.
        follow (IsFree c) (renewals v ticks c) _ _ h1 λ late renewed h2. settled c late r _ h2,
  )

  claimed-settled :
      (fuel ticks : ℕ) (s : S)
      → (run_once v fuel ticks s).0 ≡ ok (some true)
      → (c : ClaimedCommand) × ((v.claim_command s).0 ≡ ok (some c))
        × (holds c (run_once v fuel ticks s).1 ≡ false)
  unfolding run_once
  claimed-settled fuel ticks s h =
      let (start, h1) = unaborted v (v.claim_command >>= process v fuel ticks) s h in
      unrun v.claim_command (process v fuel ticks) s h1 λ o claimed h2.
        let (c, e, free) = processed fuel ticks o _ h2 in
        (
          c,
          claimed ∙ ap ok e,
          subst (λ x. holds c x.1 ≡ false)
              (sym (start ∙ ran v.claim_command (process v fuel ticks) s claimed)) free,
        )

abbrev type_error_of : Text → Thrown
type_error_of message = record (error_of message) { name = codes "TypeError" }

-- The processor over the queue of a table, beside whatever else the services keep. What the database
-- chooses, its clock, the rows that others have locked and a new token, are read off that rest.
abbrev pub thrown_of : CommandError → Thrown
thrown_of invalid_initiator_or_reason =
    type_error_of (codes "Invalid media cache command initiator or reason")
thrown_of invalid_initiator_kind =
    type_error_of (codes "Invalid media cache command initiator kind")
thrown_of invalid_target = type_error_of (codes "Invalid media cache command target")
thrown_of invalid_lease_owner = type_error_of (codes "Invalid media cache command lease owner")
thrown_of invalid_claimed_payload =
    error_of (codes "PostgreSQL returned an invalid media cache command payload")
thrown_of lease_is_stale = error_of (codes "Media cache command lease is stale")

abbrev updated :
    {W : Type 0}
    → List CommandRow × W
    → Result CommandError (List CommandRow)
    → Result Thrown (Unit {0}) × (List CommandRow × W)
updated (rows, w) (ok after) = (ok tt, (after, w))
updated (rows, w) (err e) = (err (thrown_of e), (rows, w))

abbrev claimed_of :
    {W : Type 0}
    → List CommandRow × W
    → Result CommandError (Option ClaimedCommand × List CommandRow)
    → Result Thrown (Option ClaimedCommand) × (List CommandRow × W)
claimed_of (rows, w) (ok (command, after)) = (ok command, (after, w))
claimed_of (rows, w) (err e) = (err (thrown_of e), (rows, w))

module _ {W : Type 0} (now : W → ℕ) (locked : W → ℕ → Bool) (token : W → ℕ)
    (v : Services (List CommandRow × W)) where
  abbrev pub over_queue : Services (List CommandRow × W)
  over_queue = record v {
    claim_command =
        λ (rows, w). claimed_of (rows, w) (claim (locked w) (now w) v.lease_owner (token w) rows);
    renew_command = λ c (rows, w). updated (rows, w) (renew (now w) c rows);
    succeed_command = λ c result (rows, w). updated (rows, w) (succeed (now w) c result rows);
    fail_command = λ c code (rows, w). updated (rows, w) (fail (now w) c code rows);
  }

  abbrev pub holds_lease : ClaimedCommand → List CommandRow × W → Bool
  holds_lease c (rows, w) = any rows (is_held c.id c.token)

  freed :
      (c : ClaimedCommand) (rows : List CommandRow) (w : W)
      (r : Result CommandError (List CommandRow))
      → ((after : List CommandRow) → r ≡ ok after → any after (is_held c.id c.token) ≡ false)
      → (updated (rows, w) r).0 ≡ ok tt
      → holds_lease c (updated (rows, w) r).1 ≡ false
  freed c rows w (ok after) f h = f after refl
  freed c rows w (err e) f h = absurd (cc)

  queue-IsControl : IsControl over_queue holds_lease
  unfolding succeed fail
  queue-IsControl = record {
    succeed_ends = λ c result (rows, w) h.
        freed c rows w (succeed (now w) c result rows)
          (λ after e. none_held c.id c.token after (
            update_held-IsEnded c (completed (now w) result) rows after
              (completed-ended c.id c.token (now w) result) e))
          h;
    fail_ends = λ c code (rows, w) h.
        freed c rows w (fail (now w) c code rows)
          (λ after e. none_held c.id c.token after (
            update_held-IsEnded c (given_up (now w) code) rows after
              (given_up-ended c.id c.token (now w) code) e))
          h;
  }

  -- A run of the processor over the queue that reports that it did something claimed a command, and
  -- whatever the services did, no row of the table it leaves is held under that command.
  pub run_once-settles :
      (fuel ticks : ℕ) (s : List CommandRow × W)
      → (run_once over_queue fuel ticks s).0 ≡ ok (some true)
      → (c : ClaimedCommand) × ((over_queue.claim_command s).0 ≡ ok (some c))
        × (holds_lease c (run_once over_queue fuel ticks s).1 ≡ false)
  run_once-settles fuel ticks s h =
      claimed-settled over_queue holds_lease queue-IsControl fuel ticks s h
