-- ===== src/Media/Commands/Refinement.antt =====
-- The operations of apps/server/src/media-cache/command-queue.ts against the life of a command.
use koharu_suite.Prelude.{
  All-both, ltb→lt, ℕ, ◌+◌, ◌≡◌, refl, sym, subst, Bool, true, ◌&&◌, ◌||◌, Option, List, [], ◌∷◌,
  arith, ltb, ok, All, All-map, All-both, &&-true, unthrow, ok-injective, inl, inr,
}
use koharu_suite.Prelude.Texts.{Text, trim}
use koharu_suite.Media.Commands.{
  CommandState, failed, pending, running, succeeded, Fields, CommandRow, ClaimedCommand, is_running,
  is_pending,
}
use koharu_suite.Media.Commands.Queue.{
  CommandInput, max_attempts, lapsed, new_row, enqueue, enqueue_recache_on_access, recache_row,
  is_exhausted, exhaust, is_claimable, lease, has_id, claim, is_held, update_held, renewed, renew,
  completed, succeed, given_up, fail,
}
use koharu_suite.Media.Commands.Sound.{IsSoundRow, AreSound}
use koharu_suite.Media.Commands.Inversion.{
  enqueue-cases, recache-cases, expired, claim-cases, IsOnly,
}
use koharu_suite.Media.Commands.History.{
  Step, enqueues, recaches, claims, renews, succeeds, fails, Steps, here, next,
}
use koharu_suite.Media.Commands.Kept.{
  IsSoundTable, Steps-IsSoundTable, exhausted-AreSound, expired-AreUnique, chosen-claimable,
}
use koharu_suite.Media.Commands.Claiming.{reachable-IsSoundTable}
use koharu_suite.Media.Commands.History.{AnyToken}
use koharu_suite.Media.Commands.Phases.{
  waiting, leased, Reaches, still, starts, restarts, completes, drops, phase_of, Follows, Evolves,
  Evolves-refl, Evolves-trans, append_row-Evolves, update_where-Evolves, is_running-state,
  held-running, exhausted-running, running-Follows,
}

exhaust-Follows : (now : ℕ) (r : CommandRow) → is_exhausted now r ≡ true → Follows r (exhaust now r)
exhaust-Follows now r h =
    running-Follows r (exhaust now r) refl (exhausted-running now r h) (drops r.attempt_count still)

renewed-Follows :
    (id token now : ℕ) (r : CommandRow) → is_held id token r ≡ true → Follows r (renewed now r)
renewed-Follows id token now r h =
    let live = held-running id token r h in
    running-Follows r (renewed now r) refl live (
      subst (λ x. Reaches (leased r.attempt_count) (phase_of x r.attempt_count))
        (sym (is_running-state r.state live)) still)

completed-Follows :
    (id token now : ℕ) (result : Fields) (r : CommandRow)
    → is_held id token r ≡ true
    → Follows r (completed now result r)
completed-Follows id token now result r h =
    running-Follows r (completed now result r) refl (held-running id token r h)
      (completes r.attempt_count still)

given_up-Follows :
    (id token now : ℕ) (code : Text) (r : CommandRow)
    → is_held id token r ≡ true
    → Follows r (given_up now code r)
given_up-Follows id token now code r h =
    running-Follows r (given_up now code r) refl (held-running id token r h)
      (drops r.attempt_count still)

lease-Reaches :
    (now : ℕ) (r : CommandRow) (s : CommandState)
    → (is_pending s ≡ true → r.attempt_count ≡ 0)
    → (is_pending s
        || (is_running s && lapsed now r.lease_expires_at && ltb r.attempt_count max_attempts))
      ≡ true
    → Reaches (phase_of s r.attempt_count) (leased (r.attempt_count + 1))
lease-Reaches now r pending new h =
    subst (λ n. Reaches waiting (leased (n + 1))) (sym (new refl)) (starts still)
lease-Reaches now r running new h =
    restarts r.attempt_count (ltb→lt _ _ (&&-true (lapsed now r.lease_expires_at) _ h).1) still
lease-Reaches now r failed new h = absurd (cc)
lease-Reaches now r succeeded new h = absurd (cc)

lease-Follows :
    (now : ℕ) (owner : Text) (token : ℕ) (r : CommandRow)
    → IsSoundRow r
    → is_claimable now r ≡ true
    → Follows r (lease now owner token r)
lease-Follows now owner token r s h = record {
  reached = lease-Reaches now r r.state s.unattempted h;
  same_row = refl;
  unchanged = λ over. absurd (ground arith);
}

everywhere :
    (P : CommandRow → Type 0) → ((r : CommandRow) → P r) → (rows : List CommandRow) → All P rows
everywhere P h [] = tt
everywhere P h (r ∷ rows) = (h r, everywhere P h rows)

leasing :
    (now : ℕ) (owner : Text) (token : ℕ) (current : List CommandRow) (row : CommandRow)
    → is_claimable now row ≡ true
    → AreSound current
    → IsOnly current row
    → All (λ r. has_id row.id r ≡ true → Follows r (lease now owner token r)) current
leasing now owner token current row claimable sound only =
    All-map (λ r. IsSoundRow r × (has_id row.id r ≡ true → r ≡ row))
      (λ r. has_id row.id r ≡ true → Follows r (lease now owner token r))
      (λ r (s, one) e.
        lease-Follows now owner token r s
          (subst (λ x. is_claimable now x ≡ true) (sym (one e)) claimable))
      current (All-both IsSoundRow _ current sound only)

claimed-Evolves :
    (locked : ℕ → Bool) (now : ℕ) (owner : Text) (token : ℕ) (rows : List CommandRow)
    (command : Option ClaimedCommand) (after : List CommandRow)
    → IsSoundTable rows
    → claim locked now owner token rows ≡ ok (command, after)
    → Evolves rows after
claimed-Evolves locked now owner token rows command after t h =
    let expires =
      update_where-Evolves (is_exhausted now) (exhaust now) rows
        (everywhere _ (exhaust-Follows now) rows) in
    elim (claim-cases locked now owner token rows command after h) [
      | inl (idle, same) ↦ subst (Evolves rows) (sym same) expires
      | inr l ↦ subst (Evolves rows) (sym l.leased) (
          Evolves-trans rows (expired now rows) _ expires (
            let (only, claimable) =
              chosen-claimable locked now (expired now rows) l.row
                (expired-AreUnique now rows t.unique) l.chosen in
            update_where-Evolves (has_id l.row.id) (lease now (trim owner) token) (expired now rows)
              (leasing now (trim owner) token (expired now rows) l.row claimable
                (exhausted-AreSound now rows t.sound) only)))
    ]

held-Evolves :
    (c : ClaimedCommand) (f : CommandRow → CommandRow) (rows after : List CommandRow)
    → ((r : CommandRow) → is_held c.id c.token r ≡ true → Follows r (f r))
    → update_held c f rows ≡ ok after
    → Evolves rows after
held-Evolves c f rows after step h = unthrow _ _ _ h λ held h1.
    subst (Evolves rows) (ok-injective h1)
      (update_where-Evolves (is_held c.id c.token) f rows (everywhere _ step rows))

entered-Evolves :
    (id now : ℕ) (input : CommandInput) (rows after : List CommandRow)
    → enqueue id now input rows ≡ ok after
    → Evolves rows after
entered-Evolves id now input rows after h =
    let (kind, p, added) = enqueue-cases id now input rows after h in
    subst (Evolves rows) (sym added) (
      append_row-Evolves rows
        (new_row id now input.operation kind (trim input.initiator_id) (trim input.reason) p) refl)

recached-Evolves :
    (eligible : Text → Text → Bool) (id now : ℕ) (object backend : Text) (rows : List CommandRow)
    → Evolves rows (enqueue_recache_on_access eligible id now object backend rows).1
recached-Evolves eligible id now object backend rows =
    elim (recache-cases eligible id now object backend rows) [
      | inl unchanged ↦ subst (Evolves rows) (sym unchanged) (Evolves-refl rows)
      | inr (named, added) ↦
          subst (Evolves rows) (sym added)
            (append_row-Evolves rows (recache_row id now (trim object)) refl)
    ]

module _ (Drawn : ℕ → Type 0) where
  Step-Evolves :
      (rows after : List CommandRow)
      → Step Drawn rows after
      → IsSoundTable rows
      → Evolves rows after
  unfolding renew succeed fail
  Step-Evolves rows last (enqueues id now input after fresh h) t =
      entered-Evolves id now input rows after h
  Step-Evolves rows last (recaches eligible id now object backend fresh) t =
      recached-Evolves eligible id now object backend rows
  Step-Evolves rows last (claims locked now owner token command after drawn h) t =
      claimed-Evolves locked now owner token rows command after t h
  Step-Evolves rows last (renews now c after h) t =
      held-Evolves c (renewed now) rows after (renewed-Follows c.id c.token now) h
  Step-Evolves rows last (succeeds now c result after h) t =
      held-Evolves c (completed now result) rows after (completed-Follows c.id c.token now result) h
  Step-Evolves rows last (fails now c code after h) t =
      held-Evolves c (given_up now code) rows after (given_up-Follows c.id c.token now code) h

  Steps-Evolves :
      (rows after : List CommandRow)
      → Steps Drawn rows after
      → IsSoundTable rows
      → Evolves rows after
  Steps-Evolves rows last here t = Evolves-refl rows
  Steps-Evolves rows last (next {between} steps step) t =
      Evolves-trans rows between last (Steps-Evolves rows between steps t)
        (Step-Evolves between last step (Steps-IsSoundTable Drawn rows between steps t))

-- From any table that operations of the queue can make of the empty one, whatever they do next:
-- each row keeps its place and its id and moves along the life of a command, which waits, is tried
-- at most a hundred times and is then done or dropped; a row that was done or dropped stays the same
-- in every column; and each new row began as waiting.
pub queue-Evolves :
    (rows after : List CommandRow)
    → Steps AnyToken [] rows
    → Steps AnyToken rows after
    → Evolves rows after
queue-Evolves rows after before steps =
    Steps-Evolves AnyToken rows after steps (reachable-IsSoundTable rows before)
