-- ===== src/Media/Commands/Fencing.antt =====
-- Leases of apps/server/src/media-cache/command-queue.ts after their end.
use koharu_suite.Prelude.{
  ◌≢◌, ℕ, ◌≡◌, refl, sym, subst, Bool, true, false, Option, List, [], ◌∷◌, ◌++◌, arith, ok, err,
  ◌>>=◌, any, All, All-append, Bool-cases, unthrow, ok-injective, inl, inr,
}
use koharu_suite.Prelude.Texts.{Text, trim}
use koharu_suite.Media.Commands.{Fields, CommandRow, ClaimedCommand, lease_is_stale, is_pending}
use koharu_suite.Media.Commands.Queue.{
  new_row, recache_row, update_where, is_exhausted, exhaust, lease, claim, is_held, update_held,
  renewed, renew, completed, succeed, given_up, fail,
}
use koharu_suite.Media.Commands.Sound.{update_where-All}
use koharu_suite.Media.Commands.Inversion.{enqueue-cases, recache-cases, expired, claim-cases}
use koharu_suite.Media.Commands.History.{
  Step, enqueues, recaches, claims, renews, succeeds, fails, Steps, here, next,
}

-- No row is held under the id and the token.
abbrev pub IsEnded : ℕ → ℕ → List CommandRow → Type 0
IsEnded id token rows = All (λ r. is_held id token r ≡ false) rows

module _ (id token : ℕ) where
  update_where-IsEnded :
      (p : CommandRow → Bool) (f : CommandRow → CommandRow) (rows : List CommandRow)
      → ((r : CommandRow) → is_held id token r ≡ false → is_held id token (f r) ≡ false)
      → IsEnded id token rows
      → IsEnded id token (update_where p f rows)
  update_where-IsEnded p f rows step h =
      update_where-All (λ r. is_held id token r ≡ false) p f rows (λ r k e. step r k) h

  exhaust-ended :
      (now : ℕ) (r : CommandRow)
      → is_held id token r ≡ false
      → is_held id token (exhaust now r) ≡ false
  exhaust-ended now r h = ground arith

  lease-ended :
      (now other : ℕ) (owner : Text) (r : CommandRow)
      → other ≢ token
      → is_held id token (lease now owner other r) ≡ false
  lease-ended now other owner r h = ground arith

  pub completed-ended :
      (now : ℕ) (result : Fields) (r : CommandRow)
      → is_held id token (completed now result r) ≡ false
  completed-ended now result r = ground arith

  pub given_up-ended :
      (now : ℕ) (code : Text) (r : CommandRow) → is_held id token (given_up now code r) ≡ false
  given_up-ended now code r = ground arith

  held-IsEnded :
      (c : ClaimedCommand) (f : CommandRow → CommandRow) (rows after : List CommandRow)
      → ((r : CommandRow) → is_held id token r ≡ false → is_held id token (f r) ≡ false)
      → IsEnded id token rows
      → update_held c f rows ≡ ok after
      → IsEnded id token after
  held-IsEnded c f rows after step h e =
      unthrow _ _ _ e
        λ held e1. subst (IsEnded id token) (ok-injective e1) (update_where-IsEnded _ f rows step h)

  pending-ended : (r : CommandRow) → is_pending r.state ≡ true → is_held id token r ≡ false
  pending-ended r h = ground arith

  appended-IsEnded :
      (rows : List CommandRow) (r : CommandRow)
      → IsEnded id token rows
      → is_pending r.state ≡ true
      → IsEnded id token (rows ++ r ∷ [])
  appended-IsEnded rows r h e =
      All-append (λ r. is_held id token r ≡ false) rows _ h (pending-ended r e, tt)

  claimed-IsEnded :
      (locked : ℕ → Bool) (now : ℕ) (owner : Text) (drawn : ℕ) (rows : List CommandRow)
      (command : Option ClaimedCommand) (after : List CommandRow)
      → drawn ≢ token
      → IsEnded id token rows
      → claim locked now owner drawn rows ≡ ok (command, after)
      → IsEnded id token after
  claimed-IsEnded locked now owner drawn rows command after other h e =
      let current = update_where-IsEnded (is_exhausted now) _ rows (exhaust-ended now) h in
      elim (claim-cases locked now owner drawn rows command after e) [
        | inl (idle, same) ↦ subst (IsEnded id token) (sym same) current
        | inr l ↦ subst (IsEnded id token) (sym l.leased) (
            update_where-IsEnded _ _ (expired now rows)
              (λ r k. lease-ended now drawn (trim owner) r other) current)
      ]

  Step-IsEnded :
      (rows after : List CommandRow)
      → Step (λ drawn. drawn ≢ token) rows after
      → IsEnded id token rows
      → IsEnded id token after
  unfolding renew succeed fail
  Step-IsEnded rows last (enqueues new now input after fresh h) e =
      let (kind, p, added) = enqueue-cases new now input rows after h in
      subst (IsEnded id token) (sym added) (
        appended-IsEnded rows
          (new_row new now input.operation kind (trim input.initiator_id) (trim input.reason) p) e
          refl)
  Step-IsEnded rows last (recaches eligible new now object backend fresh) e =
      elim (recache-cases eligible new now object backend rows) [
        | inl unchanged ↦ subst (IsEnded id token) (sym unchanged) e
        | inr (named, added) ↦
            subst (IsEnded id token) (sym added)
              (appended-IsEnded rows (recache_row new now (trim object)) e refl)
      ]
  Step-IsEnded rows last (claims locked now owner drawn command after other h) e =
      claimed-IsEnded locked now owner drawn rows command after other e h
  Step-IsEnded rows last (renews now c after h) e =
      held-IsEnded c (renewed now) rows after (λ r k. k) e h
  Step-IsEnded rows last (succeeds now c result after h) e =
      held-IsEnded c (completed now result) rows after (λ r k. completed-ended now result r) e h
  Step-IsEnded rows last (fails now c code after h) e =
      held-IsEnded c (given_up now code) rows after (λ r k. given_up-ended now code r) e h

  Steps-IsEnded :
      (rows after : List CommandRow)
      → Steps (λ drawn. drawn ≢ token) rows after
      → IsEnded id token rows
      → IsEnded id token after
  Steps-IsEnded rows last here e = e
  Steps-IsEnded rows last (next steps step) e =
      Step-IsEnded _ last step (Steps-IsEnded rows _ steps e)

  pub none_held :
      (rows : List CommandRow) → IsEnded id token rows → any rows (is_held id token) ≡ false
  none_held [] e = refl
  none_held (r ∷ rows) (e, es) = rw e (none_held rows es)

-- Every later call with the command is refused.
pub record IsFenced (c : ClaimedCommand) (rows : List CommandRow) : Type 0 where
  pub renew_refused : (now : ℕ) → renew now c rows ≡ err lease_is_stale
  pub succeed_refused : (now : ℕ) (result : Fields) → succeed now c result rows ≡ err lease_is_stale
  pub fail_refused : (now : ℕ) (code : Text) → fail now c code rows ≡ err lease_is_stale

ended-IsFenced :
    (c : ClaimedCommand) (rows : List CommandRow) → IsEnded c.id c.token rows → IsFenced c rows
unfolding renew succeed fail ◌>>=◌
ended-IsFenced c rows e =
    let held = none_held c.id c.token rows e in
    record {
      renew_refused = λ now. rw held refl;
      succeed_refused = λ now result. rw held refl;
      fail_refused = λ now code. rw held refl;
    }

pub update_held-IsEnded :
    (c : ClaimedCommand) (f : CommandRow → CommandRow) (rows after : List CommandRow)
    → ((r : CommandRow) → is_held c.id c.token (f r) ≡ false)
    → update_held c f rows ≡ ok after
    → IsEnded c.id c.token after
update_held-IsEnded c f rows after step h =
    unthrow _ _ _ h λ held h1. subst (IsEnded c.id c.token) (ok-injective h1) (go rows)
  where
    go :
        (rows : List CommandRow) → IsEnded c.id c.token (update_where (is_held c.id c.token) f rows)
    go [] = tt
    go (r ∷ rows) = elim (Bool-cases (is_held c.id c.token r)) [
      | inl yes' ↦ rw yes' (step r, go rows)
      | inr no' ↦ rw no' (no', go rows)
    ]

-- Once a command is completed, whatever the queue does then, if later claims draw other tokens, it
-- can never be renewed, completed or failed again.
pub succeed-IsFenced :
    (now : ℕ) (c : ClaimedCommand) (result : Fields) (rows between after : List CommandRow)
    → succeed now c result rows ≡ ok between
    → Steps (λ drawn. drawn ≢ c.token) between after
    → IsFenced c after
unfolding succeed
succeed-IsFenced now c result rows between after h steps = ended-IsFenced c after (
    Steps-IsEnded c.id c.token between after steps (
      update_held-IsEnded c (completed now result) rows between
        (completed-ended c.id c.token now result) h))

pub fail-IsFenced :
    (now : ℕ) (c : ClaimedCommand) (code : Text) (rows between after : List CommandRow)
    → fail now c code rows ≡ ok between
    → Steps (λ drawn. drawn ≢ c.token) between after
    → IsFenced c after
unfolding fail
fail-IsFenced now c code rows between after h steps = ended-IsFenced c after (
    Steps-IsEnded c.id c.token between after steps (
      update_held-IsEnded c (given_up now code) rows between (given_up-ended c.id c.token now code)
        h))
