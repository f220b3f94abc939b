-- ===== src/Telegram/Worker/Backoff.antt =====
-- How long a failed task of the worker waits, and when it is given up.
use native.Mathlib.Numerals.{unary_clauses}
use koharu_suite.Prelude.{
  ℕ, zero, suc, ◌+◌, ◌-◌, ◌*◌, ◌^◌, ◌≤◌, ◌<◌, ◌≡◌, refl, Bool, true, none, some, List, arith, leb,
  leb→le, if◌then◌else◌, &&-true, Bool-cases, inl, inr, min,
}
use koharu_suite.Telegram.Tables.{Task, is_null}
use koharu_suite.Telegram.Worker.{
  max_attempts, retry_delay_milliseconds, Reason, mark_failed, is_runnable,
}

power_positive : (n : ℕ) → 1 ≤ 2 ^ n
power_positive zero = omega arith
power_positive (suc n) = simp unary_clauses (omega (arith, power_positive n))

power_suc : (n : ℕ) → 2 ^ suc n ≡ 2 * 2 ^ n
power_suc n = simp unary_clauses (omega arith)

doubled :
    (n : ℕ)
    → min 300000 (1000 * 2 ^ (suc (suc n) - 1))
      ≡ min 300000 (2 * min 300000 (1000 * 2 ^ (suc n - 1)))
doubled n =
    let two_less : suc (suc n) - 1 ≡ suc n = omega arith in
    let one_less : suc n - 1 ≡ n = omega arith in
    rw (two_less, one_less) (omega (arith, power_suc n))

blocked_at_maximum :
    (now attempts : ℕ)
    → is_null (if leb max_attempts attempts then some now else none) ≡ true
    → attempts < max_attempts
blocked_at_maximum now attempts h = elim (Bool-cases (leb max_attempts attempts)) [
  | inl reached ↦ absurd (ground (arith, h, reached))
  | inr below ↦ ground arith
]

-- A retry waits between one second and five minutes; after the first failure it waits one second,
-- and each failure after the first doubles the wait until it reaches five minutes.
pub retry_delay_milliseconds_lem :
    (n : ℕ)
    → (1000 ≤ retry_delay_milliseconds n)
      × (retry_delay_milliseconds n ≤ 300000)
      × (retry_delay_milliseconds 1 ≡ 1000)
      × (retry_delay_milliseconds (suc (suc n)) ≡ min 300000 (2 * retry_delay_milliseconds (suc n)))
unfolding retry_delay_milliseconds
retry_delay_milliseconds_lem n =
    (omega (arith, power_positive (n - 1)), omega arith, refl, doubled n)

-- A task that failed for the given number of attempts is not runnable within one second of the
-- failure, nor at any time once the attempts have reached the maximum.
pub mark_failed-runnable :
    (locked : ℕ → Bool) (now later attempts : ℕ) (reason : Reason) (t : Task) (tasks : List Task)
    → is_runnable locked later tasks (mark_failed now attempts reason t) ≡ true
    → (now + 1000 ≤ later) × (attempts < max_attempts)
unfolding mark_failed
mark_failed-runnable locked now later attempts reason t tasks h =
    let (h1, _) = &&-true _ _ h in
    let (h2, _) = &&-true _ _ h1 in
    let (h3, due) = &&-true _ _ h2 in
    let (_, unblocked) = &&-true _ _ h3 in
    (
      omega (
        arith,
        leb→le (now + retry_delay_milliseconds attempts) later due,
        (retry_delay_milliseconds_lem attempts).0,
      ),
      blocked_at_maximum now attempts unblocked,
    )
