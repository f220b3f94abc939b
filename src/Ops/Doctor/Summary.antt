-- ===== src/Ops/Doctor/Summary.antt =====
-- The summary line of the report in apps/server/src/ops/doctor.ts.
use koharu_suite.Prelude.{
  or_assoc, or_false, ℕ, suc, ◌+◌, ◌≡◌, sym, ap, ◌∙◌, ◌||◌, List, [], ◌∷◌, arith, ltb, length,
}
use koharu_suite.Ops.Doctor.{DoctorCheckStatus, fail, good, warn, DoctorCheckResult}
use koharu_suite.Ops.Doctor.Report.{
  doctor_has_failures, Counts, counts_from, counts, count_one, is_status,
}

abbrev total : Counts → ℕ
total s = s.fail_count + s.good_count + s.warn_count

count_one-total : (s : Counts) (x : DoctorCheckStatus) → total (count_one s x) ≡ suc (total s)
count_one-total s fail = omega arith
count_one-total s good = omega arith
count_one-total s warn = omega arith

count_one-failures :
    (s : Counts) (x : DoctorCheckStatus)
    → ltb 0 (count_one s x).fail_count ≡ (ltb 0 s.fail_count || is_status x fail)
count_one-failures s fail = ground arith
count_one-failures s good = ground arith
count_one-failures s warn = ground arith

counts_from-total :
    (s : Counts) (checks : List DoctorCheckResult)
    → total (counts_from s checks) ≡ total s + length checks
unfolding counts_from
counts_from-total s [] = omega arith
counts_from-total s (c ∷ cs) =
    omega (arith, counts_from-total (count_one s c.status) cs, count_one-total s c.status)

counts_from-failures :
    (s : Counts) (checks : List DoctorCheckResult)
    → ltb 0 (counts_from s checks).fail_count ≡ (ltb 0 s.fail_count || doctor_has_failures checks)
unfolding counts_from doctor_has_failures
counts_from-failures s [] = sym (or_false (ltb 0 s.fail_count))
counts_from-failures s (c ∷ cs) =
    counts_from-failures (count_one s c.status) cs
    ∙ ap (λ b. b || doctor_has_failures cs) (count_one-failures s c.status)
    ∙ or_assoc (ltb 0 s.fail_count) (is_status c.status fail) (doctor_has_failures cs)

-- The summary's three numbers add up to the number of checks, and the number of failures is
-- positive exactly when the report has failures.
pub counts_lem :
    (checks : List DoctorCheckResult)
    → ((counts checks).fail_count + (counts checks).good_count + (counts checks).warn_count
        ≡ length checks)
      × (ltb 0 (counts checks).fail_count ≡ doctor_has_failures checks)
unfolding counts
counts_lem checks = (
  omega
      (arith, counts_from-total (record { fail_count = 0; good_count = 0; warn_count = 0 }) checks),
  counts_from-failures _ checks,
)
