-- ===== src/Ops/Doctor/Report.antt =====
-- apps/server/src/ops/doctor.ts: the report of all checks, whether it has failures, and its text.
use koharu_suite.Prelude.{
  ℕ, ◌+◌, Bool, true, false, Option, none, some, List, [], ◌∷◌, ◌++◌, map, any, Result, ok, ◌>>=◌,
}
use koharu_suite.Prelude.Texts.{Text, codes, join}
use koharu_suite.Prelude.Decimal.{show}
use koharu_suite.Ops.Doctor.{
  DoctorCheckStatus, fail, good, warn, DoctorCheckResult, Thrown, DoctorDependencies,
}
use koharu_suite.Ops.Doctor.Checks.{
  check_config, check_postgres_version, check_database_schema, check_search_capability,
  check_media_cache_ledger, check_owner,
}
use koharu_suite.Ops.Doctor.Channels.{check_telegram_bot, check_telegram_channels}

-- `runDoctor`.
unfoldable pub run_doctor : DoctorDependencies → Result Thrown (List DoctorCheckResult)
run_doctor deps = do
  channels ← check_telegram_channels deps (check_telegram_bot deps).0
  ok (
      check_config deps
      ∷ check_postgres_version deps
      ∷ check_database_schema deps
      ∷ check_search_capability deps
      ∷ check_media_cache_ledger deps
      ∷ check_owner deps
      ∷ (check_telegram_bot deps).1
      ∷ channels
      ∷ [])

abbrev pub is_status : DoctorCheckStatus → DoctorCheckStatus → Bool
is_status fail fail = true
is_status good good = true
is_status warn warn = true
is_status fail good = false
is_status fail warn = false
is_status good fail = false
is_status good warn = false
is_status warn fail = false
is_status warn good = false

-- `doctorHasFailures`.
unfoldable pub doctor_has_failures : List DoctorCheckResult → Bool
doctor_has_failures checks = any checks λ c. is_status c.status fail

abbrev status_label : DoctorCheckStatus → Text
status_label fail = codes "fail"
status_label good = codes "ok"
status_label warn = codes "warn"

abbrev detail_lines : Option (List Text) → List Text
detail_lines none = []
detail_lines (some details) = map (λ detail. codes "  - " ++ detail) details

abbrev check_lines : List DoctorCheckResult → List Text
check_lines [] = []
check_lines (c ∷ cs) =
    (codes "[" ++ status_label c.status ++ codes "] " ++ c.label ++ codes ": " ++ c.message)
      ∷ detail_lines c.details
    ++ check_lines cs

pub record Counts : Type 0 where
  pub fail_count : ℕ
  pub good_count : ℕ
  pub warn_count : ℕ

abbrev pub count_one : Counts → DoctorCheckStatus → Counts
count_one s fail = record s { fail_count = s.fail_count + 1 }
count_one s good = record s { good_count = s.good_count + 1 }
count_one s warn = record s { warn_count = s.warn_count + 1 }

-- The `reduce` over the checks, from the summary so far.
unfoldable pub counts_from : Counts → List DoctorCheckResult → Counts
counts_from s [] = s
counts_from s (c ∷ cs) = counts_from (count_one s c.status) cs

unfoldable pub counts : List DoctorCheckResult → Counts
counts checks = counts_from (record { fail_count = 0; good_count = 0; warn_count = 0 }) checks

-- `renderDoctorReport`.
unfoldable pub render_doctor_report : List DoctorCheckResult → Text
render_doctor_report checks = join b'\n' (
    codes "Koharu Suite doctor" ∷ check_lines checks
    ++ (codes "Summary: "
        ++ show (counts checks).good_count
        ++ codes " ok, "
        ++ show (counts checks).warn_count
        ++ codes " warning(s), "
        ++ show (counts checks).fail_count
        ++ codes " failure(s)")
      ∷ [])
