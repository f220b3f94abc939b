-- ===== src/Ops/Doctor/Tests.antt =====
-- A healthy installation and a broken one, and the theorems at them.
use koharu_suite.Prelude.{
  ◌+◌, ◌≡◌, refl, ◌↔◌, ◌⊎◌, Bool, true, false, none, some, Option, List, [], ◌∷◌, Result, ok, err,
  ◌>>=◌, All, length, ltb,
}
use koharu_suite.Prelude.Texts.{Text, codes}
use koharu_suite.Prelude.Int.{pos, negsuc, add_ℤ}
use koharu_suite.Prelude.Decimal.{show_digits, show, show_ℤ}
use koharu_suite.Ops.Doctor.{
  good, DoctorCheckResult, DoctorMediaCacheLedgerSnapshot, DoctorTelegramBot, DoctorTelegramChannel,
  DoctorDependencies, Thrown, thrown,
}
use koharu_suite.Ops.Doctor.Checks.{
  check_config, check_postgres_version, check_database_schema, check_search_capability,
  check_media_cache_ledger, check_owner, counters_agree,
}
use koharu_suite.Ops.Doctor.Channels.{
  check_telegram_bot, check_telegram_channels, inspect_channel, inspect_channels,
  telegram_id_as_number,
}
use koharu_suite.Ops.Doctor.Report.{run_doctor, doctor_has_failures, counts, counts_from}
use koharu_suite.Ops.Doctor.Health.{IsConsistent, check_media_cache_ledger_iff}
use koharu_suite.Ops.Doctor.Summary.{counts_lem}
use koharu_suite.Ops.Doctor.Verified.{IsVerified, check_telegram_channels-IsVerified}

abbrev bot : DoctorTelegramBot
bot = record { id = 7; username = some (codes "koharu_bot") }

abbrev channel : DoctorTelegramChannel
channel = record {
  telegram_chat_id = negsuc 41;
  title = codes "Koharu";
  username = some (codes "koharu");
}

abbrev ledger : DoctorMediaCacheLedgerSnapshot
ledger = record {
  active_thumbnail_reservation_count = pos 1;
  active_thumbnail_reserved_bytes = pos 20;
  cache_row_count = pos 2;
  original_reservation_count = pos 1;
  original_reserved_bytes = pos 30;
  physical_blob_bytes = pos 400;
  physical_blob_count = pos 2;
  runtime_max_bytes = some (pos 1000);
  runtime_ready_bytes = some (pos 400);
  runtime_reserved_bytes = some (pos 50);
  runtime_row_count = pos 1;
}

abbrev installation : Result Thrown (List Text) → DoctorDependencies
installation missing = record {
  validate_config = ok tt;
  get_bound_telegram_bot_id = ok (some 7);
  get_media_cache_ledger_snapshot = ok ledger;
  get_postgres_major_version = ok 18;
  get_search_capability_snapshot = ok (record {
    index_definition = some (codes "create index");
    pg_trgm_version = some (codes "1.6");
  });
  list_enabled_channels = ok (channel ∷ []);
  list_missing_schema_objects = λ objects. missing;
  list_owners = ok (codes "owner" ∷ []);
  get_chat = λ id.
      ok (record {
        id = id;
        title = none;
        kind = codes "channel";
        username = some (codes "koharu");
      });
  get_chat_member = λ chat id. ok (codes "administrator");
  get_me = ok bot;
  sanitize = λ s. s;
  sanitize_plain = λ s. s;
  valid_index = λ s. true;
}

abbrev healthy : DoctorDependencies
healthy = installation (ok [])

running : Unit {0}
unfolding ◌>>=◌ show_digits show show_ℤ add_ℤ check_config check_postgres_version
    check_database_schema check_search_capability check_media_cache_ledger check_owner
    counters_agree check_telegram_bot check_telegram_channels inspect_channel inspect_channels
    telegram_id_as_number run_doctor doctor_has_failures counts counts_from
running = tt

abbrev has_failures : DoctorDependencies → Option Bool
has_failures deps = elim (run_doctor deps) [
  | ok checks ↦ some (doctor_has_failures checks)
  | err e ↦ none
]

healthy_run : has_failures healthy ≡ some false
unfolding running
healthy_run = refl

missing_run : has_failures (installation (ok (codes "public.media" ∷ []))) ≡ some true
unfolding running
missing_run = refl

thrown_run : has_failures (installation (err (thrown (codes "down")))) ≡ some true
unfolding running
thrown_run = refl

abbrev one_failure : List DoctorCheckResult
one_failure =
    check_database_schema (installation (ok (codes "public.media" ∷ []))) ∷ check_owner healthy ∷ []

counts_lem_example :
    ((counts one_failure).fail_count
        + (counts one_failure).good_count
        + (counts one_failure).warn_count
      ≡ length one_failure)
    × (ltb 0 (counts one_failure).fail_count ≡ doctor_has_failures one_failure)
counts_lem_example = counts_lem one_failure

check_media_cache_ledger_iff_example :
    ((check_media_cache_ledger healthy).status ≡ good)
    ↔ ((ledger.cache_row_count ≡ pos 0) ⊎ IsConsistent ledger)
check_media_cache_ledger_iff_example = check_media_cache_ledger_iff healthy ledger refl

abbrev channels_check : DoctorCheckResult
channels_check = elim (check_telegram_channels healthy (some bot)) [
  | ok r ↦ r
  | err e ↦ check_owner healthy
]

channels_checked : check_telegram_channels healthy (some bot) ≡ ok channels_check
unfolding running
channels_checked = refl

channels_good : channels_check.status ≡ good
unfolding running
channels_good = refl

check_telegram_channels-IsVerified_example :
    All (λ d. (b : DoctorTelegramBot) × (some bot ≡ some b) × IsVerified healthy b d) (channel ∷ [])
check_telegram_channels-IsVerified_example =
    check_telegram_channels-IsVerified healthy (some bot) channel [] channels_check refl
      channels_checked channels_good
