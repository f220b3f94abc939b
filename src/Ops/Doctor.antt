-- ===== src/Ops/Doctor.antt =====
-- apps/server/src/ops/doctor.ts: the read-only diagnosis of an installation. What a dependency
-- answers, or throws, is an argument. `sanitizeDiagnosticText` is an argument too: its regular
-- expressions are not modelled.
mod SchemaObjects
pub mod Checks
pub mod Channels
pub mod Report
pub mod Health
pub mod Summary
pub mod Verified
mod Tests
use koharu_suite.Prelude.{ℕ, Bool, Option, List, Result}
use koharu_suite.Prelude.Texts.{Text}
use koharu_suite.Prelude.Int.{ℤ}
pub use SchemaObjects.{expected_database_objects}

pub data DoctorCheckStatus : Type 0 where
  fail good warn : DoctorCheckStatus

pub data DoctorCheckId : Type 0 where
  config postgres_version database_schema search_capability : DoctorCheckId
  media_cache_ledger owner telegram_bot telegram_channels : DoctorCheckId

pub record DoctorCheckResult : Type 0 where
  pub id : DoctorCheckId
  pub label : Text
  pub status : DoctorCheckStatus
  pub message : Text
  pub details : Option (List Text)

pub record DoctorTelegramChannel : Type 0 where
  pub telegram_chat_id : ℤ
  pub title : Text
  pub username : Option Text

pub record DoctorSearchCapabilitySnapshot : Type 0 where
  pub index_definition : Option Text
  pub pg_trgm_version : Option Text

pub record DoctorMediaCacheLedgerSnapshot : Type 0 where
  pub active_thumbnail_reservation_count : ℤ
  pub active_thumbnail_reserved_bytes : ℤ
  pub cache_row_count : ℤ
  pub original_reservation_count : ℤ
  pub original_reserved_bytes : ℤ
  pub physical_blob_bytes : ℤ
  pub physical_blob_count : ℤ
  pub runtime_max_bytes : Option ℤ
  pub runtime_ready_bytes : Option ℤ
  pub runtime_reserved_bytes : Option ℤ
  pub runtime_row_count : ℤ

pub record DoctorTelegramBot : Type 0 where
  pub id : ℕ
  pub username : Option Text

pub record DoctorTelegramChat : Type 0 where
  pub id : ℤ
  pub title : Option Text
  pub kind : Text
  pub username : Option Text

-- What an exception says.
pub data Thrown : Type 0 where
  thrown : Text → Thrown

-- `DoctorDependencies`: the answers of the database and of the Bot API. An owner is its user id, a
-- membership its status. `sanitize` is `sanitizeDiagnosticText` at the sensitive values,
-- `sanitize_plain` at none, and `valid_index` is `searchIndexDefinitionIsValid`.
pub record DoctorDependencies : Type 0 where
  pub validate_config : Result Thrown (Unit {0})
  pub get_bound_telegram_bot_id : Result Thrown (Option ℕ)
  pub get_media_cache_ledger_snapshot : Result Thrown DoctorMediaCacheLedgerSnapshot
  pub get_postgres_major_version : Result Thrown ℕ
  pub get_search_capability_snapshot : Result Thrown DoctorSearchCapabilitySnapshot
  pub list_enabled_channels : Result Thrown (List DoctorTelegramChannel)
  pub list_missing_schema_objects : List Text → Result Thrown (List Text)
  pub list_owners : Result Thrown (List Text)
  pub get_chat : ℤ → Result Thrown DoctorTelegramChat
  pub get_chat_member : ℤ → ℕ → Result Thrown Text
  pub get_me : Result Thrown DoctorTelegramBot
  pub sanitize : Text → Text
  pub sanitize_plain : Text → Text
  pub valid_index : Text → Bool
