-- ===== src/Ops/Doctor/Checks.antt =====
-- apps/server/src/ops/doctor.ts: the checks of the configuration and of the database.
use koharu_suite.Prelude.{
  ℕ, ◌*◌, Bool, not, ◌&&◌, Option, none, some, List, [], ◌∷◌, ◌++◌, map, ltb, ◌==◌, if◌then◌else◌,
  ok, err, length,
}
use koharu_suite.Prelude.Texts.{Text, codes}
use koharu_suite.Prelude.Int.{ℤ, pos, ltb_ℤ, eqb_ℤ, add_ℤ}
use koharu_suite.Prelude.Decimal.{show, show_ℤ}
use koharu_suite.Ops.Doctor.{
  DoctorCheckStatus, fail, good, warn, DoctorCheckId, config, postgres_version, database_schema,
  search_capability, media_cache_ledger, owner, DoctorCheckResult, DoctorSearchCapabilitySnapshot,
  DoctorMediaCacheLedgerSnapshot, Thrown, thrown, DoctorDependencies, expected_database_objects,
}

abbrev pub expected_postgres_major : ℕ
expected_postgres_major = 18

abbrev version_text : Option Text → Text
version_text none = codes "null"
version_text (some v) = v

abbrev pub media_cache_max_bytes : ℕ
media_cache_max_bytes = 5 * (1024 * (1024 * 1024))

abbrev pub row_details : DoctorMediaCacheLedgerSnapshot → List Text
row_details s =
    (codes "Cache rows: " ++ show_ℤ s.cache_row_count)
    ∷ (codes "Runtime rows: " ++ show_ℤ s.runtime_row_count)
    ∷ (codes "Physical blob rows: " ++ show_ℤ s.physical_blob_count)
    ∷ (codes "Original reservation rows: " ++ show_ℤ s.original_reservation_count)
    ∷ (codes "Active thumbnail reservation rows: " ++ show_ℤ s.active_thumbnail_reservation_count)
    ∷ []

abbrev byte_details : DoctorMediaCacheLedgerSnapshot → ℤ → ℤ → ℤ → List Text
byte_details s ready reserved maximum =
    row_details s
    ++ (codes "Ready bytes: runtime="
        ++ show_ℤ ready
        ++ codes ", ledger="
        ++ show_ℤ s.physical_blob_bytes)
      ∷ (codes "Reserved bytes: runtime="
          ++ show_ℤ reserved
          ++ codes ", ledger="
          ++ show_ℤ (add_ℤ s.original_reserved_bytes s.active_thumbnail_reserved_bytes))
      ∷ (codes "Maximum bytes: " ++ show_ℤ maximum)
      ∷ []

abbrev is_nonnegative : ℤ → Bool
is_nonnegative a = not (ltb_ℤ a (pos 0))

-- The three conditions on the counters.
unfoldable pub counters_agree : DoctorMediaCacheLedgerSnapshot → ℤ → ℤ → ℤ → Bool
counters_agree s ready reserved maximum =
    (is_nonnegative ready
      && is_nonnegative reserved
      && is_nonnegative s.physical_blob_bytes
      && is_nonnegative s.original_reserved_bytes
      && is_nonnegative s.active_thumbnail_reserved_bytes)
    && (ltb_ℤ (pos 0) maximum && not (ltb_ℤ (pos media_cache_max_bytes) maximum))
    && (eqb_ℤ ready s.physical_blob_bytes
        && eqb_ℤ reserved (add_ℤ s.original_reserved_bytes s.active_thumbnail_reserved_bytes))

module _ (deps : DoctorDependencies) where
  open deps use {sanitize}

  -- `result`.
  abbrev pub result :
      DoctorCheckId → Text → DoctorCheckStatus → Text → Option (List Text) → DoctorCheckResult
  result id label status message none = record {
    id = id;
    label = label;
    status = status;
    message = sanitize message;
    details = none;
  }
  result id label status message (some details) = record {
    id = id;
    label = label;
    status = status;
    message = sanitize message;
    details = some (map sanitize details);
  }

  -- `failure`.
  abbrev pub failure : DoctorCheckId → Text → Thrown → DoctorCheckResult
  failure id label (thrown reason) =
      result id label fail (codes "Check failed: " ++ sanitize reason) none

  -- `checkConfig`.
  unfoldable pub check_config : DoctorCheckResult
  check_config = elim deps.validate_config [
    | ok _ ↦ result config (codes "Configuration") good (codes "Configuration is valid") none
    | err e ↦ failure config (codes "Configuration") e
  ]

  -- `checkPostgresVersion`.
  unfoldable pub check_postgres_version : DoctorCheckResult
  check_postgres_version = elim deps.get_postgres_major_version [
    | ok major ↦
        if not (major == expected_postgres_major)
        then result postgres_version (codes "PostgreSQL") fail
            (codes "PostgreSQL "
              ++ show expected_postgres_major
              ++ codes " is required; found major "
              ++ show major)
            none
        else result postgres_version (codes "PostgreSQL") good
            (codes "PostgreSQL major " ++ show major) none
    | err e ↦ failure postgres_version (codes "PostgreSQL") e
  ]

  -- `checkDatabaseSchema`.
  unfoldable pub check_database_schema : DoctorCheckResult
  check_database_schema =
      elim (deps.list_missing_schema_objects (map codes expected_database_objects)) [
        | ok missing ↦
            if ltb 0 (length missing)
            then result database_schema (codes "Database schema") fail
                (show (length missing) ++ codes " expected schema object(s) are missing")
                (some (
                  map (λ object. codes "Missing: " ++ object) missing
                  ++ codes "Fix: run kodama migrate" ∷ []))
            else result database_schema (codes "Database schema") good
                (show (length expected_database_objects) ++ codes " expected objects found") none
        | err e ↦ failure database_schema (codes "Database schema") e
      ]

  -- The details that `checkSearchCapability` collects.
  abbrev pub search_details : DoctorSearchCapabilitySnapshot → List Text
  search_details s =
      elim s.pg_trgm_version [
        | none ↦ codes "Missing PostgreSQL extension: pg_trgm" ∷ []
        | some _ ↦ []
      ]
      ++ elim s.index_definition [
        | none ↦ codes "Missing index: public.message_revisions_text_trgm_idx" ∷ []
        | some definition ↦
            if deps.valid_index definition
            then []
            else codes
                "Index public.message_revisions_text_trgm_idx does not provide the required GIN gin_trgm_ops partial definition"
              ∷ []
      ]

  -- `checkSearchCapability`.
  unfoldable pub check_search_capability : DoctorCheckResult
  check_search_capability = elim deps.get_search_capability_snapshot [
    | ok snapshot ↦
        if ltb 0 (length (search_details snapshot))
        then result search_capability (codes "Search") fail
            (codes "Search database capability is incomplete")
            (some (search_details snapshot ++ codes "Fix: run kodama migrate" ∷ []))
        else result search_capability (codes "Search") good
            (codes "pg_trgm "
              ++ version_text snapshot.pg_trgm_version
              ++ codes " and trigram index verified")
            none
    | err _ ↦
        result search_capability (codes "Search") fail (codes "Search capability check failed")
          (some (codes "Fix: run kodama migrate" ∷ []))
  ]

  abbrev ledger_result : DoctorCheckStatus → Text → Option (List Text) → DoctorCheckResult
  ledger_result = result media_cache_ledger (codes "Media cache ledger")

  abbrev pub check_counters : DoctorMediaCacheLedgerSnapshot → ℤ → ℤ → ℤ → DoctorCheckResult
  check_counters s ready reserved maximum =
      if not (counters_agree s ready reserved maximum)
      then ledger_result fail
          (codes "Media cache counters do not match the read-only ledger recomputation")
          (some (byte_details s ready reserved maximum))
      else ledger_result good (codes "Media cache counters match the ledger")
          (some (byte_details s ready reserved maximum))

  abbrev pub incomplete_runtime : DoctorMediaCacheLedgerSnapshot → DoctorCheckResult
  incomplete_runtime s =
      ledger_result fail (codes "Expected exactly one complete media cache runtime row")
        (some (row_details s))

  -- The row's three counters, none of them null.
  abbrev pub check_runtime :
      DoctorMediaCacheLedgerSnapshot → Option ℤ → Option ℤ → Option ℤ → DoctorCheckResult
  check_runtime s none reserved maximum = incomplete_runtime s
  check_runtime s (some ready) none maximum = incomplete_runtime s
  check_runtime s (some ready) (some reserved) none = incomplete_runtime s
  check_runtime s (some ready) (some reserved) (some maximum) =
      check_counters s ready reserved maximum

  -- The check of a snapshot that the database answered with.
  abbrev pub check_snapshot : DoctorMediaCacheLedgerSnapshot → DoctorCheckResult
  check_snapshot s =
      if eqb_ℤ s.cache_row_count (pos 0)
      then ledger_result good (codes "No media cache rows to verify") none
      else if not (eqb_ℤ s.runtime_row_count (pos 1))
      then incomplete_runtime s
      else check_runtime s s.runtime_ready_bytes s.runtime_reserved_bytes s.runtime_max_bytes

  -- `checkMediaCacheLedger`.
  unfoldable pub check_media_cache_ledger : DoctorCheckResult
  check_media_cache_ledger = elim deps.get_media_cache_ledger_snapshot [
    | ok s ↦ check_snapshot s
    | err e ↦ failure media_cache_ledger (codes "Media cache ledger") e
  ]

  -- `checkOwner`.
  unfoldable pub check_owner : DoctorCheckResult
  check_owner = elim deps.list_owners [
    | ok [] ↦
        result owner (codes "Owner") warn (codes "No owner is configured; run kodama owner create")
          none
    | ok (o ∷ []) ↦ result owner (codes "Owner") good (codes "Singleton owner is configured") none
    | ok (o ∷ p ∷ os) ↦
        result owner (codes "Owner") fail
          (codes "Expected one owner; found " ++ show (length (o ∷ p ∷ os))) none
    | err e ↦ failure owner (codes "Owner") e
  ]
