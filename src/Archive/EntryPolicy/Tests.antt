-- ===== src/Archive/EntryPolicy/Tests.antt =====
-- Runs of the limits, the path check and the entry policy, and the theorems at concrete inputs.
use koharu_suite.Prelude.{
  ℕ, ◌≡◌, refl, ◌↔◌, true, false, none, some, List, [], ◌∷◌, Result, ok, err, ◌>>=◌, arith,
}
use koharu_suite.Prelude.Texts.{Text, codes, split, join}
use koharu_suite.Prelude.Numbers.{whole, minus, fraction}
use koharu_suite.Archive.Errors.{
  ArchiveContainerErrorCode, invalid_archive_path, invalid_archive_limit, duplicate_archive_path,
  entry_size_limit_exceeded,
}
use koharu_suite.Archive.Limits.{
  Overrides, default_archive_container_limits, finite_positive_safe_integer,
  resolve_archive_container_limits,
}
use koharu_suite.Archive.Limits.Consistency.{
  IsConsistent, IsMerged, resolve_archive_container_limits_sound,
}
use koharu_suite.Archive.Paths.{
  canonicalize_archive_entry_path, text_refused, segment_refused, windows_device_segment,
  archive_entry_path_collision_key,
}
use koharu_suite.Archive.Paths.Utf8.{byte_length}
use koharu_suite.Archive.Paths.Posix.{normalize}
use koharu_suite.Archive.Paths.Canonical.{IsCanonical}
use koharu_suite.Archive.Paths.Acceptance.{canonicalize_archive_entry_path_iff}
use koharu_suite.Archive.EntryPolicy.{
  ArchiveEntryHeader, AcceptedArchiveEntry, ArchiveEntryPolicy, create, accept, accept_all,
}
use koharu_suite.Archive.EntryPolicy.Admission.{AreAdmitted, admitted_archive}

running : Unit {0}
unfolding resolve_archive_container_limits finite_positive_safe_integer
    canonicalize_archive_entry_path text_refused segment_refused windows_device_segment
    archive_entry_path_collision_key byte_length normalize split join create accept accept_all ◌>>=◌
running = tt

abbrev no_overrides : Overrides
no_overrides = record {
  max_compressed_bytes = none;
  max_expanded_bytes = none;
  max_compression_ratio = none;
  compression_ratio_floor_bytes = none;
  max_entries = none;
  max_entry_bytes = none;
  max_total_entry_bytes = none;
  max_path_bytes = none;
  max_path_segments = none;
  no_progress_timeout_ms = none;
  zstd_window_log_max = none;
}

defaults_resolve :
    resolve_archive_container_limits no_overrides ≡ ok default_archive_container_limits
unfolding running
defaults_resolve = refl

fraction_refused :
    resolve_archive_container_limits (record no_overrides { max_entries = some (fraction false 3) })
    ≡ err invalid_archive_limit
unfolding running
fraction_refused = refl

resolve_archive_container_limits_sound_example :
    IsConsistent default_archive_container_limits
    × IsMerged no_overrides default_archive_container_limits
resolve_archive_container_limits_sound_example =
    resolve_archive_container_limits_sound no_overrides default_archive_container_limits
      defaults_resolve

abbrev canonical : Text → Result ArchiveContainerErrorCode Text
canonical s = canonicalize_archive_entry_path s (whole 100) (whole 16)

canonical_tests :
    (canonical (codes "data/messages/000000.jsonl") ≡ ok (codes "data/messages/000000.jsonl"))
    × (canonical (codes "a/../b") ≡ err invalid_archive_path)
    × (canonical (codes "/a") ≡ err invalid_archive_path)
    × (canonical (codes "a//b") ≡ err invalid_archive_path)
    × (canonical (codes "a/Com7.txt") ≡ err invalid_archive_path)
    × (canonical (codes "c:b") ≡ err invalid_archive_path)
unfolding running
canonical_tests = (refl, refl, refl, refl, refl, refl)

normalize_tests :
    (normalize (codes "../a/./b/../..//c/") ≡ codes "../c/")
    × (normalize (codes "/../a") ≡ codes "/a")
    × (normalize (codes "a/..") ≡ codes ".")
unfolding running
normalize_tests = (refl, refl, refl)

canonicalize_archive_entry_path_iff_example :
    (canonicalize_archive_entry_path (codes "a/b") (whole 100) (whole 16) ≡ ok (codes "a/b"))
    ↔ ((codes "a/b" ≡ codes "a/b") × IsCanonical (codes "a/b") 100 16)
canonicalize_archive_entry_path_iff_example =
    canonicalize_archive_entry_path_iff (codes "a/b") 100 16 (omega arith, omega arith)
      (omega arith, omega arith) (omega arith) (codes "a/b")

abbrev file : Text → ℕ → ArchiveEntryHeader
file name size = record {
  name = name;
  size = whole size;
  kind = some (codes "file");
  linkname = none;
}

abbrev fresh_policy : ArchiveEntryPolicy
fresh_policy = record {
  limits = default_archive_container_limits;
  seen_path_keys = [];
  entry_bytes = 0;
}

abbrev headers : List ArchiveEntryHeader
headers = file (codes "manifest.json") 12 ∷ file (codes "Data/x") 30 ∷ []

abbrev entries : List AcceptedArchiveEntry
entries =
    record { path = codes "manifest.json"; byte_length = 12 }
    ∷ record { path = codes "Data/x"; byte_length = 30 }
    ∷ []

abbrev policy_after : ArchiveEntryPolicy
policy_after = record fresh_policy {
  seen_path_keys = codes "data/x" ∷ codes "manifest.json" ∷ [];
  entry_bytes = 42;
}

created : create no_overrides ≡ ok fresh_policy
unfolding running
created = refl

accepted : accept_all (λ path. true) fresh_policy headers ≡ ok (entries, policy_after)
unfolding running
accepted = refl

duplicate_refused :
    accept (λ path. true) policy_after (file (codes "DATA/X") 1) ≡ err duplicate_archive_path
unfolding running
duplicate_refused = refl

negative_refused :
    accept (λ path. true) policy_after (record (file (codes "y") 1) { size = minus 0 })
    ≡ err entry_size_limit_exceeded
unfolding running
negative_refused = refl

admitted_archive_example : AreAdmitted (λ path. true) fresh_policy headers entries
admitted_archive_example =
    admitted_archive (λ path. true) no_overrides fresh_policy policy_after headers entries created
      accepted
