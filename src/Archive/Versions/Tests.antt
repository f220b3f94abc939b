-- ===== src/Archive/Versions/Tests.antt =====
-- Envelopes of several versions, and the theorems at them. An input is its own envelope.
use koharu_suite.Prelude.{ℕ, ◌≡◌, refl, ◌↔◌, Option, some, ok, err, ◌>>=◌}
use koharu_suite.Prelude.Texts.{codes}
use koharu_suite.Archive.Versions.{
  VersionEnvelope, future_format_version, archive_format_name, failure,
  parse_supported_archive_manifest,
}
use koharu_suite.Archive.Versions.Support.{IsSupported, parse_supported_archive_manifest_iff}
use koharu_suite.Archive.Versions.Disclosure.{
  IsFromFuture, parse_supported_archive_manifest-IsFromFuture,
}

abbrev readable : VersionEnvelope → Option VersionEnvelope
readable e = some e

abbrev schema_of : VersionEnvelope → Option ℕ
schema_of e = some e.schema_version

abbrev envelope : ℕ → VersionEnvelope
envelope version = record {
  format = archive_format_name;
  format_version = version;
  schema_version = 1;
  minimum_suite_version = some (codes "2.0.0");
}

running : Unit {0}
unfolding ◌>>=◌ parse_supported_archive_manifest
running = tt

current_run : parse_supported_archive_manifest readable schema_of (envelope 1) ≡ ok 1
unfolding running
current_run = refl

future_run :
    parse_supported_archive_manifest readable schema_of (envelope 2)
    ≡ err (failure future_format_version (some (codes "2.0.0")) (some 2))
unfolding running
future_run = refl

parse_supported_archive_manifest_iff_example :
    (parse_supported_archive_manifest readable schema_of (envelope 1) ≡ ok 1)
    ↔ IsSupported readable schema_of (envelope 1) 1
parse_supported_archive_manifest_iff_example =
    parse_supported_archive_manifest_iff readable schema_of (envelope 1) 1

parse_supported_archive_manifest-IsFromFuture_example :
    IsFromFuture readable schema_of (envelope 2) (codes "2.0.0")
parse_supported_archive_manifest-IsFromFuture_example =
    parse_supported_archive_manifest-IsFromFuture readable schema_of (envelope 2)
      (failure future_format_version (some (codes "2.0.0")) (some 2)) (codes "2.0.0") future_run
      refl
