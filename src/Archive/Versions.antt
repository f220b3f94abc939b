-- ===== src/Archive/Versions.antt =====
-- packages/archive-format/src/format-migrations.ts: which manifests this version reads. The two
-- schemas that a validation library checks are the arguments `envelope_of` and `manifest_of`.
pub mod Support
pub mod Disclosure
mod Tests
use koharu_suite.Prelude.{
  ℕ, Bool, not, Option, none, some, Result, ok, err, ◌>>=◌, ◌>>◌, throw_if, ltb,
}
use koharu_suite.Prelude.Texts.{Text, codes, text_eq}

pub data CompatibilityErrorCode : Type 0 where
  future_format_version future_schema_version invalid_manifest : CompatibilityErrorCode
  unknown_archive_format unsupported_format_version : CompatibilityErrorCode
  unsupported_schema_version : CompatibilityErrorCode

-- `ArchiveCompatibilityError`.
pub record CompatibilityError : Type 0 where
  pub code : CompatibilityErrorCode
  pub minimum_suite_version : Option Text
  pub observed_format_version : Option ℕ

-- What `versionEnvelopeSchema` parses; its numbers are safe integers from zero on.
pub record VersionEnvelope : Type 0 where
  pub format : Text
  pub format_version : ℕ
  pub schema_version : ℕ
  pub minimum_suite_version : Option Text

abbrev pub archive_format_name : Text
archive_format_name = codes "koharu-suite-portable-archive"

abbrev pub archive_format_version : ℕ
archive_format_version = 1

abbrev pub archive_schema_version : ℕ
archive_schema_version = 1

abbrev pub failure : CompatibilityErrorCode → Option Text → Option ℕ → CompatibilityError
failure code minimum observed = record {
  code = code;
  minimum_suite_version = minimum;
  observed_format_version = observed;
}

-- `if (!result.success) throw error;`
abbrev pub or_throw {ℓ} : {A : Type ℓ} → Option A → CompatibilityError → Result CompatibilityError A
or_throw none e = err e
or_throw (some a) e = ok a

module _ {I : Type 0} {M : Type 0} (envelope_of : I → Option VersionEnvelope)
    (manifest_of : I → Option M) where
  -- `parseSupportedArchiveManifest`.
  unfoldable pub parse_supported_archive_manifest : I → Result CompatibilityError M
  parse_supported_archive_manifest input = do
    envelope ← or_throw (envelope_of input) (failure invalid_manifest none none)
    throw_if (not (text_eq envelope.format archive_format_name))
        (failure unknown_archive_format none none)
    throw_if (ltb archive_format_version envelope.format_version) (
        failure future_format_version envelope.minimum_suite_version (some envelope.format_version))
    throw_if (ltb envelope.format_version archive_format_version)
        (failure unsupported_format_version none (some envelope.format_version))
    throw_if (ltb archive_schema_version envelope.schema_version) (
        failure future_schema_version envelope.minimum_suite_version (some envelope.format_version))
    throw_if (ltb envelope.schema_version archive_schema_version)
        (failure unsupported_schema_version none (some envelope.format_version))
    or_throw (manifest_of input) (failure invalid_manifest none (some envelope.format_version))
