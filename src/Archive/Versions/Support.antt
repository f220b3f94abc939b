-- ===== src/Archive/Versions/Support.antt =====
-- What the version gate of packages/archive-format/src/format-migrations.ts lets through.
use koharu_suite.Prelude.{
  ℕ, ◌≡◌, refl, ap, ◌∙◌, ◌↔◌, Bool, true, false, not, Option, none, some, ok, ◌>>=◌, ltb, arith,
  unchain, unthrow, ok-injective,
}
use koharu_suite.Prelude.Texts.{text_eq, eq_of_text_eq, text_eq_refl}
use koharu_suite.Archive.Versions.{
  VersionEnvelope, CompatibilityError, archive_format_name, archive_format_version,
  archive_schema_version, or_throw, parse_supported_archive_manifest,
}

pub or_throw-some {ℓ} :
    {A : Type ℓ} (o : Option A) (e : CompatibilityError) {a : A} → or_throw o e ≡ ok a → o ≡ some a
or_throw-some none e h = absurd (cc)
or_throw-some (some a) e h = ap some (ok-injective h)

equal_numbers : (a b : ℕ) → ltb b a ≡ false → ltb a b ≡ false → a ≡ b
equal_numbers a b h k = ground arith

not-false : (b : Bool) → not b ≡ false → b ≡ true
not-false b h = ground arith

module _ {I : Type 0} {M : Type 0} (envelope_of : I → Option VersionEnvelope)
    (manifest_of : I → Option M) where
  -- The envelope names this format and these versions, and the manifest is valid.
  pub record IsSupported (input : I) (manifest : M) : Type 0 where
    pub envelope : VersionEnvelope
    pub readable : envelope_of input ≡ some envelope
    pub same_format : envelope.format ≡ archive_format_name
    pub same_version : envelope.format_version ≡ archive_format_version
    pub same_schema : envelope.schema_version ≡ archive_schema_version
    pub valid : manifest_of input ≡ some manifest

  parsed-IsSupported :
      (input : I) (manifest : M)
      → parse_supported_archive_manifest envelope_of manifest_of input ≡ ok manifest
      → IsSupported input manifest
  unfolding parse_supported_archive_manifest
  parsed-IsSupported input manifest h = unchain _ _ h λ envelope read h1.
      unthrow _ _ _ h1 λ named h2. unthrow _ _ _ h2 λ not_future h3. unthrow _ _ _ h3 λ not_old h4.
        unthrow _ _ _ h4 λ not_future_schema h5. unthrow _ _ _ h5 λ not_old_schema h6. record {
          envelope = envelope;
          readable = or_throw-some _ _ read;
          same_format = eq_of_text_eq _ _ (not-false _ named);
          same_version =
              equal_numbers envelope.format_version archive_format_version not_future not_old;
          same_schema =
              equal_numbers envelope.schema_version archive_schema_version not_future_schema
                not_old_schema;
          valid = or_throw-some _ _ h6;
        }

  supported_passes :
      (e : VersionEnvelope) (input : I) (manifest : M)
      → envelope_of input ≡ some e
      → text_eq e.format archive_format_name ≡ true
      → e.format_version ≡ archive_format_version
      → e.schema_version ≡ archive_schema_version
      → manifest_of input ≡ some manifest
      → parse_supported_archive_manifest envelope_of manifest_of input ≡ ok manifest
  unfolding parse_supported_archive_manifest ◌>>=◌
  supported_passes e input manifest read named version schema valid =
      rw (read, named, version, schema, valid) refl

-- A manifest is parsed exactly when its envelope is readable and names this format, this format
-- version and this schema version, and the manifest is valid.
pub parse_supported_archive_manifest_iff :
    {I : Type 0} {M : Type 0} (envelope_of : I → Option VersionEnvelope)
    (manifest_of : I → Option M) (input : I) (manifest : M)
    → (parse_supported_archive_manifest envelope_of manifest_of input ≡ ok manifest)
      ↔ IsSupported envelope_of manifest_of input manifest
parse_supported_archive_manifest_iff envelope_of manifest_of input manifest = (
  parsed-IsSupported envelope_of manifest_of input manifest,
  λ s.
      supported_passes envelope_of manifest_of s.envelope input manifest s.readable
        (ap (λ f. text_eq f archive_format_name) s.same_format ∙ text_eq_refl archive_format_name)
        s.same_version s.same_schema s.valid,
)
