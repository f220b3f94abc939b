-- ===== src/Archive/Versions/Disclosure.antt =====
-- What a refusal of packages/archive-format/src/format-migrations.ts tells.
use koharu_suite.Prelude.{
  ◌≡◌, refl, sym, ap, ◌∙◌, ◌<◌, ◌⊎◌, inl, inr, Bool, true, false, Option, none, some, Result, ok,
  err, ◌>>=◌, ◌>>◌, throw_if, ltb→lt,
}
use koharu_suite.Prelude.Texts.{Text}
use koharu_suite.Archive.Versions.Support.{or_throw-some}
use koharu_suite.Archive.Versions.{
  VersionEnvelope, CompatibilityError, archive_format_version, archive_schema_version, or_throw,
  parse_supported_archive_manifest,
}

err-injective {ℓ} :
    {E : Type 0} {B : Type ℓ} {a b : E} → ◌≡◌ {A = Result E B} (err a) (err b) → a ≡ b
err-injective h = cc

-- Inversion of a chain that failed.
unchain_error {ℓ κ μ} :
    {E : Type 0} {A : Type ℓ} {B : Type κ} {C : Type μ} (m : Result E A) (f : A → Result E B)
    {x : E}
    → (m >>= f) ≡ err x
    → (m ≡ err x → C)
    → ((a : A) → m ≡ ok a → f a ≡ err x → C)
    → C
unfolding ◌>>=◌
unchain_error (ok a) f h k l = l a refl h
unchain_error (err e) f h k l = k (ap err (err-injective h))

unthrow_error {ℓ μ} :
    {E : Type 0} {B : Type ℓ} {C : Type μ} (t : Bool) (e : E) (r : Result E B) {x : E}
    → (throw_if t e >> r) ≡ err x
    → (t ≡ true → e ≡ x → C)
    → (r ≡ err x → C)
    → C
unfolding ◌>>=◌
unthrow_error true e r h k l = k refl (err-injective h)
unthrow_error false e r h k l = l h

or_throw-error {ℓ} :
    {A : Type ℓ} (o : Option A) (e x : CompatibilityError) → or_throw o e ≡ err x → e ≡ x
or_throw-error none e x h = err-injective h
or_throw-error (some a) e x h = absurd (cc)

silent :
    (e x : CompatibilityError) {v : Text}
    → e ≡ x
    → e.minimum_suite_version ≡ none
    → x.minimum_suite_version ≡ some v
    → ⊥
silent e x same quiet shown = let s = ap (λ y. y.minimum_suite_version) same in cc

hinted :
    (e x : CompatibilityError) (o : Option Text) {v : Text}
    → e ≡ x
    → e.minimum_suite_version ≡ o
    → x.minimum_suite_version ≡ some v
    → o ≡ some v
hinted e x o same said shown = sym said ∙ ap (λ y. y.minimum_suite_version) same ∙ shown

module _ {I : Type 0} {M : Type 0} (envelope_of : I → Option VersionEnvelope)
    (manifest_of : I → Option M) where
  -- A readable envelope with the hint, of a later format or a later schema.
  pub record IsFromFuture (input : I) (minimum : Text) : Type 0 where
    pub envelope : VersionEnvelope
    pub readable : envelope_of input ≡ some envelope
    pub hint : envelope.minimum_suite_version ≡ some minimum
    pub later :
        (archive_format_version < envelope.format_version)
        ⊎ (archive_schema_version < envelope.schema_version)

-- A refusal tells a minimum suite version only where the archive's envelope gives that version and
-- the archive's format version or schema version is later than this suite's.
pub parse_supported_archive_manifest-IsFromFuture :
    {I : Type 0} {M : Type 0} (envelope_of : I → Option VersionEnvelope)
    (manifest_of : I → Option M) (input : I) (x : CompatibilityError) (v : Text)
    → parse_supported_archive_manifest envelope_of manifest_of input ≡ err x
    → x.minimum_suite_version ≡ some v
    → IsFromFuture envelope_of manifest_of input v
unfolding parse_supported_archive_manifest
parse_supported_archive_manifest-IsFromFuture envelope_of manifest_of input x v h shown =
    unchain_error _ _ h (λ e. absurd (silent _ x (or_throw-error _ _ x e) refl shown))
      λ env read h1.
        let found = or_throw-some _ _ read in
        unthrow_error _ _ _ h1 (λ t e. absurd (silent _ x e refl shown))
          λ h2.
            unthrow_error _ _ _ h2
              (λ t e. record {
                envelope = env;
                readable = found;
                hint = hinted _ x env.minimum_suite_version e refl shown;
                later = inl (ltb→lt archive_format_version env.format_version t);
              })
              λ h3.
                unthrow_error _ _ _ h3 (λ t e. absurd (silent _ x e refl shown))
                  λ h4.
                    unthrow_error _ _ _ h4
                      (λ t e. record {
                        envelope = env;
                        readable = found;
                        hint = hinted _ x env.minimum_suite_version e refl shown;
                        later = inr (ltb→lt archive_schema_version env.schema_version t);
                      })
                      λ h5.
                        unthrow_error _ _ _ h5 (λ t e. absurd (silent _ x e refl shown))
                          λ h6. absurd (silent _ x (or_throw-error _ _ x h6) refl shown)
