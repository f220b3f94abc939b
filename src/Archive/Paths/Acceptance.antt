-- ===== src/Archive/Paths/Acceptance.antt =====
-- `canonicalizeArchiveEntryPath` decides canonical paths, whatever its guards in between.
use koharu_suite.Prelude.{
  ℕ, ◌≤◌, ◌≡◌, refl, sym, ◌↔◌, Bool, true, false, List, [], ◌∷◌, arith, length, all, any, All,
  All-of_any, any-of_All, All-map, ok, ltb, ltb→ge, le→ltb_false, &&-true, ◌>>=◌, subst, not,
  throw_if, ◌>>◌, ap, ◌||◌, ◌==◌,
}
use koharu_suite.Prelude.Texts.{Text, text_eq_refl, split, includes_unit, ends_with_unit}
use koharu_suite.Prelude.Numbers.{whole}
use koharu_suite.Archive.Errors.{invalid_archive_path}
use koharu_suite.Archive.Limits.{ustar_name_bytes}
use koharu_suite.Archive.Limits.Consistency.{IsPositiveSafe, finite_positive_safe_integer_whole}
use koharu_suite.Archive.Paths.{
  is_portable, scheme_rest, starts_with_scheme, is_graphic, text_refused, segment_refused,
  canonicalize_archive_entry_path,
}
use koharu_suite.Archive.Paths.Utf8.{byte_length, byte_length-ascii}
use koharu_suite.Archive.Paths.Posix.{starts_with_slash}
use koharu_suite.Archive.Paths.Canonical.{
  IsSafeSegment, IsCanonical, IsSafeSegment-of_test, segment_refused-of_IsSafeSegment,
  IsCanonical-text, IsCanonical-normal,
}

-- No portable segment holds the colon of a scheme or a drive.
portable_without_scheme : (s : Text) → all s is_portable ≡ true → scheme_rest s ≡ false
portable_without_scheme [] h = refl
portable_without_scheme (c ∷ s) h =
    let (here, rest) = &&-true (is_portable c) (all s is_portable) h in
    ground (arith, portable_without_scheme s rest)

IsSafe-scheme : (ps : List Text) → All IsSafeSegment ps → starts_with_scheme ps ≡ false
IsSafe-scheme [] h = refl
IsSafe-scheme ([] ∷ ps) h = refl
IsSafe-scheme ((c ∷ s) ∷ ps) (h, k) =
    let (here, rest) = &&-true (is_portable c) (all s is_portable) h.portable in
    ground (arith, portable_without_scheme s rest)

graphic_ascii : (s : Text) → all s is_graphic ≡ true → all s (λ c. ltb c 0x80) ≡ true
graphic_ascii [] h = refl
graphic_ascii (c ∷ s) h =
    let (here, rest) = &&-true (is_graphic c) (all s is_graphic) h in
    ground (arith, graphic_ascii s rest)

-- The two guards of the eight that say what the text holds.
third_guards :
    (a b c d e f g h : Bool)
    → (a || b || c || d || not e || f || g || h) ≡ false
    → (e ≡ true) × (f ≡ false)
third_guards a b c d e f g h k = ground arith

text_refused-false :
    (raw : Text) (n : ℕ)
    → text_refused raw n ≡ false
    → (all raw is_graphic ≡ true) × (byte_length raw ≤ n)
unfolding text_refused
text_refused-false raw n h =
    let (graphic, short) =
      third_guards (length raw == 0) (includes_unit raw 0) (includes_unit raw b'\\')
        (includes_unit raw 0xfffd) (all raw is_graphic) (ltb n (byte_length raw))
        (starts_with_slash raw) (ends_with_unit raw b'/') h in
    (graphic, ltb→ge _ _ short)

segments_refused-false : (a b c : Bool) → (a || b || c) ≡ false → (a ≡ false) × (b ≡ false)
segments_refused-false a b c h = ground arith

guards-eq-ok :
    (a b c : Bool) (raw path : Text)
    → (throw_if a invalid_archive_path
        >> (throw_if b invalid_archive_path >> (throw_if c invalid_archive_path >> ok raw)))
      ≡ ok path
    → (a ≡ false) × (b ≡ false) × (path ≡ raw)
unfolding ◌>>=◌
guards-eq-ok a b c raw path h = ground arith

module _ (raw : Text) (max_path_bytes max_path_segments : ℕ) where
  accepted_IsCanonical :
      text_refused raw max_path_bytes ≡ false
      → (ltb max_path_segments (length (split b'/' raw))
          || any (split b'/' raw) segment_refused
          || starts_with_scheme (split b'/' raw))
        ≡ false
      → IsCanonical raw max_path_bytes max_path_segments
  accepted_IsCanonical h k =
      let (graphic, short) = text_refused-false raw max_path_bytes h in
      let (shallow, safe) =
        segments_refused-false (ltb max_path_segments (length (split b'/' raw)))
          (any (split b'/' raw) segment_refused) (starts_with_scheme (split b'/' raw)) k in
      record {
        short =
            subst (λ n. n ≤ max_path_bytes) (byte_length-ascii raw (graphic_ascii raw graphic))
              short;
        shallow = ltb→ge _ _ shallow;
        safe =
            All-map (λ s. segment_refused s ≡ false) IsSafeSegment IsSafeSegment-of_test
              (split b'/' raw) (All-of_any segment_refused (split b'/' raw) safe);
      }

  whole-injective : (n : ℕ) → whole max_path_bytes ≡ whole n → n ≡ max_path_bytes
  whole-injective n e = ground arith

  -- Under admissible limits a path is accepted exactly when it is canonical: short, shallow, and
  -- made of safe segments. It is then returned unchanged.
  pub canonicalize_archive_entry_path_iff :
      IsPositiveSafe max_path_bytes
      → IsPositiveSafe max_path_segments
      → max_path_bytes ≤ ustar_name_bytes
      → (path : Text)
      → (canonicalize_archive_entry_path raw (whole max_path_bytes) (whole max_path_segments)
          ≡ ok path)
        ↔ ((path ≡ raw) × IsCanonical raw max_path_bytes max_path_segments)
  unfolding canonicalize_archive_entry_path ◌>>=◌
  canonicalize_archive_entry_path_iff pb ps ustar path =
      rw
        (
          finite_positive_safe_integer_whole max_path_bytes pb,
          finite_positive_safe_integer_whole max_path_segments ps,
          le→ltb_false ustar_name_bytes max_path_bytes ustar,
        )
        (
          λ h.
              let (text, segments, same) = guards-eq-ok _ _ _ raw path h in
              (same, accepted_IsCanonical text segments),
          λ h.
              let (same, canonical) = h in
              rw
                (
                  IsCanonical-text raw max_path_bytes max_path_segments canonical,
                  le→ltb_false _ _ canonical.shallow,
                  any-of_All segment_refused (split b'/' raw) (
                      All-map IsSafeSegment (λ s. segment_refused s ≡ false)
                        segment_refused-of_IsSafeSegment (split b'/' raw) canonical.safe),
                  IsSafe-scheme (split b'/' raw) canonical.safe,
                  IsCanonical-normal raw max_path_bytes max_path_segments canonical,
                  text_eq_refl raw,
                )
                (ap ok (sym same)),
        )
