-- ===== src/Archive/Paths.antt =====
-- packages/archive-format/src/entry-policy.ts: canonical entry paths, their collision keys and
-- their order. Texts are UTF-16 code units.
pub mod Utf8
pub mod Posix
pub mod Canonical
pub mod Acceptance
use koharu_suite.Prelude.{
  ℕ, ◌+◌, Bool, true, false, not, ◌&&◌, ◌||◌, List, [], ◌∷◌, ◌++◌, map, ltb, leb, ◌==◌,
  if◌then◌else◌, Result, ok, err, ◌>>=◌, ◌>>◌, throw_if, length, any, all,
}
use koharu_suite.Prelude.Texts.{
  Text, codes, text_eq, text_lt, has, includes_unit, ends_with_unit, is_letter, is_digit, to_lower,
  split,
}
use koharu_suite.Prelude.Sorting.{Sign, less, same, more}
use koharu_suite.Prelude.Numbers.{JsNumber, whole}
use koharu_suite.Archive.Errors.{
  ArchiveContainerErrorCode, invalid_archive_limit, invalid_archive_path,
}
use koharu_suite.Archive.Limits.{ustar_name_bytes, finite_positive_safe_integer}
use Utf8.{byte_length}
use Posix.{normalize, starts_with_slash}

-- `/[A-Za-z0-9._-]/`, one unit of PORTABLE_SEGMENT.
abbrev pub is_portable : ℕ → Bool
is_portable c = is_letter c || is_digit c || (c == b'.') || (c == b'_') || (c == b'-')

-- PORTABLE_SEGMENT: `/^[A-Za-z0-9._-]+$/`.
abbrev pub portable_segment : Text → Bool
portable_segment [] = false
portable_segment (c ∷ s) = all (c ∷ s) is_portable

-- The part of a segment in front of its first dot.
abbrev pub stem : Text → Text
stem [] = []
stem (c ∷ s) = if c == b'.' then [] else c ∷ stem s

abbrev pub numbered : Text → Text → Bool
numbered p s = any (codes "123456789") (λ d. text_eq s (p ++ d ∷ []))

-- WINDOWS_DEVICE_SEGMENT: `/^(?:CON|PRN|AUX|NUL|COM[1-9]|LPT[1-9])(?:\.|$)/i`.
unfoldable pub windows_device_segment : Text → Bool
windows_device_segment s =
    let name = map to_lower (stem s) in
    has (codes "con" ∷ codes "prn" ∷ codes "aux" ∷ codes "nul" ∷ []) name
    || numbered (codes "com") name
    || numbered (codes "lpt") name

-- `/[A-Za-z0-9+.-]*:/` at the start of a text.
abbrev pub scheme_rest : Text → Bool
scheme_rest [] = false
scheme_rest (c ∷ s) =
    (c == b':')
    || ((is_letter c || is_digit c || (c == b'+') || (c == b'.') || (c == b'-')) && scheme_rest s)

-- `/^[A-Za-z][A-Za-z0-9+.-]*:/` on the first segment, `segments[0] ?? ''`.
abbrev pub starts_with_scheme : List Text → Bool
starts_with_scheme [] = false
starts_with_scheme ([] ∷ ps) = false
starts_with_scheme ((c ∷ s) ∷ ps) = is_letter c && scheme_rest s

-- `/[\x21-\x7E]/`, one unit of the printable ASCII test.
abbrev pub is_graphic : ℕ → Bool
is_graphic c = leb 0x21 c && leb c 0x7e

-- The guards on the whole text, in the source's order.
unfoldable pub text_refused : Text → ℕ → Bool
text_refused raw max_path_bytes =
    (length raw == 0)
    || includes_unit raw 0
    || includes_unit raw b'\\'
    || includes_unit raw 0xfffd
    || not (all raw is_graphic)
    || ltb max_path_bytes (byte_length raw)
    || starts_with_slash raw
    || ends_with_unit raw b'/'

-- The guards on one segment.
unfoldable pub segment_refused : Text → Bool
segment_refused s =
    (length s == 0)
    || text_eq s (codes ".")
    || text_eq s (codes "..")
    || not (portable_segment s)
    || ends_with_unit s b'.'
    || windows_device_segment s

-- `canonicalizeArchiveEntryPath`, with its default arguments given by the caller.
unfoldable pub canonicalize_archive_entry_path :
    Text → JsNumber → JsNumber → Result ArchiveContainerErrorCode Text
canonicalize_archive_entry_path raw max_bytes max_segments = do
  max_path_bytes ← finite_positive_safe_integer max_bytes
  max_path_segments ← finite_positive_safe_integer max_segments
  throw_if (ltb ustar_name_bytes max_path_bytes) invalid_archive_limit
  throw_if (text_refused raw max_path_bytes) invalid_archive_path
  let segments = split b'/' raw
  throw_if
      (ltb max_path_segments (length segments)
        || any segments segment_refused
        || starts_with_scheme segments)
      invalid_archive_path
  throw_if (not (text_eq (normalize raw) raw)) invalid_archive_path
  ok raw

-- `archiveEntryPathCollisionKey`.
unfoldable pub archive_entry_path_collision_key : Text → Text
archive_entry_path_collision_key s = map to_lower s

-- `compareArchiveEntryPaths`.
unfoldable pub compare_archive_entry_paths : Text → Text → Sign
compare_archive_entry_paths left right =
    if text_lt left right then less else if text_lt right left then more else same
