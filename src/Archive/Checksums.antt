-- ===== src/Archive/Checksums.antt =====
-- packages/archive-format/src/checksums.ts, of limits that pass `resolveLimits`. The digest itself,
-- `sha256Hex`, is a library's.
pub mod Faithful
pub mod Comparison
mod Tests
use koharu_suite.Prelude.{
  ℕ, ◌+◌, ◌*◌, ◌-◌, Bool, true, false, not, ◌&&◌, ◌||◌, Option, none, some, List, [], ◌∷◌, ◌++◌,
  ltb, leb, ◌==◌, if◌then◌else◌, Result, ok, err, ◌>>=◌, ◌>>◌, throw_if, length, any, all, map,
}
use koharu_suite.Prelude.Texts.{
  Text, text_eq, has, includes_unit, ends_with_unit, is_digit, split, join,
}
use koharu_suite.Prelude.Numbers.{whole}
use koharu_suite.Prelude.Sorting.{Sign, less, same, more, sort}
use koharu_suite.Archive.Paths.{
  canonicalize_archive_entry_path, archive_entry_path_collision_key, compare_archive_entry_paths,
}
use koharu_suite.Archive.Paths.Utf8.{byte_length}

pub record ChecksumEntry : Type 0 where
  pub size : Text
  pub path : Text
  pub sha256 : Text

pub record ChecksumParseLimits : Type 0 where
  pub max_entries : ℕ
  pub max_entry_bytes : ℕ
  pub max_file_bytes : ℕ
  pub max_line_bytes : ℕ
  pub max_path_bytes : ℕ
  pub max_path_segments : ℕ

-- `ChecksumFormatErrorCode`.
pub data ChecksumFormatErrorCode : Type 0 where
  byte_length_limit_exceeded duplicate_path empty_file : ChecksumFormatErrorCode
  entry_count_limit_exceeded input_limit_exceeded invalid_byte_length : ChecksumFormatErrorCode
  invalid_line invalid_path invalid_sha256 line_size_limit_exceeded : ChecksumFormatErrorCode
  non_canonical_order non_lf_line_ending : ChecksumFormatErrorCode

pub record ChecksumFormatError : Type 0 where
  pub code : ChecksumFormatErrorCode
  pub line : Option ℕ

abbrev pub failure : ChecksumFormatErrorCode → Option ℕ → ChecksumFormatError
failure code line = record { code = code; line = line }

-- `sha256HexSchema`: `/^[0-9a-f]{64}$/`.
abbrev pub is_sha256_hex : Text → Bool
is_sha256_hex s = (length s == 64) && all s (λ c. is_digit c || (leb b'a' c && leb c b'f'))

-- `canonicalNonNegativeDecimalSchema`: `/^(?:0|[1-9]\d*)$/`.
abbrev pub is_canonical_decimal : Text → Bool
is_canonical_decimal [] = false
is_canonical_decimal (c ∷ s) = if c == b'0' then length s == 0 else is_digit c && all s is_digit

-- `BigInt(s)` of such a text.
abbrev pub decimal_value : ℕ → Text → ℕ
decimal_value n [] = n
decimal_value n (c ∷ s) = decimal_value (10 * n + (c - b'0')) s

abbrev pub is_ok {ℓ κ} : {E : Type ℓ} {A : Type κ} → Result E A → Bool
is_ok (ok a) = true
is_ok (err e) = false

abbrev pub drop_last : Text → Text
drop_last [] = []
drop_last (c ∷ []) = []
drop_last (c ∷ d ∷ s) = c ∷ drop_last (d ∷ s)

-- A line of the file.
abbrev pub render_line : ChecksumEntry → Text
render_line e = join b'\t' (e.sha256 ∷ e.size ∷ e.path ∷ [])

abbrev pub compare_entries : ChecksumEntry → ChecksumEntry → Sign
compare_entries left right = compare_archive_entry_paths left.path right.path

abbrev pub entry_key : ChecksumEntry → Text
entry_key e = archive_entry_path_collision_key e.path

-- `previousPath !== null && compareArchiveEntryPaths(previousPath, entry.path) >= 0`.
abbrev pub is_less : Sign → Bool
is_less less = true
is_less same = false
is_less more = false

abbrev pub out_of_order : Option ChecksumEntry → ChecksumEntry → Bool
out_of_order none e = false
out_of_order (some previous) e = not (is_less (compare_entries previous e))

module _ (limits : ChecksumParseLimits) where
  -- The tests of `validateEntry`, in their order.
  abbrev pub validate_entry : Option ℕ → ChecksumEntry → Result ChecksumFormatError ChecksumEntry
  validate_entry line e = do
    throw_if (not (is_sha256_hex e.sha256)) (failure invalid_sha256 line)
    throw_if (not (is_canonical_decimal e.size)) (failure invalid_byte_length line)
    throw_if (ltb limits.max_entry_bytes (decimal_value 0 e.size))
        (failure byte_length_limit_exceeded line)
    throw_if
        (not (
          is_ok (
            canonicalize_archive_entry_path e.path (whole limits.max_path_bytes)
              (whole limits.max_path_segments))))
        (failure invalid_path line)
    ok e

  abbrev pub entry_of : ℕ → List Text → Result ChecksumFormatError ChecksumEntry
  entry_of n (sha256 ∷ size ∷ path ∷ []) =
      validate_entry (some n) (record { size = size; path = path; sha256 = sha256 })
  entry_of n [] = err (failure invalid_line (some n))
  entry_of n (a ∷ []) = err (failure invalid_line (some n))
  entry_of n (a ∷ b ∷ []) = err (failure invalid_line (some n))
  entry_of n (a ∷ b ∷ c ∷ d ∷ fields) = err (failure invalid_line (some n))

  -- The loop of `parseChecksumFile`: the keys so far, the entry before and the line's number.
  unfoldable pub parse_lines :
      List Text
      → Option ChecksumEntry
      → ℕ
      → List Text
      → Result ChecksumFormatError (List ChecksumEntry)
  parse_lines keys previous n [] = ok []
  parse_lines keys previous n (line ∷ lines) = do
    throw_if (ltb limits.max_line_bytes (byte_length line))
        (failure line_size_limit_exceeded (some n))
    entry ← entry_of n (split b'\t' line)
    throw_if (has keys (entry_key entry)) (failure duplicate_path (some n))
    throw_if (out_of_order previous entry) (failure non_canonical_order (some n))
    entries ← parse_lines (entry_key entry ∷ keys) (some entry) (n + 1) lines
    ok (entry ∷ entries)

  -- `parseChecksumFile`.
  unfoldable pub parse_checksum_file : Text → Result ChecksumFormatError (List ChecksumEntry)
  parse_checksum_file [] = ok []
  parse_checksum_file (c ∷ s) = do
    throw_if (ltb limits.max_file_bytes (byte_length (c ∷ s))) (failure input_limit_exceeded none)
    throw_if (includes_unit (c ∷ s) b'\r' || not (ends_with_unit (c ∷ s) b'\n'))
        (failure non_lf_line_ending none)
    throw_if (text_eq (c ∷ s) (b'\n' ∷ [])) (failure empty_file none)
    throw_if (ltb limits.max_entries (length (split b'\n' (drop_last (c ∷ s)))))
        (failure entry_count_limit_exceeded none)
    parse_lines [] none 1 (split b'\n' (drop_last (c ∷ s)))

  abbrev pub validate_entries : List ChecksumEntry → Result ChecksumFormatError (List ChecksumEntry)
  validate_entries [] = ok []
  validate_entries (e ∷ es) = do
    valid ← validate_entry none e
    valids ← validate_entries es
    ok (valid ∷ valids)

  -- Whether a path comes twice, up to the case of its letters.
  abbrev pub has_duplicate : List Text → List ChecksumEntry → Bool
  has_duplicate keys [] = false
  has_duplicate keys (e ∷ es) = has keys (entry_key e) || has_duplicate (entry_key e ∷ keys) es

  -- The loop over the lines of the output.
  abbrev pub check_lines : ℕ → List Text → Result ChecksumFormatError (Unit {0})
  check_lines n [] = ok tt
  check_lines n (line ∷ lines) = do
    throw_if (ltb limits.max_line_bytes (byte_length line))
        (failure line_size_limit_exceeded (some n))
    check_lines (n + 1) lines

  abbrev pub output_of : List ChecksumEntry → Text
  output_of es = join b'\n' (map render_line es) ++ b'\n' ∷ []

  -- The tests of the output.
  abbrev pub checked_output : Text → Result ChecksumFormatError Text
  checked_output output = do
    check_lines 1 (split b'\n' (drop_last output))
    throw_if (ltb limits.max_file_bytes (byte_length output)) (failure input_limit_exceeded none)
    ok output

  abbrev pub render_sorted : List ChecksumEntry → Result ChecksumFormatError Text
  render_sorted sorted = do
    throw_if (has_duplicate [] sorted) (failure duplicate_path none)
    checked_output (output_of sorted)

  -- `renderChecksumFile`.
  unfoldable pub render_checksum_file : List ChecksumEntry → Result ChecksumFormatError Text
  render_checksum_file [] = ok []
  render_checksum_file (e ∷ es) = do
    throw_if (ltb limits.max_entries (length (e ∷ es))) (failure entry_count_limit_exceeded none)
    valid ← validate_entries (e ∷ es)
    render_sorted (sort compare_entries valid)
