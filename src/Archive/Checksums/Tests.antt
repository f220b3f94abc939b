-- ===== src/Archive/Checksums/Tests.antt =====
-- A checksum file of two entries, and the theorem at it.
use koharu_suite.Prelude.{
  ℕ, zero, suc, ◌≡◌, refl, ◌*◌, any, not, ◌&&◌, Bool, some, List, [], ◌∷◌, ◌++◌, ok, err, ◌>>=◌,
}
use koharu_suite.Prelude.Texts.{Text, codes, split, join, text_eq}
use koharu_suite.Prelude.Sorting.{sort, insert_before}
use koharu_suite.Archive.Limits.{finite_positive_safe_integer}
use koharu_suite.Archive.Paths.{
  canonicalize_archive_entry_path, text_refused, segment_refused, windows_device_segment,
  archive_entry_path_collision_key, compare_archive_entry_paths,
}
use koharu_suite.Archive.Paths.Utf8.{byte_length}
use koharu_suite.Archive.Paths.Posix.{normalize}
use koharu_suite.Archive.Checksums.{
  ChecksumEntry, ChecksumParseLimits, parse_lines, parse_checksum_file, render_checksum_file,
  failure, non_canonical_order, entry_key,
}
use koharu_suite.Archive.Checksums.Faithful.{parse_checksum_file-render_checksum_file}
use koharu_suite.Archive.Checksums.Comparison.{
  ChecksumPathComparison, declare, collect, compare_checksum_paths, compare_checksum_paths-any,
}

running : Unit {0}
unfolding finite_positive_safe_integer canonicalize_archive_entry_path text_refused segment_refused
    windows_device_segment archive_entry_path_collision_key compare_archive_entry_paths byte_length
    normalize split join sort insert_before parse_lines parse_checksum_file render_checksum_file
    declare collect compare_checksum_paths ◌>>=◌
running = tt

abbrev limits : ChecksumParseLimits
limits = record {
  max_entries = 100_000;
  max_entry_bytes = 1_000_000;
  max_file_bytes = 20 * 1_024 * 1_024;
  max_line_bytes = 256;
  max_path_bytes = 100;
  max_path_segments = 8;
}

abbrev repeat : ℕ → Text
repeat zero = []
repeat (suc n) = b'a' ∷ repeat n

abbrev entry : Text → Text → ChecksumEntry
entry size path = record { size = size; path = path; sha256 = repeat 64 }

abbrev line : Text → Text → Text
line size path = repeat 64 ++ b'\t' ∷ size ++ b'\t' ∷ path ++ b'\n' ∷ []

abbrev file : Text
file = line (codes "12") (codes "data/a.jsonl") ++ line (codes "0") (codes "manifest.json")

abbrev entries : List ChecksumEntry
entries = entry (codes "12") (codes "data/a.jsonl") ∷ entry (codes "0") (codes "manifest.json") ∷ []

parsed_run : parse_checksum_file limits file ≡ ok entries
unfolding running
parsed_run = refl

misordered_run :
    parse_checksum_file limits
      (line (codes "0") (codes "manifest.json") ++ line (codes "12") (codes "data/a.jsonl"))
    ≡ err (failure non_canonical_order (some 2))
unfolding running
misordered_run = refl

parse_checksum_file-render_checksum_file_example : render_checksum_file limits entries ≡ ok file
parse_checksum_file-render_checksum_file_example =
    parse_checksum_file-render_checksum_file limits file entries parsed_run

abbrev archived : List Text
archived = codes "manifest.json" ∷ codes "extra.txt" ∷ []

abbrev compared : ChecksumPathComparison
compared = record {
  unlisted_archive_paths = codes "extra.txt" ∷ [];
  undeclared_checksum_paths = codes "data/a.jsonl" ∷ [];
}

compared_run : compare_checksum_paths limits entries archived ≡ ok compared
unfolding running
compared_run = refl

abbrev is_extra : Text → Bool
is_extra = text_eq (codes "extra.txt")

compare_checksum_paths-any_example :
    (any compared.unlisted_archive_paths is_extra
      ≡ any archived (λ p.
        not (any entries (λ e. text_eq (archive_entry_path_collision_key p) (entry_key e)))
        && is_extra p))
    × (any compared.undeclared_checksum_paths is_extra
        ≡ any entries (λ e.
          not (any archived (λ p. text_eq (entry_key e) (archive_entry_path_collision_key p)))
          && is_extra e.path))
compare_checksum_paths-any_example =
    compare_checksum_paths-any limits entries archived compared compared_run is_extra
