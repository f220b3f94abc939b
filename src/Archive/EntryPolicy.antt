-- ===== src/Archive/EntryPolicy.antt =====
-- packages/archive-format/src/entry-policy.ts: `ArchiveEntryPolicy`, the admission of archive
-- entries one after another.
pub mod Admission
mod Tests
use koharu_suite.Prelude.{
  ℕ, ◌+◌, Bool, true, false, not, ◌&&◌, ◌||◌, Option, none, some, List, [], ◌∷◌, ltb, if◌then◌else◌,
  Result, ok, err, ◌>>=◌, ◌>>◌, throw_if, length,
}
use koharu_suite.Prelude.Texts.{Text, codes, text_eq, has}
use koharu_suite.Prelude.Numbers.{JsNumber, whole, minus, fraction, not_finite, is_safe_integer}
use koharu_suite.Archive.Errors.{
  ArchiveContainerErrorCode, unsupported_archive_entry_type, entry_size_limit_exceeded,
  duplicate_archive_path, extra_archive_entry, entry_count_limit_exceeded,
  total_entry_size_limit_exceeded,
}
use koharu_suite.Archive.Limits.{
  ArchiveContainerLimits, Overrides, resolve_archive_container_limits, to_ℕ,
}
use koharu_suite.Archive.Paths.{canonicalize_archive_entry_path, archive_entry_path_collision_key}

-- `null` and `undefined` are both `none`.
pub record ArchiveEntryHeader : Type 0 where
  pub name : Text
  pub size : JsNumber
  pub kind : Option Text
  pub linkname : Option Text

pub record AcceptedArchiveEntry : Type 0 where
  pub path : Text
  pub byte_length : ℕ

-- The set of path keys is a list, the newest first.
pub record ArchiveEntryPolicy : Type 0 where
  pub limits : ArchiveContainerLimits
  pub seen_path_keys : List Text
  pub entry_bytes : ℕ

-- The constructor; `isAllowedPath` is an argument of `accept`.
unfoldable pub create : Overrides → Result ArchiveContainerErrorCode ArchiveEntryPolicy
create overrides = do
  limits ← resolve_archive_container_limits overrides
  ok (record { limits = limits; seen_path_keys = []; entry_bytes = 0 })

abbrev pub is_not_file : Option Text → Bool
is_not_file none = false
is_not_file (some t) = not (text_eq t (codes "file"))

-- `if (header.linkname)`: an empty name is no link.
abbrev pub is_link : Option Text → Bool
is_link none = false
is_link (some []) = false
is_link (some (c ∷ s)) = true

abbrev pub is_negative : JsNumber → Bool
is_negative (whole n) = false
is_negative (minus n) = true
is_negative (fraction neg n) = neg
is_negative not_finite = false

-- `accept`: the entry and the policy after it, or the error, which leaves the policy as it was.
unfoldable pub accept :
    (Text → Bool)
    → ArchiveEntryPolicy
    → ArchiveEntryHeader
    → Result ArchiveContainerErrorCode (AcceptedArchiveEntry × ArchiveEntryPolicy)
accept is_allowed_path p header = do
  throw_if (is_not_file header.kind) unsupported_archive_entry_type
  throw_if (is_link header.linkname) unsupported_archive_entry_type
  throw_if (not (is_safe_integer header.size) || is_negative header.size) entry_size_limit_exceeded
  let size = to_ℕ header.size
  canonical_path ←
      canonicalize_archive_entry_path header.name (whole p.limits.max_path_bytes)
        (whole p.limits.max_path_segments)
  let path_key = archive_entry_path_collision_key canonical_path
  throw_if (has p.seen_path_keys path_key) duplicate_archive_path
  throw_if (not (is_allowed_path canonical_path)) extra_archive_entry
  throw_if (ltb p.limits.max_entries (length p.seen_path_keys + 1)) entry_count_limit_exceeded
  throw_if (ltb p.limits.max_entry_bytes size) entry_size_limit_exceeded
  throw_if (ltb p.limits.max_total_entry_bytes (p.entry_bytes + size))
      total_entry_size_limit_exceeded
  ok (
    record { path = canonical_path; byte_length = size },
    record p { seen_path_keys = path_key ∷ p.seen_path_keys; entry_bytes = p.entry_bytes + size },
  )

-- The policy over the entries of one archive, up to the first that it refuses.
unfoldable pub accept_all :
    (Text → Bool)
    → ArchiveEntryPolicy
    → List ArchiveEntryHeader
    → Result ArchiveContainerErrorCode (List AcceptedArchiveEntry × ArchiveEntryPolicy)
accept_all is_allowed_path p [] = ok ([], p)
accept_all is_allowed_path p (h ∷ hs) = do
  (entry, q) ← accept is_allowed_path p h
  (entries, r) ← accept_all is_allowed_path q hs
  ok (entry ∷ entries, r)
