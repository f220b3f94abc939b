-- ===== src/Archive/Limits.antt =====
-- packages/archive-format/src/entry-policy.ts: the container limits and their resolution. A code of
-- `ArchiveContainerError` stands for the error; its message is left out.
pub mod Consistency
use koharu_suite.Prelude.{
  ℕ, ◌+◌, ◌-◌, ◌*◌, Bool, not, ◌&&◌, ◌||◌, Option, none, some, ltb, leb, ◌==◌, if◌then◌else◌,
  Result, ok, err, ◌>>=◌, ◌>>◌, throw_if,
}
use koharu_suite.Prelude.Numbers.{
  JsNumber, whole, minus, fraction, not_finite, is_safe_integer, is_finite, below, max_safe_integer,
}
use koharu_suite.Archive.Errors.{ArchiveContainerErrorCode, invalid_archive_limit}

abbrev pub mebibyte : ℕ
mebibyte = 1024 * 1024

abbrev pub gibibyte : ℕ
gibibyte = 1024 * mebibyte

abbrev pub ustar_name_bytes : ℕ
ustar_name_bytes = 100

-- `Readonly<ArchiveContainerLimits>` after validation: all fields but the ratio are whole numbers.
pub record ArchiveContainerLimits : Type 0 where
  pub max_compressed_bytes : ℕ
  pub max_expanded_bytes : ℕ
  pub max_compression_ratio : JsNumber
  pub compression_ratio_floor_bytes : ℕ
  pub max_entries : ℕ
  pub max_entry_bytes : ℕ
  pub max_total_entry_bytes : ℕ
  pub max_path_bytes : ℕ
  pub max_path_segments : ℕ
  pub no_progress_timeout_ms : ℕ
  pub zstd_window_log_max : ℕ

-- `Partial<ArchiveContainerLimits>`: `none` is a property that is not there.
pub record Overrides : Type 0 where
  pub max_compressed_bytes : Option JsNumber
  pub max_expanded_bytes : Option JsNumber
  pub max_compression_ratio : Option JsNumber
  pub compression_ratio_floor_bytes : Option JsNumber
  pub max_entries : Option JsNumber
  pub max_entry_bytes : Option JsNumber
  pub max_total_entry_bytes : Option JsNumber
  pub max_path_bytes : Option JsNumber
  pub max_path_segments : Option JsNumber
  pub no_progress_timeout_ms : Option JsNumber
  pub zstd_window_log_max : Option JsNumber

abbrev pub default_archive_container_limits : ArchiveContainerLimits
default_archive_container_limits = record {
  max_compressed_bytes = 8 * gibibyte;
  max_expanded_bytes = 16 * gibibyte;
  max_compression_ratio = whole 100;
  compression_ratio_floor_bytes = mebibyte;
  max_entries = 100_000;
  max_entry_bytes = 8 * gibibyte - 1;
  max_total_entry_bytes = 16 * gibibyte - 1024;
  max_path_bytes = ustar_name_bytes;
  max_path_segments = 16;
  no_progress_timeout_ms = 30_000;
  zstd_window_log_max = 27;
}

-- A property of `{ ...defaults, ...overrides }`.
abbrev pub spread : Option JsNumber → JsNumber → JsNumber
spread none d = d
spread (some v) d = v

-- The value of a whole number; the other numbers never pass the test in front of it.
abbrev pub to_ℕ : JsNumber → ℕ
to_ℕ (whole n) = n
to_ℕ (minus n) = 0
to_ℕ (fraction neg n) = 0
to_ℕ not_finite = 0

-- `finitePositiveSafeInteger`.
unfoldable pub finite_positive_safe_integer : JsNumber → Result ArchiveContainerErrorCode ℕ
finite_positive_safe_integer v =
    if not (is_safe_integer v) || below v 1 then err invalid_archive_limit else ok (to_ℕ v)

-- `resolveArchiveContainerLimits`.
unfoldable pub resolve_archive_container_limits :
    Overrides → Result ArchiveContainerErrorCode ArchiveContainerLimits
resolve_archive_container_limits o =
    let d = default_archive_container_limits in
    do
      compressed ←
          finite_positive_safe_integer
            (spread o.max_compressed_bytes (whole d.max_compressed_bytes))
      expanded ←
          finite_positive_safe_integer (spread o.max_expanded_bytes (whole d.max_expanded_bytes))
      floor ←
          finite_positive_safe_integer
            (spread o.compression_ratio_floor_bytes (whole d.compression_ratio_floor_bytes))
      entries ← finite_positive_safe_integer (spread o.max_entries (whole d.max_entries))
      entry ← finite_positive_safe_integer (spread o.max_entry_bytes (whole d.max_entry_bytes))
      total ←
          finite_positive_safe_integer
            (spread o.max_total_entry_bytes (whole d.max_total_entry_bytes))
      path ← finite_positive_safe_integer (spread o.max_path_bytes (whole d.max_path_bytes))
      segments ←
          finite_positive_safe_integer (spread o.max_path_segments (whole d.max_path_segments))
      timeout ←
          finite_positive_safe_integer
            (spread o.no_progress_timeout_ms (whole d.no_progress_timeout_ms))
      window ←
          finite_positive_safe_integer (spread o.zstd_window_log_max (whole d.zstd_window_log_max))
      let ratio = spread o.max_compression_ratio d.max_compression_ratio
      throw_if (not (is_finite ratio) || below ratio 1) invalid_archive_limit
      throw_if (ltb ustar_name_bytes path) invalid_archive_limit
      throw_if (ltb window 10 || ltb 30 window) invalid_archive_limit
      throw_if (ltb total entry || ltb expanded total) invalid_archive_limit
      ok (record {
        max_compressed_bytes = compressed;
        max_expanded_bytes = expanded;
        max_compression_ratio = ratio;
        compression_ratio_floor_bytes = floor;
        max_entries = entries;
        max_entry_bytes = entry;
        max_total_entry_bytes = total;
        max_path_bytes = path;
        max_path_segments = segments;
        no_progress_timeout_ms = timeout;
        zstd_window_log_max = window;
      })
