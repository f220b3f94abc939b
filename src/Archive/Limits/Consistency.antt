-- ===== src/Archive/Limits/Consistency.antt =====
-- Which overrides of the container limits are accepted, and with what result.
use koharu_suite.Prelude.{
  ℕ, ◌≤◌, ◌≡◌, refl, true, false, arith, ok, unchain, unthrow, ok-injective, subst,
}
use koharu_suite.Prelude.Numbers.{JsNumber, whole, is_finite, below, max_safe_integer}
use koharu_suite.Archive.Limits.{
  ArchiveContainerLimits, Overrides, spread, ustar_name_bytes, finite_positive_safe_integer,
  resolve_archive_container_limits,
}

abbrev pub IsPositiveSafe : ℕ → Type 0
IsPositiveSafe n = (1 ≤ n) × (n ≤ max_safe_integer)

pub finite_positive_safe_integer-eq-ok :
    (v : JsNumber) {n : ℕ}
    → finite_positive_safe_integer v ≡ ok n
    → (v ≡ whole n) × IsPositiveSafe n
unfolding finite_positive_safe_integer
finite_positive_safe_integer-eq-ok v h = ground arith

pub finite_positive_safe_integer_whole :
    (n : ℕ) → IsPositiveSafe n → finite_positive_safe_integer (whole n) ≡ ok n
unfolding finite_positive_safe_integer
finite_positive_safe_integer_whole n h = ground arith

-- Limits that the container code can rely on.
pub record IsConsistent (l : ArchiveContainerLimits) : Type 0 where
  pub compressed : IsPositiveSafe l.max_compressed_bytes
  pub expanded : IsPositiveSafe l.max_expanded_bytes
  pub floor : IsPositiveSafe l.compression_ratio_floor_bytes
  pub entries : IsPositiveSafe l.max_entries
  pub entry : IsPositiveSafe l.max_entry_bytes
  pub total : IsPositiveSafe l.max_total_entry_bytes
  pub path : IsPositiveSafe l.max_path_bytes
  pub segments : IsPositiveSafe l.max_path_segments
  pub timeout : IsPositiveSafe l.no_progress_timeout_ms
  pub ratio : (is_finite l.max_compression_ratio ≡ true) × (below l.max_compression_ratio 1 ≡ false)
  pub fits_ustar : l.max_path_bytes ≤ ustar_name_bytes
  pub window : (10 ≤ l.zstd_window_log_max) × (l.zstd_window_log_max ≤ 30)
  pub entry_in_total : l.max_entry_bytes ≤ l.max_total_entry_bytes
  pub total_in_expanded : l.max_total_entry_bytes ≤ l.max_expanded_bytes

-- Every field is the caller's where the caller gives it, and the default's where not.
pub record IsMerged (o : Overrides) (l : ArchiveContainerLimits) : Type 0 where
  pub compressed : spread o.max_compressed_bytes (whole 8589934592) ≡ whole l.max_compressed_bytes
  pub expanded : spread o.max_expanded_bytes (whole 17179869184) ≡ whole l.max_expanded_bytes
  pub ratio : spread o.max_compression_ratio (whole 100) ≡ l.max_compression_ratio
  pub floor :
      spread o.compression_ratio_floor_bytes (whole 1048576) ≡ whole l.compression_ratio_floor_bytes
  pub entries : spread o.max_entries (whole 100000) ≡ whole l.max_entries
  pub entry : spread o.max_entry_bytes (whole 8589934591) ≡ whole l.max_entry_bytes
  pub total : spread o.max_total_entry_bytes (whole 17179868160) ≡ whole l.max_total_entry_bytes
  pub path : spread o.max_path_bytes (whole 100) ≡ whole l.max_path_bytes
  pub segments : spread o.max_path_segments (whole 16) ≡ whole l.max_path_segments
  pub timeout : spread o.no_progress_timeout_ms (whole 30000) ≡ whole l.no_progress_timeout_ms
  pub window : spread o.zstd_window_log_max (whole 27) ≡ whole l.zstd_window_log_max

-- Resolution that succeeds returns limits that are consistent, each the caller's or the default.
pub resolve_archive_container_limits_sound :
    (o : Overrides) (l : ArchiveContainerLimits)
    → resolve_archive_container_limits o ≡ ok l
    → IsConsistent l × IsMerged o l
unfolding resolve_archive_container_limits
resolve_archive_container_limits_sound o l h = unchain _ _ h λ compressed e1 h1.
    unchain _ _ h1 λ expanded e2 h2. unchain _ _ h2 λ floor e3 h3. unchain _ _ h3 λ entries e4 h4.
      unchain _ _ h4 λ entry e5 h5. unchain _ _ h5 λ total e6 h6. unchain _ _ h6 λ path e7 h7.
        unchain _ _ h7 λ segments e8 h8. unchain _ _ h8 λ timeout e9 h9.
          unchain _ _ h9 λ window e10 h10. unthrow _ _ _ h10 λ ratio h11.
            unthrow _ _ _ h11 λ ustar h12. unthrow _ _ _ h12 λ range h13.
              unthrow _ _ _ h13 λ order h14.
                subst (λ m. IsConsistent m × IsMerged o m) (ok-injective h14)
                  (
                    record {
                      compressed = (finite_positive_safe_integer-eq-ok _ e1).1;
                      expanded = (finite_positive_safe_integer-eq-ok _ e2).1;
                      floor = (finite_positive_safe_integer-eq-ok _ e3).1;
                      entries = (finite_positive_safe_integer-eq-ok _ e4).1;
                      entry = (finite_positive_safe_integer-eq-ok _ e5).1;
                      total = (finite_positive_safe_integer-eq-ok _ e6).1;
                      path = (finite_positive_safe_integer-eq-ok _ e7).1;
                      segments = (finite_positive_safe_integer-eq-ok _ e8).1;
                      timeout = (finite_positive_safe_integer-eq-ok _ e9).1;
                      ratio = ground arith;
                      fits_ustar = ground arith;
                      window = ground arith;
                      entry_in_total = ground arith;
                      total_in_expanded = ground arith;
                    },
                    record {
                      ratio = refl;
                      compressed = (finite_positive_safe_integer-eq-ok _ e1).0;
                      expanded = (finite_positive_safe_integer-eq-ok _ e2).0;
                      floor = (finite_positive_safe_integer-eq-ok _ e3).0;
                      entries = (finite_positive_safe_integer-eq-ok _ e4).0;
                      entry = (finite_positive_safe_integer-eq-ok _ e5).0;
                      total = (finite_positive_safe_integer-eq-ok _ e6).0;
                      path = (finite_positive_safe_integer-eq-ok _ e7).0;
                      segments = (finite_positive_safe_integer-eq-ok _ e8).0;
                      timeout = (finite_positive_safe_integer-eq-ok _ e9).0;
                      window = (finite_positive_safe_integer-eq-ok _ e10).0;
                    },
                  )
