-- ===== src/Ops/Doctor/Health.antt =====
-- When the check of the media cache's ledger in apps/server/src/ops/doctor.ts is good.
use koharu_suite.Prelude.{
  not-true, ◌≡◌, refl, sym, ap, ◌∙◌, ◌↔◌, ◌⊎◌, inl, inr, true, false, Option, none, some, arith, ok,
  Bool-cases, &&-true,
}
use koharu_suite.Prelude.Int.{ℤ, pos, negsuc, eqb_ℤ, eq_of_eqb_ℤ, eqb_ℤ_refl, add_ℤ, ltb_ℤ}
use koharu_suite.Ops.Doctor.{fail, good, DoctorMediaCacheLedgerSnapshot, DoctorDependencies}
use koharu_suite.Ops.Doctor.Checks.{
  check_media_cache_ledger, check_snapshot, counters_agree, check_runtime, check_counters,
  media_cache_max_bytes,
}

add-nonnegative :
    (a b : ℤ)
    → ltb_ℤ a (pos 0) ≡ false
    → ltb_ℤ b (pos 0) ≡ false
    → ltb_ℤ (add_ℤ a b) (pos 0) ≡ false
unfolding add_ℤ
add-nonnegative (pos a) (pos b) h k = ground arith
add-nonnegative (negsuc a) b h k = absurd (ground arith)
add-nonnegative (pos a) (negsuc b) h k = absurd (ground arith)

pub record IsConsistent (s : DoctorMediaCacheLedgerSnapshot) : Type 0 where
  pub one_row : s.runtime_row_count ≡ pos 1
  pub maximum : ℤ
  pub ready_bytes : s.runtime_ready_bytes ≡ some s.physical_blob_bytes
  pub reserved_bytes :
      s.runtime_reserved_bytes
      ≡ some (add_ℤ s.original_reserved_bytes s.active_thumbnail_reserved_bytes)
  pub max_bytes : s.runtime_max_bytes ≡ some maximum
  pub maximum_positive : ltb_ℤ (pos 0) maximum ≡ true
  pub maximum_bounded : ltb_ℤ (pos media_cache_max_bytes) maximum ≡ false
  pub physical : ltb_ℤ s.physical_blob_bytes (pos 0) ≡ false
  pub original : ltb_ℤ s.original_reserved_bytes (pos 0) ≡ false
  pub thumbnails : ltb_ℤ s.active_thumbnail_reserved_bytes (pos 0) ≡ false

module _ (deps : DoctorDependencies) (s : DoctorMediaCacheLedgerSnapshot) where
  agree-IsConsistent :
      (a b m : ℤ)
      → s.runtime_row_count ≡ pos 1
      → s.runtime_ready_bytes ≡ some a
      → s.runtime_reserved_bytes ≡ some b
      → s.runtime_max_bytes ≡ some m
      → counters_agree s a b m ≡ true
      → IsConsistent s
  unfolding counters_agree
  agree-IsConsistent a b m one r v x agree =
      let (front, matches) = &&-true _ _ agree in
      let (signs, range) = &&-true _ _ front in
      let (same_ready, same_reserved) = &&-true _ _ matches in
      let (positive, bounded) = &&-true _ _ range in
      let (signs1, thumbnails) = &&-true _ _ signs in
      let (signs2, original) = &&-true _ _ signs1 in
      let (_, ready) = &&-true _ _ signs2 in
      record {
        one_row = one;
        maximum = m;
        ready_bytes = r ∙ ap some (eq_of_eqb_ℤ a _ same_ready);
        reserved_bytes = v ∙ ap some (eq_of_eqb_ℤ b _ same_reserved);
        max_bytes = x;
        maximum_positive = positive;
        maximum_bounded = not-true _ bounded;
        physical = not-true _ ready;
        original = not-true _ original;
        thumbnails = not-true _ thumbnails;
      }

  check_runtime-IsConsistent :
      (ready reserved maximum : Option ℤ)
      → s.runtime_row_count ≡ pos 1
      → s.runtime_ready_bytes ≡ ready
      → s.runtime_reserved_bytes ≡ reserved
      → s.runtime_max_bytes ≡ maximum
      → (check_runtime deps s ready reserved maximum).status ≡ good
      → IsConsistent s
  check_runtime-IsConsistent (some a) (some b) (some m) one r v x h =
      elim (Bool-cases (counters_agree s a b m)) [
        | inl agree ↦ agree-IsConsistent a b m one r v x agree
        | inr no' ↦ absurd (ground (arith, h, no'))
      ]
  check_runtime-IsConsistent none b m one r v x h = absurd (cc)
  check_runtime-IsConsistent (some a) none m one r v x h = absurd (cc)
  check_runtime-IsConsistent (some a) (some b) none one r v x h = absurd (cc)

  consistent-agree :
      (c : IsConsistent s)
      → counters_agree s s.physical_blob_bytes
          (add_ℤ s.original_reserved_bytes s.active_thumbnail_reserved_bytes)
          c.maximum
        ≡ true
  unfolding counters_agree
  consistent-agree c =
      rw
        (
          c.physical,
          c.original,
          c.thumbnails,
          c.maximum_positive,
          c.maximum_bounded,
          add-nonnegative _ _ c.original c.thumbnails,
          eqb_ℤ_refl s.physical_blob_bytes,
          eqb_ℤ_refl (add_ℤ s.original_reserved_bytes s.active_thumbnail_reserved_bytes),
        )
        refl

  agree-good :
      (a b m : ℤ) → counters_agree s a b m ≡ true → (check_counters deps s a b m).status ≡ good
  agree-good a b m h = rw h refl

  runtime-good :
      (a b m : ℤ) (ready reserved maximum : Option ℤ)
      → ready ≡ some a
      → reserved ≡ some b
      → maximum ≡ some m
      → counters_agree s a b m ≡ true
      → (check_runtime deps s ready reserved maximum).status ≡ good
  runtime-good a b m ready reserved maximum r v x h = rw (r, v, x) (agree-good a b m h)

  consistent-good :
      (c : IsConsistent s)
      → (check_runtime deps s s.runtime_ready_bytes s.runtime_reserved_bytes
          s.runtime_max_bytes).status
        ≡ good
  consistent-good c =
      runtime-good _ _ _ _ _ _ c.ready_bytes c.reserved_bytes c.max_bytes (consistent-agree c)

  snapshot-empty : eqb_ℤ s.cache_row_count (pos 0) ≡ true → (check_snapshot deps s).status ≡ good
  snapshot-empty e = rw e refl

  snapshot-other :
      eqb_ℤ s.cache_row_count (pos 0) ≡ false
      → eqb_ℤ s.runtime_row_count (pos 1) ≡ false
      → (check_snapshot deps s).status ≡ fail
  snapshot-other e o = rw (e, o) refl

  snapshot-one :
      eqb_ℤ s.cache_row_count (pos 0) ≡ false
      → eqb_ℤ s.runtime_row_count (pos 1) ≡ true
      → (check_snapshot deps s).status
        ≡ (check_runtime deps s s.runtime_ready_bytes s.runtime_reserved_bytes
            s.runtime_max_bytes).status
  snapshot-one e o = rw (e, o) refl

  snapshot-IsConsistent :
      (check_snapshot deps s).status ≡ good → (s.cache_row_count ≡ pos 0) ⊎ IsConsistent s
  snapshot-IsConsistent h = elim (Bool-cases (eqb_ℤ s.cache_row_count (pos 0))) [
    | inl none' ↦ inl (eq_of_eqb_ℤ s.cache_row_count (pos 0) none')
    | inr some' ↦ elim (Bool-cases (eqb_ℤ s.runtime_row_count (pos 1))) [
      | inr other ↦ absurd (let f = snapshot-other some' other in cc)
      | inl one ↦ inr (
          check_runtime-IsConsistent _ _ _ (eq_of_eqb_ℤ s.runtime_row_count (pos 1) one) refl refl
            refl (sym (snapshot-one some' one) ∙ h))
    ]
  ]

  consistent-snapshot :
      (s.cache_row_count ≡ pos 0) ⊎ IsConsistent s → (check_snapshot deps s).status ≡ good
  consistent-snapshot (inl e) = snapshot-empty (ap (λ n. eqb_ℤ n (pos 0)) e)
  consistent-snapshot (inr c) = elim (Bool-cases (eqb_ℤ s.cache_row_count (pos 0))) [
    | inl none' ↦ snapshot-empty none'
    | inr some' ↦ snapshot-one some' (ap (λ n. eqb_ℤ n (pos 1)) c.one_row) ∙ consistent-good c
  ]

  answered-snapshot :
      deps.get_media_cache_ledger_snapshot ≡ ok s
      → check_media_cache_ledger deps ≡ check_snapshot deps s
  unfolding check_media_cache_ledger
  answered-snapshot answered = rw answered refl

-- When the database answers with a snapshot, the ledger's check is good exactly when the snapshot has
-- no cache row, or its one runtime row agrees with the sums of the ledger and has a maximum between
-- one byte and the limit, with no negative sum.
pub check_media_cache_ledger_iff :
    (deps : DoctorDependencies) (s : DoctorMediaCacheLedgerSnapshot)
    → deps.get_media_cache_ledger_snapshot ≡ ok s
    → ((check_media_cache_ledger deps).status ≡ good)
      ↔ ((s.cache_row_count ≡ pos 0) ⊎ IsConsistent s)
check_media_cache_ledger_iff deps s answered =
    let e = ap (λ r. r.status) (answered-snapshot deps s answered) in
    (λ h. snapshot-IsConsistent deps s (sym e ∙ h), λ c. e ∙ consistent-snapshot deps s c)
