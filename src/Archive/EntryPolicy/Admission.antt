-- ===== src/Archive/EntryPolicy/Admission.antt =====
-- What the entries that a policy admits have in common, whatever their order.
use koharu_suite.Prelude.{
  ℕ, ◌+◌, ◌≤◌, ◌≡◌, refl, sym, ap, subst, ◌≢◌, Bool, true, false, not, ◌||◌, List, [], ◌∷◌, map,
  ltb→ge, ok, unchain, unthrow, ok-injective, length, sum_by, All, All-map, arith,
}
use koharu_suite.Prelude.Texts.{Text, Fresh, Distinct, Fresh-of_has}
use koharu_suite.Prelude.Numbers.{JsNumber, whole, is_safe_integer}
use koharu_suite.Archive.Limits.{ArchiveContainerLimits, Overrides, to_ℕ}
use koharu_suite.Archive.Limits.Consistency.{IsConsistent, resolve_archive_container_limits_sound}
use koharu_suite.Archive.Paths.{archive_entry_path_collision_key}
use koharu_suite.Archive.Paths.Canonical.{IsCanonical}
use koharu_suite.Archive.Paths.Acceptance.{canonicalize_archive_entry_path_iff}
use koharu_suite.Archive.EntryPolicy.{
  ArchiveEntryHeader, AcceptedArchiveEntry, ArchiveEntryPolicy, create, accept, accept_all,
  is_negative,
}

-- The state that every sequence of admissions keeps.
pub record IsWithin (p : ArchiveEntryPolicy) : Type 0 where
  pub consistent : IsConsistent p.limits
  pub counted : length p.seen_path_keys ≤ p.limits.max_entries
  pub weighed : p.entry_bytes ≤ p.limits.max_total_entry_bytes
  pub distinct : Distinct p.seen_path_keys

-- What one admission has checked, and what it changes.
record Admits (is_allowed_path : Text → Bool) (p : ArchiveEntryPolicy) (h : ArchiveEntryHeader)
    (e : AcceptedArchiveEntry) (q : ArchiveEntryPolicy) : Type 0 where
  named : e.path ≡ h.name
  sized : h.size ≡ whole e.byte_length
  canonical : IsCanonical e.path p.limits.max_path_bytes p.limits.max_path_segments
  allowed : is_allowed_path e.path ≡ true
  fresh : Fresh (archive_entry_path_collision_key e.path) p.seen_path_keys
  room : length p.seen_path_keys + 1 ≤ p.limits.max_entries
  fits : e.byte_length ≤ p.limits.max_entry_bytes
  total : p.entry_bytes + e.byte_length ≤ p.limits.max_total_entry_bytes
  same_limits : q.limits ≡ p.limits
  grown : q.seen_path_keys ≡ archive_entry_path_collision_key e.path ∷ p.seen_path_keys
  heavier : q.entry_bytes ≡ p.entry_bytes + e.byte_length

whole-to_ℕ :
    (v : JsNumber) → (not (is_safe_integer v) || is_negative v) ≡ false → v ≡ whole (to_ℕ v)
whole-to_ℕ v h = ground arith

module _ (is_allowed_path : Text → Bool) where
  accept-Admits :
      (p : ArchiveEntryPolicy) (h : ArchiveEntryHeader) (e : AcceptedArchiveEntry)
      (q : ArchiveEntryPolicy)
      → IsConsistent p.limits
      → accept is_allowed_path p h ≡ ok (e, q)
      → Admits is_allowed_path p h e q
  unfolding accept
  accept-Admits p h e q c s = unthrow _ _ _ s λ _ s1. unthrow _ _ _ s1 λ _ s2.
      unthrow _ _ _ s2 λ sized s3. unchain _ _ s3 λ path at s4. unthrow _ _ _ s4 λ new s5.
        unthrow _ _ _ s5 λ allowed s6. unthrow _ _ _ s6 λ room s7. unthrow _ _ _ s7 λ fits s8.
          unthrow _ _ _ s8 λ total s9.
            subst (λ r. Admits is_allowed_path p h r.0 r.1) (ok-injective s9)
              (let (same, canonical) =
                  (canonicalize_archive_entry_path_iff h.name _ _ c.path c.segments c.fits_ustar
                      path).0
                    at in
                record {
                  named = same;
                  sized = whole-to_ℕ h.size sized;
                  canonical = rw same canonical;
                  allowed = ground arith;
                  fresh = Fresh-of_has _ p.seen_path_keys new;
                  room = ltb→ge _ _ room;
                  fits = ltb→ge _ _ fits;
                  total = ltb→ge _ _ total;
                  same_limits = refl;
                  grown = refl;
                  heavier = refl;
                })

  accept-IsWithin :
      {p : ArchiveEntryPolicy} {h : ArchiveEntryHeader} {e : AcceptedArchiveEntry}
      {q : ArchiveEntryPolicy}
      → IsWithin p
      → Admits is_allowed_path p h e q
      → IsWithin q
  accept-IsWithin {p} {q} w a = record {
    consistent = subst IsConsistent (sym a.same_limits) w.consistent;
    counted = rw (a.grown, a.same_limits) (omega (arith, a.room));
    weighed = rw (a.heavier, a.same_limits) a.total;
    distinct = rw a.grown (a.fresh, w.distinct);
  }

  -- One entry that meets the limits on entries and paths.
  abbrev pub IsAdmissible : ArchiveContainerLimits → AcceptedArchiveEntry → Type 0
  IsAdmissible l e =
      IsCanonical e.path l.max_path_bytes l.max_path_segments
      × (is_allowed_path e.path ≡ true)
      × (e.byte_length ≤ l.max_entry_bytes)

abbrev pub keys : List AcceptedArchiveEntry → List Text
keys = map λ e. archive_entry_path_collision_key e.path

abbrev total_bytes : List AcceptedArchiveEntry → ℕ
total_bytes = sum_by λ e. e.byte_length

module _ (is_allowed_path : Text → Bool) where
  -- The entries of one archive, over a policy that has already admitted others.
  pub record AreAdmitted (p : ArchiveEntryPolicy) (hs : List ArchiveEntryHeader)
      (es : List AcceptedArchiveEntry) : Type 0 where
    pub named : map (λ e. e.path) es ≡ map (λ h. h.name) hs
    pub admissible : All (IsAdmissible is_allowed_path p.limits) es
    pub distinct : Distinct (keys es)
    pub fresh : All (λ k. Fresh k p.seen_path_keys) (keys es)
    pub counted : length p.seen_path_keys + length es ≤ p.limits.max_entries
    pub weighed : p.entry_bytes + total_bytes es ≤ p.limits.max_total_entry_bytes

  AreAdmitted-cons :
      {p : ArchiveEntryPolicy} {h : ArchiveEntryHeader} {e : AcceptedArchiveEntry}
      {q : ArchiveEntryPolicy} {hs : List ArchiveEntryHeader} {es : List AcceptedArchiveEntry}
      → Admits is_allowed_path p h e q
      → AreAdmitted q hs es
      → AreAdmitted p (h ∷ hs) (e ∷ es)
  AreAdmitted-cons {p} {h} {e} {q} {hs} {es} a r =
      let key = archive_entry_path_collision_key e.path in
      let fresh : All (λ k. Fresh k (key ∷ p.seen_path_keys)) (keys es) =
        subst (λ ks. All (λ k. Fresh k ks) (keys es)) a.grown r.fresh in
      record {
        named = cc (a.named, r.named);
        admissible = (
          (a.canonical, a.allowed, a.fits),
          subst (λ l. All (IsAdmissible is_allowed_path l) es) a.same_limits r.admissible,
        );
        distinct = (All-map _ (λ j. j ≢ key) (λ j f g. f.0 (sym g)) (keys es) fresh, r.distinct);
        fresh = (a.fresh, All-map _ (λ k. Fresh k p.seen_path_keys) (λ k f. f.1) (keys es) fresh);
        counted =
            omega (arith, r.counted, ap length a.grown, ap (λ l. l.max_entries) a.same_limits);
        weighed =
            omega (arith, r.weighed, a.heavier, ap (λ l. l.max_total_entry_bytes) a.same_limits);
      }

  accept_all-AreAdmitted :
      (p : ArchiveEntryPolicy) (hs : List ArchiveEntryHeader) (es : List AcceptedArchiveEntry)
      (q : ArchiveEntryPolicy)
      → IsWithin p
      → accept_all is_allowed_path p hs ≡ ok (es, q)
      → AreAdmitted p hs es × IsWithin q
  unfolding accept_all
  accept_all-AreAdmitted p [] es q w s =
      subst (λ r. AreAdmitted p [] r.0 × IsWithin r.1) (ok-injective s)
        (
          record {
            named = refl;
            admissible = tt;
            distinct = tt;
            fresh = tt;
            counted = omega (arith, w.counted);
            weighed = omega (arith, w.weighed);
          },
          w,
        )
  accept_all-AreAdmitted p (h ∷ hs) es q w s = unchain _ _ s λ (e, p') at s1.
      unchain _ _ s1 λ (rest, r) later s2.
        let a = accept-Admits is_allowed_path p h e p' w.consistent at in
        let (admitted, within) =
          accept_all-AreAdmitted p' hs rest r (accept-IsWithin is_allowed_path w a) later in
        subst (λ t. AreAdmitted p (h ∷ hs) t.0 × IsWithin t.1) (ok-injective s2)
          (AreAdmitted-cons a admitted, within)

-- An archive whose entries all pass a policy made from any overrides holds entries with the
-- headers' names, in order: each is canonical, allowed and within its size; no two have the same
-- collision key; and together they respect the limits on their number and their bytes.
pub admitted_archive :
    (is_allowed_path : Text → Bool) (o : Overrides) (p q : ArchiveEntryPolicy)
    (hs : List ArchiveEntryHeader) (es : List AcceptedArchiveEntry)
    → create o ≡ ok p
    → accept_all is_allowed_path p hs ≡ ok (es, q)
    → AreAdmitted is_allowed_path p hs es
unfolding create
admitted_archive is_allowed_path o p q hs es made s = unchain _ _ made λ l resolved at.
    (accept_all-AreAdmitted is_allowed_path p hs es q
      (subst IsWithin (ok-injective at) (record {
        consistent = (resolve_archive_container_limits_sound o l resolved).0;
        counted = omega arith;
        weighed = omega arith;
        distinct = tt;
      }))
      s).0
