-- ===== src/Archive/Paths/Canonical.antt =====
-- Which paths `canonicalizeArchiveEntryPath` accepts, stated over the segments alone.
use mathlib.Core.List.{reverse, reverse-cons, append_assoc, append-nil}
use koharu_suite.Prelude.{
  ℕ, ◌≤◌, ◌≡◌, refl, sym, ◌∙◌, ◌≢◌, Bool, true, false, ◌||◌, List, [], ◌∷◌, ◌++◌, ◌==◌, arith,
  length, all, any, All, any-of_All, ltb, Bool-cases, inl, inr, All-map, le→ltb_false, subst,
  &&-true, lt→==_false, ◌<◌,
}
use koharu_suite.Prelude.Texts.{
  Text, codes, text_eq_iff, ends_with_unit, split, join-split, cons_first,
}
use koharu_suite.Archive.Paths.{
  is_portable, windows_device_segment, is_graphic, text_refused, segment_refused,
}
use koharu_suite.Archive.Paths.Utf8.{byte_length, byte_length-ascii}
use koharu_suite.Archive.Paths.Posix.{
  resolve_segment, resolve_segments, normalize, starts_with_slash,
}

-- A segment that names one entry on every platform and cannot leave its directory.
pub record IsSafeSegment (s : Text) : Type 0 where
  pub named : s ≢ []
  pub not_here : s ≢ codes "."
  pub not_up : s ≢ codes ".."
  pub portable : all s is_portable ≡ true
  pub not_dotted : ends_with_unit s b'.' ≡ false
  pub not_device : windows_device_segment s ≡ false

pub record IsCanonical (raw : Text) (max_path_bytes max_path_segments : ℕ) : Type 0 where
  pub short : length raw ≤ max_path_bytes
  pub shallow : length (split b'/' raw) ≤ max_path_segments
  pub safe : All IsSafeSegment (split b'/' raw)

pub IsSafeSegment-of_test : (s : Text) → segment_refused s ≡ false → IsSafeSegment s
unfolding segment_refused
IsSafeSegment-of_test [] h = absurd (cc)
IsSafeSegment-of_test (c ∷ s) h = record {
  named = λ e. cc;
  not_here = ground (arith, text_eq_iff (c ∷ s) (codes "."));
  not_up = ground (arith, text_eq_iff (c ∷ s) (codes ".."));
  portable = ground arith;
  not_dotted = ground arith;
  not_device = ground arith;
}

pub segment_refused-of_IsSafeSegment : (s : Text) → IsSafeSegment s → segment_refused s ≡ false
unfolding segment_refused
segment_refused-of_IsSafeSegment [] h = absurd (h.named refl)
segment_refused-of_IsSafeSegment (c ∷ s) h =
    ground (arith, text_eq_iff (c ∷ s) (codes "."), text_eq_iff (c ∷ s) (codes ".."))

-- Normalising changes nothing where every segment is plain.
resolve_segment_of_IsSafeSegment :
    (above : Bool) (kept : List Text) (p : Text)
    → IsSafeSegment p
    → resolve_segment above kept p ≡ p ∷ kept
unfolding resolve_segment
resolve_segment_of_IsSafeSegment above [] p h =
    ground (arith, text_eq_iff p [], text_eq_iff p (codes "."), text_eq_iff p (codes ".."))
resolve_segment_of_IsSafeSegment above (q ∷ kept) p h =
    ground (arith, text_eq_iff p [], text_eq_iff p (codes "."), text_eq_iff p (codes ".."))

resolve_segments_of_IsSafeSegment :
    (above : Bool) (kept ps : List Text)
    → All IsSafeSegment ps
    → resolve_segments above kept ps ≡ reverse kept ++ ps
unfolding resolve_segments
resolve_segments_of_IsSafeSegment above kept [] h = sym (append-nil _)
resolve_segments_of_IsSafeSegment above kept (p ∷ ps) (h, hs) =
    rw (resolve_segment_of_IsSafeSegment above kept p h)
      (resolve_segments_of_IsSafeSegment above (p ∷ kept) ps hs ∙ simp (reverse-cons, append_assoc))

-- The slashes that a path of named segments cannot have.
IsNamed-starts : (s : Text) → All IsSafeSegment (split b'/' s) → starts_with_slash s ≡ false
unfolding split
IsNamed-starts [] h = refl
IsNamed-starts (c ∷ s) h = elim (Bool-cases (c == b'/')) [
  | inl slash ↦ absurd ((rw (slash, split) at h).0.named refl)
  | inr other ↦ other
]

abbrev last_empty : List Text → Bool
last_empty [] = false
last_empty ([] ∷ []) = true
last_empty ((c ∷ s) ∷ []) = false
last_empty (p ∷ q ∷ ps) = last_empty (q ∷ ps)

-- At least two parts, the last of them empty.
abbrev ends_empty : List Text → Bool
ends_empty [] = false
ends_empty (p ∷ ps) = last_empty ps

ends_empty-cons_first :
    (c : ℕ) (ps : List Text) → ends_empty ps ≡ true → ends_empty (cons_first c ps) ≡ true
ends_empty-cons_first c [] h = cc
ends_empty-cons_first c (p ∷ ps) h = h

last_empty_of_ends_empty : (ps : List Text) → ends_empty ps ≡ true → last_empty ps ≡ true
last_empty_of_ends_empty [] h = cc
last_empty_of_ends_empty (p ∷ []) h = cc
last_empty_of_ends_empty (p ∷ q ∷ ps) h = h

ends_empty-split : (s : Text) → ends_with_unit s b'/' ≡ true → ends_empty (split b'/' s) ≡ true
unfolding split
ends_empty-split [] h = cc
ends_empty-split (c ∷ []) h = rw h
ends_empty-split (c ∷ d ∷ s) h =
    let ih = ends_empty-split (d ∷ s) h in
    elim (Bool-cases (c == b'/')) [
      | inl slash ↦ rw slash (last_empty_of_ends_empty (split b'/' (d ∷ s)) ih)
      | inr other ↦ rw other (ends_empty-cons_first c (split b'/' (d ∷ s)) ih)
    ]

last_empty-IsSafe : (ps : List Text) → All IsSafeSegment ps → last_empty ps ≡ false
last_empty-IsSafe [] h = refl
last_empty-IsSafe ([] ∷ []) (h, k) = absurd (h.named refl)
last_empty-IsSafe ((c ∷ s) ∷ []) h = refl
last_empty-IsSafe (p ∷ q ∷ ps) (h, k) = last_empty-IsSafe (q ∷ ps) k

IsSafe-ends : (s : Text) → All IsSafeSegment (split b'/' s) → ends_with_unit s b'/' ≡ false
IsSafe-ends s h = elim (Bool-cases (ends_with_unit s b'/')) [
  | inl e ↦ absurd (
      cc (
        last_empty-IsSafe (split b'/' s) h,
        last_empty_of_ends_empty (split b'/' s) (ends_empty-split s e),
      ))
  | inr e ↦ e
]

-- Every unit of the path is a unit of a segment, or a slash.
abbrev is_path_unit : ℕ → Bool
is_path_unit c = (c == b'/') || is_portable c

abbrev AllPortable : List Text → Type 0
AllPortable = All λ p. all p is_portable ≡ true

AllPortable-cons_first :
    (c : ℕ) (ps : List Text)
    → AllPortable (cons_first c ps)
    → (is_portable c ≡ true) × AllPortable ps
AllPortable-cons_first c [] (h, k) = ((&&-true _ _ h).0, tt)
AllPortable-cons_first c (p ∷ ps) (h, k) = let (here, rest) = &&-true _ _ h in (here, (rest, k))

path_units : (s : Text) → AllPortable (split b'/' s) → All (λ c. is_path_unit c ≡ true) s
unfolding split
path_units [] h = tt
path_units (c ∷ s) h = elim (Bool-cases (c == b'/')) [
  | inl slash ↦ (rw slash, path_units s ((rw (slash, split) at h).1))
  | inr other ↦
      let (here, rest) = AllPortable-cons_first c (split b'/' s) (rw (other, split) at h) in
      (rw (other, here), path_units s rest)
]

-- What every unit of such a path satisfies.
record IsPlainUnit (c : ℕ) : Type 0 where
  graphic : is_graphic c ≡ true
  ascii : ltb c 0x80 ≡ true
  not_nul : (c == 0) ≡ false
  not_backslash : (c == b'\\') ≡ false
  not_replacement : (c == 0xfffd) ≡ false

path_unit_bounds :
    (c : ℕ) → is_path_unit c ≡ true → (0x21 ≤ c) × (c ≤ 0x7e) × ((c == b'\\') ≡ false)
path_unit_bounds c h = ground arith

is_path_unit-IsPlainUnit : (c : ℕ) → is_path_unit c ≡ true → IsPlainUnit c
is_path_unit-IsPlainUnit c h =
    let (low, high, backslash) = path_unit_bounds c h in
    let small : c < 0xfffd = omega arith in
    record {
      graphic = ground arith;
      ascii = ground arith;
      not_nul = ground arith;
      not_backslash = backslash;
      not_replacement = lt→==_false c 0xfffd small;
    }

all-of_All : (p : ℕ → Bool) (s : Text) → All (λ c. p c ≡ true) s → all s p ≡ true
all-of_All p [] h = refl
all-of_All p (c ∷ s) (h, k) = rw (h, all-of_All p s k)

IsSafe-split_nonempty :
    (raw : Text) → All IsSafeSegment (split b'/' raw) → (length raw == 0) ≡ false
unfolding split
IsSafe-split_nonempty [] h = absurd (h.0.named refl)
IsSafe-split_nonempty (c ∷ s) h = ground arith

module _ (raw : Text) (max_path_bytes max_path_segments : ℕ)
    (canonical : IsCanonical raw max_path_bytes max_path_segments) where
  plain_units : All IsPlainUnit raw
  plain_units =
      All-map (λ c. is_path_unit c ≡ true) IsPlainUnit is_path_unit-IsPlainUnit raw
        (path_units raw (
          All-map IsSafeSegment (λ p. all p is_portable ≡ true) (λ p h. h.portable) (split b'/' raw)
            canonical.safe))

  lacks_unit : (p : ℕ → Bool) → ((c : ℕ) → IsPlainUnit c → p c ≡ false) → any raw p ≡ false
  lacks_unit p h = any-of_All p raw (All-map IsPlainUnit (λ c. p c ≡ false) h raw plain_units)

  has_units : (p : ℕ → Bool) → ((c : ℕ) → IsPlainUnit c → p c ≡ true) → all raw p ≡ true
  has_units p h = all-of_All p raw (All-map IsPlainUnit (λ c. p c ≡ true) h raw plain_units)

  IsCanonical-bytes : byte_length raw ≡ length raw
  IsCanonical-bytes = byte_length-ascii raw (has_units (λ c. ltb c 0x80) (λ c h. h.ascii))

  pub IsCanonical-text : text_refused raw max_path_bytes ≡ false
  unfolding text_refused
  IsCanonical-text = rw (
    IsSafe-split_nonempty raw canonical.safe,
    lacks_unit (λ c. c == 0) (λ c h. h.not_nul),
    lacks_unit (λ c. c == b'\\') (λ c h. h.not_backslash),
    lacks_unit (λ c. c == 0xfffd) (λ c h. h.not_replacement),
    has_units is_graphic (λ c h. h.graphic),
    le→ltb_false _ _ (subst (λ n. n ≤ max_path_bytes) (sym IsCanonical-bytes) canonical.short),
    IsNamed-starts raw canonical.safe,
    IsSafe-ends raw canonical.safe,
  )

  pub IsCanonical-normal : normalize raw ≡ raw
  unfolding normalize
  IsCanonical-normal =
      rw
        (
          IsNamed-starts raw canonical.safe,
          IsSafe-ends raw canonical.safe,
          resolve_segments_of_IsSafeSegment true [] (split b'/' raw) canonical.safe,
          join-split b'/' raw,
          IsSafe-split_nonempty raw canonical.safe,
        )
        (append-nil raw)
