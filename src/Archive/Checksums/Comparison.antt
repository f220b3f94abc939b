-- ===== src/Archive/Checksums/Comparison.antt =====
-- packages/archive-format/src/checksums.ts: `compareChecksumPaths`. A Map is the list of its entries.
use koharu_suite.Prelude.{
  ◌≡◌, refl, sym, ap, ◌∙◌, Bool, not, ◌&&◌, ◌||◌, none, List, [], ◌∷◌, ◌++◌, Result, ok, err, ◌>>=◌,
  ◌>>◌, throw_if, any, keep, map, unchain, unthrow, ok-injective, Bool-cases, inl, inr,
}
use mathlib.Core.List.{append_assoc, append-nil}
use koharu_suite.Prelude.Texts.{Text, text_eq}
use koharu_suite.Prelude.Numbers.{whole}
use koharu_suite.Prelude.Sorting.{sort, any-sort}
use koharu_suite.Archive.Errors.{ArchiveContainerErrorCode}
use koharu_suite.Archive.Paths.{
  canonicalize_archive_entry_path, archive_entry_path_collision_key, compare_archive_entry_paths,
}
use koharu_suite.Archive.Checksums.{
  ChecksumEntry, ChecksumParseLimits, ChecksumFormatError, failure, duplicate_path, invalid_path,
  entry_key, validate_entry,
}
use koharu_suite.Archive.Checksums.Faithful.{validate_entry-none}

-- A collision key with its path.
abbrev pub Keyed : Type 0
Keyed = Text × Text

abbrev pub keys_of : List Keyed → List Text
keys_of ks = map (λ k. k.0) ks

abbrev pub has_key : List Keyed → Text → Bool
has_key ks key = any ks (λ (k, path). text_eq key k)

abbrev pub keyed : Text → Keyed
keyed path = (archive_entry_path_collision_key path, path)

-- `ChecksumPathComparison`.
pub record ChecksumPathComparison : Type 0 where
  pub unlisted_archive_paths : List Text
  pub undeclared_checksum_paths : List Text

-- The paths of one side whose keys the other side lacks, sorted.
abbrev pub paths_without : List Keyed → List Keyed → List Text
paths_without other ks =
    sort compare_archive_entry_paths
      (map (λ k. k.1) (keep (λ (key, path). not (has_key other key)) ks))

abbrev pub or_invalid_path : Result ArchiveContainerErrorCode Text → Result ChecksumFormatError Text
or_invalid_path (ok path) = ok path
or_invalid_path (err e) = err (failure invalid_path none)

or_invalid_path-ok :
    (r : Result ArchiveContainerErrorCode Text) (path : Text)
    → or_invalid_path r ≡ ok path
    → r ≡ ok path
or_invalid_path-ok (ok p) path h = ap ok (ok-injective h)
or_invalid_path-ok (err e) path h = absurd (cc)

module _ (limits : ChecksumParseLimits) where
  -- `canonicalPath`.
  abbrev pub canonical_path : Text → Result ChecksumFormatError Text
  canonical_path path = or_invalid_path (
      canonicalize_archive_entry_path path (whole limits.max_path_bytes)
        (whole limits.max_path_segments))

  unfoldable pub declare : List ChecksumEntry → List Keyed → Result ChecksumFormatError (List Keyed)
  declare [] declared = ok declared
  declare (raw ∷ entries) declared = do
    entry ← validate_entry limits none raw
    throw_if (has_key declared (entry_key entry)) (failure duplicate_path none)
    declare entries (declared ++ keyed entry.path ∷ [])

  unfoldable pub collect : List Text → List Keyed → Result ChecksumFormatError (List Keyed)
  collect [] present = ok present
  collect (raw ∷ paths) present = do
    path ← canonical_path raw
    throw_if (has_key present (archive_entry_path_collision_key path)) (failure duplicate_path none)
    collect paths (present ++ keyed path ∷ [])

  -- `compareChecksumPaths`.
  unfoldable pub compare_checksum_paths :
      List ChecksumEntry → List Text → Result ChecksumFormatError ChecksumPathComparison
  compare_checksum_paths entries archive_paths = do
    declared ← declare entries []
    present ← collect archive_paths []
    ok (record {
      unlisted_archive_paths = paths_without declared present;
      undeclared_checksum_paths = paths_without present declared;
    })

  canonicalize-eq :
      (raw path : Text)
      → canonicalize_archive_entry_path raw
          (whole limits.max_path_bytes)
          (whole limits.max_path_segments)
        ≡ ok path
      → path ≡ raw
  unfolding canonicalize_archive_entry_path
  canonicalize-eq raw path h = unchain _ _ h λ bytes b h1. unchain _ _ h1 λ segments s h2.
      unthrow _ _ _ h2 λ ustar h3.
        unthrow _ _ _ h3 λ text h4.
          unthrow _ _ _ h4 λ parts h5. unthrow _ _ _ h5 λ normal h6. sym (ok-injective h6)

  canonical_path-eq : (raw path : Text) → canonical_path raw ≡ ok path → path ≡ raw
  canonical_path-eq raw path h = canonicalize-eq raw path (or_invalid_path-ok _ path h)

  declare-keyed :
      (entries : List ChecksumEntry) (before after : List Keyed)
      → declare entries before ≡ ok after
      → after ≡ before ++ map (λ e. keyed e.path) entries
  unfolding declare
  declare-keyed [] before after h = sym (ok-injective h) ∙ sym (append-nil before)
  declare-keyed (raw ∷ entries) before after h = unchain _ _ h λ entry valid h1.
      unthrow _ _ _ h1 λ fresh h2.
        declare-keyed entries _ after h2
        ∙ append_assoc before (keyed entry.path ∷ []) _
        ∙ ap (λ (x : ChecksumEntry). before ++ keyed x.path ∷ map (λ e. keyed e.path) entries)
            (sym (validate_entry-none limits none raw entry valid).0)

  collect-keyed :
      (paths : List Text) (before after : List Keyed)
      → collect paths before ≡ ok after
      → after ≡ before ++ map keyed paths
  unfolding collect
  collect-keyed [] before after h = sym (ok-injective h) ∙ sym (append-nil before)
  collect-keyed (raw ∷ paths) before after h = unchain _ _ h λ path canonical h1.
      unthrow _ _ _ h1 λ fresh h2.
        collect-keyed paths _ after h2
        ∙ append_assoc before (keyed path ∷ []) _
        ∙ ap (λ p. before ++ keyed p ∷ map keyed paths) (canonical_path-eq raw path canonical)

  -- Which paths are without a partner.
  any-keep-map :
      (f : Keyed → Bool) (q : Text → Bool) (ks : List Keyed)
      → any (map (λ k. k.1) (keep f ks)) q ≡ any ks (λ k. f k && q k.1)
  any-keep-map f q [] = refl
  any-keep-map f q (k ∷ ks) = elim (Bool-cases (f k)) [
    | inl yes' ↦ rw yes' (ap (λ b. q k.1 || b) (any-keep-map f q ks))
    | inr no' ↦ rw no' (any-keep-map f q ks)
  ]

  any-map :
      {A : Type 0} (f : A → Keyed) (q : Keyed → Bool) (xs : List A)
      → any (map f xs) q ≡ any xs (λ x. q (f x))
  any-map f q [] = refl
  any-map f q (x ∷ xs) = ap (λ b. q (f x) || b) (any-map f q xs)

  paths_without-any :
      (other ks : List Keyed) (q : Text → Bool)
      → any (paths_without other ks) q ≡ any ks (λ (key, path). not (has_key other key) && q path)
  paths_without-any other ks q =
      any-sort compare_archive_entry_paths q _
      ∙ any-keep-map (λ (key, path). not (has_key other key)) q ks

  -- A comparison without an error: a test holds of an unlisted path exactly where it holds of a path
  -- of the archive whose key no entry has, and of an undeclared one exactly where it holds of the path
  -- of an entry whose key no path of the archive has.
  pub compare_checksum_paths-any :
      (entries : List ChecksumEntry) (paths : List Text) (c : ChecksumPathComparison)
      → compare_checksum_paths entries paths ≡ ok c
      → (q : Text → Bool)
      → (any c.unlisted_archive_paths q
          ≡ any paths (λ p.
            not (any entries (λ e. text_eq (archive_entry_path_collision_key p) (entry_key e)))
            && q p))
        × (any c.undeclared_checksum_paths q
            ≡ any entries (λ e.
              not (any paths (λ p. text_eq (entry_key e) (archive_entry_path_collision_key p)))
              && q e.path))
  unfolding compare_checksum_paths
  compare_checksum_paths-any entries paths c h q = unchain _ _ h λ declared d h1.
      unchain _ _ h1 λ present p h2.
        let declared' = declare-keyed entries [] declared d in
        let present' = collect-keyed paths [] present p in
        let s = sym (ok-injective h2) in
        (
          ap (λ x. any x.unlisted_archive_paths q) s
              ∙ (λ i. any (paths_without (declared' i) (present' i)) q)
              ∙ paths_without-any (map (λ e. keyed e.path) entries) (map keyed paths) q
              ∙ any-map keyed _ paths
              ∙ (λ i. any paths (λ x.
                  not (
                    any-map (λ e. keyed e.path)
                      (λ k. text_eq (archive_entry_path_collision_key x) k.0) entries i)
                  && q x)),
          ap (λ x. any x.undeclared_checksum_paths q) s
              ∙ (λ i. any (paths_without (present' i) (declared' i)) q)
              ∙ paths_without-any (map keyed paths) (map (λ e. keyed e.path) entries) q
              ∙ any-map (λ e. keyed e.path) _ entries
              ∙ (λ i.
                  any entries (λ x.
                    not (any-map keyed (λ k. text_eq (entry_key x) k.0) paths i) && q x.path)),
        )
