-- ===== src/Archive/Checksums/Faithful.antt =====
-- `parseChecksumFile` and then `renderChecksumFile` of packages/archive-format/src/checksums.ts.
use koharu_suite.Prelude.{
  ℕ, ◌+◌, ◌≡◌, refl, sym, ap, ◌∙◌, subst, arith, Bool, true, false, not, Option, none, some, List,
  [], ◌∷◌, ◌++◌, ltb, Result, ok, ◌>>=◌, ◌>>◌, throw_if, length, map, ||-false, unchain, unthrow,
  ok-injective, ==_iff,
}
use koharu_suite.Prelude.Texts.{
  Text, has, includes_unit, ends_with_unit, split, join, join-split, split_some,
}
use koharu_suite.Prelude.Sorting.{Sign, less, same, more, sort, insert_before}
use koharu_suite.Prelude.Numbers.{whole}
use koharu_suite.Archive.Paths.{canonicalize_archive_entry_path}
use koharu_suite.Archive.Paths.Utf8.{byte_length}
use koharu_suite.Archive.Checksums.{
  ChecksumEntry, ChecksumParseLimits, ChecksumFormatError, is_sha256_hex, is_canonical_decimal,
  decimal_value, is_ok, drop_last, render_line, compare_entries, entry_key, is_less, out_of_order,
  validate_entry, entry_of, parse_lines, parse_checksum_file, validate_entries, has_duplicate,
  check_lines, checked_output, render_sorted, render_checksum_file,
}

drop_last-ends_with_unit :
    (s : Text) (c : ℕ) → ends_with_unit s c ≡ true → drop_last s ++ c ∷ [] ≡ s
drop_last-ends_with_unit [] c h = absurd (cc)
drop_last-ends_with_unit (a ∷ []) c h = ap (λ x. x ∷ []) (sym ((==_iff a c).0 h))
drop_last-ends_with_unit (a ∷ b ∷ s) c h = ap (λ t. a ∷ t) (drop_last-ends_with_unit (b ∷ s) c h)

-- Each entry comes after the one before it.
abbrev Ascends : Option ChecksumEntry → List ChecksumEntry → Type 0
Ascends previous [] = Unit {0}
Ascends previous (e ∷ es) = (out_of_order previous e ≡ false) × Ascends (some e) es

less-of_test : (s : Sign) → not (is_less s) ≡ false → s ≡ less
less-of_test less h = refl
less-of_test same h = absurd (cc)
less-of_test more h = absurd (cc)

sort-Ascends :
    (es : List ChecksumEntry) (previous : Option ChecksumEntry)
    → Ascends previous es
    → sort compare_entries es ≡ es
unfolding sort insert_before
sort-Ascends [] previous h = refl
sort-Ascends (e ∷ []) previous h = refl
sort-Ascends (e ∷ f ∷ es) previous (h, (after, hs)) =
    ap (insert_before compare_entries e) (sort-Ascends (f ∷ es) (some e) (after, hs))
    ∙ front (compare_entries e f) refl (less-of_test (compare_entries e f) after)
  where
    front :
        (s : Sign)
        → compare_entries e f ≡ s
        → s ≡ less
        → insert_before compare_entries e (f ∷ es) ≡ e ∷ f ∷ es
    front s h l = rw (h ∙ l, insert_before) refl

drop_last-append : (s : Text) (c : ℕ) → drop_last (s ++ c ∷ []) ≡ s
drop_last-append [] c = refl
drop_last-append (a ∷ []) c = refl
drop_last-append (a ∷ b ∷ s) c = ap (λ t. a ∷ t) (drop_last-append (b ∷ s) c)

-- Steps of a chain that go through.
bound :
    {A B : Type 0} (m : Result ChecksumFormatError A) (f : A → Result ChecksumFormatError B) {a : A}
    → m ≡ ok a
    → (m >>= f) ≡ f a
unfolding ◌>>=◌
bound m f h = rw h refl

passed :
    {B : Type 0} (t : Bool) (x : ChecksumFormatError) (k : Result ChecksumFormatError B)
    → t ≡ false
    → (throw_if t x >> k) ≡ k
unfolding ◌>>=◌
passed t x k h = rw h refl

not-false : (b : Bool) → not b ≡ false → b ≡ true
not-false true h = refl
not-false false h = absurd (cc)

module _ (limits : ChecksumParseLimits) where
  -- The tests that an entry passes.
  record IsValid (e : ChecksumEntry) : Type 0 where
    pub hex : not (is_sha256_hex e.sha256) ≡ false
    pub decimal : not (is_canonical_decimal e.size) ≡ false
    pub small : ltb limits.max_entry_bytes (decimal_value 0 e.size) ≡ false
    pub safe :
        not (
          is_ok (
            canonicalize_archive_entry_path e.path
              (whole limits.max_path_bytes)
              (whole limits.max_path_segments)))
        ≡ false

  validate_entry-IsValid :
      (line : Option ℕ) (e e' : ChecksumEntry)
      → validate_entry limits line e ≡ ok e'
      → (e ≡ e') × IsValid e
  validate_entry-IsValid line e e' h = unthrow _ _ _ h λ hex h1. unthrow _ _ _ h1 λ decimal h2.
      unthrow _ _ _ h2 λ small h3. unthrow _ _ _ h3 λ safe h4.
        (ok-injective h4, record { hex = hex; decimal = decimal; small = small; safe = safe })

  validate_entry-of_IsValid :
      (line : Option ℕ) (e : ChecksumEntry) → IsValid e → validate_entry limits line e ≡ ok e
  unfolding ◌>>=◌
  validate_entry-of_IsValid line e v = rw (v.hex, v.decimal, v.small, v.safe) refl

  pub validate_entry-none :
      (line : Option ℕ) (e e' : ChecksumEntry)
      → validate_entry limits line e ≡ ok e'
      → (e ≡ e') × (validate_entry limits none e' ≡ ok e')
  validate_entry-none line e e' h =
      let (same', valid) = validate_entry-IsValid line e e' h in
      (same', validate_entry-of_IsValid none e' (subst IsValid same' valid))

  entry_of-render_line :
      (n : ℕ) (fields : List Text) (e : ChecksumEntry)
      → entry_of limits n fields ≡ ok e
      → (render_line e ≡ join b'\t' fields) × (validate_entry limits none e ≡ ok e)
  entry_of-render_line n [] e h = absurd (cc)
  entry_of-render_line n (a ∷ []) e h = absurd (cc)
  entry_of-render_line n (a ∷ b ∷ []) e h = absurd (cc)
  entry_of-render_line n (a ∷ b ∷ c ∷ d ∷ fields) e h = absurd (cc)
  entry_of-render_line n (a ∷ b ∷ c ∷ []) e h =
      let (same', valid) = validate_entry-none (some n) _ e h in (ap render_line (sym same'), valid)

  -- What the lines that were parsed say.
  record AreParsed (keys : List Text) (previous : Option ChecksumEntry) (lines : List Text)
      (entries : List ChecksumEntry) : Type 0 where
    pub rendered : map render_line entries ≡ lines
    pub valid : validate_entries limits entries ≡ ok entries
    pub distinct : has_duplicate limits keys entries ≡ false
    pub ascending : Ascends previous entries
    pub short : (n : ℕ) → check_lines limits n lines ≡ ok tt

  line-AreParsed :
      (keys : List Text) (previous : Option ChecksumEntry) (line : Text) (lines : List Text)
      (e : ChecksumEntry) (es : List ChecksumEntry)
      → ltb limits.max_line_bytes (byte_length line) ≡ false
      → has keys (entry_key e) ≡ false
      → out_of_order previous e ≡ false
      → (render_line e ≡ line) × (validate_entry limits none e ≡ ok e)
      → AreParsed (entry_key e ∷ keys) (some e) lines es
      → AreParsed keys previous (line ∷ lines) (e ∷ es)
  unfolding ◌>>=◌
  line-AreParsed keys previous line lines e es size fresh order (rendered, valid) p = record {
    rendered = ap (λ t. t ∷ map render_line es) rendered ∙ ap (λ ts. line ∷ ts) p.rendered;
    valid = rw (valid, p.valid) refl;
    distinct = rw (fresh, p.distinct) refl;
    ascending = (order, p.ascending);
    short = λ m. rw (size, p.short (m + 1)) refl;
  }

  parse_lines-AreParsed :
      (lines : List Text) (keys : List Text) (previous : Option ChecksumEntry) (n : ℕ)
      (entries : List ChecksumEntry)
      → parse_lines limits keys previous n lines ≡ ok entries
      → AreParsed keys previous lines entries
  unfolding parse_lines
  parse_lines-AreParsed [] keys previous n entries h =
      subst (AreParsed keys previous []) (ok-injective h) (record {
        rendered = refl;
        valid = refl;
        distinct = refl;
        ascending = tt;
        short = λ n. refl;
      })
  parse_lines-AreParsed (line ∷ lines) keys previous n entries h = unthrow _ _ _ h λ size h1.
      unchain _ _ h1 λ e entered h2. unthrow _ _ _ h2 λ fresh h3. unthrow _ _ _ h3 λ order h4.
        unchain _ _ h4 λ es rest h5.
          let (rendered, valid) = entry_of-render_line n (split b'\t' line) e entered in
          subst (AreParsed keys previous (line ∷ lines)) (ok-injective h5) (
            line-AreParsed keys previous line lines e es size fresh order
              (rendered ∙ join-split b'\t' line, valid)
              (parse_lines-AreParsed lines (entry_key e ∷ keys) (some e) (n + 1) es rest))

  length_map : (es : List ChecksumEntry) → length (map render_line es) ≡ length es
  length_map [] = refl
  length_map (e ∷ es) = omega (arith, length_map es)

  -- The file of lines that were parsed.
  rendered_file :
      (body : Text) (e : ChecksumEntry) (es : List ChecksumEntry)
      → AreParsed [] none (split b'\n' body) (e ∷ es)
      → ltb limits.max_entries (length (split b'\n' body)) ≡ false
      → ltb limits.max_file_bytes (byte_length (body ++ b'\n' ∷ [])) ≡ false
      → render_checksum_file limits (e ∷ es) ≡ ok (body ++ b'\n' ∷ [])
  unfolding render_checksum_file
  rendered_file body e es p few small =
      passed _ _ _ (
        subst (λ n. ltb limits.max_entries n ≡ false)
          (ap length (sym p.rendered) ∙ length_map (e ∷ es)) few)
      ∙ bound (validate_entries limits (e ∷ es)) _ p.valid
      ∙ ap (render_sorted limits) (sort-Ascends (e ∷ es) none p.ascending)
      ∙ passed _ _ _ p.distinct
      ∙ ap (checked_output limits) (
          ap (λ ls. join b'\n' ls ++ b'\n' ∷ []) p.rendered
          ∙ ap (λ t. t ++ b'\n' ∷ []) (join-split b'\n' body))
      ∙ bound (check_lines limits 1 (split b'\n' (drop_last (body ++ b'\n' ∷ [])))) _
          (ap (λ t. check_lines limits 1 (split b'\n' t)) (drop_last-append body b'\n') ∙ p.short 1)
      ∙ passed _ _ _ small

  -- A text that parses as a checksum file is what its entries render to.
  pub parse_checksum_file-render_checksum_file :
      (input : Text) (entries : List ChecksumEntry)
      → parse_checksum_file limits input ≡ ok entries
      → render_checksum_file limits entries ≡ ok input
  unfolding parse_checksum_file render_checksum_file
  parse_checksum_file-render_checksum_file [] entries h =
      subst (λ es. render_checksum_file limits es ≡ ok []) (ok-injective h) refl
  parse_checksum_file-render_checksum_file (c ∷ s) entries h = unthrow _ _ _ h λ size h1.
      unthrow _ _ _ h1 λ endings h2. unthrow _ _ _ h2 λ not_empty h3. unthrow _ _ _ h3 λ few h4.
        let ended = drop_last-ends_with_unit (c ∷ s) b'\n' (
          not-false (ends_with_unit (c ∷ s) b'\n')
            (||-false (includes_unit (c ∷ s) b'\r') _ endings).1) in
        rendered entries (drop_last (c ∷ s)) (parse_lines-AreParsed _ [] none 1 entries h4) few
          (subst (λ t. ltb limits.max_file_bytes (byte_length t) ≡ false) (sym ended) size)
        ∙ ap ok ended
    where
      rendered :
          (es : List ChecksumEntry) (body : Text)
          → AreParsed [] none (split b'\n' body) es
          → ltb limits.max_entries (length (split b'\n' body)) ≡ false
          → ltb limits.max_file_bytes (byte_length (body ++ b'\n' ∷ [])) ≡ false
          → render_checksum_file limits es ≡ ok (body ++ b'\n' ∷ [])
      rendered [] body p few small = absurd (split_some b'\n' body (sym p.rendered))
      rendered (e ∷ es) body p few small = rendered_file body e es p few small
