-- ===== src/Archive/Jsonl/Bounded.antt =====
-- The shards of `encodeJsonlShards` of packages/archive-format/src/jsonl.ts: their bounds and
-- their bytes.
use mathlib.Core.List.{append_assoc, append-nil}
use koharu_suite.Prelude.{
  length-append, ℕ, ◌+◌, ◌≤◌, ◌<◌, max, ◌≡◌, refl, sym, ap, ◌∙◌, subst, arith, false, Option, none,
  some, List, [], ◌∷◌, ◌++◌, ltb, leb, ok, length, Bool-cases, Result-cases, All, inl, inr, ltb→lt,
  ltb→ge, ||-false, &&-true, ok-injective,
}
use koharu_suite.Archive.Jsonl.{JsonlError, Bytes, Yielded, ends, yield_first, on_ok}
use koharu_suite.Archive.Jsonl.Chunks.{concat}
use koharu_suite.Archive.Jsonl.Shards.{
  ShardOptions, EncodedShard, ShardState, no_shard, flush, is_full, add_line, next_shard,
  shards_from, shard_records_refused, archive_data_shard_path,
}

-- A shard may be as large as its limit, or as one line with its LF.
abbrev pub largest_shard : ShardOptions → ℕ
largest_shard o = max o.max_shard_bytes (o.lines.max_line_bytes + 1)

pub record IsShard (o : ShardOptions) (index : ℕ) (shard : EncodedShard) : Type 0 where
  pub not_empty : 0 < shard.record_count
  pub few_records : shard.record_count ≤ o.max_shard_records
  pub few_bytes : length shard.bytes ≤ largest_shard o
  pub measured : shard.byte_length ≡ length shard.bytes
  pub numbered : shard.shard_index ≡ index
  pub index_within : index ≤ 999_999
  pub named : shard.path ≡ archive_data_shard_path o.family index

-- Shards numbered from an index.
abbrev pub AreShards : ShardOptions → ℕ → List EncodedShard → Type 0
AreShards o index [] = Unit {0}
AreShards o index (shard ∷ shards) = IsShard o index shard × AreShards o (index + 1) shards

abbrev pub shard_bytes : List EncodedShard → Bytes
shard_bytes [] = []
shard_bytes (shard ∷ shards) = shard.bytes ++ shard_bytes shards

-- What the loop keeps of the open shard.
pub record IsOpen (o : ShardOptions) (st : ShardState) : Type 0 where
  pub small : length st.bytes ≤ largest_shard o
  pub few : st.count ≤ o.max_shard_records
  pub none_yet : st.count ≡ 0 → st.bytes ≡ []

module _ (o : ShardOptions) (accepted : shard_records_refused o ≡ false) where
  flush-IsShard :
      (st : ShardState) (shard : EncodedShard)
      → IsOpen o st
      → 0 < st.count
      → flush o st ≡ ok shard
      → IsShard o st.index shard × (shard.bytes ≡ st.bytes)
  flush-IsShard st shard opened count h = elim (Bool-cases (ltb 999_999 st.index)) [
    | inl many ↦ absurd (cc (rw many at h))
    | inr few ↦
        let e = sym (ok-injective (rw few at h)) in
        (
          subst (IsShard o st.index) (sym e) (record {
            not_empty = count;
            few_records = opened.few;
            few_bytes = opened.small;
            measured = refl;
            numbered = refl;
            index_within = ltb→ge 999_999 st.index few;
            named = refl;
          }),
          ap (λ s. s.bytes) e,
        )
  ]

  add_line-IsOpen :
      (st : ShardState) (line : Bytes)
      → IsOpen o st
      → length line ≤ o.lines.max_line_bytes + 1
      → is_full o st line ≡ false
      → IsOpen o (add_line o st line)
  add_line-IsOpen st line opened short room = elim (Bool-cases (ltb 0 st.count)) [
    | inl some' ↦
        let (records, bytes) =
          ||-false (leb o.max_shard_records st.count)
            (ltb o.max_shard_bytes (length st.bytes + length line)) (rw some' at room) in
        let together = length-append st.bytes line in
        record {
          small = omega (arith, together, ltb→ge _ _ bytes);
          few = ground (arith, records);
          none_yet = λ h. absurd (omega (arith, h));
        }
    | inr none' ↦
        let empty = opened.none_yet (ground (arith, none')) in
        let few = ||-false (leb o.max_shard_records 0) _ accepted in
        record {
          small =
              subst (λ b. length (b ++ line) ≤ largest_shard o) (sym empty) (omega (arith, short));
          few = ground (arith, none', few.0);
          none_yet = λ h. absurd (omega (arith, h));
        }
  ]

  next-IsOpen :
      (st : ShardState) (line : Bytes)
      → length line ≤ o.lines.max_line_bytes + 1
      → IsOpen o (add_line o (next_shard o st) line)
  next-IsOpen st line short =
      add_line-IsOpen (next_shard o st) line
        (record { small = omega arith; few = omega arith; none_yet = λ h. refl }) short refl

  abbrev pub AreShort : List Bytes → Type 0
  AreShort lines = All (λ l. length l ≤ o.lines.max_line_bytes + 1) lines

  -- A flush, and the shards after it.
  flushed-AreShards :
      (st : ShardState) (later : Yielded EncodedShard)
      → IsOpen o st
      → 0 < st.count
      → AreShards o (st.index + 1) later.yielded
      → AreShards o st.index (on_ok (flush o st) (λ shard. yield_first shard later)).yielded
  flushed-AreShards st later opened count rest = elim (Result-cases (flush o st)) [
    | inl (shard, e) ↦ rw e ((flush-IsShard st shard opened count e).0, rest)
    | inr (x, e) ↦ rw e tt
  ]

  pub shards_from-AreShards :
      (lines : List Bytes) (e : Option JsonlError) (st : ShardState)
      → IsOpen o st
      → AreShort lines
      → AreShards o st.index (shards_from o lines e st).yielded
  unfolding shards_from
  shards_from-AreShards [] (some e) st opened short = tt
  shards_from-AreShards [] none st opened short = elim (Bool-cases (ltb 0 st.count)) [
    | inl some' ↦ rw some' (flushed-AreShards st (ends none) opened (ltb→lt _ _ some') tt)
    | inr none' ↦ rw none' tt
  ]
  shards_from-AreShards (line ∷ lines) e st opened (here, short) =
      elim (Bool-cases (is_full o st line)) [
        | inl full ↦ rw full (
            flushed-AreShards st _ opened (ltb→lt _ _ (&&-true (ltb 0 st.count) _ full).0) (
              shards_from-AreShards lines e (add_line o (next_shard o st) line)
                (next-IsOpen st line here) short))
        | inr room ↦ rw room (
            shards_from-AreShards lines e (add_line o st line)
              (add_line-IsOpen st line opened here room) short)
      ]

  flushed-bytes :
      (st : ShardState) (later : Yielded EncodedShard) (bytes : Bytes)
      → IsOpen o st
      → 0 < st.count
      → (on_ok (flush o st) (λ shard. yield_first shard later)).thrown ≡ none
      → (later.thrown ≡ none → shard_bytes later.yielded ≡ bytes)
      → shard_bytes (on_ok (flush o st) (λ shard. yield_first shard later)).yielded
        ≡ st.bytes ++ bytes
  flushed-bytes st later bytes opened count h rest = elim (Result-cases (flush o st)) [
    | inl (shard, e) ↦ rw e (
        ap (λ b. b ++ shard_bytes later.yielded) (flush-IsShard st shard opened count e).1
        ∙ ap (λ b. st.bytes ++ b) (rest (rw e at h)))
    | inr (x, e) ↦ absurd (cc (rw e at h))
  ]

  pub shards_from-bytes :
      (lines : List Bytes) (e : Option JsonlError) (st : ShardState)
      → IsOpen o st
      → AreShort lines
      → (shards_from o lines e st).thrown ≡ none
      → shard_bytes (shards_from o lines e st).yielded ≡ st.bytes ++ concat lines
  unfolding shards_from
  shards_from-bytes [] (some e) st opened short h = absurd (cc)
  shards_from-bytes [] none st opened short h = elim (Bool-cases (ltb 0 st.count)) [
    | inl some' ↦
        rw some'
          (flushed-bytes st (ends none) [] opened (ltb→lt _ _ some') (rw some' at h) (λ n. refl))
    | inr none' ↦ rw none' (sym (append-nil st.bytes ∙ opened.none_yet (ground (arith, none'))))
  ]
  shards_from-bytes (line ∷ lines) e st opened (here, short) h =
      elim (Bool-cases (is_full o st line)) [
        | inl full ↦ rw full (
            flushed-bytes st _ (line ++ concat lines) opened
              (ltb→lt _ _ (&&-true (ltb 0 st.count) _ full).0) (rw full at h)
              (shards_from-bytes lines e (add_line o (next_shard o st) line)
                (next-IsOpen st line here) short))
        | inr room ↦ rw room (
            shards_from-bytes lines e (add_line o st line)
              (add_line-IsOpen st line opened here room) short (rw room at h)
            ∙ append_assoc st.bytes line (concat lines))
      ]

  pub no_shard-IsOpen : IsOpen o no_shard
  no_shard-IsOpen = record { small = omega arith; few = omega arith; none_yet = λ h. refl }
