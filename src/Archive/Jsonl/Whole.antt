-- ===== src/Archive/Jsonl/Whole.antt =====
-- `encodeJsonlShards` of packages/archive-format/src/jsonl.ts over the lines of `encodeJsonl`.
use koharu_suite.Prelude.{
  length-append, ℕ, ◌+◌, ◌≤◌, ◌≡◌, subst, arith, false, none, List, [], ◌∷◌, ok, length,
  Result-cases, All, inl, inr, ltb→ge, unchain, unthrow, ok-injective,
}
use koharu_suite.Archive.Json.{Json}
use koharu_suite.Archive.Jsonl.{
  JsonlOptions, Bytes, Codecs, Position, start, next_line, encode_line, encode_from, encode_jsonl,
}
use koharu_suite.Archive.Jsonl.Chunks.{concat}
use koharu_suite.Archive.Jsonl.Shards.{
  ShardOptions, no_shard, encode_jsonl_shards, shard_records_refused,
}
use koharu_suite.Archive.Jsonl.Bounded.{
  AreShards, shard_bytes, shards_from-AreShards, shards_from-bytes, no_shard-IsOpen,
}

module _ (codecs : Codecs) (options : JsonlOptions) where
  encode_line-fits :
      (v : Json) (at : Position) (count : ℕ) (line : Bytes)
      → encode_line codecs options v at count ≡ ok line
      → length line ≤ options.max_line_bytes
  unfolding encode_line
  encode_line-fits v at count line h = unthrow _ _ _ h λ below h1.
      unchain _ _ h1 λ json serialized h2. unthrow _ _ _ h2 λ fits h3.
        subst (λ l. length l ≤ options.max_line_bytes) (ok-injective h3) (ltb→ge _ _ fits)

  encode_from-short :
      (vs : List Json) (at : Position) (count : ℕ)
      → All
          (λ l. length l ≤ options.max_line_bytes + 1)
          (encode_from codecs options vs at count).yielded
  unfolding encode_from
  encode_from-short [] at count = tt
  encode_from-short (v ∷ vs) at count =
      elim (Result-cases (encode_line codecs options v at count)) [
        | inr (e, thrown) ↦ rw thrown tt
        | inl (line, encoded) ↦ rw encoded (
          omega (arith, length-append line (0x0a ∷ []), encode_line-fits v at count line encoded),
          encode_from-short vs (next_line at (length line)) (count + 1),
        )
      ]

module _ (codecs : Codecs) (o : ShardOptions) (accepted : shard_records_refused o ≡ false) where
  -- The shards of any records are numbered from zero; each has from one record to the limit, its
  -- size and its path, and at most the bytes of its limit, or of one line with its LF where that is
  -- more. It holds of the shards before an error, too.
  pub encode_jsonl_shards-AreShards :
      (vs : List Json)
      → AreShards o 0 (encode_jsonl_shards o (encode_jsonl codecs o.lines vs)).yielded
  unfolding encode_jsonl_shards encode_jsonl
  encode_jsonl_shards-AreShards vs =
      let lines = encode_from codecs o.lines vs start 0 in
      shards_from-AreShards o accepted lines.yielded lines.thrown no_shard
        (no_shard-IsOpen o accepted) (encode_from-short codecs o.lines vs start 0)

  -- Where nothing is thrown, the shards of records put together are their lines put together.
  pub encode_jsonl_shards-bytes :
      (vs : List Json)
      → (encode_jsonl_shards o (encode_jsonl codecs o.lines vs)).thrown ≡ none
      → shard_bytes (encode_jsonl_shards o (encode_jsonl codecs o.lines vs)).yielded
        ≡ concat (encode_jsonl codecs o.lines vs).yielded
  unfolding encode_jsonl_shards encode_jsonl
  encode_jsonl_shards-bytes vs h =
      let lines = encode_from codecs o.lines vs start 0 in
      shards_from-bytes o accepted lines.yielded lines.thrown no_shard (no_shard-IsOpen o accepted)
        (encode_from-short codecs o.lines vs start 0) h
