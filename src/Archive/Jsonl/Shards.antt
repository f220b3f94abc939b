-- ===== src/Archive/Jsonl/Shards.antt =====
-- packages/archive-format/src/jsonl.ts: `encodeJsonlShards`, over the lines that `encodeJsonl`
-- yields and of options that pass its tests.
use koharu_suite.Prelude.{
  ℕ, ◌+◌, ◌-◌, ◌*◌, Bool, ◌&&◌, ◌||◌, Option, none, some, List, [], ◌∷◌, ◌++◌, ltb, leb,
  if◌then◌else◌, Result, ok, err, length,
}
use koharu_suite.Prelude.Texts.{Text, codes}
use koharu_suite.Prelude.Decimal.{show}
use koharu_suite.Archive.Jsonl.{
  JsonlError, JsonlOptions, Bytes, Yielded, ends, yield_first, on_ok, error_at, start,
  shard_limit_exceeded,
}

abbrev pub default_archive_shard_records : ℕ
default_archive_shard_records = 50_000

abbrev pub default_archive_shard_bytes : ℕ
default_archive_shard_bytes = 64 * 1_024 * 1_024

pub record ShardOptions : Type 0 where
  pub lines : JsonlOptions
  pub family : Text
  pub max_shard_bytes : ℕ
  pub max_shard_records : ℕ

-- The tests of the options, of safe integers.
abbrev pub shard_bytes_refused : ShardOptions → Bool
shard_bytes_refused o =
    leb o.max_shard_bytes 0
    || ltb o.max_shard_bytes o.lines.max_line_bytes
    || ltb default_archive_shard_bytes o.max_shard_bytes

abbrev pub shard_records_refused : ShardOptions → Bool
shard_records_refused o =
    leb o.max_shard_records 0 || ltb default_archive_shard_records o.max_shard_records

pub record EncodedShard : Type 0 where
  pub byte_length : ℕ
  pub bytes : Bytes
  pub family : Text
  pub path : Text
  pub record_count : ℕ
  pub shard_index : ℕ

abbrev zeros : ℕ → Text
zeros Prim.Native.Nat.zero = []
zeros (Prim.Native.Nat.suc n) = b'0' ∷ zeros n

-- `padStart(6, '0')`.
abbrev pub pad : Text → Text
pad s = zeros (6 - length s) ++ s

-- `archiveDataShardPath`, of an index within its bounds.
abbrev pub archive_data_shard_path : Text → ℕ → Text
archive_data_shard_path family index =
    codes "data/" ++ family ++ codes "/" ++ pad (show index) ++ codes ".jsonl"

-- What the loop carries: the index of the shard, and its lines put together with their number.
pub record ShardState : Type 0 where
  pub index : ℕ
  pub bytes : Bytes
  pub count : ℕ

abbrev pub no_shard : ShardState
no_shard = record { index = 0; bytes = []; count = 0 }

module _ (options : ShardOptions) where
  -- `flush`.
  abbrev pub flush : ShardState → Result JsonlError EncodedShard
  flush st =
      if ltb 999_999 st.index
      then err (error_at shard_limit_exceeded start)
      else ok (record {
        byte_length = length st.bytes;
        bytes = st.bytes;
        family = options.family;
        path = archive_data_shard_path options.family st.index;
        record_count = st.count;
        shard_index = st.index;
      })

  abbrev pub is_full : ShardState → Bytes → Bool
  is_full st line =
      ltb 0 st.count
      && (leb options.max_shard_records st.count
          || ltb options.max_shard_bytes (length st.bytes + length line))

  abbrev pub add_line : ShardState → Bytes → ShardState
  add_line st line = record st { bytes = st.bytes ++ line; count = st.count + 1 }

  abbrev pub next_shard : ShardState → ShardState
  next_shard st = record { index = st.index + 1; bytes = []; count = 0 }

  -- The last flush, unless the lines ended by an error.
  abbrev pub last_shard : ShardState → Option JsonlError → Yielded EncodedShard
  last_shard st (some e) = ends (some e)
  last_shard st none =
      if ltb 0 st.count
      then on_ok (flush st) (λ shard. yield_first shard (ends none))
      else ends none

  -- The loop over the lines, which end by the error if there is one.
  unfoldable pub shards_from : List Bytes → Option JsonlError → ShardState → Yielded EncodedShard
  shards_from [] e st = last_shard st e
  shards_from (line ∷ lines) e st =
      let flushed =
        on_ok (flush st)
          λ shard. yield_first shard (shards_from lines e (add_line (next_shard st) line)) in
      let same = shards_from lines e (add_line st line) in if is_full st line then flushed else same

  unfoldable pub encode_jsonl_shards : Yielded Bytes → Yielded EncodedShard
  unfolding shards_from
  encode_jsonl_shards lines = shards_from lines.yielded lines.thrown no_shard
