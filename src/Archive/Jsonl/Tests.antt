-- ===== src/Archive/Jsonl/Tests.antt =====
-- Two records over ASCII codecs, and the theorems at them.
use koharu_suite.Prelude.{
  ℕ, ◌+◌, ◌≤◌, ◌<◌, ◌≡◌, refl, arith, Bool, true, false, not, ◌&&◌, ◌||◌, Option, none, some, List,
  [], ◌∷◌, ◌++◌, ltb, leb, ◌==◌, if◌then◌else◌, Result, ok, err, ◌>>=◌, some-injective, length,
}
use koharu_suite.Prelude.Texts.{Text, codes, text_eq, trim}
use koharu_suite.Prelude.Decimal.{show}
use koharu_suite.Archive.Json.{
  Json, boolean, object, no_member, member, serialize_canonical_json, is_json_value_within_limits,
  within_loop,
}
use koharu_suite.Archive.Jsonl.{
  JsonlOptions, Bytes, Codecs, encode_line, encode_from, encode_jsonl, parse_line, error_at,
  non_canonical_json, start,
}
use koharu_suite.Archive.Jsonl.Decoder.{first_line, scan, decode_chunks, decode_jsonl}
use koharu_suite.Archive.Jsonl.Chunks.{concat, decode_bytes, decode_jsonl-decode_bytes}
use koharu_suite.Archive.Jsonl.Faithful.{IsStrict, decode_jsonl-encode_jsonl}
use koharu_suite.Archive.Jsonl.Shards.{ShardOptions, shards_from, encode_jsonl_shards}
use koharu_suite.Archive.Jsonl.Bounded.{AreShards, shard_bytes}
use koharu_suite.Archive.Jsonl.Whole.{encode_jsonl_shards-AreShards, encode_jsonl_shards-bytes}

running : Unit {0}
unfolding ◌>>=◌ trim koharu_suite.Prelude.Decimal.show koharu_suite.Prelude.Decimal.show_digits
    serialize_canonical_json is_json_value_within_limits within_loop encode_line encode_from
    encode_jsonl parse_line scan decode_chunks decode_jsonl decode_bytes shards_from
    encode_jsonl_shards
running = tt

abbrev empty : Json
empty = object no_member

abbrev flag : Json
flag = object (member (codes "a") (boolean true) no_member)

-- The parser of the two texts.
abbrev parse : Text → Option Json
parse t =
    if text_eq t (codes "{}")
    then some empty
    else if text_eq t (codes "{\"a\":true}")
    then some flag
    else if text_eq t (codes "{ }")
    then some empty
    else none

abbrev ascii : Codecs
ascii = record {
  encode_utf8 = λ t. t;
  decode_utf8 = λ bytes. some bytes;
  parse_json = parse;
  quote = λ t. b'"' ∷ t ++ b'"' ∷ [];
  show_number = λ n. [];
}

ascii-IsStrict : IsStrict ascii
ascii-IsStrict bytes t h = koharu_suite.Prelude.sym (some-injective h)

abbrev options : JsonlOptions
options = record { max_line_bytes = 10; max_records = 2 }

-- The bytes of both records, in three chunks that cut a line.
abbrev chunks : List Bytes
chunks = codes "{}" ∷ (0x0a ∷ codes "{\"a\":t") ∷ (codes "rue}" ++ 0x0a ∷ []) ∷ []

decoded_run :
    decode_jsonl ascii options chunks ≡ record { yielded = empty ∷ flag ∷ []; thrown = none }
unfolding running
decoded_run = refl

-- The same record spelled with a space is refused, with its line and offset.
refused_run :
    decode_jsonl ascii options (codes "{}" ∷ (0x0a ∷ codes "{ }") ∷ (0x0a ∷ []) ∷ []) ≡ record {
      yielded = empty ∷ [];
      thrown = some (error_at non_canonical_json (record { line_no = 2; byte_offset = 3 }));
    }
unfolding running
refused_run = refl

decode_jsonl-decode_bytes_example :
    decode_jsonl ascii options chunks ≡ decode_bytes ascii options first_line (concat chunks)
decode_jsonl-decode_bytes_example = decode_jsonl-decode_bytes ascii options chunks

no_error : (decode_jsonl ascii options chunks).thrown ≡ none
unfolding running
no_error = refl

decode_jsonl-encode_jsonl_example :
    ((encode_jsonl ascii options (decode_jsonl ascii options chunks).yielded).thrown ≡ none)
    × (concat (encode_jsonl ascii options (decode_jsonl ascii options chunks).yielded).yielded
        ≡ concat chunks)
decode_jsonl-encode_jsonl_example =
    decode_jsonl-encode_jsonl ascii options ascii-IsStrict chunks no_error

abbrev sharded : ShardOptions
sharded = record {
  lines = options;
  family = codes "messages";
  max_shard_bytes = 10;
  max_shard_records = 1;
}

encode_jsonl_shards-AreShards_example :
    AreShards sharded 0
      (encode_jsonl_shards sharded (encode_jsonl ascii sharded.lines (empty ∷ flag ∷ []))).yielded
encode_jsonl_shards-AreShards_example =
    encode_jsonl_shards-AreShards ascii sharded refl (empty ∷ flag ∷ [])

shards_done :
    (encode_jsonl_shards sharded (encode_jsonl ascii sharded.lines (empty ∷ flag ∷ []))).thrown
    ≡ none
unfolding running
shards_done = refl

encode_jsonl_shards-bytes_example :
    shard_bytes
      (encode_jsonl_shards sharded (encode_jsonl ascii sharded.lines (empty ∷ flag ∷ []))).yielded
    ≡ concat (encode_jsonl ascii sharded.lines (empty ∷ flag ∷ [])).yielded
encode_jsonl_shards-bytes_example =
    encode_jsonl_shards-bytes ascii sharded refl (empty ∷ flag ∷ []) shards_done

-- A line of ten bytes and its LF make a shard of eleven bytes under a limit of ten.
abbrev sizes : List koharu_suite.Archive.Jsonl.Shards.EncodedShard → List ℕ
sizes [] = []
sizes (s ∷ ss) = s.byte_length ∷ sizes ss

oversized_run :
    sizes (encode_jsonl_shards sharded (encode_jsonl ascii options (empty ∷ flag ∷ []))).yielded
    ≡ 3 ∷ 11 ∷ []
unfolding running
oversized_run = refl
