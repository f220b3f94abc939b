-- ===== src/Archive/Jsonl.antt =====
-- packages/archive-format/src/jsonl.ts: records as lines of bytes. An async generator is the list of
-- what it yields and how it ends; what aborts it is not modelled. TextDecoder, TextEncoder and
-- JSON.parse are arguments.
pub mod Decoder
pub mod Chunks
pub mod Faithful
pub mod Shards
pub mod Bounded
pub mod Whole
mod Tests
use koharu_suite.Prelude.{
  ℕ, zero, suc, ◌+◌, ◌*◌, Bool, true, false, not, ◌&&◌, ◌||◌, Option, none, some, List, [], ◌∷◌,
  ◌++◌, ltb, leb, ◌==◌, if◌then◌else◌, Result, ok, err, ◌>>=◌, ◌>>◌, throw_if, length, any,
}
use koharu_suite.Prelude.Texts.{Text, trim, text_eq}
use koharu_suite.Prelude.Numbers.{JsNumber}
use koharu_suite.Archive.Json.{
  Json, null, boolean, number, string, array, object, unsupported, bounded_json_limits,
  serialize_canonical_json,
}

-- `JsonlErrorCode`; a chunk of another type than bytes cannot be given here.
pub data JsonlErrorCode : Type 0 where
  blank_line invalid_json invalid_line_ending invalid_record invalid_utf8 : JsonlErrorCode
  line_too_large missing_trailing_lf non_canonical_json record_limit_exceeded : JsonlErrorCode
  shard_limit_exceeded : JsonlErrorCode

pub record JsonlError : Type 0 where
  pub code : JsonlErrorCode
  pub line_no : ℕ
  pub byte_offset : ℕ

pub record JsonlOptions : Type 0 where
  pub max_line_bytes : ℕ
  pub max_records : ℕ

abbrev pub Bytes : Type 0
Bytes = List ℕ

-- What a generator yields, and how it ends: `none` where it is done, or what it throws.
pub record Yielded (A : Type 0) : Type 0 where
  pub yielded : List A
  pub thrown : Option JsonlError

abbrev pub ends : {A : Type 0} → Option JsonlError → Yielded A
ends e = record { yielded = []; thrown = e }

abbrev pub yield_first : {A : Type 0} → A → Yielded A → Yielded A
yield_first a y = record { yielded = a ∷ y.yielded; thrown = y.thrown }

-- What goes on where nothing was thrown.
abbrev pub on_ok : {A B : Type 0} → Result JsonlError A → (A → Yielded B) → Yielded B
on_ok (ok a) f = f a
on_ok (err e) f = ends (some e)

-- The runtime's codecs. `decode_utf8` is `none` where the bytes are not UTF-8, `parse_json` where the
-- text is not JSON.
pub record Codecs : Type 0 where
  pub encode_utf8 : Text → Bytes
  pub decode_utf8 : Bytes → Option Text
  pub parse_json : Text → Option Json
  pub quote : Text → Text
  pub show_number : JsNumber → Text

-- Where a line starts: its number from one, and the offset of its first byte.
pub record Position : Type 0 where
  pub line_no : ℕ
  pub byte_offset : ℕ

abbrev pub error_at : JsonlErrorCode → Position → JsonlError
error_at code at = record { code = code; line_no = at.line_no; byte_offset = at.byte_offset }

-- `isJsonObject`; what is `unsupported` may be an object that is not plain, and is refused as one or
-- as the other by the same code.
abbrev pub is_json_object : Json → Bool
is_json_object null = false
is_json_object (boolean b) = false
is_json_object (number n) = false
is_json_object (string s) = false
is_json_object (array vs) = false
is_json_object (object ms) = true
is_json_object unsupported = false

abbrev pub start : Position
start = record { line_no = 1; byte_offset = 0 }

-- The position after a line of so many bytes before its LF.
abbrev pub next_line : Position → ℕ → Position
next_line at bytes = record { line_no = at.line_no + 1; byte_offset = at.byte_offset + (bytes + 1) }

module _ (codecs : Codecs) where
  abbrev pub canonical : Json → Option Text
  canonical v =
      elim (serialize_canonical_json codecs.quote codecs.show_number bounded_json_limits v) [
        | ok t ↦ some t
        | err e ↦ none
      ]

  -- `serializeObject`.
  abbrev pub serialize_object : Json → Position → Result JsonlError Text
  serialize_object v at = do
    throw_if (not (is_json_object v)) (error_at invalid_record at)
    elim (canonical v) [ none ↦ err (error_at invalid_record at) | some t ↦ ok t ]

  -- One record as a line.
  unfoldable pub encode_line : JsonlOptions → Json → Position → ℕ → Result JsonlError Bytes
  encode_line options v at count = do
    throw_if (leb options.max_records count) (error_at record_limit_exceeded at)
    json ← serialize_object v at
    throw_if (ltb options.max_line_bytes (length (codecs.encode_utf8 json)))
        (error_at line_too_large at)
    ok (codecs.encode_utf8 json)

  -- The loop of `encodeJsonl`.
  unfoldable pub encode_from : JsonlOptions → List Json → Position → ℕ → Yielded Bytes
  encode_from options [] at count = ends none
  encode_from options (v ∷ vs) at count = on_ok (encode_line options v at count) λ line.
      yield_first (line ++ 0x0a ∷ [])
        (encode_from options vs (next_line at (length line)) (count + 1))

  -- `encodeJsonl`, of options that pass `assertOptions`.
  unfoldable pub encode_jsonl : JsonlOptions → List Json → Yielded Bytes
  unfolding encode_from
  encode_jsonl options vs = encode_from options vs start 0

  abbrev pub parse_object : Text → Position → Json → Result JsonlError Json
  parse_object text at v = do
    throw_if (not (is_json_object v)) (error_at invalid_record at)
    elim (canonical v) [
      | none ↦ err (error_at invalid_record at)
      | some t ↦ do throw_if (not (text_eq t text)) (error_at non_canonical_json at); ok v
    ]

  -- `parseLine`.
  unfoldable pub parse_line : Bytes → Position → Result JsonlError Json
  parse_line bytes at = do
    throw_if (any bytes (λ b. b == 0x0d)) (error_at invalid_line_ending at)
    elim (codecs.decode_utf8 bytes) [
      | none ↦ err (error_at invalid_utf8 at)
      | some text ↦ do
        throw_if (length (trim text) == 0) (error_at blank_line at)
        elim (codecs.parse_json text) [
          | none ↦ err (error_at invalid_json at)
          | some v ↦ parse_object text at v
        ]
    ]
