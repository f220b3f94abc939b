-- ===== src/Archive/Jsonl/Decoder.antt =====
-- packages/archive-format/src/jsonl.ts: `decodeJsonl`, over chunks of bytes.
use koharu_suite.Prelude.{
  ℕ, ◌+◌, none, some, List, [], ◌∷◌, ◌++◌, ltb, leb, ◌==◌, if◌then◌else◌, Result, ok, err, ◌>>◌,
  throw_if, length,
}
use koharu_suite.Archive.Json.{Json}
use koharu_suite.Archive.Jsonl.{
  JsonlError, JsonlOptions, Bytes, Yielded, ends, yield_first, on_ok, Codecs, Position, error_at,
  start, next_line, parse_line, line_too_large, record_limit_exceeded, missing_trailing_lf,
}

-- What `decodeJsonl` carries: where the line starts, the bytes of its parts so far
-- and the records so far.
pub record DecoderState : Type 0 where
  pub at : Position
  pub line : Bytes
  pub count : ℕ

abbrev pub first_line : DecoderState
first_line = record { at = start; line = []; count = 0 }

module _ (codecs : Codecs) (options : JsonlOptions) where
  -- `append`.
  abbrev pub append : DecoderState → Bytes → Result JsonlError DecoderState
  append st [] = ok st
  append st (b ∷ part) =
      if ltb options.max_line_bytes (length st.line + length (b ∷ part))
      then err (error_at line_too_large st.at)
      else ok (record st { line = st.line ++ b ∷ part })

  -- A line that an LF ends: its record.
  abbrev pub end_line : DecoderState → Result JsonlError Json
  end_line st = do
    throw_if (leb options.max_records st.count) (error_at record_limit_exceeded st.at)
    parse_line codecs st.line st.at

  abbrev pub after_line : DecoderState → DecoderState
  after_line st = record { at = next_line st.at (length st.line); line = []; count = st.count + 1 }

  -- The loop over the bytes of a chunk, with the part since the last LF of it; then the rest.
  unfoldable pub scan : (DecoderState → Yielded Json) → DecoderState → Bytes → Bytes → Yielded Json
  scan rest st part [] = on_ok (append st part) rest
  scan rest st part (b ∷ chunk) =
      let line =
        on_ok (append st part)
          λ st'. on_ok (end_line st') λ v. yield_first v (scan rest (after_line st') [] chunk) in
      let more = scan rest st (part ++ b ∷ []) chunk in if b == 0x0a then line else more

  -- Without a last LF the line is left over.
  abbrev pub finish : DecoderState → Yielded Json
  finish st =
      if ltb 0 (length st.line) then ends (some (error_at missing_trailing_lf st.at)) else ends none

  unfoldable pub decode_chunks : List Bytes → DecoderState → Yielded Json
  unfolding scan
  decode_chunks [] st = finish st
  decode_chunks (chunk ∷ chunks) st = scan (decode_chunks chunks) st [] chunk

  -- `decodeJsonl`, of options that pass `assertOptions`.
  unfoldable pub decode_jsonl : List Bytes → Yielded Json
  unfolding decode_chunks
  decode_jsonl chunks = decode_chunks chunks first_line
