-- ===== src/Archive/Jsonl/Chunks.antt =====
-- `decodeJsonl` of packages/archive-format/src/jsonl.ts against a decoder of bytes without
-- chunks.
use mathlib.Core.List.{append-nil, append_assoc}
use koharu_suite.Prelude.{
  length-append, ℕ, ◌+◌, ◌≤◌, ◌<◌, ◌≡◌, refl, sym, ap, ◌∙◌, subst, arith, true, false, some, List,
  [], ◌∷◌, ◌++◌, ltb, ◌==◌, if◌then◌else◌, Result, ◌>>=◌, ◌>>◌, throw_if, length, Bool-cases, inl,
  inr, ltb→lt, lt→ltb, le→ltb_false, ltb→ge,
}
use koharu_suite.Archive.Json.{Json}
use koharu_suite.Archive.Jsonl.{
  JsonlError, JsonlOptions, Bytes, Yielded, ends, yield_first, on_ok, Codecs, error_at,
  line_too_large,
}
use koharu_suite.Archive.Jsonl.Decoder.{
  DecoderState, first_line, append, end_line, after_line, scan, finish, decode_chunks, decode_jsonl,
}

abbrev pub concat : List Bytes → Bytes
concat [] = []
concat (b ∷ bs) = b ++ concat bs

longer : {n : ℕ} (xs : Bytes) (b : ℕ) → n < length xs → n < length (xs ++ b ∷ [])
longer xs b h = omega (arith, h, length-append xs (b ∷ []))

module _ (codecs : Codecs) (options : JsonlOptions) where
  abbrev pub checked_line : DecoderState → Result JsonlError Json
  checked_line st = do
    throw_if (ltb options.max_line_bytes (length st.line)) (error_at line_too_large st.at)
    end_line codecs options st

  -- The decoder that reads its input byte by byte, and has a line whole before it looks at it.
  unfoldable pub decode_bytes : DecoderState → Bytes → Yielded Json
  decode_bytes st [] =
      if ltb options.max_line_bytes (length st.line)
      then ends (some (error_at line_too_large st.at))
      else finish codecs options st
  decode_bytes st (b ∷ bytes) =
      let line =
        on_ok (checked_line st)
          λ v. yield_first v (decode_bytes (after_line codecs options st) bytes) in
      let more = decode_bytes (record st { line = st.line ++ b ∷ [] }) bytes in
      if b == 0x0a then line else more

  overlong :
      (st : DecoderState) (bytes : Bytes)
      → options.max_line_bytes < length st.line
      → decode_bytes st bytes ≡ ends (some (error_at line_too_large st.at))
  unfolding decode_bytes ◌>>=◌
  overlong st [] h = rw (lt→ltb _ _ h) refl
  overlong st (b ∷ bytes) h = elim (Bool-cases (b == 0x0a)) [
    | inl lf ↦ rw (lf, lt→ltb _ _ h) refl
    | inr other ↦ rw other (
        overlong (record st { line = st.line ++ b ∷ [] }) bytes
          (longer st.line b (omega (arith, h))))
  ]

  abbrev AgreesAfter : (DecoderState → Yielded Json) → Bytes → Type 0
  AgreesAfter rest later =
      (st : DecoderState)
      → length st.line ≤ options.max_line_bytes
      → rest st ≡ decode_bytes st later

  -- What `append` does to a line, as the byte decoder sees it.
  appended :
      (st : DecoderState) (part later : Bytes) (f : DecoderState → Yielded Json)
      → AgreesAfter f later
      → length st.line ≤ options.max_line_bytes
      → on_ok (append codecs options st part) f
        ≡ decode_bytes (record st { line = st.line ++ part }) later
  appended st [] later f agrees h =
      agrees st h ∙ ap (λ l. decode_bytes (record st { line = l }) later) (sym (append-nil st.line))
  appended st (b ∷ part) later f agrees h =
      elim (Bool-cases (ltb options.max_line_bytes (length st.line + length (b ∷ part)))) [
        | inl long ↦ rw long (
            sym (
              overlong (record st { line = st.line ++ b ∷ part }) later
                (subst (λ n. options.max_line_bytes < n) (sym (length-append st.line (b ∷ part)))
                  (ltb→lt _ _ long))))
        | inr fits ↦ rw fits (
            agrees (record st { line = st.line ++ b ∷ part })
              (subst (λ n. n ≤ options.max_line_bytes) (sym (length-append st.line (b ∷ part)))
                (ltb→ge _ _ fits)))
      ]

  within_end :
      (st : DecoderState)
      → length st.line ≤ options.max_line_bytes
      → checked_line st ≡ end_line codecs options st
  unfolding ◌>>=◌
  within_end st h = rw (le→ltb_false _ _ h) refl

  lf_line :
      (st : DecoderState) (b : ℕ) (later : Bytes)
      → (b == 0x0a) ≡ true
      → length st.line ≤ options.max_line_bytes
      → (on_ok
          (end_line codecs options st)
          λ v. yield_first v (decode_bytes (after_line codecs options st) later))
        ≡ decode_bytes st (b ∷ later)
  unfolding decode_bytes
  lf_line st b later lf h = rw (lf, within_end st h) refl

  other_byte :
      (st : DecoderState) (b : ℕ) (later : Bytes)
      → (b == 0x0a) ≡ false
      → decode_bytes (record st { line = st.line ++ b ∷ [] }) later ≡ decode_bytes st (b ∷ later)
  unfolding decode_bytes
  other_byte st b later other = rw other refl

  scan-decode_bytes :
      (rest : DecoderState → Yielded Json) (later : Bytes)
      → AgreesAfter rest later
      → (chunk : Bytes) (st : DecoderState) (part : Bytes) → length st.line ≤ options.max_line_bytes
      → scan codecs options rest st part chunk
        ≡ decode_bytes (record st { line = st.line ++ part }) (chunk ++ later)
  unfolding scan
  scan-decode_bytes rest later agrees [] st part h = appended st part later rest agrees h
  scan-decode_bytes rest later agrees (b ∷ chunk) st part h = elim (Bool-cases (b == 0x0a)) [
    | inl lf ↦ rw lf (
        appended st part (b ∷ chunk ++ later) _
          (λ s fits.
            (λ i. on_ok (end_line codecs options s) λ v. yield_first v (
              scan-decode_bytes rest later agrees chunk (after_line codecs options s) []
                (omega arith) i))
            ∙ lf_line s b (chunk ++ later) lf fits)
          h)
    | inr other ↦ rw other (
        scan-decode_bytes rest later agrees chunk st (part ++ b ∷ []) h
        ∙ ap (λ l. decode_bytes (record st { line = l }) (chunk ++ later))
            (sym (append_assoc st.line part (b ∷ [])))
        ∙ other_byte (record st { line = st.line ++ part }) b (chunk ++ later) other)
  ]

  decode_chunks-decode_bytes :
      (chunks : List Bytes) → AgreesAfter (decode_chunks codecs options chunks) (concat chunks)
  unfolding decode_chunks decode_bytes
  decode_chunks-decode_bytes [] st h = rw (le→ltb_false _ _ h) refl
  decode_chunks-decode_bytes (chunk ∷ chunks) st h =
      scan-decode_bytes (decode_chunks codecs options chunks) (concat chunks)
        (decode_chunks-decode_bytes chunks) chunk st [] h
      ∙ ap (λ l. decode_bytes (record st { line = l }) (chunk ++ concat chunks))
          (append-nil st.line)

  -- What is decoded from chunks, the records and the error with its line and offset, is what the
  -- byte decoder gives for the bytes of all chunks together.
  pub decode_jsonl-decode_bytes :
      (chunks : List Bytes)
      → decode_jsonl codecs options chunks ≡ decode_bytes first_line (concat chunks)
  unfolding decode_jsonl
  decode_jsonl-decode_bytes chunks = decode_chunks-decode_bytes chunks first_line (omega arith)
