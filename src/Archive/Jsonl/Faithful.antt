-- ===== src/Archive/Jsonl/Faithful.antt =====
-- `decodeJsonl` and then `encodeJsonl` of packages/archive-format/src/jsonl.ts.
use mathlib.Core.List.{append_assoc}
use koharu_suite.Prelude.{
  ℕ, ◌+◌, ◌≤◌, ◌≡◌, refl, sym, ap, ◌∙◌, subst, arith, Bool, true, false, not, none, some, List, [],
  ◌∷◌, ◌++◌, ltb, leb, ◌==◌, ok, ◌>>=◌, length, Bool-cases, Result-cases, Option-cases, inl, inr,
  ltb→ge, unthrow, ok-injective, le→ltb_false, ==_iff,
}
use koharu_suite.Prelude.Texts.{Text, text_eq, eq_of_text_eq, trim}
use koharu_suite.Archive.Json.{Json}
use koharu_suite.Archive.Jsonl.{
  JsonlOptions, Bytes, Codecs, Position, start, next_line, parse_line, parse_object, canonical,
  is_json_object, encode_line, encode_from, encode_jsonl,
}
use koharu_suite.Archive.Jsonl.Decoder.{DecoderState, first_line, after_line, decode_jsonl}
use koharu_suite.Archive.Jsonl.Chunks.{
  concat, checked_line, decode_bytes, decode_jsonl-decode_bytes,
}

-- What TextDecoder promises where it refuses what is not UTF-8 and keeps a byte order mark: only the
-- encoding of a text is decoded to it.
abbrev pub IsStrict : Codecs → Type 0
IsStrict codecs =
    (bytes : Bytes) (t : Text) → codecs.decode_utf8 bytes ≡ some t → codecs.encode_utf8 t ≡ bytes

-- What a line that was parsed is.
record IsRecord (codecs : Codecs) (bytes : Bytes) (v : Json) : Type 0 where
  pub text : Text
  pub decoded : codecs.decode_utf8 bytes ≡ some text
  pub is_object : is_json_object v ≡ true
  pub is_canonical : canonical codecs v ≡ some text

not-false : (b : Bool) → not b ≡ false → b ≡ true
not-false true h = refl
not-false false h = cc

module _ (codecs : Codecs) (at : Position) where
  parse_object-text :
      (text : Text) (v v' : Json)
      → parse_object codecs text at v ≡ ok v'
      → (v ≡ v') × (is_json_object v ≡ true) × (canonical codecs v ≡ some text)
  parse_object-text text v v' h = unthrow _ _ _ h λ is_object h1.
      elim (Option-cases (canonical codecs v)) [
        | inl none' ↦ absurd (cc (rw none' at h1))
        | inr (t, found) ↦ unthrow (not (text_eq t text)) _ _ (rw found at h1) λ same h2. (
          ok-injective h2,
          not-false _ is_object,
          found ∙ ap some (eq_of_text_eq t text (not-false _ same)),
        )
      ]

  parse_line-IsRecord :
      (bytes : Bytes) (v : Json) → parse_line codecs bytes at ≡ ok v → IsRecord codecs bytes v
  unfolding parse_line
  parse_line-IsRecord bytes v h = unthrow _ _ _ h λ endings h1.
      elim (Option-cases (codecs.decode_utf8 bytes)) [
        | inl none' ↦ absurd (cc (rw none' at h1))
        | inr (text, decoded) ↦ unthrow (length (trim text) == 0) _ _ (rw decoded at h1) λ blank h2.
            elim (Option-cases (codecs.parse_json text)) [
              | inl none' ↦ absurd (cc (rw none' at h2))
              | inr (w, parsed) ↦
                  let (same, is_object, is_canonical) =
                    parse_object-text text w v (rw parsed at h2) in
                  record {
                    text = text;
                    decoded = decoded;
                    is_object = subst (λ x. is_json_object x ≡ true) same is_object;
                    is_canonical = subst (λ x. canonical codecs x ≡ some text) same is_canonical;
                  }
            ]
      ]

empty_line : (bytes : Bytes) → ltb 0 (length bytes) ≡ false → bytes ++ [] ≡ []
empty_line [] h = refl
empty_line (b ∷ bytes) h = absurd (ground (arith, h))

module _ (codecs : Codecs) (options : JsonlOptions) (strict : IsStrict codecs) where
  encode_line-IsRecord :
      (bytes : Bytes) (v : Json) (at : Position) (count : ℕ)
      → IsRecord codecs bytes v
      → length bytes ≤ options.max_line_bytes
      → leb options.max_records count ≡ false
      → encode_line codecs options v at count ≡ ok bytes
  unfolding encode_line ◌>>=◌
  encode_line-IsRecord bytes v at count r fits below =
      let encoded = strict bytes r.text r.decoded in
      rw (below, r.is_object, r.is_canonical, encoded, le→ltb_false _ _ fits) refl

  -- The line at the front of what was decoded, and the rest.
  record IsLine (st : DecoderState) (v : Json) : Type 0 where
    pub fits : length st.line ≤ options.max_line_bytes
    pub below : leb options.max_records st.count ≡ false
    pub parsed : parse_line codecs st.line st.at ≡ ok v

  checked_line-IsLine :
      (st : DecoderState) (v : Json) → checked_line codecs options st ≡ ok v → IsLine st v
  checked_line-IsLine st v h = unthrow _ _ _ h λ fits h1.
      unthrow _ _ _ h1 λ below h2. record { fits = ltb→ge _ _ fits; below = below; parsed = h2 }

  -- That the records encode to the bytes.
  abbrev Encodes : Position → ℕ → List Json → Bytes → Type 0
  Encodes at count vs bytes =
      ((encode_from codecs options vs at count).thrown ≡ none)
      × (concat (encode_from codecs options vs at count).yielded ≡ bytes)

  line-Encodes :
      (st : DecoderState) (v : Json) (vs : List Json) (bytes : Bytes)
      → IsLine st v
      → Encodes (next_line st.at (length st.line)) (st.count + 1) vs bytes
      → Encodes st.at st.count (v ∷ vs) (st.line ++ 0x0a ∷ bytes)
  unfolding encode_from
  line-Encodes st v vs bytes l (thrown, same) =
      rw
        (encode_line-IsRecord st.line v st.at st.count
          (parse_line-IsRecord codecs st.at st.line v l.parsed) l.fits l.below)
        (thrown, append_assoc st.line (0x0a ∷ []) _ ∙ ap (λ b. st.line ++ 0x0a ∷ b) same)

  decode_bytes-Encodes :
      (bytes : Bytes) (st : DecoderState)
      → (decode_bytes codecs options st bytes).thrown ≡ none
      → Encodes st.at st.count (decode_bytes codecs options st bytes).yielded (st.line ++ bytes)
  unfolding decode_bytes encode_from
  decode_bytes-Encodes [] st h = elim (Bool-cases (ltb options.max_line_bytes (length st.line))) [
    | inl long ↦ absurd (cc (rw long at h))
    | inr fits ↦ elim (Bool-cases (ltb 0 (length st.line))) [
      | inl left ↦ absurd (cc (rw (fits, left) at h))
      | inr empty ↦ rw (fits, empty) (refl, sym (empty_line st.line empty))
    ]
  ]
  decode_bytes-Encodes (b ∷ bytes) st h = elim (Bool-cases (b == 0x0a)) [
    | inl lf ↦ elim (Result-cases (checked_line codecs options st)) [
      | inr (e, thrown) ↦ absurd (cc (rw (lf, thrown) at h))
      | inl (v, checked) ↦
          rw (lf, checked)
            (let rest = decode_bytes codecs options (after_line codecs options st) bytes in
              subst (λ x. Encodes st.at st.count (v ∷ rest.yielded) (st.line ++ x ∷ bytes))
                (sym ((==_iff b 0x0a).0 lf))
                (line-Encodes st v rest.yielded bytes (checked_line-IsLine st v checked) (
                  decode_bytes-Encodes bytes (after_line codecs options st)
                    (rw (lf, checked) at h))))
    ]
    | inr other ↦ rw other (
        subst
          (Encodes st.at st.count
            (decode_bytes codecs options (record st { line = st.line ++ b ∷ [] }) bytes).yielded)
          (append_assoc st.line (b ∷ []) bytes)
          (decode_bytes-Encodes bytes (record st { line = st.line ++ b ∷ [] }) (rw other at h)))
  ]

-- Where bytes decode without an error, in whatever chunks they come, the records that were decoded
-- encode without an error to the same bytes, under a strict UTF-8 decoder and whatever JSON.parse
-- does: no other spelling of a record is accepted.
pub decode_jsonl-encode_jsonl :
    (codecs : Codecs) (options : JsonlOptions)
    → IsStrict codecs
    → (chunks : List Bytes) → (decode_jsonl codecs options chunks).thrown ≡ none
    → ((encode_jsonl codecs options (decode_jsonl codecs options chunks).yielded).thrown ≡ none)
      × (concat (encode_jsonl codecs options (decode_jsonl codecs options chunks).yielded).yielded
          ≡ concat chunks)
unfolding encode_jsonl
decode_jsonl-encode_jsonl codecs options strict chunks h =
    let same = decode_jsonl-decode_bytes codecs options chunks in
    subst
      (λ y.
        ((encode_from codecs options y.yielded start 0).thrown ≡ none)
        × (concat (encode_from codecs options y.yielded start 0).yielded ≡ concat chunks))
      (sym same)
      (decode_bytes-Encodes codecs options strict (concat chunks) first_line
        (subst (λ y. y.thrown ≡ none) same h))
