-- ===== src/Media/ContentType/Prefix.antt =====
-- The prefix of a stream in apps/server/src/media-cache/content-type.ts, against that of a file.
use mathlib.Core.List.{append-nil, append_assoc}
use koharu_suite.Prelude.{
  ℕ, zero, suc, ◌-◌, ◌≤◌, ◌≡◌, refl, sym, ap, ◌∙◌, subst, arith, Option, List, [], ◌∷◌, ◌++◌, ltb,
  length, length-append, take, Bool-cases, inl, inr, ltb→lt, ltb→ge,
}
use koharu_suite.Media.ContentType.{
  CacheableMediaKind, ContentType, Bytes, detection_prefix_bytes, read_prefix,
  validate_detected_content_type, validate_media_content_type, validate_media_content_type_stream,
}

abbrev pub concat : List Bytes → Bytes
concat [] = []
concat (chunk ∷ chunks) = chunk ++ concat chunks

take_all : (n : ℕ) (xs : Bytes) → length xs ≤ n → take n xs ≡ xs
take_all zero [] h = refl
take_all zero (x ∷ xs) h = absurd (omega (arith, h))
take_all (suc n) [] h = refl
take_all (suc n) (x ∷ xs) h = ap (λ t. x ∷ t) (take_all n xs (omega (arith, h)))

take_first : (n : ℕ) (xs ys : Bytes) → n ≤ length xs → take n (xs ++ ys) ≡ take n xs
take_first zero xs ys h = refl
take_first (suc n) [] ys h = absurd (omega (arith, h))
take_first (suc n) (x ∷ xs) ys h = ap (λ t. x ∷ t) (take_first n xs ys (omega (arith, h)))

take-append :
    (n : ℕ) (xs ys : Bytes) → length xs ≤ n → take n (xs ++ ys) ≡ xs ++ take (n - length xs) ys
take-append n [] ys h = ap (λ m. take m ys) (omega arith)
take-append zero (x ∷ xs) ys h = absurd (omega (arith, h))
take-append (suc n) (x ∷ xs) ys h =
    ap (λ t. x ∷ t)
      (take-append n xs ys (omega (arith, h)) ∙ ap (λ m. xs ++ take m ys) (omega arith))

module _ (limit : ℕ) where
  read_prefix-take :
      (chunks : List Bytes) (prefix : Bytes)
      → length prefix ≤ limit
      → read_prefix limit prefix chunks ≡ take limit (prefix ++ concat chunks)
  unfolding read_prefix
  read_prefix-take [] prefix h = sym (
      take_all limit (prefix ++ []) (subst (λ t. length t ≤ limit) (sym (append-nil prefix)) h)
      ∙ append-nil prefix)
  read_prefix-take (chunk ∷ chunks) prefix h =
      let whole = take-append limit prefix (chunk ++ concat chunks) h in
      elim (Bool-cases (ltb (length prefix) limit)) [
        | inr full ↦ rw full (sym (whole ∙ none_left (ltb→ge _ _ full) (chunk ++ concat chunks)))
        | inl room ↦ elim (Bool-cases (ltb (limit - length prefix) (length chunk))) [
          | inl longer ↦
              rw (room, longer)
                (sym (
                  whole
                  ∙ ap (λ t. prefix ++ t)
                      (take_first (limit - length prefix) chunk (concat chunks)
                        (omega (arith, ltb→lt _ _ longer)))))
          | inr fits ↦
              let all = take_all (limit - length prefix) chunk (ltb→ge _ _ fits) in
              rw (room, fits)
                (ap (λ t. read_prefix limit (prefix ++ t) chunks) all
                  ∙ read_prefix-take chunks (prefix ++ chunk)
                      (omega (arith, length-append prefix chunk, ltb→ge _ _ fits, h))
                  ∙ ap (take limit) (append_assoc prefix chunk (concat chunks)))
        ]
      ]
    where
      none_left :
          limit ≤ length prefix → (ys : Bytes) → prefix ++ take (limit - length prefix) ys ≡ prefix
      none_left over ys =
          let spent : limit - length prefix ≡ zero = omega (arith, over) in
          ap (λ n. prefix ++ take n ys) spent ∙ append-nil prefix

-- A stream, in whatever chunks it comes, is validated as a file with its bytes is.
pub validate_media_content_type_stream-validate_media_content_type :
    (detect : Bytes → Option ContentType) (chunks : List Bytes) (kind : CacheableMediaKind)
    → validate_media_content_type_stream detect chunks kind
      ≡ validate_media_content_type detect (concat chunks) kind
unfolding validate_media_content_type_stream
validate_media_content_type_stream-validate_media_content_type detect chunks kind =
    ap (λ prefix. validate_detected_content_type detect prefix kind)
      (read_prefix-take detection_prefix_bytes chunks [] (omega arith))
