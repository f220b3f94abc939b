-- ===== src/Media/ContentType.antt =====
-- apps/server/src/media-cache/content-type.ts. A stream is the list of its chunks; one that fails
-- passes its error on. What `fileTypeFromBuffer` makes of a prefix is an argument.
pub mod Prefix
mod Tests
use koharu_suite.Prelude.{
  ℕ, ◌-◌, Bool, true, false, ◌&&◌, Option, none, some, List, [], ◌∷◌, ◌++◌, ltb, if◌then◌else◌,
  Result, ok, err, length, any, find, take,
}
use koharu_suite.Prelude.Texts.{Text, codes, text_eq}

-- `CacheableMediaKind`.
pub data CacheableMediaKind : Type 0 where
  animation photo video : CacheableMediaKind

abbrev pub detection_prefix_bytes : ℕ
detection_prefix_bytes = 4100

-- `ValidatedMediaContentType`, and what is detected.
pub record ContentType : Type 0 where
  pub extension : Text
  pub mime_type : Text

pub data ContentTypeErrorCode : Type 0 where
  media_content_type_mismatch media_content_type_unknown : ContentTypeErrorCode

pub record SupportedType : Type 0 where
  pub content_type : ContentType
  pub kinds : List CacheableMediaKind

abbrev supported : Text → Text → List CacheableMediaKind → SupportedType
supported extension mime_type kinds = record {
  content_type = record { extension = extension; mime_type = mime_type };
  kinds = kinds;
}

-- `SUPPORTED_CONTENT_TYPES`.
abbrev pub supported_content_types : List SupportedType
supported_content_types =
    supported (codes "avif") (codes "image/avif") (photo ∷ [])
    ∷ supported (codes "gif") (codes "image/gif") (animation ∷ [])
    ∷ supported (codes "jpg") (codes "image/jpeg") (photo ∷ [])
    ∷ supported (codes "mp4") (codes "video/mp4") (animation ∷ video ∷ [])
    ∷ supported (codes "png") (codes "image/png") (photo ∷ [])
    ∷ supported (codes "webm") (codes "video/webm") (video ∷ [])
    ∷ supported (codes "webp") (codes "image/webp") (animation ∷ photo ∷ [])
    ∷ []

abbrev pub is_kind : CacheableMediaKind → CacheableMediaKind → Bool
is_kind animation animation = true
is_kind animation photo = false
is_kind animation video = false
is_kind photo animation = false
is_kind photo photo = true
is_kind photo video = false
is_kind video animation = false
is_kind video photo = false
is_kind video video = true

abbrev pub supports : ContentType → CacheableMediaKind → SupportedType → Bool
supports detected kind s =
    text_eq s.content_type.extension detected.extension
    && text_eq s.content_type.mime_type detected.mime_type
    && any s.kinds (is_kind kind)

abbrev pub Bytes : Type 0
Bytes = List ℕ

abbrev found : Option SupportedType → Result ContentTypeErrorCode ContentType
found none = err media_content_type_mismatch
found (some s) = ok s.content_type

abbrev detected_type :
    CacheableMediaKind → Option ContentType → Result ContentTypeErrorCode ContentType
detected_type kind none = err media_content_type_unknown
detected_type kind (some detected) = found (find (supports detected kind) supported_content_types)

-- The loop over the stream, for a prefix of so many bytes, with what there is of it so far.
unfoldable pub read_prefix : ℕ → Bytes → List Bytes → Bytes
read_prefix limit prefix [] = prefix
read_prefix limit prefix (chunk ∷ chunks) =
    let remaining = limit - length prefix in
    let more = read_prefix limit (prefix ++ take remaining chunk) chunks in
    if ltb (length prefix) limit
    then if ltb remaining (length chunk) then prefix ++ take remaining chunk else more
    else prefix

module _ (detect : Bytes → Option ContentType) where
  -- `validateDetectedContentType`.
  abbrev pub validate_detected_content_type :
      Bytes → CacheableMediaKind → Result ContentTypeErrorCode ContentType
  validate_detected_content_type prefix kind = detected_type kind (detect prefix)

  -- `validateMediaContentType`, of a file's bytes.
  abbrev pub validate_media_content_type :
      Bytes → CacheableMediaKind → Result ContentTypeErrorCode ContentType
  validate_media_content_type file kind =
      validate_detected_content_type (take detection_prefix_bytes file) kind

  -- `validateMediaContentTypeStream`.
  unfoldable pub validate_media_content_type_stream :
      List Bytes → CacheableMediaKind → Result ContentTypeErrorCode ContentType
  unfolding read_prefix
  validate_media_content_type_stream chunks kind =
      validate_detected_content_type (read_prefix detection_prefix_bytes [] chunks) kind
