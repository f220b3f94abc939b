-- ===== src/Media/ContentType/Tests.antt =====
-- A stream in three chunks, under a detector of one magic number.
use koharu_suite.Prelude.{
  ◌≡◌, refl, Option, none, some, List, [], ◌∷◌, ok, err, take, if◌then◌else◌,
}
use koharu_suite.Prelude.Texts.{codes, text_eq}
use koharu_suite.Media.ContentType.{
  Bytes, ContentType, photo, video, read_prefix, validate_media_content_type,
  validate_media_content_type_stream, media_content_type_mismatch,
}
use koharu_suite.Media.ContentType.Prefix.{
  concat, validate_media_content_type_stream-validate_media_content_type,
}

running : Unit {0}
unfolding read_prefix validate_media_content_type_stream
running = tt

abbrev png : ContentType
png = record { extension = codes "png"; mime_type = codes "image/png" }

abbrev detect : Bytes → Option ContentType
detect bytes = if text_eq (take 4 bytes) (0x89 ∷ 0x50 ∷ 0x4e ∷ 0x47 ∷ []) then some png else none

abbrev chunks : List Bytes
chunks = (0x89 ∷ []) ∷ [] ∷ (0x50 ∷ 0x4e ∷ 0x47 ∷ 0x0d ∷ []) ∷ []

photo_run : validate_media_content_type_stream detect chunks photo ≡ ok png
unfolding running
photo_run = refl

video_run : validate_media_content_type_stream detect chunks video ≡ err media_content_type_mismatch
unfolding running
video_run = refl

validate_media_content_type_stream-validate_media_content_type_example :
    validate_media_content_type_stream detect chunks photo
    ≡ validate_media_content_type detect (concat chunks) photo
validate_media_content_type_stream-validate_media_content_type_example =
    validate_media_content_type_stream-validate_media_content_type detect chunks photo
