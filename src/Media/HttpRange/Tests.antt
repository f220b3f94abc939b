-- ===== src/Media/HttpRange/Tests.antt =====
-- Runs of the header's parser, and the theorems at concrete headers.
use koharu_suite.Prelude.{◌≡◌, refl, none, some, ok, err, ◌>>=◌, arith}
use koharu_suite.Prelude.Texts.{codes}
use koharu_suite.Prelude.Numbers.{whole}
use koharu_suite.Media.HttpRange.{
  unsatisfiable, whole_file, invalid_length, skip_spaces, take_digits, match_literal, match_range,
  decimal_from, parse_bound, suffix_range, bounded_range, range_from, select_range,
  resolve_media_byte_range, byte_range,
}
use koharu_suite.Media.HttpRange.Bounds.{IsWithin, resolve_media_byte_range-IsWithin}
use koharu_suite.Media.HttpRange.Reading.{resolve_media_byte_range-header_text}

running : Unit {0}
unfolding skip_spaces take_digits match_literal match_range decimal_from parse_bound suffix_range
    bounded_range range_from select_range resolve_media_byte_range ◌>>=◌
running = tt

odd_spelling :
    resolve_media_byte_range (some (codes "  BYTES = 10-99999 ")) (whole 100)
    ≡ ok (byte_range 10 99)
unfolding running
odd_spelling = refl

other_answers :
    (resolve_media_byte_range none (whole 100) ≡ ok whole_file)
    × (resolve_media_byte_range (some (codes "bytes=0-1,5-6")) (whole 100) ≡ ok unsatisfiable)
    × (resolve_media_byte_range (some (codes "bytes=-")) (whole 100) ≡ ok unsatisfiable)
    × (resolve_media_byte_range (some (codes "bytes=-30")) (whole 100) ≡ ok (byte_range 70 99))
    × (resolve_media_byte_range (some (codes "bytes=-0")) (whole 100) ≡ ok unsatisfiable)
    × (resolve_media_byte_range (some (codes "bytes=7-")) (whole 0) ≡ err invalid_length)
unfolding running
other_answers = (refl, refl, refl, refl, refl, refl)

resolve_media_byte_range-IsWithin_example :
    (whole 100 ≡ whole 100) × IsWithin (record { end = 99; length = 90; start = 10 }) 100
resolve_media_byte_range-IsWithin_example =
    resolve_media_byte_range-IsWithin (some (codes "  BYTES = 10-99999 ")) (whole 100)
      (record { end = 99; length = 90; start = 10 }) odd_spelling

resolve_media_byte_range-header_text_example :
    resolve_media_byte_range (some (codes "bytes=10-250")) (whole 100) ≡ ok (byte_range 10 99)
unfolding decimal_from
resolve_media_byte_range-header_text_example =
    resolve_media_byte_range-header_text (codes "10") (codes "250") 100 (refl, (refl, tt))
      (refl, (refl, (refl, tt))) (omega arith) (omega arith) (omega arith) (omega arith)
