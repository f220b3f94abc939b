-- ===== src/Archive/Paths/Utf8.antt =====
-- `Buffer.byteLength(s, 'utf8')` of a JavaScript string.
use koharu_suite.Prelude.{
  ℕ, suc, ◌+◌, ◌≡◌, refl, Bool, true, ◌&&◌, [], ◌∷◌, arith, ltb, leb, ap, ◌∙◌, false, tests,
  lt→leb_false, &&-true, if◌then◌else◌, length, all,
}
use koharu_suite.Prelude.Texts.{Text}

abbrev is_high_surrogate : ℕ → Bool
is_high_surrogate c = leb 0xd800 c && leb c 0xdbff

abbrev is_low_surrogate : ℕ → Bool
is_low_surrogate c = leb 0xdc00 c && leb c 0xdfff

-- The bytes of one unit: a lone surrogate is written as U+FFFD, which takes three.
abbrev pub unit_bytes : ℕ → ℕ
unit_bytes c = if ltb c 0x80 then 1 else if ltb c 0x800 then 2 else 3

unfoldable pub byte_length : Text → ℕ
byte_length [] = 0
byte_length (c ∷ []) = unit_bytes c
byte_length (c ∷ d ∷ s) =
    let pair = 4 + byte_length s in
    let single = unit_bytes c + byte_length (d ∷ s) in
    if is_high_surrogate c && is_low_surrogate d then pair else single

ascii_not_high : (c : ℕ) → ltb c 0x80 ≡ true → is_high_surrogate c ≡ false
ascii_not_high c h = rw (lt→leb_false 0xd800 c (omega tests))

ascii_unit : (c : ℕ) → ltb c 0x80 ≡ true → unit_bytes c ≡ 1
ascii_unit c h = rw h

byte_length-cons :
    (c : ℕ) (s : Text) → ltb c 0x80 ≡ true → byte_length (c ∷ s) ≡ suc (byte_length s)
unfolding byte_length
byte_length-cons c [] h = ascii_unit c h
byte_length-cons c (d ∷ s) h = rw (ascii_not_high c h, ascii_unit c h) (omega arith)

-- An ASCII text has as many bytes as units.
pub byte_length-ascii : (s : Text) → all s (λ c. ltb c 0x80) ≡ true → byte_length s ≡ length s
byte_length-ascii [] h = unfold byte_length in refl
byte_length-ascii (c ∷ s) h =
    let (p, q) = &&-true (ltb c 0x80) _ h in byte_length-cons c s p ∙ ap suc (byte_length-ascii s q)
