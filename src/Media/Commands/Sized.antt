-- ===== src/Media/Commands/Sized.antt =====
-- That the texts which apps/server/src/media-cache/command-queue.ts trims and measures meet the length
-- checks of apps/server/src/db/schema.ts.
use koharu_suite.Prelude.{
  ℕ, ◌≤◌, ◌≡◌, refl, subst, Bool, true, false, ◌&&◌, ◌||◌, [], ◌∷◌, arith, ltb, ltb→ge, le→leb_true,
  ◌==◌, ==_iff, length, all, ||-false, Bool-cases, inl, inr,
}
use koharu_suite.Prelude.Texts.{Text, trim, is_space, trim-cases}
use koharu_suite.Media.Commands.Checks.{
  is_high_surrogate, is_low_surrogate, characters_after, characters, btrim_end, btrim, is_sized,
}

characters_after-le-length : (high : Bool) (s : Text) → characters_after high s ≤ length s
characters_after-le-length high [] = omega arith
characters_after-le-length high (c ∷ s) =
    let rest = characters_after-le-length (is_high_surrogate c) s in
    elim (Bool-cases (high && is_low_surrogate c)) [
      | inl second ↦ rw second (omega (arith, rest))
      | inr first ↦ rw first (omega (arith, rest))
    ]

length-btrim_end : (s : Text) → length (btrim_end s) ≤ length s
length-btrim_end [] = omega arith
length-btrim_end (c ∷ s) = elim (Bool-cases (all (c ∷ s) (λ d. d == 0x20))) [
  | inl blank ↦ rw blank (omega arith)
  | inr given ↦ rw given (omega (arith, length-btrim_end s))
]

space-not : (c : ℕ) → is_space c ≡ false → (c == 0x20) ≡ false
space-not c h = elim (Bool-cases (c == 0x20)) [
  | inl same ↦ absurd (cc (subst (λ d. is_space d ≡ false) ((==_iff c 0x20).0 same) h))
  | inr other ↦ other
]

btrim-cons : (c : ℕ) (s : Text) → (c == 0x20) ≡ false → btrim (c ∷ s) ≡ c ∷ btrim_end s
btrim-cons c s h = rw (h, h)

is_sized-cons :
    (most c : ℕ) (s : Text)
    → is_space c ≡ false
    → length (c ∷ s) ≤ most
    → is_sized most (c ∷ s) ≡ true
unfolding is_sized
is_sized-cons most c s h short =
    let rest = characters_after-le-length (is_high_surrogate c) (btrim_end s) in
    rw (
      btrim-cons c s (space-not c h),
      le→leb_true 1 (characters (c ∷ btrim_end s)) (omega arith),
      le→leb_true (characters (c ∷ btrim_end s)) most
          (omega (arith, rest, length-btrim_end s, short)),
    )

-- A text within the bounds that the operations test has a length that the table allows.
pub is_sized-trim :
    (most : ℕ) (value : Text)
    → ((length (trim value) == 0) || ltb most (length (trim value))) ≡ false
    → is_sized most (trim value) ≡ true
is_sized-trim most value h = elim (trim-cases value) [
  | inl empty ↦ absurd (cc (rw empty at h))
  | inr (c, s, trimmed, other) ↦
      rw trimmed (is_sized-cons most c s other (ltb→ge _ _ (||-false _ _ (rw trimmed at h)).1))
]

halves : (a b c d : Bool) → (a || b || c || d) ≡ false → ((a || b) ≡ false) × ((c || d) ≡ false)
halves false false c d h = (refl, h)
halves true b c d h = absurd (cc)
halves false true c d h = absurd (cc)

-- The test of `enqueue` on the initiator and the reason.
pub initiator_sized :
    (initiator reason : Text)
    → ((length (trim initiator) == 0)
        || ltb 255 (length (trim initiator))
        || (length (trim reason) == 0)
        || ltb 500 (length (trim reason)))
      ≡ false
    → (is_sized 255 (trim initiator) ≡ true) × (is_sized 500 (trim reason) ≡ true)
initiator_sized initiator reason h =
    let (who, why) =
      halves (length (trim initiator) == 0) (ltb 255 (length (trim initiator)))
        (length (trim reason) == 0) (ltb 500 (length (trim reason))) h in
    (is_sized-trim 255 initiator who, is_sized-trim 500 reason why)
