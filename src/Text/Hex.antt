-- ===== src/Text/Hex.antt =====
-- hex.EncodeToString of the Go standard library: two lower-case digits for each byte.
use case_execution.Prelude.{
  none, ℕ, ◌+◌, ◌*◌, ◌/◌, ◌%◌, ◌≤◌, ◌<◌, ◌≡◌, refl, List, [], ◌∷◌, reverse, Each, Each-snoc, arith,
  length, ltb, if◌then◌else◌,
}
use case_execution.Text.Trim.{IsTrimmed, peel, strip, strip_back}
use mathlib.Core.List.{reverse-cons}

hex_digit : ℕ → ℕ
hex_digit n = if ltb n 10 then 48 + n else 87 + n

unfoldable pub hex_encode : List ℕ → List ℕ
unfolding hex_digit
hex_encode [] = []
hex_encode (b ∷ bs) = hex_digit (b / 16) ∷ hex_digit (b % 16) ∷ hex_encode bs

pub length-hex_encode : (bs : List ℕ) → length (hex_encode bs) ≡ length bs * 2
unfolding hex_encode
length-hex_encode [] = refl
length-hex_encode (b ∷ bs) = omega (arith, length-hex_encode bs)

-- A visible ASCII character.
abbrev IsVisible : ℕ → Type 0
IsVisible c = (33 ≤ c) × (c < 128)

hex_digit-IsVisible : (n : ℕ) → n < 16 → IsVisible (hex_digit n)
unfolding hex_digit
hex_digit-IsVisible n h = ground arith

hex_encode-IsVisible : (bs : List ℕ) → Each (λ b. b < 256) bs → Each IsVisible (hex_encode bs)
unfolding hex_encode
hex_encode-IsVisible [] h = tt
hex_encode-IsVisible (b ∷ bs) h =
    let high = hex_digit-IsVisible (b / 16) (omega arith) in
    let low = hex_digit-IsVisible (b % 16) (omega arith) in
    (high, (low, hex_encode-IsVisible bs h.1))

strip_visible : (s : List ℕ) → Each IsVisible s → strip s ≡ none
unfolding peel
strip_visible [] h = refl
strip_visible (a ∷ []) h = ground arith
strip_visible (a ∷ b ∷ []) h = ground arith
strip_visible (a ∷ b ∷ c ∷ s) h = ground arith

strip_back_visible : (s : List ℕ) → Each IsVisible s → strip_back s ≡ none
unfolding peel
strip_back_visible [] h = refl
strip_back_visible (a ∷ []) h = ground arith
strip_back_visible (a ∷ b ∷ []) h = ground arith
strip_back_visible (a ∷ b ∷ c ∷ s) h = ground arith

reverse-IsVisible : (s : List ℕ) → Each IsVisible s → Each IsVisible (reverse s)
reverse-IsVisible [] h = tt
reverse-IsVisible (a ∷ s) h =
    rw (reverse-cons a s) (Each-snoc IsVisible a (reverse s) h.0 (reverse-IsVisible s h.1))

-- Hexadecimal text has no white space at its ends.
pub hex_encode-IsTrimmed : (bs : List ℕ) → Each (λ b. b < 256) bs → IsTrimmed (hex_encode bs)
hex_encode-IsTrimmed bs h = record {
  front = strip_visible _ (hex_encode-IsVisible bs h);
  back = strip_back_visible _ (reverse-IsVisible _ (hex_encode-IsVisible bs h));
}
