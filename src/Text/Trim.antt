-- ===== src/Text/Trim.antt =====
-- strings.TrimSpace of the Go standard library, on bytes: white space is what unicode.IsSpace
-- accepts, in its UTF-8 encoding. A byte sequence that is not UTF-8 has no white space in it but
-- such an encoding, so the same tests serve for it.
use case_execution.Prelude.{
  Bool-cases, ℕ, zero, suc, ◌≤◌, ◌<◌, ◌≡◌, refl, sym, ap, ◌∙◌, Bool, ◌&&◌, ◌||◌, Option, none, some,
  List, [], ◌∷◌, ◌++◌, reverse, arith, length, length-append, leb, ◌==◌, if◌then◌else◌,
  Option-cases, inl, inr, append_assoc,
}
use mathlib.Core.List.{reverse-append, reverse-reverse, reverse-cons}

abbrev is_space1 : ℕ → Bool
is_space1 a = leb 9 a && leb a 13 || a == 32

abbrev is_space2 : ℕ → ℕ → Bool
is_space2 a b = a == 0xc2 && (b == 0x85 || b == 0xa0)

abbrev is_space3 : ℕ → ℕ → ℕ → Bool
is_space3 a b c =
    a == 0xe1 && b == 0x9a && c == 0x80
    || a == 0xe2 && b == 0x80 && (leb 0x80 c && leb c 0x8a || c == 0xa8 || c == 0xa9 || c == 0xaf)
    || a == 0xe2 && b == 0x81 && c == 0x9f
    || a == 0xe3 && b == 0x80 && c == 0x80

-- What follows one white space at the front, by the tests on one, two and three bytes.
module _ (two : ℕ → ℕ → Bool) (three : ℕ → ℕ → ℕ → Bool) where
  peel3 : ℕ → ℕ → List ℕ → Option (List ℕ)
  peel3 a b [] = none
  peel3 a b (c ∷ r) = if three a b c then some r else none

  peel2 : ℕ → List ℕ → Option (List ℕ)
  unfolding peel3
  peel2 a [] = none
  peel2 a (b ∷ r) = if two a b then some r else peel3 a b r

  unfoldable pub peel : List ℕ → Option (List ℕ)
  unfolding peel2
  peel [] = none
  peel (a ∷ r) = if is_space1 a then some r else peel2 a r

  -- Each round takes a byte at least, so the length is fuel enough.
  peel_all : ℕ → List ℕ → List ℕ
  peel_all zero s = s
  peel_all (suc fuel) s = elim (peel s) [ none ↦ s | some r ↦ peel_all fuel r ]

abbrev pub strip : List ℕ → Option (List ℕ)
strip = peel is_space2 is_space3

-- From the back, the text and the tests are reversed.
abbrev pub strip_back : List ℕ → Option (List ℕ)
strip_back = peel (λ b a. is_space2 a b) (λ c b a. is_space3 a b c)

trim_left : List ℕ → List ℕ
unfolding peel_all peel
trim_left s = peel_all is_space2 is_space3 (length s) s

trim_right : List ℕ → List ℕ
unfolding peel_all peel
trim_right s =
    reverse (peel_all (λ b a. is_space2 a b) (λ c b a. is_space3 a b c) (length s) (reverse s))

unfoldable pub trim_space : List ℕ → List ℕ
unfolding trim_left trim_right
trim_space s = trim_right (trim_left s)

module _ (two : ℕ → ℕ → Bool) (three : ℕ → ℕ → ℕ → Bool) where
  abbrev Splits : List ℕ → List ℕ → Type 0
  Splits s r = (w : List ℕ) × (s ≡ w ++ r) × (length r < length s)

  peel3-Splits : (a b : ℕ) (s r : List ℕ) → peel3 two three a b s ≡ some r → Splits s r
  unfolding peel3
  peel3-Splits a b [] r h = cc
  peel3-Splits a b (c ∷ s) r h = (c ∷ [], ground arith, ground arith)

  peel2-Splits : (a : ℕ) (s r : List ℕ) → peel2 two three a s ≡ some r → Splits s r
  unfolding peel2
  peel2-Splits a [] r h = cc
  peel2-Splits a (b ∷ s) r h = elim (Bool-cases (two a b)) [
    | inl t ↦ (b ∷ [], ground arith, ground arith)
    | inr f ↦
        let (w, e, lt) = peel3-Splits a b s r (rw f at h) in (b ∷ w, ap (◌∷◌ b) e, omega arith)
  ]

  peel-Splits : (s r : List ℕ) → peel two three s ≡ some r → Splits s r
  unfolding peel
  peel-Splits [] r h = cc
  peel-Splits (a ∷ s) r h = elim (Bool-cases (is_space1 a)) [
    | inl t ↦ (a ∷ [], ground arith, ground arith)
    | inr f ↦ let (w, e, lt) = peel2-Splits a s r (rw f at h) in (a ∷ w, ap (◌∷◌ a) e, omega arith)
  ]

  -- With fuel for its length a text loses all white space, and what is lost stands in front.
  peel_all-none :
      (fuel : ℕ) (s : List ℕ) → length s ≤ fuel → peel two three (peel_all two three fuel s) ≡ none
  unfolding peel_all
  peel_all-none zero [] h = unfold peel in refl
  peel_all-none zero (a ∷ s) h = absurd (omega arith)
  peel_all-none (suc fuel) s h = elim (Option-cases (peel two three s)) [
    | inl e ↦ rw (e, peel_all) e
    | inr (r, e) ↦
        let (w, _, lt) = peel-Splits s r e in rw (e, peel_all) (peel_all-none fuel r (omega arith))
  ]

  peel_all-suffix : (fuel : ℕ) (s : List ℕ) → (w : List ℕ) × (s ≡ w ++ peel_all two three fuel s)
  unfolding peel_all
  peel_all-suffix zero s = ([], refl)
  peel_all-suffix (suc fuel) s = elim (Option-cases (peel two three s)) [
    | inl e ↦ ([], rw (e, peel_all))
    | inr (r, e) ↦
        let (w, split, _) = peel-Splits s r e in
        let (w', split') = peel_all-suffix fuel r in
        (w ++ w', rw (e, peel_all) (split ∙ ap (λ t. w ++ t) split' ∙ sym (append_assoc w w' _)))
  ]

  -- A text with no white space in front keeps it so when its end is cut off.
  peel-prefix : (s t : List ℕ) → peel two three (s ++ t) ≡ none → peel two three s ≡ none
  unfolding peel
  peel-prefix [] t h = refl
  peel-prefix (a ∷ []) t h = ground arith
  peel-prefix (a ∷ b ∷ []) t h = ground arith
  peel-prefix (a ∷ b ∷ c ∷ s) t h = ground arith

  peel_all_still : (fuel : ℕ) (s : List ℕ) → peel two three s ≡ none → peel_all two three fuel s ≡ s
  unfolding peel_all
  peel_all_still zero s h = refl
  peel_all_still (suc fuel) s h = rw (h, peel_all)

-- A text with no white space at either end.
pub record IsTrimmed (s : List ℕ) : Type 0 where
  pub front : strip s ≡ none
  pub back : strip_back (reverse s) ≡ none

length-reverse : (s : List ℕ) → length (reverse s) ≡ length s
length-reverse [] = refl
length-reverse (a ∷ s) =
    omega
      (arith, ap length (reverse-cons a s), length-append (reverse s) (a ∷ []), length-reverse s)

trim_right-prefix : (s : List ℕ) → (w : List ℕ) × (s ≡ trim_right s ++ w)
unfolding trim_right
trim_right-prefix s =
    let (w, e) =
      peel_all-suffix (λ b a. is_space2 a b) (λ c b a. is_space3 a b c) (length s) (reverse s) in
    (reverse w, sym (reverse-reverse s) ∙ ap reverse e ∙ reverse-append w _)

-- TrimSpace leaves no white space at either end.
pub trim_space-IsTrimmed : (s : List ℕ) → IsTrimmed (trim_space s)
unfolding trim_space
trim_space-IsTrimmed s = record { front = front_of; back = back_of }
  where
    left_done : strip (trim_left s) ≡ none
    left_done = peel_all-none is_space2 is_space3 (length s) s (omega arith)

    front_of : strip (trim_right (trim_left s)) ≡ none
    front_of =
        let (w, e) = trim_right-prefix (trim_left s) in
        peel-prefix is_space2 is_space3 (trim_right (trim_left s)) w (rw e at left_done)

    back_of : strip_back (reverse (trim_right (trim_left s))) ≡ none
    back_of = rw reverse-reverse (
        peel_all-none (λ b a. is_space2 a b) (λ c b a. is_space3 a b c) (length (trim_left s))
          (reverse (trim_left s)) (omega (arith, length-reverse (trim_left s))))

-- It leaves such a text as it is.
pub trim_space_still : (s : List ℕ) → IsTrimmed s → trim_space s ≡ s
unfolding trim_space
trim_space_still s h = rw (peel_all_still is_space2 is_space3 (length s) s h.front) (
    ap reverse (
      peel_all_still (λ b a. is_space2 a b) (λ c b a. is_space3 a b c) (length s) (reverse s)
        h.back)
    ∙ reverse-reverse s)
