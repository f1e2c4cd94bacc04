-- ===== src/Prelude/Lists.antt =====
-- Lists measured by native numbers, how often a number occurs in one, and Go's maps and sets
-- keyed by an int64.
use Prim.Native.Nat.{ℕ, zero, suc, ◌+◌, ◌≤◌, ◌<◌}
use mathlib.Core.Path.{◌≡◌, refl, ap}
use mathlib.Core.Logic.{◌⊎◌, inl, inr}
use mathlib.Core.Bool.{Bool, true, false, ◌||◌}
use mathlib.Core.List.{List, [], ◌∷◌, ◌++◌, map}
use mathlib.Core.Option.{Option, none, some}
use native.Mathlib.Omega.{arith}
use case_execution.Prelude.Tests.{◌==◌, if◌then◌else◌}

module _ {ℓ} {A : Type ℓ} where
  abbrev pub length : List A → ℕ
  length [] = 0
  length (x ∷ xs) = suc (length xs)

  pub length-append : (xs ys : List A) → length (xs ++ ys) ≡ length xs + length ys
  length-append [] ys = omega arith
  length-append (x ∷ xs) ys = omega (arith, length-append xs ys)

  -- A predicate that each element meets.
  abbrev pub Each {κ} : (A → Type κ) → List A → Type κ
  Each Q [] = Unit
  Each Q (a ∷ more) = Q a × Each Q more

  pub Each-snoc {κ} :
      (Q : A → Type κ) (a : A) (front : List A) → Q a → Each Q front → Each Q (front ++ a ∷ [])
  Each-snoc Q a [] last each = (last, tt)
  Each-snoc Q a (b ∷ front) last each = (each.0, Each-snoc Q a front last each.1)

  abbrev pub take : ℕ → List A → List A
  take zero xs = []
  take (suc n) [] = []
  take (suc n) (x ∷ xs) = x ∷ take n xs

  pub length-take-le : (n : ℕ) (xs : List A) → length (take n xs) ≤ n
  length-take-le zero xs = omega arith
  length-take-le (suc n) [] = omega arith
  length-take-le (suc n) (x ∷ xs) = omega (arith, length-take-le n xs)

  abbrev pub is_nil : List A → Bool
  is_nil [] = true
  is_nil (x ∷ xs) = false

  -- A map keyed by an int64; the newest entry stands first.
  abbrev pub lookup : ℕ → List (ℕ × A) → Option A
  lookup k [] = none
  lookup k ((j, v) ∷ m) = if j == k then some v else lookup k m

pub length-map {ℓ κ} :
    {A : Type ℓ} {B : Type κ} (f : A → B) (xs : List A) → length (map f xs) ≡ length xs
length-map f [] = refl
length-map f (x ∷ xs) = ap suc (length-map f xs)

-- The assignments `m[k] = v` of a loop over the entries.
abbrev pub assign {ℓ} : {A : Type ℓ} → List (ℕ × A) → List (ℕ × A) → List (ℕ × A)
assign m [] = m
assign m (entry ∷ entries) = assign (entry ∷ m) entries

abbrev pub is_some {ℓ} : {A : Type ℓ} → Option A → Bool
is_some none = false
is_some (some a) = true

module _ {ℓ} {A : Type ℓ} where
  pub some_inj : {a b : A} → some a ≡ some b → a ≡ b
  some_inj e = cc e

  -- An entry stays, with this or a later value.
  assign_keeps :
      (k : ℕ) (m entries : List (ℕ × A))
      → is_some (lookup k m) ≡ true
      → is_some (lookup k (assign m entries)) ≡ true
  assign_keeps k m [] found = found
  assign_keeps k m ((j, v) ∷ entries) found = assign_keeps k ((j, v) ∷ m) entries (ground arith)

  -- Every key that was assigned is found.
  pub assign_finds :
      (m entries : List (ℕ × A))
      → Each (λ k. is_some (lookup k (assign m entries)) ≡ true) (map (λ e. e.0) entries)
  assign_finds m [] = tt
  assign_finds m ((j, v) ∷ entries) =
      (assign_keeps j ((j, v) ∷ m) entries (ground arith), assign_finds ((j, v) ∷ m) entries)

-- A set of int64, as `map[int64]struct{}`.
abbrev pub contains : List ℕ → ℕ → Bool
contains [] a = false
contains (x ∷ xs) a = x == a || contains xs a

abbrev pub occurs : ℕ → ℕ → ℕ
occurs a x = if x == a then 1 else 0

-- How often an identifier occurs.
abbrev pub count : ℕ → List ℕ → ℕ
count id [] = 0
count id (other ∷ ids) = occurs id other + count id ids

pub count-append :
    (id : ℕ) (front back : List ℕ) → count id (front ++ back) ≡ count id back + count id front
count-append id [] back = omega arith
count-append id (other ∷ front) back = omega (arith, count-append id front back)

pub count-snoc :
    (id : ℕ) (ids : List ℕ) (last : ℕ) → count id (ids ++ last ∷ []) ≡ count id ids + occurs id last
count-snoc id ids last = omega (arith, count-append id ids (last ∷ []))

pub count-contains : (a : ℕ) (xs : List ℕ) → contains xs a ≡ true → 0 < count a xs
count-contains a [] h = cc
count-contains a (x ∷ xs) h = ground (arith, count-contains a xs)

pub count_absent : (a : ℕ) (xs : List ℕ) → contains xs a ≡ false → count a xs ≡ 0
count_absent a [] h = refl
count_absent a (x ∷ xs) h = ground (arith, count_absent a xs)

pub map-snoc {ℓ κ} :
    {A : Type ℓ} {B : Type κ} (f : A → B) (xs : List A) (x : A)
    → map f (xs ++ x ∷ []) ≡ map f xs ++ f x ∷ []
map-snoc f [] x = refl
map-snoc f (y ∷ xs) x = ap (◌∷◌ (f y)) (map-snoc f xs x)

-- Two lists of one length, whose elements at each place are related.
abbrev pub Pairs {ℓ κ} : {A : Type ℓ} {B : Type κ} → (A → B → Type 0) → List A → List B → Type 0
Pairs Q [] [] = Unit
Pairs Q [] (b ∷ bs) = ⊥
Pairs Q (a ∷ more) [] = ⊥
Pairs Q (a ∷ more) (b ∷ bs) = Q a b × Pairs Q more bs

module _ {ℓ} {A : Type ℓ} where
  pub Each-take : (Q : A → Type 0) (n : ℕ) (xs : List A) → Each Q xs → Each Q (take n xs)
  Each-take Q zero xs each = tt
  Each-take Q (suc n) [] each = tt
  Each-take Q (suc n) (x ∷ xs) each = (each.0, Each-take Q n xs each.1)

  pub Each-map {κ} :
      {B : Type κ} (Q : B → Type 0) (f : A → B) (xs : List A)
      → Each (λ x. Q (f x)) xs
      → Each Q (map f xs)
  Each-map Q f [] each = tt
  Each-map Q f (x ∷ xs) each = (each.0, Each-map Q f xs each.1)

  pub Each-imp : (P Q : A → Type 0) (xs : List A) → ((x : A) → P x → Q x) → Each P xs → Each Q xs
  Each-imp P Q [] weaker each = tt
  Each-imp P Q (x ∷ xs) weaker each = (weaker x each.0, Each-imp P Q xs weaker each.1)

  pub Pairs-imp {κ} :
      {B : Type κ} (E : A → Type 0) (P Q : A → B → Type 0) (xs : List A) (ys : List B)
      → ((x : A) (y : B) → E x → P x y → Q x y)
      → Each E xs
      → Pairs P xs ys
      → Pairs Q xs ys
  Pairs-imp E P Q [] [] weaker each pairs = tt
  Pairs-imp E P Q [] (y ∷ ys) weaker each pairs = absurd pairs
  Pairs-imp E P Q (x ∷ xs) [] weaker each pairs = absurd pairs
  Pairs-imp E P Q (x ∷ xs) (y ∷ ys) weaker each pairs =
      (weaker x y each.0 pairs.0, Pairs-imp E P Q xs ys weaker each.1 pairs.1)

  pub Each-unit : (xs : List A) → Each (λ x. Unit {0}) xs
  Each-unit [] = tt
  Each-unit (x ∷ xs) = (tt, Each-unit xs)

  pub List-cases : (xs : List A) → (xs ≡ []) ⊎ ((x : A) × (more : List A) × (xs ≡ x ∷ more))
  List-cases [] = inl refl
  List-cases (x ∷ xs) = inr (x, xs, refl)

pub ℕ-cases : (n : ℕ) → (n ≡ 0) ⊎ ((m : ℕ) × (n ≡ suc m))
ℕ-cases zero = inl refl
ℕ-cases (suc n) = inr (n, refl)
