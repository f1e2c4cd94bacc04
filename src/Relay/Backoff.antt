-- ===== src/Relay/Backoff.antt =====
-- retryBackoff of internal/usecase/outbox_relay.go. A time.Duration is an int64, here its bit
-- pattern below 2^64.
use case_execution.Prelude.{
  ap, inr, ◌∙◌, inl, refl, ◌⊎◌, ℕ, zero, suc, ◌+◌, ◌-◌, ◌*◌, ◌%◌, ◌^◌, ◌≤◌, ◌<◌, ◌≡◌, min, Bool,
  true, false, arith, ltb, leb, if◌then◌else◌,
}

-- `a < b` on the int64 of two bit patterns.
abbrev pub lt_int64 : ℕ → ℕ → Bool
lt_int64 a b = ltb ((a + 2 ^ 63) % 2 ^ 64) ((b + 2 ^ 63) % 2 ^ 64)

-- `delay *= 2`, and the cap.
abbrev pub doubled : ℕ → ℕ → ℕ
doubled ceiling delay =
    let twice = delay * 2 % 2 ^ 64 in if lt_int64 ceiling twice then ceiling else twice

-- The loop, with the number of rounds that `i < attempt` leaves.
backoff_loop : ℕ → ℕ → ℕ → ℕ
backoff_loop zero ceiling delay = delay
backoff_loop (suc rounds) ceiling delay =
    let rest = backoff_loop rounds ceiling (doubled ceiling delay) in
    if lt_int64 delay ceiling then rest else delay

-- The first backoff, the ceiling and the attempt; an attempt below 1 counts as 1.
unfoldable pub retry_backoff : ℕ → ℕ → ℕ → ℕ
unfolding backoff_loop
retry_backoff initial ceiling attempt =
    let attempt' = if ltb attempt 1 then 1 else attempt in
    backoff_loop (attempt' - 1) ceiling initial

times_more : (a b p : ℕ) → 1 ≤ p → a ≤ b → a ≤ b * p
times_more a b zero some le = omega arith
times_more a b (suc p) some le = ground (arith, mul_suc b p)
  where
    mul_suc : (b p : ℕ) → b * suc p ≡ b + b * p
    mul_suc b p = omega arith

power_suc : (n : ℕ) → 2 * 2 ^ n ≡ 2 ^ suc n
power_suc n = omega arith

power_positive : (n : ℕ) → 1 ≤ 2 ^ n
power_positive zero = omega arith
power_positive (suc n) = omega (arith, power_positive n)

lt_int64_lem : (a b : ℕ) → a ≤ 2 ^ 62 → b ≤ 2 ^ 62 → lt_int64 a b ≡ ltb a b
lt_int64_lem a b le1 le2 = ground arith

lt_int64_less : (a b : ℕ) → b ≤ 2 ^ 62 → a < b → lt_int64 a b ≡ true
lt_int64_less a b small less = ground (arith, lt_int64_lem a b)

lt_int64_more : (a b : ℕ) → b ≤ 2 ^ 62 → b < a → a < 2 ^ 63 → lt_int64 a b ≡ false
lt_int64_more a b small more fits = ground arith

lt_int64_same : (a : ℕ) → lt_int64 a a ≡ false
lt_int64_same a = ground arith

doubled_lem :
    (ceiling delay : ℕ)
    → ceiling ≤ 2 ^ 62
    → delay < ceiling
    → doubled ceiling delay ≡ min ceiling (delay * 2)
doubled_lem ceiling delay small le = ground arith

capped_twice :
    (ceiling delay p : ℕ)
    → 1 ≤ p
    → min ceiling (min ceiling (delay * 2) * p) ≡ min ceiling (delay * (2 * p))
capped_twice ceiling delay p some =
    ground (arith, times_more ceiling ceiling p some, times_more ceiling (delay * 2) p some)

loop_step :
    (rounds ceiling delay : ℕ)
    → ceiling ≤ 2 ^ 62
    → delay < ceiling
    → backoff_loop (suc rounds) ceiling delay
      ≡ backoff_loop rounds ceiling (min ceiling (delay * 2))
unfolding backoff_loop
loop_step rounds ceiling delay small less =
    rw (lt_int64_less delay ceiling small less, doubled_lem ceiling delay small less) refl

loop_lem :
    (rounds ceiling delay : ℕ)
    → ceiling ≤ 2 ^ 62
    → delay ≤ ceiling
    → backoff_loop rounds ceiling delay ≡ min ceiling (delay * 2 ^ rounds)
unfolding backoff_loop
loop_lem zero ceiling delay small le = ground arith
loop_lem (suc rounds) ceiling delay small le = elim (le_cases delay ceiling le) [
  | inl less ↦ rw (loop_step rounds ceiling delay small less) (
      loop_lem rounds ceiling (min ceiling (delay * 2)) small (ground arith)
      ∙ capped_twice ceiling delay (2 ^ rounds) (power_positive rounds)
      ∙ ap (λ p. min ceiling (delay * p)) (power_suc rounds))
  | inr same ↦
      rw (same, lt_int64_same ceiling)
        (ground (arith, times_more ceiling ceiling (2 ^ suc rounds), power_positive (suc rounds)))
]
  where
    le_cases : (a b : ℕ) → a ≤ b → (a < b) ⊎ (a ≡ b)
    le_cases a b le = ground arith

loop_above :
    (rounds ceiling delay : ℕ)
    → ceiling ≤ 2 ^ 62
    → ceiling < delay
    → delay < 2 ^ 63
    → backoff_loop rounds ceiling delay ≡ delay
unfolding backoff_loop
loop_above zero ceiling delay small more fits = refl
loop_above (suc rounds) ceiling delay small more fits =
    rw (lt_int64_more delay ceiling small more fits) refl

from_one : (attempt : ℕ) → (if ltb attempt 1 then 1 else attempt) - 1 ≡ attempt - 1
from_one attempt = ground arith

-- With a cap of at most 2^62 nanoseconds and a first backoff below 2^63, the wait doubles with each attempt
-- from the first backoff on until it meets the cap, and nothing overflows; a first backoff above the cap
-- is kept.
pub retry_backoff_lem :
    (initial ceiling attempt : ℕ)
    → ceiling ≤ 2 ^ 62
    → initial < 2 ^ 63
    → retry_backoff initial ceiling attempt
      ≡ (if leb initial ceiling then min ceiling (initial * 2 ^ (attempt - 1)) else initial)
unfolding retry_backoff
retry_backoff_lem initial ceiling attempt small fits =
    rw (from_one attempt) (elim (leb_cases initial ceiling) [
      | inl (e, le) ↦ rw e (loop_lem (attempt - 1) ceiling initial small le)
      | inr (e, more) ↦ rw e (loop_above (attempt - 1) ceiling initial small more fits)
    ])
  where
    leb_cases : (a b : ℕ) → ((leb a b ≡ true) × (a ≤ b)) ⊎ ((leb a b ≡ false) × (b < a))
    leb_cases a b = ground arith
