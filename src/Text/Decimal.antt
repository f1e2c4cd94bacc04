-- ===== src/Text/Decimal.antt =====
-- Decimal text: the `%d` verb and strconv.FormatInt on numbers that are not negative.
use case_execution.Prelude.{ℕ, zero, suc, ◌+◌, ◌/◌, ◌%◌, List, [], ◌∷◌, ◌++◌, ltb, if◌then◌else◌}

-- With fuel above the number every digit is written.
decimal_digits : ℕ → ℕ → List ℕ
decimal_digits zero n = []
decimal_digits (suc fuel) n =
    let front = decimal_digits fuel (n / 10) in
    if ltb n 10 then (48 + n) ∷ [] else front ++ (48 + n % 10) ∷ []

unfoldable pub format_int : ℕ → List ℕ
unfolding decimal_digits
format_int n = decimal_digits (suc n) n
