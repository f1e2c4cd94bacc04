-- ===== src/Mysql/Helpers.antt =====
-- uniqueInt64s and truncateOutboxError of
-- internal/infrastructure/persistence/mysql/outbox_repository.go.
use case_execution.Prelude.{
  zero, suc, ap, ◌<◌, length-take-le, false, ==_iff, count-snoc, ◌==◌, count_absent, count-contains,
  take, arith, ◌||◌, length, ◌≤◌, ◌≡◌, leb, count, contains, List, ℕ, refl, [], ◌∷◌, ◌++◌,
  if◌then◌else◌,
}
use case_execution.Text.Hex.{length-hex_encode, hex_encode}
use case_execution.Text.{lit, is_empty, Bytes}
use case_execution.Domain.Errs.{wrap}
use case_execution.Dispatch.RequestId.{IsRandom}
use case_execution.Dispatch.Ports.{Reply, ok, err}

-- The loop, with the identifiers it has kept; the set of those seen has the same elements.
unique_loop : List ℕ → List ℕ → List ℕ
unique_loop unique [] = unique
unique_loop unique (value ∷ values) =
    unique_loop (if contains unique value then unique else unique ++ value ∷ []) values

unfoldable pub unique_int64s : List ℕ → List ℕ
unfolding unique_loop
unique_int64s values = unique_loop [] values

-- The message, or its first bytes where it is longer than the limit.
cut : ℕ → Bytes → Bytes
cut limit message = if leb (length message) limit then message else take limit message

unfoldable pub truncate_outbox_error : Bytes → Bytes
unfolding cut
truncate_outbox_error message = cut 1024 message

-- The token of a claim, from what crypto/rand has filled in.
unfoldable pub new_lease_token : Reply Bytes → Reply Bytes
new_lease_token (ok bytes) = ok (hex_encode bytes)
new_lease_token (err e) = err (wrap (lit "generate outbox lease token: ") e [])

-- A claim that draws sixteen bytes owns its messages under a token of 32 hexadecimal digits, which
-- fits its column and is never the empty one that fast-path updates use.
pub new_lease_token_lem :
    (random : Reply Bytes) (token : Bytes)
    → IsRandom random
    → new_lease_token random ≡ ok token
    → (length token ≡ 32) × (is_empty token ≡ false)
unfolding new_lease_token
new_lease_token_lem (err e) token drawn done = absurd (cc done)
new_lease_token_lem (ok bytes) token drawn done =
    let same : hex_encode bytes ≡ token = ground arith in
    let long : length token ≡ 32 =
      omega (arith, ap length same, length-hex_encode bytes, (drawn.filled bytes refl).0) in
    (long, not_empty token (omega (arith, long)))
  where
    not_empty : (s : Bytes) → 0 < length s → is_empty s ≡ false
    not_empty [] h = absurd (omega arith)
    not_empty (c ∷ s) h = refl

take_whole : (n : ℕ) (s : Bytes) → length s ≤ n → take n s ≡ s
take_whole zero [] h = refl
take_whole zero (c ∷ s) h = absurd (omega arith)
take_whole (suc n) [] h = refl
take_whole (suc n) (c ∷ s) h = ap (◌∷◌ c) (take_whole n s (omega arith))

length-cut :
    (limit : ℕ) (message : Bytes)
    → (length (cut limit message) ≤ limit) × (cut limit message ≡ take limit message)
unfolding cut
length-cut limit message = ground (arith, take_whole limit message, length-take-le limit message)

-- A stored error fits its column: the text itself, or its first 1024 bytes.
pub length-truncate_outbox_error :
    (message : Bytes)
    → (length (truncate_outbox_error message) ≤ 1024)
      × (truncate_outbox_error message ≡ take 1024 message)
unfolding truncate_outbox_error
length-truncate_outbox_error message = length-cut 1024 message

unique_loop-count :
    (a : ℕ) (unique values : List ℕ)
    → count a unique ≤ 1
    → count a (unique_loop unique values)
      ≡ (if contains unique a || contains values a then 1 else 0)
unfolding unique_loop
unique_loop-count a unique [] once = ground (arith, count-contains a unique, count_absent a unique)
unique_loop-count a unique (value ∷ values) once = ground (
  arith,
  unique_loop-count a unique values,
  unique_loop-count a (unique ++ value ∷ []) values,
  count-snoc a unique value,
  count_absent a unique,
  contains-append-one unique value a,
  ==_iff value a,
)
  where
    contains-append-one :
        (ids : List ℕ) (id a : ℕ) → contains (ids ++ id ∷ []) a ≡ (contains ids a || id == a)
    contains-append-one [] id a = ground arith
    contains-append-one (x ∷ ids) id a = ground (arith, contains-append-one ids id a)

-- uniqueInt64s keeps each value exactly once, and adds none.
pub unique_int64s-count :
    (a : ℕ) (values : List ℕ)
    → count a (unique_int64s values) ≡ (if contains values a then 1 else 0)
unfolding unique_int64s
unique_int64s-count a values = unique_loop-count a [] values (omega arith)
