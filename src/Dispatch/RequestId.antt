-- ===== src/Dispatch/RequestId.antt =====
-- NormalizeRequestID of internal/usecase/dispatch_app_service.go, and the value objects of
-- internal/domain/vo that trim their text.
use case_execution.Prelude.{
  ◌⊎◌, subst, ◌≤◌, ◌<◌, ◌≡◌, refl, true, false, [], ◌∷◌, Each, arith, length, ltb, if◌then◌else◌,
  Bool-cases, inl, inr,
}
use case_execution.Text.{Bytes, lit, is_empty}
use case_execution.Text.Trim.{trim_space, IsTrimmed, trim_space-IsTrimmed, trim_space_still}
use case_execution.Text.Hex.{hex_encode, length-hex_encode, hex_encode-IsTrimmed}
use case_execution.Domain.Errs.{GoError, wrap, is_err, invalid_argument, new_invalid_argument}
use case_execution.Dispatch.Ports.{Reply, ok, err}

unfoldable pub new_version : Bytes → Bytes
new_version s = trim_space s

unfoldable pub new_channel : Bytes → Bytes
new_channel s = trim_space s

-- The answer of crypto/rand for sixteen bytes, where one is needed.
random_id : Reply Bytes → Reply Bytes
random_id (ok bytes) = ok (hex_encode bytes)
random_id (err e) = err (wrap (lit "generate request_id: ") e [])

unfoldable pub normalize_request_id : Reply Bytes → Bytes → Reply Bytes
unfolding random_id
normalize_request_id random request_id =
    let trimmed = trim_space request_id in
    if ltb 64 (length trimmed)
    then err (new_invalid_argument (lit "request_id must not exceed 64 bytes"))
    else if is_empty trimmed
    then random_id random
    else ok trimmed

-- Sixteen bytes, as rand.Read fills its slice.
pub record IsRandom (random : Reply Bytes) : Type 0 where
  pub filled : (bytes : Bytes) → random ≡ ok bytes → (length bytes ≡ 16) × Each (λ b. b < 256) bytes

-- A text that NormalizeRequestID returns: not empty, short enough for its column, and trimmed.
pub record IsRequestId (s : Bytes) : Type 0 where
  pub present : is_empty s ≡ false
  pub short : length s ≤ 64
  pub trimmed : IsTrimmed s

not_empty : (s : Bytes) → 0 < length s → is_empty s ≡ false
not_empty [] h = absurd (omega arith)
not_empty (a ∷ s) h = refl

random_id-IsRequestId :
    (random : Reply Bytes) (t : Bytes) → IsRandom random → random_id random ≡ ok t → IsRequestId t
unfolding random_id
random_id-IsRequestId (err e) t r h = cc
random_id-IsRequestId (ok bytes) t r h =
    let (long, small) = r.filled bytes refl in
    let e : hex_encode bytes ≡ t = ground arith in
    subst IsRequestId e (record {
      present = not_empty _ (omega (arith, length-hex_encode bytes));
      short = omega (arith, length-hex_encode bytes);
      trimmed = hex_encode-IsTrimmed bytes small;
    })

normalize-IsRequestId :
    (random : Reply Bytes) (s t : Bytes)
    → IsRandom random
    → normalize_request_id random s ≡ ok t
    → IsRequestId t
unfolding normalize_request_id
normalize-IsRequestId random s t r h = elim (Bool-cases (ltb 64 (length (trim_space s)))) [
  | inl long ↦ absurd (ground arith)
  | inr fits ↦ elim (Bool-cases (is_empty (trim_space s))) [
    | inl missing ↦ random_id-IsRequestId random t r (ground arith)
    | inr given ↦
        subst IsRequestId {x = trim_space s} (ground arith)
          (record { present = given; short = ground arith; trimmed = trim_space-IsTrimmed s })
  ]
]

normalize-IsRequestId_still :
    (random : Reply Bytes) (t : Bytes) → IsRequestId t → normalize_request_id random t ≡ ok t
unfolding normalize_request_id
normalize-IsRequestId_still random t h = rw (trim_space_still t h.trimmed, h.present) (ground arith)

-- What NormalizeRequestID returns is not empty, at most 64 bytes long and trimmed, also where it is
-- drawn at random; so normalising it again, as the application service does after the handler,
-- returns it unchanged and draws no other.
pub normalize_twice :
    (random again : Reply Bytes) (s t : Bytes)
    → IsRandom random
    → normalize_request_id random s ≡ ok t
    → IsRequestId t × (normalize_request_id again t ≡ ok t)
normalize_twice random again s t r h =
    let valid = normalize-IsRequestId random s t r h in
    (valid, normalize-IsRequestId_still again t valid)

-- The only failures are a text that is longer than 64 bytes when trimmed, an invalid argument, and an
-- empty one for which no random bytes can be had.
pub normalize_fails :
    (random : Reply Bytes) (s : Bytes) (e : GoError)
    → normalize_request_id random s ≡ err e
    → ((64 < length (trim_space s)) × (is_err e invalid_argument ≡ true))
      ⊎ ((is_empty (trim_space s) ≡ true) × ((cause : GoError) × (random ≡ err cause)))
unfolding normalize_request_id is_err new_invalid_argument
normalize_fails (ok bytes) s e h = ground arith
normalize_fails (err cause) s e h = elim (Bool-cases (ltb 64 (length (trim_space s)))) [
  | inl long ↦ inl (ground arith, ground arith)
  | inr fits ↦ inr (ground arith, (cause, refl))
]
