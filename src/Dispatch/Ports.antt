-- ===== src/Dispatch/Ports.antt =====
-- What the use cases call and do not implement: the interfaces of internal/domain/repository,
-- internal/domain/port and internal/usecase/tx.go. `D` is the state of the database and `Q` that of
-- the broker; an operation returns its result and the state that it leaves.
use case_execution.Prelude.{arith, ◌≡◌, ◌⊎◌, inl, inr, refl, ℕ, Option, List}
use case_execution.Text.{Bytes}
use case_execution.Domain.Errs.{GoError}
use case_execution.Domain.Entity.{
  ExecutionRecord, ExecutionTask, OutboxMessage, UtCase, BatchResult,
}

-- A value or an error, Go's `(T, error)`.
pub data Reply {ℓ} (A : Type ℓ) : Type ℓ where
  ok : A → Reply A
  err : GoError → Reply A

pub ok_inj : {A : Type 0} {a b : A} → ok a ≡ ok b → a ≡ b
ok_inj done = cc done

-- The context of the call, or context.WithoutCancel of it with a timeout of so many seconds.
pub data Ctx : Type 0 where
  request : Ctx
  without_cancel : ℕ → Ctx

-- An operation on the database.
abbrev pub Action : Type 0 → Type 0 → Type 0
Action D A = D → Reply A × D

abbrev pub after : {D A B : Type 0} → Reply A × D → (A → Action D B) → Reply B × D
after (ok a, d) f = f a d
after (err e, d) f = (err e, d)

pub Reply-cases :
    {D A : Type 0} (r : Reply A × D)
    → ((a : A) × (d : D) × (r ≡ (ok a, d))) ⊎ ((e : GoError) × (d : D) × (r ≡ (err e, d)))
Reply-cases (ok a, d) = inl (a, d, refl)
Reply-cases (err e, d) = inr (e, d, refl)

infixl 5 ◌>>=◌ ◌>>◌
abbrev pub ◌>>=◌ : {D A B : Type 0} → Action D A → (A → Action D B) → Action D B
◌>>=◌ m f d = after (m d) f

abbrev pub ◌>>◌ : {D B : Type 0} → Action D (Unit {0}) → Action D B → Action D B
◌>>◌ m k d = after (m d) (λ _. k)

-- Inversion of a successful chain.
pub >>=-eq-ok :
    {D A B : Type 0} (m : Action D A) (f : A → Action D B) (d d' : D) (b : B)
    → (m >>= f) d ≡ (ok b, d')
    → (a : A) × (d1 : D) × (m d ≡ (ok a, d1)) × (f a d1 ≡ (ok b, d'))
>>=-eq-ok m f d d' b h = elim (Reply-cases (m d)) [
  | inl (a, d1, e) ↦ (a, d1, e, rw e at h)
  | inr (x, d1, e) ↦ absurd (ground arith)
]

abbrev pub return : {D A : Type 0} → A → Action D A
return a d = (ok a, d)

abbrev pub fail : {D A : Type 0} → GoError → Action D A
fail e d = (err e, d)

-- Where Go fills in a record through its pointer, the operation returns the record.
pub record UtCaseRepository (D : Type 0) : Type 0 where
  pub find_by_id : Ctx → ℕ → Action D (Option UtCase)

pub record ExecutionRepository (D : Type 0) : Type 0 where
  pub add : Ctx → ExecutionRecord → Action D ExecutionRecord
  pub batch_add : Ctx → List ExecutionRecord → Action D (List ExecutionRecord)
  pub find_by_id : Ctx → ℕ → Action D (Option ExecutionRecord)
  pub save : Ctx → ExecutionRecord → Action D (Unit {0})
  pub batch_update_status : Ctx → List ExecutionRecord → Action D (Unit {0})

pub record OutboxRepository (D : Type 0) : Type 0 where
  pub add : Ctx → OutboxMessage → Action D OutboxMessage
  pub batch_add : Ctx → List OutboxMessage → Action D (List OutboxMessage)
  -- limit, now and lease_until
  pub claim_pending : Ctx → ℕ → ℕ → ℕ → Action D (List OutboxMessage)
  pub mark_published : Ctx → List ℕ → Bytes → ℕ → Action D (Unit {0})
  pub mark_retry : Ctx → List ℕ → Bytes → ℕ → Bytes → Action D (Unit {0})
  pub mark_dead : Ctx → List ℕ → Bytes → Bytes → Action D (Unit {0})

pub record UtCaseExecutorClient (Q : Type 0) : Type 0 where
  pub execute : Ctx → ExecutionRecord → Bytes → Q → Option GoError × Q
  pub batch_run : Ctx → List ExecutionTask → Q → BatchResult × Option GoError × Q

-- A transaction runs its function in a context that carries it.
pub record TxRunner (D : Type 0) : Type 1 where
  pub run : (A : Type 0) → Ctx → Action D A → Action D A

-- The comment of tx.go: an error rolls back, and success commits what the function did.
pub record IsTxRunner {D : Type 0} (tx : TxRunner D) : Type 1 where
  pub commits :
      (A : Type 0) (ctx : Ctx) (f : Action D A) (d d' : D) (a : A)
      → Path (Reply A × D) (tx.run A ctx f d) (ok a, d')
      → Path (Reply A × D) (f d) (ok a, d')
  pub rolls_back :
      (A : Type 0) (ctx : Ctx) (f : Action D A) (d d' : D) (e : GoError)
      → Path (Reply A × D) (tx.run A ctx f d) (err e, d')
      → Path D d' d
