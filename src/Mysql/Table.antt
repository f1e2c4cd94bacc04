-- ===== src/Mysql/Table.antt =====
-- A table of the database as the repositories of internal/infrastructure/persistence/mysql use it.
-- GORM and MySQL are not in the repository: a table is a record of statements, with what SQL says of
-- each as a law.
pub mod Upsert
pub mod Reload
pub mod Updated
use case_execution.Dispatch.Ports.{ok_inj, after, Action, Reply, ok, err}
use case_execution.Prelude.{
  sym, refl, arith, ap, is_nil, ℕ, ◌≡◌, ◌⊎◌, ◌++◌, ◌∷◌, Bool, true, false, List, [], Option, none,
  some, map, length, Each, take, ◌&&◌, if◌then◌else◌,
}
use mathlib.Core.List.{Mem}
use case_execution.Text.{Bytes, lit}
use case_execution.Domain.Errs.{wrap, opaque}

-- The rows in the order of their keys; the collation, under which two texts are equal where they have the
-- same weight; and the statements: Create, whose flag is the clause ON CONFLICT
-- DO NOTHING, and CreateInBatches, which return the rows with the keys that are filled in; Find, First
-- without its error for a row that is not found, and Count; Updates, which
-- knows the time that GORM writes for autoUpdateTime, with the number of rows met; and
-- the SELECT of a claim: FOR UPDATE SKIP LOCKED, by key, with a limit.
pub record Table (D R : Type 0) : Type 0 where
  pub rows_of : D → List R
  pub weight : Bytes → Bytes
  pub create : Bool → R → Action D R
  pub create_in_batches : Bool → List R → ℕ → Action D (List R)
  pub find_where : (R → Bool) → Action D (List R)
  pub first_where : (R → Bool) → Action D (Option R)
  pub count_where : (R → Bool) → Action D ℕ
  pub update_where : (R → Bool) → (ℕ → R → R) → Action D ℕ
  pub lock_where : (R → Bool) → ℕ → Action D (List R)

module _ {R : Type 0} where
  -- The rows that a WHERE meets.
  abbrev pub chosen : (R → Bool) → List R → List R
  chosen p [] = []
  chosen p (r ∷ rs) = if p r then r ∷ chosen p rs else chosen p rs

  abbrev pub first_of : List R → Option R
  first_of [] = none
  first_of (r ∷ rs) = some r

  -- The rows after an UPDATE.
  abbrev pub updated : (R → Bool) → (R → R) → List R → List R
  updated p f = map (λ r. if p r then f r else r)

-- What SQL says of the statements, where they succeed. `clash` is the unique index of the table, and
-- `with_key` fills a key in.
pub record IsTable {D R : Type 0} (with_key : ℕ → R → R) (clash : R → R → Bool) (table : Table D R)
    : Type 0 where
  -- A row is inserted under a key, where none of the rows clashes with it, or else is left out.
  pub creates :
      (keep : Bool) (r r' : R) (d d' : D)
      → table.create keep r d ≡ (ok r', d')
      → ((k : ℕ) × (r' ≡ with_key k r)
          × (table.rows_of d' ≡ table.rows_of d ++ r' ∷ [])
          × (is_nil (chosen (λ old. clash old r) (table.rows_of d)) ≡ true))
        ⊎ ((keep ≡ true) × (table.rows_of d' ≡ table.rows_of d))
  -- Some of the rows are inserted; all, where a clash is an error.
  pub creates_many :
      (keep : Bool) (rs rs' : List R) (size : ℕ) (d d' : D)
      → table.create_in_batches keep rs size d ≡ (ok rs', d')
      → (new : List R) × (table.rows_of d' ≡ table.rows_of d ++ new) × (keep ≡ false → rs' ≡ new)
  pub finds :
      (p : R → Bool) (d d' : D) (rs : List R)
      → table.find_where p d ≡ (ok rs, d')
      → (table.rows_of d' ≡ table.rows_of d) × Each (λ r. (p r ≡ true) × Mem r (table.rows_of d)) rs
  pub firsts :
      (p : R → Bool) (d d' : D) (r : Option R)
      → table.first_where p d ≡ (ok r, d')
      → (table.rows_of d' ≡ table.rows_of d) × (r ≡ first_of (chosen p (table.rows_of d)))
  pub counts :
      (p : R → Bool) (d d' : D) (n : ℕ)
      → table.count_where p d ≡ (ok n, d')
      → (table.rows_of d' ≡ table.rows_of d) × (n ≡ length (chosen p (table.rows_of d)))
  pub updates :
      (p : R → Bool) (f : ℕ → R → R) (d d' : D) (n : ℕ)
      → table.update_where p f d ≡ (ok n, d')
      → (written_at : ℕ) × (table.rows_of d' ≡ updated p (f written_at) (table.rows_of d))
        × (n ≡ length (chosen p (table.rows_of d)))
  -- `free` are the rows that no other transaction has locked.
  pub locks :
      (p : R → Bool) (limit : ℕ) (d d' : D) (rs : List R)
      → table.lock_where p limit d ≡ (ok rs, d')
      → (table.rows_of d' ≡ table.rows_of d)
        × (free : R → Bool) × (rs ≡ take limit (chosen (λ r. p r && free r) (table.rows_of d)))

-- fmt.Errorf with the prefix and `%w`.
abbrev pub wrapped : {D A : Type 0} → Bytes → Reply A × D → Reply A × D
wrapped prefix (ok a, d) = (ok a, d)
wrapped prefix (err e, d) = (err (wrap prefix e []), d)

-- First, with gorm.ErrRecordNotFound.
abbrev pub found : {D R : Type 0} → Reply (Option R) × D → Reply R × D
found (err e, d) = (err e, d)
found (ok none, d) = (err (opaque (lit "record not found")), d)
found (ok (some r), d) = (ok r, d)

-- Inversion of a statement that succeeds, followed by more.
pub after-wrapped :
    {D A B : Type 0} (prefix : Bytes) (r : Reply A × D) (f : A → Action D B) (b : B) (d' : D)
    → after (wrapped prefix r) f ≡ (ok b, d')
    → (a : A) × (d : D) × (r ≡ (ok a, d)) × (f a d ≡ (ok b, d'))
after-wrapped prefix (ok a, d) f b d' done = (a, d, refl, done)
after-wrapped prefix (err e, d) f b d' done = absurd (ground arith)

pub found-ok :
    {D R : Type 0} (found_row : Reply (Option R) × D) (r : R) (d : D)
    → found found_row ≡ (ok r, d)
    → found_row ≡ (ok (some r), d)
found-ok (err e, d1) r d done = absurd (ground arith)
found-ok (ok none, d1) r d done = absurd (ground arith)
found-ok (ok (some r1), d1) r d done = cc done

pub updated-none : {R : Type 0} (f : R → R) (rs : List R) → updated (λ r. false) f rs ≡ rs
updated-none f [] = refl
updated-none f (r ∷ rs) = ap (◌∷◌ r) (updated-none f rs)

-- A statement and what is returned from its result.
pub return-ok :
    {D A : Type 0} (a b : A) (d d' : D)
    → ◌≡◌ {A = Reply A × D} (ok a, d) (ok b, d')
    → (b ≡ a) × (d' ≡ d)
return-ok a b d d' done = (sym (ok_inj (ap (λ r. r.0) done)), sym (ap (λ r. r.1) done))

pub first_of-some : {R : Type 0} (rs : List R) (r : R) → first_of rs ≡ some r → is_nil rs ≡ false
first_of-some [] r e = absurd (cc e)
first_of-some (x ∷ rs) r e = refl
