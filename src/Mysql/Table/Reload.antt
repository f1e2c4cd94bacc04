-- ===== src/Mysql/Table/Reload.antt =====
-- The rows of a batch that are read back into its entities, by a key.
use case_execution.Prelude.{
  refl, some_inj, if◌then◌else◌, assign, lookup, true, false, [], ◌∷◌, ◌≡◌, ◌==◌, none, some, ℕ,
  map, ==_iff, Pairs, Each, subst, Bool, Option, List,
}
use case_execution.Dispatch.Ports.{ok_inj, err, ok, Reply}
use case_execution.Domain.Errs.{GoError}

-- The map of the rows; a later row replaces an earlier one.
abbrev pub by_key : {R : Type 0} → (R → ℕ) → List R → List (ℕ × R)
by_key key_of persisted = assign [] (map (λ r. (key_of r, r)) persisted)

module _ {R S : Type 0} (missing : ℕ → GoError) (key_of : S → ℕ) (entity : R → S) where
  -- The loop that copies the rows; the error names the first entity that has none.
  unfoldable pub reload : List (ℕ × R) → List S → Reply (List S)
  reload rows [] = ok []
  reload rows (s ∷ more) =
      let rest = reload rows more in
      elim (lookup (key_of s) rows) [
        | none ↦ err (missing (key_of s))
        | some row ↦ elim rest [ err e ↦ err e | ok others ↦ ok (entity row ∷ others) ]
      ]

  abbrev pub Read : List (ℕ × R) → S → S → Type 0
  Read rows s s' = (row : R) × (lookup (key_of s) rows ≡ some row) × (s' ≡ entity row)

  pub reload-Pairs :
      (rows : List (ℕ × R)) (ss out : List S) → reload rows ss ≡ ok out → Pairs (Read rows) ss out
  unfolding reload
  reload-Pairs rows [] [] done = tt
  reload-Pairs rows [] (s ∷ out) done = absurd (cc done)
  reload-Pairs rows (s ∷ ss) out done =
      one_of (lookup (key_of s) rows) (reload rows ss) out refl (reload-Pairs rows ss) done
    where
      one_of :
          (found_row : Option R) (rest : Reply (List S)) (out : List S)
          → lookup (key_of s) rows ≡ found_row
          → ((others : List S) → rest ≡ ok others → Pairs (Read rows) ss others)
          → elim found_row [
            | none ↦ err (missing (key_of s))
            | some row ↦ elim rest [ err e ↦ err e | ok others ↦ ok (entity row ∷ others) ]
          ]
            ≡ ok out
          → Pairs (Read rows) (s ∷ ss) out
      one_of none rest out e others done = absurd (cc done)
      one_of (some row) (err x) out e others done = absurd (cc done)
      one_of (some row) (ok more) out e others done =
          subst (Pairs (Read rows) (s ∷ ss)) (ok_inj done) ((row, e, refl), others more refl)

-- An entry that a map holds was put there.
pub lookup-assign :
    {R : Type 0} (P : ℕ → R → Type 0) (k : ℕ) (v : R) (m entries : List (ℕ × R))
    → Each (λ e. P e.0 e.1) entries
    → Each (λ e. P e.0 e.1) m
    → lookup k (assign m entries) ≡ some v
    → P k v
lookup-assign P k v [] [] each kept e = absurd (cc e)
lookup-assign P k v ((j, w) ∷ m) [] each kept e =
    one_of (j == k) refl (lookup-assign P k v m [] tt kept.1) e
  where
    one_of :
        (b : Bool)
        → (j == k) ≡ b
        → (lookup k m ≡ some v → P k v)
        → (if b then some w else lookup k m) ≡ some v
        → P k v
    one_of true same rest e =
        subst (λ x. P x v) ((==_iff j k).0 same) (subst (P j) (some_inj e) kept.0)
    one_of false same rest e = rest e
lookup-assign P k v m ((j, w) ∷ entries) each kept e =
    lookup-assign P k v ((j, w) ∷ m) entries each.1 (each.0, kept) e
