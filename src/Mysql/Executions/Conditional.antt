-- ===== src/Mysql/Executions/Conditional.antt =====
-- The conditional updates of execution_repository.go.
use case_execution.Mysql.Executions.Forward.{
  contains_unique, with_id-same, with_id-Forward, chosen_fewer, with_status-id, Forward-trans,
  Forward-refl, updated-Forward, Forward, with_id,
}
use case_execution.Prelude.{
  is_some, ◌⊎◌, true, [], ◌∷◌, ◌&&◌, ◌==◌, ◌≡◌, ◌≤◌, ◌<◌, none, some, ℕ, Pairs, Each, ap, ◌∙◌, sym,
  inl, inr, Bool-cases, contains, ltb, length, arith, ==_iff, refl, Each-imp, subst, Option, List,
  Bool,
}
use case_execution.Dispatch.Ports.{Ctx, >>=-eq-ok, ok}
use case_execution.Mysql.Table.{first_of, Table, updated, after-wrapped}
use case_execution.Mysql.Executions.{
  lit, save, check_saved, is_there, saved, is_waiting, IsExecutionTable,
}
use case_execution.Domain.Entity.{ExecutionRecord}
use case_execution.Domain.Status.{ExecutionStatus}
use case_execution.Mysql.Rows.{ExecutionRow}
use case_execution.Mysql.Helpers.{unique_int64s}
use case_execution.Mysql.Executions.Statuses.{
  batch_update_status, update_groups, update_group, check_group, check_existing, with_status,
  grouped, record_finish_time,
}

-- The rows with a key of the list are at least as many as its different keys.
abbrev pub Covers : List ℕ → List ExecutionRow → Type 0
Covers ids rows = length (unique_int64s ids) ≤ with_id (contains ids) rows

module _ {D : Type 0} (table : Table D ExecutionRow) where
  check_existing-ok :
      (status : ExecutionStatus) (unique : List ℕ) (existing : ℕ) (d d' : D)
      → check_existing table status unique existing d ≡ (ok tt, d')
      → (existing ≡ length unique) × (d ≡ d')
  unfolding check_existing
  check_existing-ok status unique existing d d' done =
      elim (Bool-cases (existing == length unique)) [
        | inl e ↦ ((==_iff existing (length unique)).0 e, ap (λ r. r.1) (rw e at done))
        | inr e ↦ absurd (cc (ap (λ r. r.0) (rw e at done)))
      ]

  -- Where the update has met fewer rows than there are keys, the others are there all the same.
  check_group-ok :
      (status : ExecutionStatus) (unique : List ℕ) (affected : ℕ) (d d' : D)
      → IsExecutionTable table
      → check_group table status unique affected d ≡ (ok tt, d')
      → (table.rows_of d' ≡ table.rows_of d)
        × ((length unique ≤ affected)
            ⊎ (length unique ≡ with_id (contains unique) (table.rows_of d)))
  unfolding check_group
  check_group-ok status unique affected d d' law done =
      elim (Bool-cases (ltb affected (length unique))) [
        | inl e ↦
            let (existing, d1, counted, last) =
              after-wrapped (lit "verify execution_record batch after conditional update: ")
                (table.count_where (λ r. contains unique r.execution_id) d)
                (check_existing table status unique) tt d' (rw e at done) in
            let (same, number) = law.counts _ d d1 existing counted in
            let (right, ended) = check_existing-ok status unique existing d1 d' last in
            (ap table.rows_of (sym ended) ∙ same, inr (sym right ∙ number))
        | inr e ↦ (ap (λ r. table.rows_of r.1) (sym (rw e at done)), inl (ground arith))
      ]

  update_group-ok :
      (records : List ExecutionRecord) (status : ExecutionStatus) (ids : List ℕ) (d d' : D)
      → IsExecutionTable table
      → update_group table records status ids d ≡ (ok tt, d')
      → Pairs Forward (table.rows_of d) (table.rows_of d') × Covers ids (table.rows_of d)
  unfolding update_group
  update_group-ok records status ids d d' law done =
      let finish = record_finish_time records ids in
      let (n, d1, met, last) =
        after-wrapped _
          (table.update_where (λ r. contains ids r.execution_id && is_waiting r)
            (λ _. with_status status finish) d)
          (check_group table status (unique_int64s ids)) tt d' done in
      let (_, changed, counted) = law.updates _ (λ _. with_status status finish) d d1 n met in
      let (same, enough) = check_group-ok status (unique_int64s ids) n d1 d' law last in
      let forward : Pairs Forward (table.rows_of d) (table.rows_of d1) =
        subst (Pairs Forward (table.rows_of d)) (sym changed) (
          updated-Forward (λ r. contains ids r.execution_id) (with_status status finish)
            (table.rows_of d) (with_status-id status finish)) in
      (
        subst (Pairs Forward (table.rows_of d)) (sym same) forward,
        elim enough [
          | inl many ↦ omega (
            arith,
            many,
            counted,
            chosen_fewer (λ r. contains ids r.execution_id) is_waiting (table.rows_of d),
          )
          | inr all ↦ omega (
            arith,
            all,
            with_id-Forward (contains (unique_int64s ids)) (table.rows_of d) (table.rows_of d1)
                forward,
            with_id-same (contains (unique_int64s ids)) (contains ids) (table.rows_of d)
                (λ a. contains_unique a ids),
          )
        ],
      )

  update_groups-ok :
      (records : List ExecutionRecord) (groups : List (ExecutionStatus × List ℕ)) (d d' : D)
      → IsExecutionTable table
      → update_groups table records groups d ≡ (ok tt, d')
      → Pairs Forward (table.rows_of d) (table.rows_of d')
        × Each (λ g. Covers g.1 (table.rows_of d)) groups
  unfolding update_groups
  update_groups-ok records [] d d' law done = (
    subst (λ x. Pairs Forward (table.rows_of d) (table.rows_of x)) (ap (λ r. r.1) done)
        (Forward-refl (table.rows_of d)),
    tt,
  )
  update_groups-ok records ((status, ids) ∷ groups) d d' law done =
      let (u, d1, one, rest) =
        >>=-eq-ok (update_group table records status ids) (λ v. update_groups table records groups)
          d d' tt done in
      let (forward, covers) = update_group-ok records status ids d d1 law one in
      let (more, all) = update_groups-ok records groups d1 d' law rest in
      (
        Forward-trans (table.rows_of d) (table.rows_of d1) (table.rows_of d') forward more,
        (
          covers,
          Each-imp (λ g. Covers g.1 (table.rows_of d1)) (λ g. Covers g.1 (table.rows_of d)) groups
              (λ g h. omega (
                arith,
                h,
                with_id-Forward (contains g.1) (table.rows_of d) (table.rows_of d1) forward,
              ))
              all,
        ),
      )

  -- BatchUpdateStatus is conditional: when it succeeds for some records, every row is where it was, with
  -- its key, and is as it was or was still waiting. For each status that it writes, the table has at least
  -- as many rows with a listed key as there are different keys.
  pub batch_update_status_lem :
      (visit : List (ExecutionStatus × List ℕ) → List (ExecutionStatus × List ℕ)) (ctx : Ctx)
      (r : ExecutionRecord) (rs : List ExecutionRecord) (d d' : D)
      → IsExecutionTable table
      → batch_update_status table visit ctx (r ∷ rs) d ≡ (ok tt, d')
      → Pairs Forward (table.rows_of d) (table.rows_of d')
        × Each (λ g. Covers g.1 (table.rows_of d)) (visit (grouped [] (r ∷ rs)))
  unfolding batch_update_status
  batch_update_status_lem visit ctx r rs d d' law done =
      update_groups-ok (r ∷ rs) (visit (grouped [] (r ∷ rs))) d d' law done

  is_there-ok :
      (id : ℕ) (row : Option ExecutionRow) (d d' : D)
      → is_there table id row d ≡ (ok tt, d')
      → (is_some row ≡ true) × (d ≡ d')
  unfolding is_there
  is_there-ok id none d d' done = absurd (cc (ap (λ r. r.0) done))
  is_there-ok id (some row) d d' done = (refl, ap (λ r. r.1) done)

  some_row : (rows : List ExecutionRow) → is_some (first_of rows) ≡ true → 0 < length rows
  some_row [] h = absurd (cc h)
  some_row (r ∷ rows) h = omega arith

  check_saved-ok :
      (id affected : ℕ) (d d' : D)
      → IsExecutionTable table
      → check_saved table id affected d ≡ (ok tt, d')
      → (table.rows_of d' ≡ table.rows_of d)
        × ((0 < affected) ⊎ (0 < with_id (λ k. k == id) (table.rows_of d)))
  unfolding check_saved
  check_saved-ok id affected d d' law done = elim (Bool-cases (affected == 0)) [
    | inl e ↦
        let (row, d1, got, last) =
          after-wrapped (lit "verify execution_record after conditional update: ")
            (table.first_where (λ r. r.execution_id == id) d) (is_there table id) tt d'
            (rw e at done) in
        let (same, which) = law.firsts _ d d1 row got in
        let (there, ended) = is_there-ok id row d1 d' last in
        (ap table.rows_of (sym ended) ∙ same, inr (some_row _ (ap is_some (sym which) ∙ there)))
    | inr e ↦ (ap (λ r. table.rows_of r.1) (sym (rw e at done)), inl (ground arith))
  ]

  -- Save is conditional too: when it succeeds there is a row with the key; where that row still waits it
  -- has the status and the times of the record, and every other row is as it was.
  pub save_lem :
      (ctx : Ctx) (r : ExecutionRecord) (d d' : D)
      → IsExecutionTable table
      → save table ctx r d ≡ (ok tt, d')
      → (0 < with_id (λ k. k == r.execution_id) (table.rows_of d))
        × (table.rows_of d'
            ≡ updated
                (λ row. row.execution_id == r.execution_id && is_waiting row)
                (saved r)
                (table.rows_of d))
  unfolding save
  save_lem ctx r d d' law done =
      let q : ℕ → Bool = λ k. k == r.execution_id in
      let (n, d1, met, last) =
        after-wrapped (lit "update execution_record: ")
          (table.update_where (λ row. q row.execution_id && is_waiting row) (λ _. saved r) d)
          (check_saved table r.execution_id) tt d' done in
      let (_, changed, counted) = law.updates _ (λ _. saved r) d d1 n met in
      let (same, there) = check_saved-ok r.execution_id n d1 d' law last in
      let forward : Pairs Forward (table.rows_of d) (table.rows_of d1) =
        subst (Pairs Forward (table.rows_of d)) (sym changed)
          (updated-Forward (λ row. q row.execution_id) (saved r) (table.rows_of d) (λ row. refl)) in
      (
        elim there [
          | inl some_met ↦ omega (
            arith,
            some_met,
            counted,
            chosen_fewer (λ row. q row.execution_id) is_waiting (table.rows_of d),
          )
          | inr one ↦
              omega (arith, one, with_id-Forward q (table.rows_of d) (table.rows_of d1) forward)
        ],
        same ∙ changed,
      )
