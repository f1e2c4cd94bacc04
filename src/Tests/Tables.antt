-- ===== src/Tests/Tables.antt =====
-- Tables that are lists of rows, of which none is locked, and whose texts are compared byte by byte. An
-- update writes the time 700.
use case_execution.Domain.Errs.{GoError, opaque}
use case_execution.Dispatch.Ports.{TxRunner, IsTxRunner, ok, err, Reply}
use case_execution.Text.{lit}
use case_execution.Prelude.{
  subst, ℕ, Bool, true, false, List, [], ◌∷◌, ◌++◌, ◌&&◌, ◌==◌, ◌≡◌, ◌⊎◌, inl, inr, length, suc,
  is_nil, take, if◌then◌else◌, refl, ap, sym, ◌∙◌, Each, append-nil, append_assoc, Each-imp,
}
use case_execution.Mysql.Table.{return-ok, Table, IsTable, chosen, updated, first_of}
use case_execution.Mysql.Rows.{OutboxRow, ExecutionRow}
use case_execution.Mysql.Lease.{IsOutboxTable}
use case_execution.Mysql.Executions.{IsExecutionTable, same_request}
use mathlib.Core.List.{Mem, mem-cons_self, mem-cons_of_mem}

module _ {R : Type 0} (with_key : ℕ → R → R) (clash : R → R → Bool) where
  -- The row as it is inserted, or none.
  insert_row : Bool → R → List R → Reply R × List R
  insert_row keep r rows =
      let keyed = with_key (suc (length rows)) r in
      if is_nil (chosen (λ old. clash old r) rows)
      then (ok keyed, rows ++ keyed ∷ [])
      else if keep
      then (ok r, rows)
      else (err (opaque (lit "duplicate entry")), rows)

  add_first : {T : Type 0} → R → Reply T × List R → (R → T → T) → Reply T × List R
  add_first r (err e, rows) f = (err e, rows)
  add_first r (ok t, rows) f = (ok (f r t), rows)

  and_more :
      {T : Type 0} → Reply R × List R → (List R → Reply T × List R) → (R → T → T) → Reply T × List R
  unfolding add_first
  and_more (err e, rows) more f = (err e, rows)
  and_more (ok r, rows) more f = add_first r (more rows) f

  insert_rows : Bool → List R → List R → Reply (List R) × List R
  unfolding insert_row and_more
  insert_rows keep [] rows = (ok [], rows)
  insert_rows keep (r ∷ rs) rows = and_more (insert_row keep r rows) (insert_rows keep rs) ◌∷◌

  unfoldable pub list_table : Table (List R) R
  unfolding insert_row insert_rows
  list_table = record {
    rows_of = λ rows. rows;
    weight = λ s. s;
    create = insert_row;
    create_in_batches = λ keep rs size. insert_rows keep rs;
    find_where = λ p rows. (ok (chosen p rows), rows);
    first_where = λ p rows. (ok (first_of (chosen p rows)), rows);
    count_where = λ p rows. (ok (length (chosen p rows)), rows);
    update_where = λ p f rows. (ok (length (chosen p rows)), updated p (f 700) rows);
    lock_where = λ p limit rows. (ok (take limit (chosen p rows)), rows);
  }

  insert_row-ok :
      (keep : Bool) (r r' : R) (rows rows' : List R)
      → insert_row keep r rows ≡ (ok r', rows')
      → ((k : ℕ) × (r' ≡ with_key k r)
          × (rows' ≡ rows ++ r' ∷ [])
          × (is_nil (chosen (λ old. clash old r) rows) ≡ true))
        ⊎ ((keep ≡ true) × (rows' ≡ rows))
  unfolding insert_row
  insert_row-ok keep r r' rows rows' done =
      one_of keep (is_nil (chosen (λ old. clash old r) rows)) refl done
    where
      one_of :
          (keep fresh : Bool)
          → is_nil (chosen (λ old. clash old r) rows) ≡ fresh
          → (if◌then◌else◌ {A = Reply R × List R} fresh
              (ok (with_key (suc (length rows)) r), rows ++ with_key (suc (length rows)) r ∷ [])
              (if keep then (ok r, rows) else (err (opaque (lit "duplicate entry")), rows)))
            ≡ (ok r', rows')
          → ((k : ℕ) × (r' ≡ with_key k r)
              × (rows' ≡ rows ++ r' ∷ [])
              × (is_nil (chosen (λ old. clash old r) rows) ≡ true))
            ⊎ ((keep ≡ true) × (rows' ≡ rows))
      one_of keep true e done =
          let (made, grown) = return-ok (with_key (suc (length rows)) r) r' _ rows' done in
          inl (suc (length rows), made, grown ∙ ap (λ x. rows ++ x ∷ []) (sym made), e)
      one_of true false e done = inr (refl, (return-ok r r' rows rows' done).1)
      one_of false false e done = absurd (cc (ap (λ x. x.0) done))

  chosen-Mem :
      (p : R → Bool) (rows : List R) → Each (λ r. (p r ≡ true) × Mem r rows) (chosen p rows)
  chosen-Mem p [] = tt
  chosen-Mem p (r ∷ rows) = one_of (p r) refl (
      Each-imp (λ x. (p x ≡ true) × Mem x rows) (λ x. (p x ≡ true) × Mem x (r ∷ rows))
        (chosen p rows) (λ x h. (h.0, mem-cons_of_mem r h.1)) (chosen-Mem p rows))
    where
      one_of :
          (b : Bool)
          → p r ≡ b
          → Each (λ x. (p x ≡ true) × Mem x (r ∷ rows)) (chosen p rows)
          → Each
              (λ x. (p x ≡ true) × Mem x (r ∷ rows))
              (if b then r ∷ chosen p rows else chosen p rows)
      one_of true e rest = ((e, mem-cons_self), rest)
      one_of false e rest = rest

  and_more-ok :
      {T : Type 0} (q : Reply R × List R) (more : List R → Reply T × List R) (f : R → T → T)
      (t' : T) (rows' : List R)
      → and_more q more f ≡ (ok t', rows')
      → (r : R) × (rows : List R) × (t : T) × (q ≡ (ok r, rows))
        × (more rows ≡ (ok t, rows'))
        × (t' ≡ f r t)
  unfolding and_more add_first
  and_more-ok (err e, rows) more f t' rows' done = absurd (cc (ap (λ x. x.0) done))
  and_more-ok {T = T} (ok r, rows) more f t' rows' done = one_of (more rows) refl done
    where
      one_of :
          (q : Reply T × List R)
          → more rows ≡ q
          → add_first r q f ≡ (ok t', rows')
          → (r1 : R) × (rows1 : List R) × (t : T) × (◌≡◌ {A = Reply R × List R}
              (ok r, rows)
              (ok r1, rows1))
            × (more rows1 ≡ (ok t, rows'))
            × (t' ≡ f r1 t)
      one_of (err e, rows2) went done = absurd (cc (ap (λ x. x.0) done))
      one_of (ok t, rows2) went done =
          let (made, same) = return-ok (f r t) t' rows2 rows' done in
          (r, rows, t, refl, went ∙ ap (λ x. (ok t, x)) (sym same), made)

  insert_rows-ok :
      (keep : Bool) (rs rs' rows rows' : List R)
      → insert_rows keep rs rows ≡ (ok rs', rows')
      → (new : List R) × (rows' ≡ rows ++ new) × (keep ≡ false → rs' ≡ new)
  unfolding insert_rows
  insert_rows-ok keep [] rs' rows rows' done =
      let (none_made, same) = return-ok [] rs' rows rows' done in
      ([], same ∙ sym (append-nil rows), λ h. none_made)
  insert_rows-ok keep (r ∷ rs) rs' rows rows' done =
      let (r1, rows1, more, one, others, made) =
        and_more-ok (insert_row keep r rows) (insert_rows keep rs) ◌∷◌ rs' rows' done in
      let (new, grown, whole) = insert_rows-ok keep rs more rows1 rows' others in
      elim (insert_row-ok keep r r1 rows rows1 one) [
        | inl (k, keyed, first_grown, fresh) ↦ (
          r1 ∷ new,
          grown ∙ (ap (λ x. x ++ new) first_grown ∙ append_assoc rows (r1 ∷ []) new),
          λ h. made ∙ ap (◌∷◌ r1) (whole h),
        )
        | inr (kept, same) ↦ (new, grown ∙ ap (λ x. x ++ new) same, λ h. absurd (cc (kept, h)))
      ]

  pub list_table-IsTable : IsTable with_key clash list_table
  unfolding list_table
  list_table-IsTable = record {
    creates = λ keep r r' d d' done. insert_row-ok keep r r' d d' done;
    creates_many = λ keep rs rs' size d d' done. insert_rows-ok keep rs rs' d d' done;
    finds = λ p d d' rs done.
        let (same, kept) = return-ok (chosen p d) rs d d' done in
        (kept, subst (Each (λ r. (p r ≡ true) × Mem r d)) (sym same) (chosen-Mem p d));
    firsts = λ p d d' r done.
        let (same, kept) = return-ok (first_of (chosen p d)) r d d' done in (kept, same);
    counts = λ p d d' n done.
        let (same, kept) = return-ok (length (chosen p d)) n d d' done in (kept, same);
    updates = λ p f d d' n done.
        let (same, kept) = return-ok (length (chosen p d)) n (updated p (f 700) d) d' done in
        (700, kept, same);
    locks = λ p limit d d' rs done.
        let (same, kept) = return-ok (take limit (chosen p d)) rs d d' done in
        (kept, λ r. true, same ∙ ap (take limit) (chosen_free p d));
  }
    where
      chosen_free : (p : R → Bool) (rows : List R) → chosen p rows ≡ chosen (λ r. p r && true) rows
      chosen_free p [] = refl
      chosen_free p (r ∷ rows) = one_of (p r) (chosen_free p rows)
        where
          one_of :
              (b : Bool)
              → chosen p rows ≡ chosen (λ x. p x && true) rows
              → (if b then r ∷ chosen p rows else chosen p rows) ≡ (
                  if b && true
                  then r ∷ chosen (λ x. p x && true) rows
                  else chosen (λ x. p x && true) rows)
          one_of true e = ap (◌∷◌ r) e
          one_of false e = e

-- The two tables.
unfoldable pub outbox_table : Table (List OutboxRow) OutboxRow
unfolding list_table
outbox_table =
    list_table (λ k r. record r { outbox_id = k }) (λ r s. r.execution_id == s.execution_id)

pub outbox_table-IsOutboxTable : IsOutboxTable outbox_table
unfolding outbox_table
outbox_table-IsOutboxTable =
    list_table-IsTable (λ k r. record r { outbox_id = k }) (λ r s. r.execution_id == s.execution_id)

unfoldable pub execution_table : Table (List ExecutionRow) ExecutionRow
unfolding list_table
execution_table =
    list_table (λ k r. record r { execution_id = k })
      (λ r s. same_request (λ s. s) r.request_id s.request_id && r.case_id == s.case_id)

pub execution_table-IsExecutionTable : IsExecutionTable execution_table
unfolding execution_table
execution_table-IsExecutionTable =
    list_table-IsTable (λ k r. record r { execution_id = k })
      (λ r s. same_request (λ s. s) r.request_id s.request_id && r.case_id == s.case_id)

-- A transaction that keeps what its function did, or takes it back.
finish_tx : {D A : Type 0} → D → Reply A × D → Reply A × D
finish_tx d (ok a, d') = (ok a, d')
finish_tx d (err e, d') = (err e, d)

module _ {D : Type 0} where
  unfoldable pub list_tx : TxRunner D
  unfolding finish_tx
  list_tx = record { run = λ A ctx f d. finish_tx d (f d) }

  finish_tx-ok :
      {A : Type 0} (r : Reply A × D) (d d' : D) (a : A)
      → finish_tx d r ≡ (ok a, d')
      → r ≡ (ok a, d')
  unfolding finish_tx
  finish_tx-ok (ok b, d'') d d' a h = h
  finish_tx-ok (err e, d'') d d' a h = absurd (cc (ap (λ x. x.0) h))

  finish_tx-err :
      {A : Type 0} (r : Reply A × D) (d d' : D) (e : GoError) → finish_tx d r ≡ (err e, d') → d' ≡ d
  unfolding finish_tx
  finish_tx-err (ok b, d'') d d' e h = absurd (cc (ap (λ x. x.0) h))
  finish_tx-err (err x, d'') d d' e h = ap (λ x. x.1) (sym h)

  pub list_tx-IsTxRunner : IsTxRunner list_tx
  unfolding list_tx
  list_tx-IsTxRunner = record {
    commits = λ A ctx f d d' a h. finish_tx-ok (f d) d d' a h;
    rolls_back = λ A ctx f d d' e h. finish_tx-err (f d) d d' e h;
  }
