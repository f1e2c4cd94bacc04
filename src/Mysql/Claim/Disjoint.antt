-- ===== src/Mysql/Claim/Disjoint.antt =====
-- Two claims, one after the other.
use case_execution.Prelude.{
  take, refl, true, false, [], if◌then◌else◌, contains, ◌&&◌, ◌≡◌, ◌<◌, ◌∷◌, ◌∙◌, map, subst, sym,
  ap, Each-map, Each-take, Each, Bool, List, ℕ,
}
use case_execution.Mysql.Claim.{
  claim_limit, claim_pending_lem, arith, false, Claims, leased, is_claimable, outbox_ids,
  claim_pending,
}
use case_execution.Dispatch.Ports.{ok, IsTxRunner, Ctx, Reply, TxRunner}
use case_execution.Mysql.Lease.{IsOutboxTable, touched}
use case_execution.Domain.Entity.{OutboxMessage}
use case_execution.Mysql.Rows.{message_of_row, OutboxRow}
use case_execution.Text.{Bytes}
use case_execution.Mysql.Table.{Table, chosen, updated}

leased_unclaimable :
    (token : Bytes) (lease_until written_at now : ℕ) (r : OutboxRow)
    → now < lease_until
    → is_claimable now (touched (leased token lease_until) written_at r) ≡ false
leased_unclaimable token lease_until written_at now r early = ground arith

-- What is claimable after a claim was not claimed by it.
unleased :
    (token : Bytes) (lease_until written_at now : ℕ) (ids : List ℕ) (free : OutboxRow → Bool)
    (rows : List OutboxRow)
    → now < lease_until
    → Each
        (λ r. contains ids r.outbox_id ≡ false)
        (chosen
          (λ r. is_claimable now r && free r)
          (updated
            (λ r. contains ids r.outbox_id)
            (touched (leased token lease_until) written_at)
            rows))
unleased token lease_until written_at now ids free [] early = tt
unleased token lease_until written_at now ids free (r ∷ rows) early =
    one_of (contains ids r.outbox_id) refl
      (unleased token lease_until written_at now ids free rows early)
  where
    one_of :
        (b : Bool)
        → contains ids r.outbox_id ≡ b
        → Each
            (λ r. contains ids r.outbox_id ≡ false)
            (chosen
              (λ r. is_claimable now r && free r)
              (updated
                (λ r. contains ids r.outbox_id)
                (touched (leased token lease_until) written_at)
                rows))
        → Each
            (λ r. contains ids r.outbox_id ≡ false)
            (chosen
              (λ r. is_claimable now r && free r)
              ((if b then touched (leased token lease_until) written_at r else r)
                ∷ updated
                    (λ r. contains ids r.outbox_id)
                    (touched (leased token lease_until) written_at)
                    rows))
    one_of true held rest = rw (leased_unclaimable token lease_until written_at now r early) rest
    one_of false held rest = kept (is_claimable now r && free r)
      where
        kept :
            (c : Bool)
            → Each
                (λ r. contains ids r.outbox_id ≡ false)
                (if c
                  then r
                    ∷ chosen
                        (λ r. is_claimable now r && free r)
                        (updated
                          (λ r. contains ids r.outbox_id)
                          (touched (leased token lease_until) written_at)
                          rows)
                  else chosen
                      (λ r. is_claimable now r && free r)
                      (updated
                        (λ r. contains ids r.outbox_id)
                        (touched (leased token lease_until) written_at)
                        rows))
        kept true = (held, rest)
        kept false = rest

claimed_ids :
    (token : Bytes) (lease_until : ℕ) (rs : List OutboxRow)
    → map (λ m. m.outbox_id) (map (λ r. message_of_row (leased token lease_until r)) rs)
      ≡ outbox_ids rs
unfolding message_of_row
claimed_ids token lease_until [] = refl
claimed_ids token lease_until (r ∷ rs) = ap (◌∷◌ r.outbox_id) (claimed_ids token lease_until rs)

abbrev pub IsUnclaimed : List OutboxMessage → OutboxMessage → Type 0
IsUnclaimed earlier m = contains (map (λ e. e.outbox_id) earlier) m.outbox_id ≡ false

module _ {D : Type 0} (table : Table D OutboxRow) where
  Claims-disjoint :
      (token token' : Bytes) (limit limit' now now' until until' : ℕ) (ms ms' : List OutboxMessage)
      (d d' d'' : D)
      → Claims table token limit now until ms d d'
      → Claims table token' limit' now' until' ms' d' d''
      → now' < until
      → Each (IsUnclaimed ms) ms'
  unfolding message_of_row
  Claims-disjoint token token' limit limit' now now' until until' ms ms' d d' d'' one two early =
      let rs = take limit (chosen (λ r. is_claimable now r && one.free r) (table.rows_of d)) in
      let ids : map (λ m. m.outbox_id) ms ≡ outbox_ids rs =
        ap (map (λ m. m.outbox_id)) one.returned ∙ claimed_ids token until rs in
      let fresh : Each (λ r. contains (outbox_ids rs) r.outbox_id ≡ false)
          (take limit' (chosen (λ r. is_claimable now' r && two.free r) (table.rows_of d'))) =
        subst
          (λ x.
            Each (λ r. contains (outbox_ids rs) r.outbox_id ≡ false)
              (take limit' (chosen (λ r. is_claimable now' r && two.free r) x)))
          (sym one.changed)
          (Each-take (λ r. contains (outbox_ids rs) r.outbox_id ≡ false) limit' _
            (unleased token until one.written_at now' (outbox_ids rs) two.free (table.rows_of d)
              early)) in
      subst (Each (IsUnclaimed ms)) (sym two.returned) (
        Each-map (IsUnclaimed ms) (λ r. message_of_row (leased token' until' r)) _
          (subst
            (λ x.
              Each (λ r. contains x r.outbox_id ≡ false)
                (take limit' (chosen (λ r. is_claimable now' r && two.free r) (table.rows_of d'))))
            (sym ids) fresh))

  -- Two relays do not publish the same message: a claim that follows another takes none of its
  -- messages, as long as it comes before the first lease ends.
  pub claims_disjoint :
      (tx : TxRunner D) (random random' : Reply Bytes) (ctx ctx' : Ctx)
      (limit limit' now now' until until' : ℕ) (ms ms' : List OutboxMessage) (d d' d'' : D)
      → IsOutboxTable table
      → IsTxRunner tx
      → claim_pending table tx random ctx limit now until d ≡ (ok ms, d')
      → claim_pending table tx random' ctx' limit' now' until' d' ≡ (ok ms', d'')
      → now' < until
      → Each (IsUnclaimed ms) ms'
  claims_disjoint tx random random' ctx ctx' limit limit' now now' until until' ms ms' d d' d'' law
        tx_law done done' early =
      let (few, token, drawn, one) =
        claim_pending_lem table tx random ctx limit now until ms d d' law tx_law done in
      let (few', token', drawn', two) =
        claim_pending_lem table tx random' ctx' limit' now' until' ms' d' d'' law tx_law done' in
      Claims-disjoint token token' (claim_limit limit) (claim_limit limit') now now' until until' ms
        ms' d d' d'' one two early
