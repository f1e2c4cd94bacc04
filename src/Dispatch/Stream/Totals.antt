-- ===== src/Dispatch/Stream/Totals.antt =====
-- The numbers that a stream puts on its progress, and how much it holds at a time.
use case_execution.Dispatch.Stream.{
  numbered, Reachable, started, Step, Pipeline, List, produce, take_batch, emit, deliver, start,
  step,
}
use case_execution.Prelude.{
  sym, length-append, ◌*◌, ap, ◌≤◌, ◌∙◌, ◌^◌, arith, ◌+◌, ◌%◌, length, ◌≡◌, ℕ, refl, [], ◌∷◌, ◌++◌,
}
use case_execution.Dispatch.Chunk.{int32, Progress, IndexedBatch}
use case_execution.Domain.Entity.{UtCase}

abbrev sent_total : List Progress → ℕ
sent_total [] = 0
sent_total (p ∷ ps) = length p.success_ids + sent_total ps

sent_total-snoc :
    (ps : List Progress) (p : Progress)
    → sent_total (ps ++ p ∷ []) ≡ sent_total ps + length p.success_ids
sent_total-snoc [] p = omega arith
sent_total-snoc (q ∷ ps) p = omega (arith, sent_total-snoc ps p)

-- Each progress carries the successes up to it and the planned cases, as int32.
abbrev pub AreTotals : ℕ → ℕ → List Progress → Type 0
AreTotals total before [] = Unit
AreTotals total before (p ∷ ps) =
    (p.total_dispatched ≡ (before + length p.success_ids) % 2 ^ 32)
    × (p.total_planned ≡ total % 2 ^ 32)
    × AreTotals total (before + length p.success_ids) ps

AreTotals-snoc :
    (total before : ℕ) (ps : List Progress) (p : Progress)
    → p.total_dispatched ≡ (before + sent_total ps + length p.success_ids) % 2 ^ 32
    → p.total_planned ≡ total % 2 ^ 32
    → AreTotals total before ps
    → AreTotals total before (ps ++ p ∷ [])
AreTotals-snoc total before [] p dispatched planned totals =
    (rw (plus_zero before) at dispatched, planned, tt)
  where
    plus_zero : (n : ℕ) → n + 0 ≡ n
    plus_zero n = omega arith
AreTotals-snoc total before (q ∷ ps) p dispatched planned (first, first', totals) = (
  first,
  first',
  AreTotals-snoc total (before + length q.success_ids) ps p
      (dispatched ∙ ap (λ n. n % 2 ^ 32) (omega arith)) planned totals,
)

abbrev Counted : ℕ → Pipeline → Type 0
Counted total s =
    (s.total_dispatched ≡ sent_total s.delivered % 2 ^ 32) × AreTotals total 0 s.delivered

module _ (workers total : ℕ) (Reports : IndexedBatch → Progress → Type 0) where
  Step-Counted :
      (s s' : Pipeline) → Step workers total Reports s s' → Counted total s → Counted total s'
  Step-Counted _ _ (produce s page rest e room) counted = counted
  Step-Counted _ _ (take_batch s b queue e room) counted = counted
  Step-Counted _ _ (emit s before b after p e reports room) counted = counted
  Step-Counted _ _ (deliver s p progress e) (sum, totals) =
      let dispatched = int32 (s.total_dispatched + int32 (length p.success_ids)) in
      let same : dispatched ≡ (sent_total s.delivered + length p.success_ids) % 2 ^ 32 =
        omega (arith, sum) in
      (
        same
            ∙ ap (λ n. n % 2 ^ 32)
                (sym (sent_total-snoc s.delivered (numbered total dispatched p))),
        AreTotals-snoc total 0 s.delivered (numbered total dispatched p) (omega (arith, same)) refl
            totals,
      )

  Reachable-Counted :
      (pages : List (List UtCase)) (s : Pipeline)
      → Reachable workers total Reports pages s
      → Counted total s
  unfolding started
  Reachable-Counted pages _ start = (refl, tt)
  Reachable-Counted pages _ (step s s' before last) =
      Step-Counted s s' last (Reachable-Counted pages s before)

  -- At any time each progress that the callback has been given carries, as int32, the number of
  -- successes up to and with it, and the planned total, whatever the chunks report.
  pub stream_totals :
      (pages : List (List UtCase)) (s : Pipeline)
      → Reachable workers total Reports pages s
      → AreTotals total 0 s.delivered
  stream_totals pages s reachable = (Reachable-Counted pages s reachable).1

  -- A stream holds at most four chunks for each worker, delivered ones apart: two in the queue, one in
  -- its hands, and one as a progress.
  pub stream_bounded :
      (pages : List (List UtCase)) (s : Pipeline)
      → Reachable workers total Reports pages s
      → (length s.queue ≤ workers * 2) × (length s.held ≤ workers) × (length s.progress ≤ workers)
  unfolding started
  stream_bounded pages _ start = (omega arith, omega arith, omega arith)
  stream_bounded pages _ (step s s' before last) =
      step_bounded s s' last (stream_bounded pages s before)
    where
      step_bounded :
          (s s' : Pipeline)
          → Step workers total Reports s s'
          → (length s.queue ≤ workers * 2)
            × (length s.held ≤ workers)
            × (length s.progress ≤ workers)
          → (length s'.queue ≤ workers * 2)
            × (length s'.held ≤ workers)
            × (length s'.progress ≤ workers)
      step_bounded _ _ (produce s page rest e room) (queue, held, progress) = (
        omega (arith, length-append s.queue (record { index = s.next_index; cases = page } ∷ [])),
        held,
        progress,
      )
      step_bounded _ _ (take_batch s b rest e room) (queue, held, progress) =
          (omega (arith, ap length e), omega arith, progress)
      step_bounded _ _ (emit s before b after p e reports room) (queue, held, progress) = (
        queue,
        omega (arith, ap length e, length-append before (b ∷ after), length-append before after),
        omega (arith, length-append s.progress (p ∷ [])),
      )
      step_bounded _ _ (deliver s p rest e) (queue, held, progress) =
          (queue, held, omega (arith, ap length e))
