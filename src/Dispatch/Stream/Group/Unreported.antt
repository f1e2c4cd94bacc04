-- ===== src/Dispatch/Stream/Group/Unreported.antt =====
-- A cancellation by the caller, and a timeout of the scan, that no goroutine reports.
use case_execution.Prelude.{subst, ℕ, zero, suc, ◌≡◌, [], List, true, false, none, some, refl}
use case_execution.Domain.Errs.{GoError, is_err, sentinel, canceled}
use case_execution.Domain.Entity.{UtCase}
use case_execution.Dispatch.Chunk.{Progress, IndexedBatch}
use case_execution.Dispatch.Stream.Group.{
  Group, Run, opened, scan_stops, worker_ends, close_progress, aggregator_ends, cancel, ended,
  and_move, IsFinished, is_context_error,
}
use case_execution.Dispatch.Stream.{started}

module _ (workers total : ℕ) (Reports : IndexedBatch → Progress → Type 0) where
  -- The workers end, one after the other, on the closed and empty channel.
  workers_end :
      (n idle : ℕ) (g0 g : Group)
      → Run workers total Reports n g0 g
      → g.idle ≡ idle
      → g.producer_done ≡ true
      → g.pipe.queue ≡ []
      → (m : ℕ) × Run workers total Reports m g0 (record g { idle = 0 })
  workers_end n zero g0 g run e done queued =
      (n, subst (λ k. Run workers total Reports n g0 (record g { idle = k })) e run)
  workers_end n (suc idle) g0 g run e done queued =
      workers_end (suc n) idle g0 (record g { idle = idle })
        (and_move n g0 g (record g { idle = idle }) run (worker_ends g idle e done queued)) refl
        done queued

  -- Once the producer has returned without a page, the goroutines can all end without an error.
  idle_finish :
      (n : ℕ) (g0 g : Group)
      → Run workers total Reports n g0 g
      → g.producer_done ≡ true
      → g.pipe.queue ≡ []
      → g.pipe.held ≡ []
      → g.pipe.progress ≡ []
      → g.progress_closed ≡ false
      → g.aggregator_done ≡ false
      → (m : ℕ) × Run workers total Reports m g0
          (record g { idle = 0; progress_closed = true; aggregator_done = true })
  idle_finish n g0 g run done queued held sent still going =
      let (m, ended_run) = workers_end n g.idle g0 g run refl done queued in
      let g1 : Group = record g { idle = 0 } in
      let g2 : Group = record g1 { progress_closed = true } in
      let g3 : Group = record g2 { aggregator_done = true } in
      (
        suc (suc m),
        and_move (suc m) g0 g2 g3
            (and_move m g0 g1 g2 ended_run (close_progress g1 still refl held))
            (aggregator_ends g2 going refl sent),
      )

  -- A stream whose caller goes away can return no error and yet have dispatched nothing: the producer ends
  -- on the cancellation without an error, and the workers may see its closed channel first. So it is for
  -- any pages and any error of the context.
  pub cancel_unreported :
      (pages : List (List UtCase)) (e : GoError)
      → (n : ℕ) × (g : Group) × Run workers total Reports n (opened workers pages) g
        × IsFinished g
        × (g.parent ≡ some e)
        × (g.failure ≡ none)
        × (g.pipe.delivered ≡ [])
  unfolding opened started is_err
  cancel_unreported pages e =
      let g0 = opened workers pages in
      let g1 : Group = record g0 { parent = some e } in
      let g2 : Group = record g1 { producer_done = true } in
      let (n, run) =
        idle_finish 2 g0 g2
          (and_move 1 g0 g1 g2 (and_move 0 g0 g0 g1 (ended g0) (cancel g0 e refl))
            (scan_stops g1 (sentinel canceled) refl refl))
          refl refl refl refl refl refl in
      (n, _, run, (refl, refl, refl, refl, refl), refl, refl, refl)

  -- A scan that fails with an error that says Canceled or DeadlineExceeded, such as a timeout of the
  -- database, is reported to nobody: the caller still waits, the stream can return no error, and no page
  -- has been read.
  pub timeout_unreported :
      (pages : List (List UtCase)) (e : GoError)
      → is_context_error e ≡ true
      → (n : ℕ) × (g : Group) × Run workers total Reports n (opened workers pages) g
        × IsFinished g
        × (g.parent ≡ none)
        × (g.failure ≡ none)
        × (g.pipe.unread ≡ pages)
        × (g.pipe.delivered ≡ [])
  unfolding opened started
  timeout_unreported pages e ours =
      let g0 = opened workers pages in
      let g1 : Group = record g0 { producer_done = true } in
      let (n, run) =
        idle_finish 1 g0 g1 (and_move 0 g0 g0 g1 (ended g0) (scan_stops g0 e refl ours)) refl refl
          refl refl refl refl in
      (n, _, run, (refl, refl, refl, refl, refl), refl, refl, refl, refl)
