-- ===== src/Dispatch/Stream/Group/Ending.antt =====
-- How long a stream can go on.
use case_execution.Domain.Entity.{UtCase}
use case_execution.Dispatch.Chunk.{Progress, IndexedBatch}
use case_execution.Dispatch.Stream.Group.{
  Group, Move, Run, opened, produce, scan_ends, scan_fails, scan_stops, take_batch, worker_ends,
  worker_stops, emit, drop_batch, close_progress, deliver, refuse, aggregator_ends, cancel, ended,
  and_move,
}
use case_execution.Dispatch.Stream.{started}
use case_execution.Prelude.{
  ℕ, suc, ◌+◌, ◌*◌, ◌≡◌, ◌≤◌, ◌<◌, ◌∷◌, ◌++◌, [], List, Bool, length, ap, arith, length-append,
  if◌then◌else◌, is_some,
}

abbrev to_do : Bool → ℕ
to_do b = if b then 0 else 1

-- What is left to do: a page passes through four places, and a chunk that is taken through three.
abbrev pub remaining : Group → ℕ
remaining g =
    (4 * length g.pipe.unread + (3 * length g.pipe.queue + 3 * length g.pipe.held))
    + (length g.pipe.progress + g.idle)
    + (to_do g.producer_done + to_do g.progress_closed)
    + (to_do g.aggregator_done + to_do (is_some g.parent))

pub held_one :
    {A : Type 0} (before : List A) (b : A) (after held : List A)
    → held ≡ before ++ b ∷ after
    → length held ≡ suc (length (before ++ after))
held_one before b after held e =
    omega (arith, ap length e, length-append before (b ∷ after), length-append before after)

module _ (workers total : ℕ) (Reports : IndexedBatch → Progress → Type 0) where
  Move-remaining : (g g' : Group) → Move workers total Reports g g' → remaining g' < remaining g
  Move-remaining _ _ (produce g page pages e unread room) = omega (
    arith,
    ap length unread,
    length-append g.pipe.queue (record { index = g.pipe.next_index; cases = page } ∷ []),
  )
  Move-remaining _ _ (scan_ends g e unread) = ground (arith, e)
  Move-remaining _ _ (scan_fails g x e ours) = ground (arith, e)
  Move-remaining _ _ (scan_stops g x e ours) = ground (arith, e)
  Move-remaining _ _ (take_batch g idle b queue e queued) = omega (arith, ap length queued, e)
  Move-remaining _ _ (worker_ends g idle e done queued) = omega (arith, e)
  Move-remaining _ _ (worker_stops g idle x e off) = omega (arith, e)
  Move-remaining _ _ (emit g before b after p e reports room) =
      omega (arith, held_one before b after g.pipe.held e, length-append g.pipe.progress (p ∷ []))
  Move-remaining _ _ (drop_batch g before b after x e off) =
      omega (arith, held_one before b after g.pipe.held e)
  Move-remaining _ _ (close_progress g e idle held) = ground (arith, e)
  Move-remaining _ _ (deliver g p progress e queued) = omega (arith, ap length queued)
  Move-remaining _ _ (refuse g p progress x e queued) = ground (arith, ap length queued, e)
  Move-remaining _ _ (aggregator_ends g e shut queued) = ground (arith, e)
  Move-remaining _ _ (cancel g x e) = ground (arith, ap is_some e)

  Run-remaining :
      (n : ℕ) (g g' : Group) → Run workers total Reports n g g' → n + remaining g' ≤ remaining g
  Run-remaining _ _ _ (ended g) = omega arith
  Run-remaining _ _ _ (and_move n g g' g'' run last) =
      omega (arith, Run-remaining n g g' run, Move-remaining g' g'' last)

  -- A stream ends: however its goroutines, its errors and the caller's context take turns, they make at
  -- most four moves for each page, one for each worker, and four more.
  pub stream_ends :
      (n : ℕ) (pages : List (List UtCase)) (g : Group)
      → Run workers total Reports n (opened workers pages) g
      → n ≤ 4 * length pages + (workers + 4)
  unfolding opened started
  stream_ends n pages g run = omega (arith, Run-remaining n (opened workers pages) g run)
