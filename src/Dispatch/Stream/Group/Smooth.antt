-- ===== src/Dispatch/Stream/Group/Smooth.antt =====
-- A stream that nothing cancels takes the steps of Dispatch.Stream.
use case_execution.Domain.Entity.{UtCase}
use case_execution.Dispatch.Chunk.{Progress, IndexedBatch}
use case_execution.Dispatch.Stream.Group.{Group}
use case_execution.Dispatch.Stream.{Reachable}
use case_execution.Dispatch.Stream
use case_execution.Prelude.{ℕ, ◌+◌, ◌≡◌, ◌<◌, [], List, true, length}

-- What holds while nothing has cancelled the group: the queue is empty where a worker has, and progressCh is closed and empty where the aggregator
-- has.
record IsSmooth (workers total : ℕ) (Reports : IndexedBatch → Progress → Type 0)
    (pages : List (List UtCase)) (g : Group) : Type 0 where
  reachable : Reachable workers total Reports pages g.pipe
  taken_up : g.idle + length g.pipe.held < workers → g.pipe.queue ≡ []
  sent : g.aggregator_done ≡ true → (g.progress_closed ≡ true) × (g.pipe.progress ≡ [])
