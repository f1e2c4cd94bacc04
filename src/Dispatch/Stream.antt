-- ===== src/Dispatch/Stream.antt =====
-- dispatchStream of internal/usecase/dispatch_app_service.go: the producer, the workers and the
-- aggregator of one stream, with their channels. What dispatchOneBatch reports
-- of a chunk is a parameter.
pub mod Delivery
pub mod Totals
pub mod Reports
pub mod Calls
pub mod Group
pub mod Slots
use case_execution.Prelude.{◌*◌, ◌<◌, length, ◌++◌, ◌+◌, ◌∷◌, [], ◌≡◌, ℕ, List}
use case_execution.Domain.Entity.{UtCase}
use case_execution.Dispatch.Chunk.{IndexedBatch, Progress, int32}

pub record Pipeline : Type 0 where
  -- The producer: the pages that the scan has yet to give, and the next index, an int32.
  pub unread : List (List UtCase)
  pub next_index : ℕ
  -- batchCh, the chunks that the workers hold, and progressCh.
  pub queue : List IndexedBatch
  pub held : List IndexedBatch
  pub progress : List Progress
  -- The aggregator: its total, an int32, and what the callback has been given.
  pub total_dispatched : ℕ
  pub delivered : List Progress

unfoldable pub started : List (List UtCase) → Pipeline
started pages = record {
  unread = pages;
  next_index = 0;
  queue = [];
  held = [];
  progress = [];
  total_dispatched = 0;
  delivered = [];
}

-- The producer sends the next page under the next index.
abbrev pub produced : List UtCase → List (List UtCase) → Pipeline → Pipeline
produced page pages s = record s {
  unread = pages;
  next_index = int32 (s.next_index + 1);
  queue = s.queue ++ record { index = s.next_index; cases = page } ∷ [];
}

abbrev pub taken : IndexedBatch → List IndexedBatch → Pipeline → Pipeline
taken b queue s = record s { queue = queue; held = b ∷ s.held }

abbrev pub emitted : List IndexedBatch → List IndexedBatch → Progress → Pipeline → Pipeline
emitted before after p s = record s { held = before ++ after; progress = s.progress ++ p ∷ [] }

-- The aggregator numbers a progress and gives it to the callback. `total` is what the count returned.
abbrev pub numbered : ℕ → ℕ → Progress → Progress
numbered total dispatched p = record p {
  total_dispatched = dispatched;
  total_planned = int32 total;
}

abbrev pub delivered_next : ℕ → Progress → List Progress → Pipeline → Pipeline
delivered_next total p progress s =
    let dispatched = int32 (s.total_dispatched + int32 (length p.success_ids)) in
    record s {
      progress = progress;
      total_dispatched = dispatched;
      delivered = s.delivered ++ numbered total dispatched p ∷ [];
    }

-- An abstract stream, in which nothing goes wrong: it has the channels and no errors, no cancellation
-- and no ends. The goroutines of the code are the moves of Group, and Group.Smooth shows that these
-- amount to such steps as long as nothing has cancelled the group.
pub data Step (workers total : ℕ) (Reports : IndexedBatch → Progress → Type 0)
    : Pipeline → Pipeline → Type 0 where
  produce :
      (s : Pipeline) (page : List UtCase) (pages : List (List UtCase))
      → s.unread ≡ page ∷ pages
      → length s.queue < workers * 2
      → Step workers total Reports s (produced page pages s)
  take_batch :
      (s : Pipeline) (b : IndexedBatch) (queue : List IndexedBatch)
      → s.queue ≡ b ∷ queue
      → length s.held < workers
      → Step workers total Reports s (taken b queue s)
  emit :
      (s : Pipeline) (before : List IndexedBatch) (b : IndexedBatch) (after : List IndexedBatch)
      (p : Progress)
      → s.held ≡ before ++ b ∷ after
      → Reports b p
      → length s.progress < workers
      → Step workers total Reports s (emitted before after p s)
  deliver :
      (s : Pipeline) (p : Progress) (progress : List Progress)
      → s.progress ≡ p ∷ progress
      → Step workers total Reports s (delivered_next total p progress s)

-- The states that a stream over some pages can come to.
pub data Reachable (workers total : ℕ) (Reports : IndexedBatch → Progress → Type 0)
    (pages : List (List UtCase)) : Pipeline → Type 0 where
  start : Reachable workers total Reports pages (started pages)
  step :
      (s s' : Pipeline)
      → Reachable workers total Reports pages s
      → Step workers total Reports s s'
      → Reachable workers total Reports pages s'
