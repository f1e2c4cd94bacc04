-- ===== src/Dispatch/Stream/Group.antt =====
-- The errgroup of dispatchStream: when its goroutines end, what cancels them, and which error the call
-- returns. The channels are those of Dispatch.Stream.
pub mod Ending
pub mod Progressing
pub mod Smooth
pub mod Unreported
use case_execution.Dispatch.Stream.{Pipeline, produced, taken, emitted, delivered_next, started}
use case_execution.Dispatch.Chunk.{IndexedBatch, Progress}
use case_execution.Domain.Entity.{UtCase}
use case_execution.Domain.Errs.{GoError, wrap, is_err, canceled, deadline_exceeded}
use case_execution.Text.{lit}
use case_execution.Prelude.{
  ℕ, suc, ◌≡◌, ◌<◌, ◌*◌, ◌∷◌, ◌++◌, ◌||◌, [], List, Bool, true, false, Option, none, some, length,
  is_some,
}

-- Beside the channels: how many workers wait for a chunk; whether the producer has returned, whether the
-- closer has closed progressCh, and whether the aggregator has returned; the first error of the group;
-- and the error of the caller's context.
pub record Group : Type 0 where
  pub pipe : Pipeline
  pub idle : ℕ
  pub producer_done : Bool
  pub progress_closed : Bool
  pub aggregator_done : Bool
  pub failure : Option GoError
  pub parent : Option GoError

-- gctx is cancelled by the first error or by the caller.
abbrev pub is_cancelled : Group → Bool
is_cancelled g = is_some g.failure || is_some g.parent

-- The group keeps the first error.
abbrev pub first_error : Option GoError → GoError → Option GoError
first_error none e = some e
first_error (some old) e = some old

abbrev pub is_context_error : GoError → Bool
is_context_error e = is_err e canceled || is_err e deadline_exceeded

unfoldable pub opened : ℕ → List (List UtCase) → Group
unfolding started
opened workers pages = record {
  pipe = started pages;
  idle = workers;
  producer_done = false;
  progress_closed = false;
  aggregator_done = false;
  failure = none;
  parent = none;
}

pub data Move (workers total : ℕ) (Reports : IndexedBatch → Progress → Type 0)
    : Group → Group → Type 0 where
  -- The producer: a page, the end of the scan, an error of it, and an error that says
  -- Canceled or DeadlineExceeded, whatever has caused it, which is passed over.
  produce :
      (g : Group) (page : List UtCase) (pages : List (List UtCase))
      → g.producer_done ≡ false
      → g.pipe.unread ≡ page ∷ pages
      → length g.pipe.queue < workers * 2
      → Move workers total Reports g (record g { pipe = produced page pages g.pipe })
  scan_ends :
      (g : Group)
      → g.producer_done ≡ false
      → g.pipe.unread ≡ []
      → Move workers total Reports g (record g { producer_done = true })
  scan_fails :
      (g : Group) (e : GoError)
      → g.producer_done ≡ false
      → is_context_error e ≡ false
      → Move workers total Reports g (record g {
        producer_done = true;
        failure = first_error g.failure (wrap (lit "scan cases: ") e []);
      })
  scan_stops :
      (g : Group) (e : GoError)
      → g.producer_done ≡ false
      → is_context_error e ≡ true
      → Move workers total Reports g (record g { producer_done = true })
  -- A worker: a chunk, its end on a closed and empty channel, its end by the context while it waits, the
  -- progress of its chunk, and its end by the context with a chunk.
  take_batch :
      (g : Group) (idle : ℕ) (b : IndexedBatch) (queue : List IndexedBatch)
      → g.idle ≡ suc idle
      → g.pipe.queue ≡ b ∷ queue
      → Move workers total Reports g (record g { pipe = taken b queue g.pipe; idle = idle })
  worker_ends :
      (g : Group) (idle : ℕ)
      → g.idle ≡ suc idle
      → g.producer_done ≡ true
      → g.pipe.queue ≡ []
      → Move workers total Reports g (record g { idle = idle })
  worker_stops :
      (g : Group) (idle : ℕ) (e : GoError)
      → g.idle ≡ suc idle
      → is_cancelled g ≡ true
      → Move workers total Reports g (record g { idle = idle; failure = first_error g.failure e })
  emit :
      (g : Group) (before : List IndexedBatch) (b : IndexedBatch) (after : List IndexedBatch)
      (p : Progress)
      → g.pipe.held ≡ before ++ b ∷ after
      → Reports b p
      → length g.pipe.progress < workers
      → Move workers total Reports g
          (record g { pipe = emitted before after p g.pipe; idle = suc g.idle })
  drop_batch :
      (g : Group) (before : List IndexedBatch) (b : IndexedBatch) (after : List IndexedBatch)
      (e : GoError)
      → g.pipe.held ≡ before ++ b ∷ after
      → is_cancelled g ≡ true
      → Move workers total Reports g (record g {
        pipe = record (g.pipe) { held = before ++ after };
        failure = first_error g.failure e;
      })
  -- The closer, after the last worker.
  close_progress :
      (g : Group)
      → g.progress_closed ≡ false
      → g.idle ≡ 0
      → g.pipe.held ≡ []
      → Move workers total Reports g (record g { progress_closed = true })
  -- The aggregator: a progress that the callback takes, one that it refuses, and the end.
  deliver :
      (g : Group) (p : Progress) (progress : List Progress)
      → g.aggregator_done ≡ false
      → g.pipe.progress ≡ p ∷ progress
      → Move workers total Reports g (record g { pipe = delivered_next total p progress g.pipe })
  refuse :
      (g : Group) (p : Progress) (progress : List Progress) (e : GoError)
      → g.aggregator_done ≡ false
      → g.pipe.progress ≡ p ∷ progress
      → Move workers total Reports g (record g {
        pipe = record (g.pipe) { progress = progress };
        aggregator_done = true;
        failure = first_error g.failure (wrap (lit "progress callback: ") e []);
      })
  aggregator_ends :
      (g : Group)
      → g.aggregator_done ≡ false
      → g.progress_closed ≡ true
      → g.pipe.progress ≡ []
      → Move workers total Reports g (record g { aggregator_done = true })
  -- The caller's context ends.
  cancel :
      (g : Group) (e : GoError)
      → g.parent ≡ none
      → Move workers total Reports g (record g { parent = some e })

-- So many moves lead from one state to the other.
pub data Run (workers total : ℕ) (Reports : IndexedBatch → Progress → Type 0)
    : ℕ → Group → Group → Type 0 where
  ended : (g : Group) → Run workers total Reports 0 g g
  and_move :
      (n : ℕ) (g g' g'' : Group)
      → Run workers total Reports n g g'
      → Move workers total Reports g' g''
      → Run workers total Reports (suc n) g g''

-- Wait returns when every goroutine has.
abbrev pub IsFinished : Group → Type 0
IsFinished g =
    (g.producer_done ≡ true)
    × (g.idle ≡ 0)
    × (g.pipe.held ≡ [])
    × (g.progress_closed ≡ true)
    × (g.aggregator_done ≡ true)
