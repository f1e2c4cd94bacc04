-- ===== src/Dispatch/Stream/Group/Progressing.antt =====
-- A stream does not block.
use case_execution.Prelude.{
  ℕ, ◌+◌, ◌≡◌, ◌≤◌, ◌<◌, ◌||◌, [], List, true, Option, none, some, length, ap, arith, is_some, refl,
}
use case_execution.Domain.Errs.{wrap, GoError}
use case_execution.Text.{lit}
use case_execution.Domain.Entity.{UtCase}
use case_execution.Dispatch.Chunk.{Progress, IndexedBatch}
use case_execution.Dispatch.Stream.Group.{
  Group, Move, Run, opened, produce, scan_ends, scan_fails, scan_stops, take_batch, worker_ends,
  worker_stops, emit, drop_batch, close_progress, deliver, refuse, aggregator_ends, cancel, ended,
  and_move, is_cancelled, first_error,
}
use case_execution.Dispatch.Stream.Group.Ending.{held_one}
use case_execution.Dispatch.Stream.{started}

-- What holds of the group: each worker waits, holds a chunk, or has ended, which it does after the
-- producer or after a cancellation; the aggregator ends after the closer or after a cancellation; and the
-- closer comes after the last worker.
pub record IsSound (workers : ℕ) (g : Group) : Type 0 where
  pub crew : g.idle + length g.pipe.held ≤ workers
  pub staffed : g.idle + length g.pipe.held < workers → (g.producer_done || is_cancelled g) ≡ true
  pub collected : g.aggregator_done ≡ true → (g.progress_closed || is_cancelled g) ≡ true
  pub shut : g.progress_closed ≡ true → g.idle + length g.pipe.held ≡ 0

pub first_error-some : (old : Option GoError) (e : GoError) → is_some (first_error old e) ≡ true
first_error-some none e = refl
first_error-some (some x) e = refl

module _ (workers total : ℕ) (Reports : IndexedBatch → Progress → Type 0) where
  Move-IsSound :
      (g g' : Group) → Move workers total Reports g g' → IsSound workers g → IsSound workers g'
  Move-IsSound _ _ (produce g page pages e unread room) h = record {
    crew = h.crew;
    staffed = h.staffed;
    collected = h.collected;
    shut = h.shut;
  }
  Move-IsSound _ _ (scan_ends g e unread) h = record {
    crew = h.crew;
    staffed = λ few. refl;
    collected = h.collected;
    shut = h.shut;
  }
  Move-IsSound _ _ (scan_fails g x e ours) h = record {
    crew = h.crew;
    staffed = λ few. refl;
    collected = λ done. ground (arith, first_error-some g.failure (wrap (lit "scan cases: ") x []));
    shut = h.shut;
  }
  Move-IsSound _ _ (scan_stops g x e ours) h = record {
    crew = h.crew;
    staffed = λ few. refl;
    collected = h.collected;
    shut = h.shut;
  }
  Move-IsSound _ _ (take_batch g idle b queue e queued) h = record {
    crew = omega (arith, h.crew, e);
    staffed = λ few. h.staffed (omega (arith, e, few));
    collected = h.collected;
    shut = λ done. omega (arith, h.shut done, e);
  }
  Move-IsSound _ _ (worker_ends g idle e done queued) h = record {
    crew = omega (arith, h.crew, e);
    staffed = λ few. ground (arith, done);
    collected = h.collected;
    shut = λ closed. omega (arith, h.shut closed, e);
  }
  Move-IsSound _ _ (worker_stops g idle x e off) h = record {
    crew = omega (arith, h.crew, e);
    staffed = λ few. ground (arith, first_error-some g.failure x);
    collected = λ done. ground (arith, first_error-some g.failure x);
    shut = λ closed. omega (arith, h.shut closed, e);
  }
  Move-IsSound _ _ (emit g before b after p e reports room) h =
      let one = held_one before b after g.pipe.held e in
      record {
        crew = omega (arith, h.crew, one);
        staffed = λ few. h.staffed (omega (arith, one, few));
        collected = h.collected;
        shut = λ closed. absurd (omega (arith, h.shut closed, one));
      }
  Move-IsSound _ _ (drop_batch g before b after x e off) h =
      let one = held_one before b after g.pipe.held e in
      record {
        crew = omega (arith, h.crew, one);
        staffed = λ few. ground (arith, first_error-some g.failure x);
        collected = λ done. ground (arith, first_error-some g.failure x);
        shut = λ closed. absurd (omega (arith, h.shut closed, one));
      }
  Move-IsSound _ _ (close_progress g e idle held) h = record {
    crew = h.crew;
    staffed = h.staffed;
    collected = λ done. refl;
    shut = λ closed. omega (arith, idle, ap length held);
  }
  Move-IsSound _ _ (deliver g p progress e queued) h = record {
    crew = h.crew;
    staffed = h.staffed;
    collected = h.collected;
    shut = h.shut;
  }
  Move-IsSound _ _ (refuse g p progress x e queued) h = record {
    crew = h.crew;
    staffed =
        λ few. ground (arith, first_error-some g.failure (wrap (lit "progress callback: ") x []));
    collected =
        λ done. ground (arith, first_error-some g.failure (wrap (lit "progress callback: ") x []));
    shut = h.shut;
  }
  Move-IsSound _ _ (aggregator_ends g e shut queued) h = record {
    crew = h.crew;
    staffed = h.staffed;
    collected = λ done. ground (arith, shut);
    shut = h.shut;
  }
  Move-IsSound _ _ (cancel g x e) h = record {
    crew = h.crew;
    staffed = λ few. ground arith;
    collected = λ done. ground arith;
    shut = h.shut;
  }

  pub Run-IsSound :
      (n : ℕ) (g g' : Group)
      → Run workers total Reports n g g'
      → IsSound workers g
      → IsSound workers g'
  Run-IsSound _ _ _ (ended g) h = h
  Run-IsSound _ _ _ (and_move n g g' g'' run last) h =
      Move-IsSound g' g'' last (Run-IsSound n g g' run h)

  pub opened-IsSound : (pages : List (List UtCase)) → IsSound workers (opened workers pages)
  unfolding opened started
  opened-IsSound pages = record {
    crew = omega arith;
    staffed = λ few. absurd (omega (arith, few));
    collected = λ done. absurd (cc done);
    shut = λ closed. absurd (cc closed);
  }

  -- A move that is not the caller's.
  abbrev pub CanMove : Group → Type 0
  CanMove g = (g' : Group) × Move workers total Reports g g' × (g'.parent ≡ g.parent)
