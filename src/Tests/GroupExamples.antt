-- ===== src/Tests/GroupExamples.antt =====
-- A stream of one page with one worker, with its errgroup, from the scan to the return.
use case_execution.Tests.StreamExamples.{page, chunk, Report, report, pages}
use case_execution.Tests.Memory.{times, empty_db, broker}
use case_execution.Dispatch.Stream.{produced, taken, emitted, delivered_next}
use case_execution.Dispatch.Stream.Group.{
  Group, Run, opened, produce, scan_ends, take_batch, worker_ends, emit, close_progress, deliver,
  aggregator_ends, ended, and_move, IsFinished,
}
use case_execution.Dispatch.Stream.Group.Ending.{stream_ends}
use case_execution.Dispatch.Stream.Group.Unreported.{cancel_unreported, timeout_unreported}
use case_execution.Domain.Errs.{is_err, sentinel, canceled, deadline_exceeded, wrap}
use case_execution.Text.{lit}
use case_execution.Prelude.{ℕ, ◌+◌, ◌*◌, ◌≡◌, ◌≤◌, [], true, none, some, refl, arith, length}

abbrev g0 : Group
g0 = opened 1 pages

abbrev g1 : Group
g1 = record g0 { pipe = produced page [] g0.pipe }

abbrev g2 : Group
g2 = record g1 { producer_done = true }

abbrev g3 : Group
g3 = record g2 { pipe = taken chunk [] g2.pipe; idle = 0 }

abbrev g4 : Group
g4 = record g3 { pipe = emitted [] [] report g3.pipe; idle = 1 }

abbrev g5 : Group
g5 = record g4 { pipe = delivered_next 2 report [] g4.pipe }

abbrev g6 : Group
g6 = record g5 { idle = 0 }

abbrev g7 : Group
g7 = record g6 { progress_closed = true }

abbrev g8 : Group
g8 = record g7 { aggregator_done = true }

half_way : Run 1 2 Report 4 g0 g4
unfolding opened
half_way =
    and_move 3 g0 g3 g4
      (and_move 2 g0 g2 g3
        (and_move 1 g0 g1 g2
          (and_move 0 g0 g0 g1 (ended g0) (produce g0 page [] refl refl (ground arith)))
          (scan_ends g1 refl refl))
        (take_batch g2 0 chunk [] refl refl))
      (emit g3 [] chunk [] report refl (times, empty_db, broker, refl) (ground arith))

all_moves : Run 1 2 Report 8 g0 g8
unfolding opened
all_moves =
    and_move 7 g0 g7 g8
      (and_move 6 g0 g6 g7
        (and_move 5 g0 g5 g6 (and_move 4 g0 g4 g5 half_way (deliver g4 report [] refl refl))
          (worker_ends g5 0 refl refl refl))
        (close_progress g6 refl refl refl))
      (aggregator_ends g7 refl refl refl)

stream_ends_example : 8 ≤ 4 * length pages + (1 + 4)
stream_ends_example = stream_ends 1 2 Report 8 pages g8 all_moves

cancel_unreported_example :
    (n : ℕ) × (g : Group) × Run 1 2 Report n (opened 1 pages) g
    × IsFinished g
    × (g.parent ≡ some (sentinel canceled))
    × (g.failure ≡ none)
    × (g.pipe.delivered ≡ [])
cancel_unreported_example = cancel_unreported 1 2 Report pages (sentinel canceled)

timeout_unreported_example :
    (n : ℕ) × (g : Group) × Run 1 2 Report n (opened 1 pages) g
    × IsFinished g
    × (g.parent ≡ none)
    × (g.failure ≡ none)
    × (g.pipe.unread ≡ pages)
    × (g.pipe.delivered ≡ [])
unfolding is_err
timeout_unreported_example =
    timeout_unreported 1 2 Report pages (wrap (lit "dial tcp: ") (sentinel deadline_exceeded) [])
      refl
