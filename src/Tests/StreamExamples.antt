-- ===== src/Tests/StreamExamples.antt =====
-- A stream of one page with one worker, from the scan to the callback.

use case_execution.Prelude.{List, [], ◌∷◌}
use case_execution.Text.{lit}
use case_execution.Dispatch.Stream.Reports.{ChunkReport}
use case_execution.Domain.Entity.{UtCase}
use case_execution.Dispatch.Chunk.{chunk_progress, IndexedBatch, Progress}
use case_execution.Tests.Memory.{app, times, empty_db, broker, case_of}

abbrev pub page : List UtCase
page = case_of 1 ∷ case_of 2 ∷ []

abbrev pub chunk : IndexedBatch
chunk = record { index = 0; cases = page }

abbrev pub Report : IndexedBatch → Progress → Type 0
Report = ChunkReport app (lit "r1") (lit "26B") (lit "ann")

abbrev pub report : Progress
report = (chunk_progress app times chunk (lit "r1") (lit "26B") (lit "ann") empty_db broker).0

abbrev pub pages : List (List UtCase)
pages = page ∷ []
