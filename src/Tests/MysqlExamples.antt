-- ===== src/Tests/MysqlExamples.antt =====
-- Examples for the rows and the outbox updates, over a table that is a list.
use case_execution.Prelude.{ℕ, if◌then◌else◌, map, ◌≡◌, length, List, refl, [], ◌∷◌}
use case_execution.Mysql.Table.{chosen}
use case_execution.Tests.Tables.{outbox_table, outbox_table-IsOutboxTable}
use case_execution.Mysql.Helpers.{unique_int64s}
use case_execution.Mysql.Lease.{touched, update_fenced, is_owned, update_by_execution_ids}
use case_execution.Mysql.Rows.{state_text, from_outbox_message, OutboxRow}
use case_execution.Domain.Entity.{dead}
use case_execution.Tests.ChunkExamples.{queued}

abbrev rows : List OutboxRow
rows = from_outbox_message (queued 1) ∷ from_outbox_message (queued 2) ∷ []

abbrev to_dead : OutboxRow → OutboxRow
to_dead r = record r { state = state_text dead }

abbrev dead_rows : List OutboxRow
dead_rows =
    touched to_dead 700 (from_outbox_message (queued 1)) ∷ from_outbox_message (queued 2) ∷ []

update_fenced_example :
    (written_at : ℕ) × (dead_rows
      ≡ map (λ r. if is_owned (1 ∷ 1 ∷ []) [] r then touched to_dead written_at r else r) rows)
    × (length (chosen (is_owned (1 ∷ 1 ∷ []) []) rows) ≡ length (unique_int64s (1 ∷ 1 ∷ [])))
unfolding update_by_execution_ids from_outbox_message unique_int64s outbox_table
update_fenced_example =
    update_fenced outbox_table (1 ∷ 1 ∷ []) [] to_dead rows dead_rows outbox_table-IsOutboxTable
      refl refl
