-- ===== src/Dispatch/Stream/Delivery.antt =====
-- What a stream that nothing cancels delivers to its callback.
use case_execution.Dispatch.Stream.{
  delivered_next, numbered, started, Reachable, Step, List, Pipeline, produce, take_batch, emit,
  deliver, start, step,
}
use case_execution.Dispatch.Chunk.{int32, Progress, IndexedBatch}
use case_execution.Prelude.{
  sym, ap, occurs, suc, arith, ◌^◌, ◌<◌, ◌≤◌, ◌-◌, ◌≡◌, ◌+◌, length, map, ltb, count, if◌then◌else◌,
  ℕ, [], ◌∷◌, ◌++◌,
}
use case_execution.Domain.Entity.{UtCase}

abbrev pub indices : List IndexedBatch → List ℕ
indices = map (λ b. b.index)

abbrev pub chunk_indices : List Progress → List ℕ
chunk_indices = map (λ p. p.chunk_index)

-- A report carries the index of its chunk.
abbrev pub KeepsIndex : (IndexedBatch → Progress → Type 0) → Type 0
KeepsIndex Reports = (b : IndexedBatch) (p : Progress) → Reports b p → p.chunk_index ≡ b.index

-- How often a chunk is somewhere on its way.
abbrev in_flight : ℕ → Pipeline → ℕ
in_flight i s =
    count i (indices s.queue)
    + count i (indices s.held)
    + count i (chunk_indices s.progress)
    + count i (chunk_indices s.delivered)

indices-count :
    (i : ℕ) (front back : List IndexedBatch)
    → count i (indices (front ++ back)) ≡ count i (indices front) + count i (indices back)
indices-count i [] back = omega arith
indices-count i (b ∷ front) back = omega (arith, indices-count i front back)

chunk_indices-count :
    (i : ℕ) (front : List Progress) (p : Progress)
    → count i (chunk_indices (front ++ p ∷ []))
      ≡ count i (chunk_indices front) + occurs i p.chunk_index
chunk_indices-count i [] p = omega arith
chunk_indices-count i (q ∷ front) p = omega (arith, chunk_indices-count i front p)

abbrev below : ℕ → ℕ → ℕ
below i n = if ltb i n then 1 else 0

next_below : (i n : ℕ) → below i (n + 1) ≡ below i n + occurs i n
next_below i n = ground arith

abbrev Numbered : List (List UtCase) → Pipeline → Type 0
Numbered pages s =
    (s.next_index + length s.unread ≡ length pages)
    × ((i : ℕ) → in_flight i s ≡ below i s.next_index)

module _ (workers total : ℕ) (Reports : IndexedBatch → Progress → Type 0) where
  Step-Numbered :
      (pages : List (List UtCase)) (s s' : Pipeline)
      → KeepsIndex Reports
      → length pages < 2 ^ 32
      → Step workers total Reports s s'
      → Numbered pages s
      → Numbered pages s'
  Step-Numbered pages _ _ keeps few (produce s page rest e room) (sum, counts) =
      let left : suc (length rest) ≡ length s.unread = sym (ap length e) in
      let same : int32 (s.next_index + 1) ≡ s.next_index + 1 = ground (arith, left, sum, few) in
      (
        rw same (omega (arith, left, sum)),
        λ i. rw same (
            omega (
              arith,
              counts i,
              next_below i s.next_index,
              indices-count i s.queue (record { index = s.next_index; cases = page } ∷ []),
            )),
      )
  Step-Numbered pages _ _ keeps few (take_batch s b queue e room) (sum, counts) =
      (sum, λ i. omega (arith, counts i, ap (λ q. count i (indices q)) e))
  Step-Numbered pages _ _ keeps few (emit s before b after p e reports room) (sum, counts) = (
    sum,
    λ i. omega (
      arith,
      counts i,
      ap (λ q. count i (indices q)) e,
      indices-count i before (b ∷ after),
      indices-count i before after,
      chunk_indices-count i s.progress p,
      ap (occurs i) (keeps b p reports),
    ),
  )
  Step-Numbered pages _ _ keeps few (deliver s p progress e) (sum, counts) = (
    sum,
    λ i. omega (
      arith,
      counts i,
      ap (λ q. count i (chunk_indices q)) e,
      chunk_indices-count i s.delivered
          (numbered total (delivered_next total p progress s).total_dispatched p),
    ),
  )

  Reachable-Numbered :
      (pages : List (List UtCase)) (s : Pipeline)
      → KeepsIndex Reports
      → length pages < 2 ^ 32
      → Reachable workers total Reports pages s
      → Numbered pages s
  unfolding started
  Reachable-Numbered pages _ keeps few start = (omega arith, λ i. ground arith)
  Reachable-Numbered pages _ keeps few (step s s' before last) =
      Step-Numbered pages s s' keeps few last (Reachable-Numbered pages s keeps few before)

  -- When nothing is on its way any more, each page that has been read is delivered once, under the
  -- indices from 0 on.
  pub stream_delivers :
      (i : ℕ) (pages : List (List UtCase)) (s : Pipeline)
      → KeepsIndex Reports
      → length pages < 2 ^ 32
      → Reachable workers total Reports pages s
      → s.queue ≡ []
      → s.held ≡ []
      → s.progress ≡ []
      → (length s.unread ≤ length pages)
        × (count i (chunk_indices s.delivered)
            ≡ (if ltb i (length pages - length s.unread) then 1 else 0))
  stream_delivers i pages s keeps few reachable queued held sent =
      let (sum, counts) = Reachable-Numbered pages s keeps few reachable in
      let all : s.next_index ≡ length pages - length s.unread = omega (arith, sum) in
      (
        omega (arith, sum),
        omega (
          arith,
          counts i,
          ap (below i) all,
          ap (λ q. count i (indices q)) queued,
          ap (λ q. count i (indices q)) held,
          ap (λ q. count i (chunk_indices q)) sent,
        ),
      )
