-- ===== src/Rabbit/BatchRun/Partition.antt =====
-- BatchRun reports each task once.
use case_execution.Prelude.{
  if◌then◌else◌, count-append, count_absent, count-contains, not, ==_iff, ◌+◌, suc, arith, count,
  [], inr, inl, ◌≤◌, Bool, contains, ◌∷◌, true, ◌⊎◌, ◌≡◌, List, ℕ, refl,
}
use case_execution.Rabbit.Confirms.Conservation.{
  wait_conserves, no_duplicates-count, tags, no_duplicates,
}
use case_execution.Rabbit.BatchRun.{
  wait_confirms, failed_all, collect, stopped, attempt, skipped, task_ids, sent, Attempt, Channel,
  publish_loop, batch_run,
}
use case_execution.Dispatch.Ports.{ok, err, Reply}
use case_execution.Dispatch.Partition.{keep}
use case_execution.Domain.Errs.{GoError}
use case_execution.Rabbit.Confirms.{pending_ids, Pending}
use case_execution.Domain.Entity.{ExecutionTask}

Attempt-cases :
    (x : Attempt) → (x ≡ sent) ⊎ ((x ≡ skipped) ⊎ ((e : GoError) × (b : Bool) × (x ≡ stopped e b)))
Attempt-cases sent = inl refl
Attempt-cases skipped = inr (inl refl)
Attempt-cases (stopped e b) = inr (inr (e, b, refl))

-- The published identifiers are some of the tasks', and the tags are new.
abbrev Some : ℕ → List ExecutionTask → Pending → Type 0
Some seq ts pending =
    (no_duplicates (pending_ids pending) ≡ true)
    × (no_duplicates (tags pending) ≡ true)
    × ((x : ℕ) → contains (pending_ids pending) x ≡ true → contains (task_ids ts) x ≡ true)
    × ((x : ℕ) → contains (tags pending) x ≡ true → seq ≤ x)

skipped_keeps :
    (seq : ℕ) (t : ExecutionTask) (ts : List ExecutionTask) (pending : Pending)
    → Some seq ts pending
    → Some seq (t ∷ ts) pending
skipped_keeps seq t ts pending (ids, tags_distinct, among, new) =
    (ids, tags_distinct, λ x e. ground (arith, among x e), new)

sent_keeps :
    (seq : ℕ) (t : ExecutionTask) (ts : List ExecutionTask) (pending : Pending)
    → no_duplicates (task_ids (t ∷ ts)) ≡ true
    → Some (suc seq) ts pending
    → Some seq (t ∷ ts) ((seq, t.execution_id) ∷ pending)
sent_keeps seq t ts pending h (ids, tags_distinct, among, new) = (
  ground (arith, among t.execution_id),
  ground (arith, new seq),
  λ x e. ground (arith, among x),
  λ x e. ground (arith, new x, ==_iff seq x),
)

publish_loop_lem :
    (ch : Channel) (i seq : ℕ) (ts : List ExecutionTask)
    → no_duplicates (task_ids ts) ≡ true
    → Some seq ts (publish_loop ch i seq ts).seq_to_id
unfolding publish_loop
publish_loop_lem ch i seq [] h = (refl, refl, λ x e. cc, λ x e. cc)
publish_loop_lem ch i seq (t ∷ ts) h = elim (Attempt-cases (attempt ch i t)) [
  | inl e ↦
      rw (e, publish_loop)
        (sent_keeps seq t ts _ h (publish_loop_lem ch (suc i) (suc seq) ts (ground arith)))
  | inr (inl e) ↦
      rw (e, publish_loop)
        (skipped_keeps seq t ts _ (publish_loop_lem ch (suc i) seq ts (ground arith)))
  | inr (inr (x, b, e)) ↦ rw (e, publish_loop) (refl, refl, λ x e. cc, λ x e. cc)
]

count-keep :
    (a : ℕ) (p : ℕ → Bool) (ids : List ℕ) → count a (keep p ids) ≡ (if p a then count a ids else 0)
count-keep a p [] = ground arith
count-keep a p (id ∷ ids) = ground (arith, count-keep a p ids, ==_iff id a)

collected :
    (a : ℕ) (ids published_ids : List ℕ)
    → no_duplicates ids ≡ true
    → no_duplicates published_ids ≡ true
    → (contains published_ids a ≡ true → contains ids a ≡ true)
    → count a published_ids + count a (keep (λ id. not (contains published_ids id)) ids)
      ≡ count a ids
collected a ids published_ids h h' among = ground (
  arith,
  count-keep a (λ id. not (contains published_ids id)) ids,
  count-contains a published_ids,
  count-contains a ids,
  count_absent a published_ids,
  no_duplicates-count a ids,
  no_duplicates-count a published_ids,
)

-- BatchRun accounts for each task once, whatever becomes of the channel: an identifier occurs among
-- the successes and failures together as often as among the tasks. The tasks' identifiers are
-- distinct.
pub batch_run_conserves :
    (a : ℕ) (borrowed : Reply Channel) (ts : List ExecutionTask)
    → no_duplicates (task_ids ts) ≡ true
    → let result = (batch_run borrowed ts).0 in
      count a result.success_ids + count a result.failed_ids ≡ count a (task_ids ts)
unfolding batch_run collect failed_all
batch_run_conserves a borrowed [] h = refl
batch_run_conserves a (err e) (t ∷ ts) h = omega arith
batch_run_conserves a (ok ch) (t ∷ ts) h =
    let p = publish_loop ch 0 ch.next_seq (t ∷ ts) in
    let (ids_distinct, tags_distinct, among, _) = publish_loop_lem ch 0 ch.next_seq (t ∷ ts) h in
    let failed = (wait_confirms ch.events p.seq_to_id).1 in
    let published_ids = pending_ids p.seq_to_id in
    let left = keep (λ id. not (contains published_ids id)) (task_ids (t ∷ ts)) in
    omega (
      arith,
      count-append a failed left,
      wait_conserves a ch.events p.seq_to_id tags_distinct ids_distinct,
      collected a (task_ids (t ∷ ts)) published_ids h ids_distinct (among a),
    )
