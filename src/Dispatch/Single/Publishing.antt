-- ===== src/Dispatch/Single/Publishing.antt =====
-- When ExecuteCaseWithRequest of internal/usecase/dispatch_app_service.go calls the broker.
use case_execution.Dispatch.Ports.{Reply, ok, err, request, Reply-cases}
use case_execution.Dispatch.Single.{
  Accepted, accept_case, replay_or_publish, after_accept, execute_normalized,
  execute_case_with_request,
}
use case_execution.Prelude.{
  ℕ, ◌≡◌, refl, ◌⊎◌, inl, inr, true, false, Option, none, some, arith, Bool-cases,
}
use case_execution.Text.{Bytes, is_empty, str_eq}
use case_execution.Domain.Status.{ExecutionStatus}
use case_execution.Dispatch.RequestId.{normalize_request_id}
use case_execution.Dispatch.App.{App, Times, replay_dispatched_status}

module _ {D Q : Type 0} (app : App D Q) (times : Times) where
  -- The call published: the request is valid, its record and message are committed, the record has
  -- the request's version, and no earlier try settled it.
  pub record Published (random : Reply Bytes) (raw : Bytes) (case_id : ℕ) (v user : Bytes) (d : D)
      (q q' : Q) : Type 0 where
    pub request_id : Bytes
    pub accepted : Accepted
    pub committed : D
    pub has_version : is_empty v ≡ false
    pub normalized : normalize_request_id random raw ≡ ok request_id
    pub inserted : accept_case app times request_id case_id v user d ≡ (ok accepted, committed)
    pub same_version : str_eq accepted.accepted.version v ≡ true
    pub not_settled : replay_dispatched_status accepted.message accepted.accepted ≡ none
    pub sent : q' ≡ (app.executor.execute request accepted.accepted accepted.case_name q).1

  replay_or_publish-broker :
      (a : Accepted) (replay : Option ExecutionStatus) (d : D) (q : Q)
      → ((replay_or_publish app times a replay d q).2 ≡ q)
        ⊎ ((replay ≡ none)
            × ((replay_or_publish app times a replay d q).2
                ≡ (app.executor.execute request a.accepted a.case_name q).1))
  unfolding replay_or_publish
  replay_or_publish-broker a (some s) d q = inl refl
  replay_or_publish-broker a none d q = inr (refl, refl)

  after_accept-broker :
      (v : Bytes) (a : Accepted) (d : D) (q : Q)
      → let q' = (after_accept app times v (ok a, d) q).2 in
        (q' ≡ q)
        ⊎ ((str_eq a.accepted.version v ≡ true)
            × (replay_dispatched_status a.message a.accepted ≡ none)
            × (q' ≡ (app.executor.execute request a.accepted a.case_name q).1))
  unfolding after_accept
  after_accept-broker v a d q =
      ground (arith, replay_or_publish-broker a (replay_dispatched_status a.message a.accepted) d q)

  execute_normalized-broker :
      (random : Reply Bytes) (raw : Bytes) (normalized : Reply Bytes) (case_id : ℕ) (v user : Bytes)
      (d : D) (q : Q)
      → is_empty v ≡ false
      → normalize_request_id random raw ≡ normalized
      → let q' = (execute_normalized app times normalized case_id v user d q).2 in
        (q' ≡ q) ⊎ Published random raw case_id v user d q q'
  unfolding execute_normalized
  execute_normalized-broker random raw (err e) case_id v user d q present n = inl refl
  execute_normalized-broker random raw (ok id) case_id v user d q present n =
      elim (Reply-cases (accept_case app times id case_id v user d)) [
        | inr (e, d', failed) ↦ inl (rw (failed, after_accept))
        | inl (a, d', done) ↦ elim (after_accept-broker v a d' q) [
          | inl same ↦ inl (rw done same)
          | inr (version, open_, sent) ↦ inr (record {
            request_id = id;
            accepted = a;
            committed = d';
            has_version = present;
            normalized = n;
            inserted = done;
            same_version = version;
            not_settled = open_;
            sent = rw done sent;
          })
        ]
      ]

  -- The broker is called only after the first phase has committed a record of the request's version
  -- that no earlier try has settled, and then once; in every other case its state is unchanged.
  pub publishes_after_commit :
      (random : Reply Bytes) (raw : Bytes) (case_id : ℕ) (v user : Bytes) (d : D) (q : Q)
      → let q' = (execute_case_with_request app times random raw case_id v user d q).2 in
        (q' ≡ q) ⊎ Published random raw case_id v user d q q'
  unfolding execute_case_with_request
  publishes_after_commit random raw case_id v user d q = elim (Bool-cases (is_empty v)) [
    | inl missing ↦ inl (rw missing)
    | inr present ↦
        rw present (execute_normalized-broker random raw _ case_id v user d q present refl)
  ]
