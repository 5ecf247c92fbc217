-- ===== src/Bin/Worker/Turn.antt =====
-- src/bin/orchestrator_worker.rs: one turn of the loop, with the store's transactions.
use cloud_job_orchestrator.Base.{
  ℕ, ◌≤◌, ◌≡◌, refl, true, Option, none, some, arith, inl, inr, ◌⊎◌, ◌∙◌, sym, ap, Result, ok, err,
  length, subst,
}
use cloud_job_orchestrator.Base.Int.{ℤ, ltb_ℤ}
use cloud_job_orchestrator.Base.Text.{Text}
use cloud_job_orchestrator.Base.Order.{In}
use cloud_job_orchestrator.Domain.{max_payload_bytes}
use cloud_job_orchestrator.Scheduler.State.{ClaimedJob}
use cloud_job_orchestrator.Store.{StoreError, validate_owner_and_lease}
use cloud_job_orchestrator.Store.Tables.{Timestamp, plus_millis, JobRow, Db, Postgres, find_row}
use cloud_job_orchestrator.Store.Lease.{
  reap_in_transaction, holds_lease, retried_row, complete, fail,
}
use cloud_job_orchestrator.Store.Claim.{claim, leased_row}
use cloud_job_orchestrator.Store.Rows.{DistinctRows}
use cloud_job_orchestrator.Store.Acts.{reap_in_transaction-StoreActs}
use cloud_job_orchestrator.Store.Due.{IsCandidate, AllLocked}
use cloud_job_orchestrator.Store.Grants.{claim_outcome, granted_job, granted_db}
use cloud_job_orchestrator.Worker.{WorkerError, execute, execute_is_bounded}
use cloud_job_orchestrator.Bin.Worker.{
  Stop, Progress, idle, reported, Chance, told, report, after_claim, turn,
}
use cloud_job_orchestrator.Store.Cas.Match.{fail-held}
use cloud_job_orchestrator.Bin.Worker.Held.{
  reported_row, complete-held, leased_row-holds_lease, is_job_refl, leased_row_token,
  find_row-granted_db,
}

-- What others have made of the tables while a job is executed: each job has one row still, and a row
-- that is under the worker's token is as it was.
abbrev pub Undisturbed : ℕ → Db → Db → Type 0
Undisturbed token before after =
    DistinctRows after.jobs
    × ((d j : Text) (r : JobRow)
        → find_row d j before.jobs ≡ some r
        → r.lease_token ≡ some token
        → find_row d j after.jobs ≡ some r)

module _ {E : Type 0} (pg : Postgres E) (uuid_text : ℕ → Text) (parse_uuid : Text → Option ℕ)
    (reads : (token : ℕ) → parse_uuid (uuid_text token) ≡ some token)
    (hex_digest to_uppercase : Text → Text) (worker_id : Text) where
  abbrev executed : JobRow → Result WorkerError Text
  executed row = execute hex_digest to_uppercase row.kind row.payload

  abbrev run_turn : Db → ℤ → Chance → Result (Stop E) Progress × Db
  run_turn = turn pg uuid_text parse_uuid hex_digest to_uppercase worker_id

  abbrev told_by : {A : Type 0} → Result (StoreError E) A × Db → Result (Stop E) Progress × Db
  told_by = told pg uuid_text parse_uuid hex_digest to_uppercase worker_id

  abbrev reports :
      Db → ClaimedJob → ℕ → Result WorkerError Text → Timestamp → Result (Stop E) Progress × Db
  reports = report pg uuid_text parse_uuid hex_digest to_uppercase worker_id

  told-ok :
      {A : Type 0} (o : Result (StoreError E) A × Db) (a : A)
      → o.0 ≡ ok a
      → told_by o ≡ (ok reported, o.1)
  told-ok (err e, db) a h = absurd (ground arith)
  told-ok (ok x, db) a h = refl

  report-ok :
      (db : Db) (job : ClaimedJob) (token : ℕ) (output : Text) (now : Timestamp)
      → reports db job token (ok output) now
        ≡ told_by (complete {E = E} db job.dag_id job.job_id worker_id token output now)
  unfolding report
  report-ok db job token output now = refl

  report-err :
      (db : Db) (job : ClaimedJob) (token : ℕ) (error : WorkerError) (now : Timestamp)
      → reports db job token (err error) now
        ≡ told_by (fail {E = E} db job.dag_id job.job_id worker_id token now)
  unfolding report
  report-err db job token error now = refl

  -- The turn reports, and the row is written.
  abbrev Reported : Text → Text → JobRow → Result (Stop E) Progress × Db → Type 0
  Reported d j row o = (o.0 ≡ ok reported) × (find_row d j o.1.jobs ≡ some row)

  report-held :
      (db : Db) (u : DistinctRows db.jobs) (row : JobRow) (token : ℕ) (now : Timestamp)
      (job : ClaimedJob) (outcome : Result WorkerError Text)
      → find_row job.dag_id job.job_id db.jobs ≡ some row
      → holds_lease job.dag_id job.job_id worker_id token now row ≡ true
      → ((output : Text) → outcome ≡ ok output → length output ≤ max_payload_bytes)
      → Reported job.dag_id job.job_id
          (reported_row now outcome row)
          (reports db job token outcome now)
  report-held db u row token now job (ok output) found held small =
      let (accepted, after) =
        complete-held E db u job.dag_id job.job_id worker_id token now row found held output
          (small output refl) in
      rw
        (
          report-ok db job token output now,
          told-ok (complete {E = E} db job.dag_id job.job_id worker_id token output now) tt
              accepted,
        )
        (refl, after)
  report-held db u row token now job (err error) found held small =
      let (accepted, after) =
        fail-held E db u job.dag_id job.job_id worker_id token now row found held in
      rw
        (
          report-err db job token error now,
          told-ok (fail {E = E} db job.dag_id job.job_id worker_id token now)
              (retried_row now row).state accepted,
        )
        (refl, after)

  after_claim-none :
      (db : Db) (c : Chance)
      → after_claim pg uuid_text parse_uuid hex_digest to_uppercase worker_id (ok none, db) c
        ≡ (ok idle, db)
  unfolding after_claim
  after_claim-none db c = refl

  after_claim-some :
      (db : Db) (c : Chance) (job : ClaimedJob)
      → parse_uuid job.lease_token ≡ some c.token
      → after_claim pg uuid_text parse_uuid hex_digest to_uppercase worker_id (ok (some job), db) c
        ≡ reports
            (c.meanwhile db)
            job
            c.token
            (execute hex_digest to_uppercase job.kind job.payload)
            c.reported_at
  unfolding after_claim
  after_claim-some db c job h = rw (h, after_claim) refl

  -- A turn that claims a row.
  turn-some :
      (db : Db) (lease_ms : ℤ) (c : Chance) (row : JobRow) (mid : Db)
      → let job = granted_job uuid_text mid row worker_id c.token lease_ms c.claimed_at in
        let granted = granted_db uuid_text mid row worker_id c.token lease_ms c.claimed_at in
        claim pg uuid_text db c.locked worker_id c.token lease_ms c.claimed_at
          ≡ (ok (some job), granted)
        → run_turn db lease_ms c
          ≡ reports (c.meanwhile granted) job c.token (executed row) c.reported_at
  unfolding turn
  turn-some db lease_ms c row mid h =
      let job = granted_job uuid_text mid row worker_id c.token lease_ms c.claimed_at in
      let granted = granted_db uuid_text mid row worker_id c.token lease_ms c.claimed_at in
      ap (λ o. after_claim pg uuid_text parse_uuid hex_digest to_uppercase worker_id o c) h
      ∙ after_claim-some granted c job (reads c.token)

  granted_row-Reported :
      (mid : Db) (lease_ms : ℤ) (c : Chance) (row : JobRow)
      → DistinctRows mid.jobs
      → In row mid.jobs
      → let granted = granted_db uuid_text mid row worker_id c.token lease_ms c.claimed_at in
        Undisturbed c.token granted (c.meanwhile granted)
        → ltb_ℤ c.reported_at (plus_millis c.claimed_at lease_ms) ≡ true
        → Reported row.dag_id row.id
            (reported_row c.reported_at
              (executed row)
              (leased_row worker_id c.token lease_ms c.claimed_at row))
            (reports
              (c.meanwhile (granted_db uuid_text mid row worker_id c.token lease_ms c.claimed_at))
              (granted_job uuid_text mid row worker_id c.token lease_ms c.claimed_at)
              c.token
              (executed row)
              c.reported_at)
  granted_row-Reported mid lease_ms c row u stored (distinct, keeps) early =
      let granted = granted_db uuid_text mid row worker_id c.token lease_ms c.claimed_at in
      let leased = leased_row worker_id c.token lease_ms c.claimed_at row in
      let found =
        keeps row.dag_id row.id leased
          (find_row-granted_db uuid_text mid u row stored worker_id c.token lease_ms c.claimed_at)
          (leased_row_token worker_id c.token lease_ms c.claimed_at row) in
      report-held (c.meanwhile granted) distinct leased c.token c.reported_at
        (granted_job uuid_text mid row worker_id c.token lease_ms c.claimed_at) (executed row) found
        (leased_row-holds_lease row.dag_id row.id worker_id c.token lease_ms c.claimed_at
          c.reported_at row (is_job_refl row) early)
        (λ output h. (execute_is_bounded hex_digest to_uppercase row.kind row.payload output h).0)

  -- A turn of a worker with a valid name and lease duration, on tables with one row for each job,
  -- whose report is made before the lease runs out. The condition on the others is that, from the
  -- claim's tables to those that the report finds, they keep one row for each job and leave alone the
  -- rows under this worker's token. Then it is idle, after taking back the expired leases, only if
  -- others have locked every row that is due; otherwise it claims the row that is due, not locked
  -- and comes first, reports without an error, and leaves the row succeeded with the output if the
  -- job's operation has one, and else retried or buried.
  pub turn_outcome :
      (db : Db) (lease_ms : ℤ) (c : Chance)
      → DistinctRows db.jobs
      → validate_owner_and_lease {E = E} worker_id lease_ms ≡ ok tt
      → let claimed = (claim pg uuid_text db c.locked worker_id c.token lease_ms c.claimed_at).1 in
        Undisturbed c.token claimed (c.meanwhile claimed)
        → ltb_ℤ c.reported_at (plus_millis c.claimed_at lease_ms) ≡ true
        → (run_turn db lease_ms c ≡ (ok idle, (reap_in_transaction db c.claimed_at).1))
            × AllLocked pg uuid_text (reap_in_transaction db c.claimed_at).1 c.locked c.claimed_at
          ⊎ (row : JobRow) × IsCandidate pg uuid_text
              (reap_in_transaction db c.claimed_at).1
              c.locked
              c.claimed_at
              row
            × Reported row.dag_id row.id
                (reported_row c.reported_at
                  (executed row)
                  (leased_row worker_id c.token lease_ms c.claimed_at row))
                (run_turn db lease_ms c)
  unfolding turn
  turn_outcome db lease_ms c u v calm early =
      let claims =
        claim_outcome pg uuid_text db c.locked worker_id c.token lease_ms c.claimed_at v in
      let reaps = reap_in_transaction-StoreActs db c.claimed_at in
      let reaped = (reap_in_transaction db c.claimed_at).1 in
      elim claims [
        | inl (e, all) ↦ inl (rw e (after_claim-none reaped c), all)
        | inr (row, pick, e) ↦
            let granted = granted_db uuid_text reaped row worker_id c.token lease_ms c.claimed_at in
            let calm' : Undisturbed c.token granted (c.meanwhile granted) =
              subst
                (λ (o : Result (StoreError E) (Option ClaimedJob) × Db).
                  Undisturbed c.token o.1 (c.meanwhile o.1))
                e calm in
            inr (
              row,
              pick,
              subst
                  (λ (o : Result (Stop E) Progress × Db).
                    Reported row.dag_id row.id
                      (reported_row c.reported_at (executed row)
                        (leased_row worker_id c.token lease_ms c.claimed_at row))
                      o)
                  (sym (turn-some db lease_ms c row reaped e))
                  (granted_row-Reported reaped lease_ms c row (reaps.distinct u) pick.stored calm'
                    early),
            )
      ]
