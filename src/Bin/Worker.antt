-- ===== src/Bin/Worker.antt =====
-- src/bin/orchestrator_worker.rs: the loop of `main`.
use cloud_job_orchestrator.Base.{ℕ, ◌≡◌, Bool, Option, none, some, List, [], ◌∷◌, Result, ok, err}
use cloud_job_orchestrator.Base.Int.{ℤ}
use cloud_job_orchestrator.Base.Text.{Text}
use cloud_job_orchestrator.Domain.{JobState}
use cloud_job_orchestrator.Scheduler.State.{ClaimedJob}
use cloud_job_orchestrator.Store.{StoreError}
use cloud_job_orchestrator.Store.Tables.{Timestamp, Db, Postgres}
use cloud_job_orchestrator.Store.Claim.{claim}
use cloud_job_orchestrator.Store.Lease.{complete, fail}
use cloud_job_orchestrator.Worker.{WorkerError, execute}
pub mod Held
pub mod Turn

-- What ends the loop: a `?`.
pub data Stop (E : Type 0) : Type 0 where
  store_failed : StoreError E → Stop E
  invalid_token : Stop E

-- A turn that does not end the loop. After an idle one the worker sleeps for the poll interval.
pub data Progress : Type 0 where
  idle reported : Progress

-- What a turn meets: the rows that are locked and the new UUID at the claim, the transactions of
-- others while the job is executed, and the times of its two transactions.
pub record Chance : Type 1 where
  pub locked : Text → Text → Bool
  pub token : ℕ
  pub claimed_at : Timestamp
  pub meanwhile : Db → Db
  pub reported_at : Timestamp

-- The text of a UUID is read by the library, which may refuse it.
module _ {E : Type 0} (pg : Postgres E) (uuid_text : ℕ → Text) (parse_uuid : Text → Option ℕ)
    (hex_digest to_uppercase : Text → Text) (worker_id : Text) where
  abbrev pub told : {A : Type 0} → Result (StoreError E) A × Db → Result (Stop E) Progress × Db
  told (err e, db) = (err (store_failed e), db)
  told (ok a, db) = (ok reported, db)

  unfoldable pub report :
      Db → ClaimedJob → ℕ → Result WorkerError Text → Timestamp → Result (Stop E) Progress × Db
  unfolding complete fail
  report db claim token (ok result) now =
      told (complete {E = E} db claim.dag_id claim.job_id worker_id token result now)
  report db claim token (err error) now =
      told (fail {E = E} db claim.dag_id claim.job_id worker_id token now)

  unfoldable pub after_claim :
      Result (StoreError E) (Option ClaimedJob) × Db → Chance → Result (Stop E) Progress × Db
  unfolding report execute
  after_claim (err e, db) c = (err (store_failed e), db)
  after_claim (ok none, db) c = (ok idle, db)
  after_claim (ok (some claim), db) c = elim (parse_uuid claim.lease_token) [
    | none ↦ (err invalid_token, c.meanwhile db)
    | some token ↦
        report (c.meanwhile db) claim token
          (execute hex_digest to_uppercase claim.kind claim.payload) c.reported_at
  ]

  unfoldable pub turn : Db → ℤ → Chance → Result (Stop E) Progress × Db
  unfolding claim after_claim
  turn db lease_ms c =
      after_claim (claim pg uuid_text db c.locked worker_id c.token lease_ms c.claimed_at) c

  -- The loop over the turns that are given, unless one ends it.
  unfoldable pub work : Db → ℤ → List Chance → Result (Stop E) (Unit {0}) × Db
  unfolding turn
  work db lease_ms [] = (ok tt, db)
  work db lease_ms (c ∷ cs) =
      let (outcome, db') = turn db lease_ms c in
      let rest = work db' lease_ms cs in elim outcome [ err e ↦ (err e, db') | ok progress ↦ rest ]
