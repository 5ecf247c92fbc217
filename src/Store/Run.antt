-- ===== src/Store/Run.antt =====
-- src/store.rs: histories of transactions, one after the other.
use cloud_job_orchestrator.Base.{ℕ, Bool, List, [], ◌∷◌}
use cloud_job_orchestrator.Base.Int.{ℤ}
use cloud_job_orchestrator.Base.Text.{Text}
use cloud_job_orchestrator.Domain.{DagSpec}
use cloud_job_orchestrator.Store.Tables.{Timestamp, Db, Postgres}
use cloud_job_orchestrator.Store.Lease.{heartbeat, complete, fail, reap, cancel}
use cloud_job_orchestrator.Store.Claim.{claim}
use cloud_job_orchestrator.Store.Submit.{submit}

-- A call of a method that writes, with the time of its transaction.
pub data StoreCall : Type 0 where
  submits : DagSpec → (now : Timestamp) → StoreCall
  claims :
      (locked : Text → Text → Bool) (owner : Text) (token : ℕ) (lease_ms : ℤ) (now : Timestamp)
      → StoreCall
  heartbeats : (d j owner : Text) (token : ℕ) (lease_ms : ℤ) (now : Timestamp) → StoreCall
  completes : (d j owner : Text) (token : ℕ) (result : Text) (now : Timestamp) → StoreCall
  fails : (d j owner : Text) (token : ℕ) (now : Timestamp) → StoreCall
  reaps : (now : Timestamp) → StoreCall
  cancels : (d : Text) (now : Timestamp) → StoreCall

abbrev pub empty_db : Db
empty_db = record { dags = []; jobs = []; edges = []; events = [] }

module _ {E : Type 0} (pg : Postgres E) (uuid_text : ℕ → Text) where
  unfoldable pub store_step : Db → StoreCall → Db
  store_step db (submits spec now) = (submit pg db spec now).1
  store_step db (claims locked owner token lease_ms now) =
      (claim pg uuid_text db locked owner token lease_ms now).1
  store_step db (heartbeats d j owner token lease_ms now) =
      (heartbeat {E = E} db d j owner token lease_ms now).1
  store_step db (completes d j owner token result now) =
      (complete {E = E} db d j owner token result now).1
  store_step db (fails d j owner token now) = (fail {E = E} db d j owner token now).1
  store_step db (reaps now) = (reap {E = E} db now).1
  store_step db (cancels d now) = (cancel {E = E} db d now).1

  unfoldable pub store_run : Db → List StoreCall → Db
  store_run db [] = db
  store_run db (c ∷ cs) = store_run (store_step db c) cs
