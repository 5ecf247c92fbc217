-- ===== src/Store/Waits/History.antt =====
-- src/store.rs: rows that wait for a parent, over histories of transactions.
use cloud_job_orchestrator.Base.{ℕ, ◌≡◌, true, some, List, [], ◌∷◌}
use cloud_job_orchestrator.Base.Order.{All-In}
use cloud_job_orchestrator.Base.Text.{Text}
use cloud_job_orchestrator.Domain.{pending}
use cloud_job_orchestrator.Store.Tables.{JobRow, Db, Postgres, find_row}
use cloud_job_orchestrator.Store.Lease.{has_open_parent}
use cloud_job_orchestrator.Store.Rows.{find_row-key}
use cloud_job_orchestrator.Store.Run.{
  StoreCall, submits, claims, heartbeats, completes, fails, reaps, cancels, empty_db, store_step,
  store_run,
}
use cloud_job_orchestrator.Store.Waits.{AllWait}
use cloud_job_orchestrator.Store.Waits.Calls.{
  heartbeat-AllWait, fail-AllWait, reap-AllWait, cancel-AllWait, claim-AllWait,
}
use cloud_job_orchestrator.Store.Waits.Complete.{complete-AllWait}
use cloud_job_orchestrator.Store.Waits.Submit.{submit-AllWait}

module _ {E : Type 0} (pg : Postgres E) (uuid_text : ℕ → Text) where
  store_step-AllWait :
      (db : Db) (c : StoreCall) → AllWait db → AllWait (store_step pg uuid_text db c)
  unfolding store_step
  store_step-AllWait db (submits spec now) w = submit-AllWait pg db spec now w
  store_step-AllWait db (claims locked owner token ms now) w =
      claim-AllWait E db w pg uuid_text locked owner token ms now
  store_step-AllWait db (heartbeats d j owner token ms now) w =
      heartbeat-AllWait E db w d j owner token ms now
  store_step-AllWait db (completes d j owner token result now) w =
      complete-AllWait E db d j owner token result now w
  store_step-AllWait db (fails d j owner token now) w = fail-AllWait E db w d j owner token now
  store_step-AllWait db (reaps now) w = reap-AllWait E db w now
  store_step-AllWait db (cancels d now) w = cancel-AllWait E db w d now

  store_run-AllWait :
      (db : Db) (cs : List StoreCall) → AllWait db → AllWait (store_run pg uuid_text db cs)
  unfolding store_run
  store_run-AllWait db [] w = w
  store_run-AllWait db (c ∷ cs) w =
      store_run-AllWait (store_step pg uuid_text db c) cs (store_step-AllWait db c w)

  -- After any history of transactions, one after the other, from empty tables, no job is stuck: a
  -- pending job has a parent that has not succeeded.
  pub no_job_is_stuck :
      (cs : List StoreCall) (d j : Text) (r : JobRow)
      → find_row d j (store_run pg uuid_text empty_db cs).jobs ≡ some r
      → r.state ≡ pending
      → has_open_parent
          (store_run pg uuid_text empty_db cs).edges
          (store_run pg uuid_text empty_db cs).jobs
          r
        ≡ true
  no_job_is_stuck cs d j r found waits =
      let db = store_run pg uuid_text empty_db cs in
      let (_, _, stored) = find_row-key d j db.jobs r found in
      All-In (λ x. x.state ≡ pending → has_open_parent db.edges db.jobs x ≡ true) r db.jobs
        (store_run-AllWait empty_db cs tt) stored waits
