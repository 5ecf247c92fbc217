-- ===== src/Bin/Worker/Held.antt =====
-- src/bin/orchestrator_worker.rs: the store's transactions on a row that the worker holds.
use cloud_job_orchestrator.Base.{
  ℕ, ◌≤◌, ◌≡◌, refl, true, some, arith, inl, inr, Result, ok, err, Result-cases, length,
}
use cloud_job_orchestrator.Base.Int.{ℤ, ltb_ℤ}
use cloud_job_orchestrator.Base.Text.{Text, eq_text_refl}
use cloud_job_orchestrator.Base.Order.{In}
use cloud_job_orchestrator.Domain.{max_payload_bytes}
use cloud_job_orchestrator.Scheduler.State.{same_state}
use cloud_job_orchestrator.Store.Tables.{Timestamp, plus_millis, JobRow, Db, find_row, is_job}
use cloud_job_orchestrator.Store.Lease.{
  holds_lease, completed_row, retried_row, complete, complete_tx,
}
use cloud_job_orchestrator.Store.Claim.{leased_row}
use cloud_job_orchestrator.Store.Rows.{DistinctRows, In-find_row, find_row-matched}
use cloud_job_orchestrator.Store.Transactions.{complete_tx-ok}
use cloud_job_orchestrator.Store.Grants.{granted_db, leased_row-KeepsKey}
use cloud_job_orchestrator.Store.Cas.Match.{complete_iff_match}
use cloud_job_orchestrator.Store.Final.{find_row-completed_db}
use cloud_job_orchestrator.Worker.{WorkerError}

-- What is reported for the row of a job that was executed.
abbrev pub reported_row : Timestamp → Result WorkerError Text → JobRow → JobRow
reported_row now (ok output) row = completed_row now output row
reported_row now (err error) row = retried_row now row

module _ (E : Type 0) (db : Db) (u : DistinctRows db.jobs) (d j owner : Text) (token : ℕ)
    (now : Timestamp) (row : JobRow) (found : find_row d j db.jobs ≡ some row)
    (held : holds_lease d j owner token now row ≡ true) where
  pub complete-held :
      (result : Text)
      → length result ≤ max_payload_bytes
      → ((complete {E = E} db d j owner token result now).0 ≡ ok tt)
        × (find_row d j (complete {E = E} db d j owner token result now).1.jobs
            ≡ some (completed_row now result row))
  unfolding complete
  complete-held result small =
      let accepted =
        (complete_iff_match E db u d j owner token now result).1 (small, (row, found, held)) in
      (
        accepted,
        elim (Result-cases (complete_tx {E = E} db d j owner token result now)) [
          | inl ((t, db'), e) ↦
              let (_, _, made) = complete_tx-ok E db d j owner token result now t db' e in
              rw (e, made) (find_row-completed_db db d j owner token result now row found held)
          | inr (x, e) ↦ absurd (ground arith)
        ],
      )

pub leased_row-holds_lease :
    (d j owner : Text) (token : ℕ) (ms : ℤ) (now later : Timestamp) (row : JobRow)
    → is_job d j row ≡ true
    → ltb_ℤ later (plus_millis now ms) ≡ true
    → holds_lease d j owner token later (leased_row owner token ms now row) ≡ true
unfolding holds_lease leased_row same_state
leased_row-holds_lease d j owner token ms now later row h k =
    rw (h, k, eq_text_refl owner) (ground arith)

pub is_job_refl : (row : JobRow) → is_job row.dag_id row.id row ≡ true
is_job_refl row = rw (eq_text_refl row.dag_id, eq_text_refl row.id) refl

pub leased_row_token :
    (owner : Text) (token : ℕ) (ms : ℤ) (now : Timestamp) (row : JobRow)
    → (leased_row owner token ms now row).lease_token ≡ some token
unfolding leased_row
leased_row_token owner token ms now row = refl

module _ (uuid_text : ℕ → Text) (db : Db) (u : DistinctRows db.jobs) (row : JobRow)
    (stored : In row db.jobs) (owner : Text) (token : ℕ) (ms : ℤ) (now : Timestamp) where
  pub find_row-granted_db :
      find_row row.dag_id row.id (granted_db uuid_text db row owner token ms now).jobs
      ≡ some (leased_row owner token ms now row)
  find_row-granted_db =
      find_row-matched (is_job row.dag_id row.id) (leased_row owner token ms now) db.jobs row.dag_id
        row.id row (leased_row-KeepsKey owner token ms now) (In-find_row row db.jobs u stored)
        (is_job_refl row)
