-- ===== src/Store/Transactions.antt =====
-- src/store.rs: what the transactions leave when they are committed, and their steps of the rows.
use cloud_job_orchestrator.Base.{
  ℕ, ◌≤◌, ◌≡◌, refl, some, ◌==◌, arith, inl, inr, Bool-cases, Option-cases, ok, err, Result-cases,
  length,
}
use cloud_job_orchestrator.Base.Int.{ℤ}
use cloud_job_orchestrator.Base.Text.{Text, eq_text}
use cloud_job_orchestrator.Domain.{JobState, max_payload_bytes}
use cloud_job_orchestrator.Store.{validate_owner_and_lease, ensure_compare_and_set}
use cloud_job_orchestrator.Store.Tables.{Timestamp, DagRow, JobRow, Db, Tx, committed, update_rows}
use cloud_job_orchestrator.Store.Lease.{
  holds_lease, extended_row, completed_row, retried_row, cancelled_row, is_open_in, insert_event,
  release_children, heartbeat, mark_succeeded, complete_tx, complete, fail_tx, fail, reap,
  cancel_tx, cancel,
}
use cloud_job_orchestrator.Store.Moves.{extend, finish, retry, cancel as cancel_move}
use cloud_job_orchestrator.Store.Acts.{
  StoreActs, StoreActs-refl, StoreActs-trans, update-StoreActs, holds_lease_state,
  extended_row-KeepsKey, completed_row-KeepsKey, retried_row-KeepsKey, cancelled_row-KeepsKey,
  is_open_in_state, insert_event-StoreActs, release_children-StoreActs,
  reap_in_transaction-StoreActs,
}
use cloud_job_orchestrator.Store.Tables.{count_rows, first_row}
use cloud_job_orchestrator.Store.{state_name, parse_state_iff}
use cloud_job_orchestrator.Base.Text.{bytes}

pub committed-StoreActs :
    {E A : Type 0} (db : Db) (t : Tx E A)
    → ((a : A) (db' : Db) → t ≡ ok (a, db') → StoreActs db db')
    → StoreActs db (committed db t).1
committed-StoreActs db (err e) h = StoreActs-refl db
committed-StoreActs db (ok (a, db')) h = h a db' refl

-- The tables after the first statement of `complete`, and after all of them.
module _ (db : Db) (d j owner : Text) (token : ℕ) (result : Text) (now : Timestamp) where
  abbrev pub marked_db : Db
  marked_db = record db {
    jobs = update_rows (holds_lease d j owner token now) (completed_row now result) db.jobs;
  }

  abbrev pub completed_db : Db
  completed_db = insert_event (release_children marked_db d j now) d j (bytes "succeeded") owner now

  marked-StoreActs : StoreActs db marked_db
  marked-StoreActs =
      update-StoreActs (holds_lease d j owner token now) (completed_row now result)
        (completed_row-KeepsKey now result)
        (λ r h. finish (holds_lease_state d j owner token now r h) now result refl) db marked_db
        refl refl

  completed-StoreActs : StoreActs db completed_db
  completed-StoreActs = StoreActs-trans db marked_db completed_db marked-StoreActs (
      StoreActs-trans marked_db (release_children marked_db d j now) completed_db
        (release_children-StoreActs marked_db d j now)
        (insert_event-StoreActs (release_children marked_db d j now) d j (bytes "succeeded") owner
          now))

module _ (db : Db) (d j owner : Text) (token : ℕ) (now : Timestamp) where
  abbrev pub failed_db : JobState → Db
  failed_db state =
      insert_event
        (record db {
          jobs = update_rows (holds_lease d j owner token now) (retried_row now) db.jobs;
        })
        d j (state_name state) owner now

  failed-StoreActs : (state : JobState) → StoreActs db (failed_db state)
  failed-StoreActs state =
      StoreActs-trans db _ (failed_db state)
        (update-StoreActs (holds_lease d j owner token now) (retried_row now)
          (retried_row-KeepsKey now)
          (λ r h. retry (holds_lease_state d j owner token now r h) now refl) db
          (record db {
            jobs = update_rows (holds_lease d j owner token now) (retried_row now) db.jobs;
          })
          refl refl)
        (insert_event-StoreActs _ d j (state_name state) owner now)

module _ (E : Type 0) where
  pub heartbeat-StoreActs :
      (db : Db) (d j owner : Text) (token : ℕ) (ms : ℤ) (now : Timestamp)
      → StoreActs db (heartbeat {E = E} db d j owner token ms now).1
  unfolding heartbeat
  heartbeat-StoreActs db d j owner token ms now =
      elim (Result-cases (validate_owner_and_lease {E = E} owner ms)) [
        | inl (u, e) ↦
            rw (e, heartbeat)
              (update-StoreActs (holds_lease d j owner token now) (extended_row now ms)
                (extended_row-KeepsKey now ms)
                (λ r h. extend (holds_lease_state d j owner token now r h) now ms refl) db _ refl
                refl)
        | inr (x, e) ↦ rw (e, heartbeat) (StoreActs-refl db)
      ]

  pub complete_tx-ok :
      (db : Db) (d j owner : Text) (token : ℕ) (result : Text) (now : Timestamp) (u : Unit {0})
      (db' : Db)
      → complete_tx {E = E} db d j owner token result now ≡ ok (u, db')
      → (length result ≤ max_payload_bytes)
        × (count_rows (holds_lease d j owner token now) db.jobs ≡ 1)
        × (db' ≡ completed_db db d j owner token result now)
  unfolding complete_tx mark_succeeded ensure_compare_and_set
  complete_tx-ok db d j owner token result now u db' h = (ground arith, ground arith, ground arith)

  pub complete-StoreActs :
      (db : Db) (d j owner : Text) (token : ℕ) (result : Text) (now : Timestamp)
      → StoreActs db (complete {E = E} db d j owner token result now).1
  unfolding complete
  complete-StoreActs db d j owner token result now =
      committed-StoreActs db (complete_tx {E = E} db d j owner token result now) (λ u db' h.
        let (_, _, e) = complete_tx-ok db d j owner token result now u db' h in
        rw e (completed-StoreActs db d j owner token result now))

  pub fail_tx-ok :
      (db : Db) (d j owner : Text) (token : ℕ) (now : Timestamp) (state : JobState) (db' : Db)
      → fail_tx {E = E} db d j owner token now ≡ ok (state, db')
      → (row : JobRow) × (first_row (holds_lease d j owner token now) db.jobs ≡ some row)
        × (state ≡ (retried_row now row).state)
        × (db' ≡ failed_db db d j owner token now state)
  unfolding fail_tx
  fail_tx-ok db d j owner token now state db' h =
      elim (Option-cases (first_row (holds_lease d j owner token now) db.jobs)) [
        | inl e ↦ absurd (ground arith)
        | inr (row, e) ↦
            let parsed =
              (parse_state_iff {E = E} (state_name (retried_row now row).state)
                  (retried_row now row).state).1
                refl in
            (row, e, ground arith, ground arith)
      ]

  pub fail-StoreActs :
      (db : Db) (d j owner : Text) (token : ℕ) (now : Timestamp)
      → StoreActs db (fail {E = E} db d j owner token now).1
  unfolding fail
  fail-StoreActs db d j owner token now =
      committed-StoreActs db (fail_tx {E = E} db d j owner token now) (λ state db' h.
        let (row, _, _, e) = fail_tx-ok db d j owner token now state db' h in
        rw e (failed-StoreActs db d j owner token now state))

  pub reap-StoreActs : (db : Db) (now : Timestamp) → StoreActs db (reap {E = E} db now).1
  unfolding reap
  reap-StoreActs db now = reap_in_transaction-StoreActs db now

  pub cancel-StoreActs :
      (db : Db) (d : Text) (now : Timestamp) → StoreActs db (cancel {E = E} db d now).1
  unfolding cancel cancel_tx
  cancel-StoreActs db d now =
      elim (Bool-cases (count_rows (λ (x : DagRow). eq_text x.id d) db.dags == 0)) [
        | inl e ↦ rw e (StoreActs-refl db)
        | inr e ↦ rw e (
            update-StoreActs (is_open_in d) (cancelled_row now) (cancelled_row-KeepsKey now)
              (λ r h. cancel_move (is_open_in_state d r h) now refl) db _ refl refl)
      ]
