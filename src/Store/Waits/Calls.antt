-- ===== src/Store/Waits/Calls.antt =====
-- src/store.rs: rows that wait for a parent, through the transactions on existing rows.
use cloud_job_orchestrator.Base.{
  ℕ, ◌≡◌, refl, Bool, arith, inl, inr, Bool-cases, ok, err, Result-cases, ◌==◌,
}
use cloud_job_orchestrator.Base.Int.{ℤ}
use cloud_job_orchestrator.Base.Text.{Text, eq_text}
use cloud_job_orchestrator.Scheduler.State.{same_state}
use cloud_job_orchestrator.Store.{validate_owner_and_lease}
use cloud_job_orchestrator.Store.Tables.{
  Timestamp, DagRow, JobRow, Db, Postgres, Tx, committed, is_job, count_rows,
}
use cloud_job_orchestrator.Store.Lease.{
  holds_lease, extended_row, released_row, retried_row, cancelled_row, is_expired_row, is_open_in,
  insert_event, reap_in_transaction, heartbeat, fail_tx, fail, reap, cancel_tx, cancel,
}
use cloud_job_orchestrator.Store.Claim.{leased_row, claim}
use cloud_job_orchestrator.Store.Acts.{
  extended_row-KeepsKey, released_row-KeepsKey, retried_row-KeepsKey, cancelled_row-KeepsKey,
  holds_lease_state,
}
use cloud_job_orchestrator.Store.Transactions.{fail_tx-ok}
use cloud_job_orchestrator.Store.Grants.{leased_row-KeepsKey, claim_picks, claim_refused}
use cloud_job_orchestrator.Store.Waits.{AllWait, Unsettling, update_rows-Waits}

extended_row-Unsettling :
    (d j owner : Text) (token : ℕ) (now : Timestamp) (ms : ℤ)
    → Unsettling (holds_lease d j owner token now) (extended_row now ms)
unfolding extended_row same_state
extended_row-Unsettling d j owner token now ms = record {
  keeps = extended_row-KeepsKey now ms;
  not_succeeded = λ r h. let s = holds_lease_state d j owner token now r h in ground arith;
  not_pending = λ r h k. let s = holds_lease_state d j owner token now r h in cc;
}

retried_row-Unsettling : (p : JobRow → Bool) (now : Timestamp) → Unsettling p (retried_row now)
unfolding retried_row same_state
retried_row-Unsettling p now = record {
  keeps = retried_row-KeepsKey now;
  not_succeeded = λ r h. ground arith;
  not_pending = λ r h k. ground arith;
}

cancelled_row-Unsettling : (p : JobRow → Bool) (now : Timestamp) → Unsettling p (cancelled_row now)
unfolding cancelled_row same_state
cancelled_row-Unsettling p now = record {
  keeps = cancelled_row-KeepsKey now;
  not_succeeded = λ r h. refl;
  not_pending = λ r h k. cc;
}

leased_row-Unsettling :
    (p : JobRow → Bool) (owner : Text) (token : ℕ) (ms : ℤ) (now : Timestamp)
    → Unsettling p (leased_row owner token ms now)
unfolding leased_row same_state
leased_row-Unsettling p owner token ms now = record {
  keeps = leased_row-KeepsKey owner token ms now;
  not_succeeded = λ r h. refl;
  not_pending = λ r h k. cc;
}

pub released_row-Unsettling :
    (p : JobRow → Bool) (now : Timestamp) → Unsettling p (released_row now)
unfolding released_row same_state
released_row-Unsettling p now = record {
  keeps = released_row-KeepsKey now;
  not_succeeded = λ r h. refl;
  not_pending = λ r h k. cc;
}

pub committed-AllWait :
    {E A : Type 0} (db : Db) (t : Tx E A)
    → AllWait db
    → ((a : A) (db' : Db) → t ≡ ok (a, db') → AllWait db')
    → AllWait (committed db t).1
committed-AllWait db (err e) w h = w
committed-AllWait db (ok (a, db')) w h = h a db' refl

reap_in_transaction-AllWait :
    (db : Db) (now : Timestamp) → AllWait db → AllWait (reap_in_transaction db now).1
unfolding reap_in_transaction
reap_in_transaction-AllWait db now w =
    update_rows-Waits (is_expired_row now) (retried_row now)
      (retried_row-Unsettling (is_expired_row now) now) db.edges db.jobs db.jobs w

module _ (E : Type 0) (db : Db) (w : AllWait db) where
  pub heartbeat-AllWait :
      (d j owner : Text) (token : ℕ) (ms : ℤ) (now : Timestamp)
      → AllWait (heartbeat {E = E} db d j owner token ms now).1
  unfolding heartbeat
  heartbeat-AllWait d j owner token ms now =
      elim (Result-cases (validate_owner_and_lease {E = E} owner ms)) [
        | inl (u, e) ↦
            rw (e, heartbeat)
              (update_rows-Waits (holds_lease d j owner token now) (extended_row now ms)
                (extended_row-Unsettling d j owner token now ms) db.edges db.jobs db.jobs w)
        | inr (x, e) ↦ rw (e, heartbeat) w
      ]

  pub fail-AllWait :
      (d j owner : Text) (token : ℕ) (now : Timestamp)
      → AllWait (fail {E = E} db d j owner token now).1
  unfolding fail insert_event
  fail-AllWait d j owner token now =
      committed-AllWait db (fail_tx {E = E} db d j owner token now) w (λ state db' h.
        let (row, _, _, e) = fail_tx-ok E db d j owner token now state db' h in
        rw e (
          update_rows-Waits (holds_lease d j owner token now) (retried_row now)
            (retried_row-Unsettling (holds_lease d j owner token now) now) db.edges db.jobs db.jobs
            w))

  pub reap-AllWait : (now : Timestamp) → AllWait (reap {E = E} db now).1
  unfolding reap
  reap-AllWait now = reap_in_transaction-AllWait db now w

  pub cancel-AllWait : (d : Text) (now : Timestamp) → AllWait (cancel {E = E} db d now).1
  unfolding cancel cancel_tx
  cancel-AllWait d now =
      elim (Bool-cases (count_rows (λ (x : DagRow). eq_text x.id d) db.dags == 0)) [
        | inl e ↦ rw e w
        | inr e ↦ rw e (
            update_rows-Waits (is_open_in d) (cancelled_row now)
              (cancelled_row-Unsettling (is_open_in d) now) db.edges db.jobs db.jobs w)
      ]

  pub claim-AllWait :
      (pg : Postgres E) (uuid_text : ℕ → Text) (locked : Text → Text → Bool) (owner : Text)
      (token : ℕ) (ms : ℤ) (now : Timestamp)
      → AllWait (claim pg uuid_text db locked owner token ms now).1
  claim-AllWait pg uuid_text locked owner token ms now =
      let reaped = reap_in_transaction-AllWait db now w in
      elim (Result-cases (validate_owner_and_lease {E = E} owner ms)) [
        | inl (t, e) ↦ elim (claim_picks pg uuid_text db locked owner token ms now e) [
          | inl (o, _) ↦ rw o reaped
          | inr (row, c, o) ↦ rw o (
              update_rows-Waits (is_job row.dag_id row.id) (leased_row owner token ms now)
                (leased_row-Unsettling (is_job row.dag_id row.id) owner token ms now)
                (reap_in_transaction db now).1.edges (reap_in_transaction db now).1.jobs
                (reap_in_transaction db now).1.jobs reaped)
        ]
        | inr (x, e) ↦ rw (claim_refused pg uuid_text db locked owner token ms now x e) w
      ]
