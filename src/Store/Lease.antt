-- ===== src/Store/Lease.antt =====
-- src/store.rs: `heartbeat`, `complete`, `fail`, `reap` and `cancel`.
use cloud_job_orchestrator.Base.{
  ℕ, ◌-◌, ◌*◌, ◌^◌, min, ◌==◌, Bool, false, ◌&&◌, ◌||◌, not, none, some, List, [], ◌∷◌, ◌++◌, ltb,
  leb, length, if◌then◌else◌, Result, ok, err, ◌>>=◌, ◌>>◌, fail_if, ok_or,
}
use cloud_job_orchestrator.Base.Int.{ℤ, pos}
use cloud_job_orchestrator.Base.Text.{Text, bytes, eq_text}
use cloud_job_orchestrator.Domain.{
  JobState, pending, ready, retry_wait, leased, succeeded, dead_lettered, cancelled,
  max_payload_bytes,
}
use cloud_job_orchestrator.Scheduler.State.{same_state}
use cloud_job_orchestrator.Store.{
  StoreError, lease_conflict, invalid_configuration, not_found, validate_owner_and_lease,
  ensure_compare_and_set, state_name, parse_state,
}
use cloud_job_orchestrator.Store.Tables.{
  Timestamp, plus_millis, DagRow, JobRow, EdgeRow, EventRow, Db, Tx, committed, select_rows,
  exists_row, update_rows, count_rows, first_row, text_is, uuid_is, is_after, is_not_after, is_job,
}

-- The condition of the three statements that a worker's lease guards.
unfoldable pub holds_lease : Text → Text → Text → ℕ → Timestamp → JobRow → Bool
holds_lease dag_id job_id owner token now row =
    is_job dag_id job_id row
    && same_state row.state leased
    && text_is row.lease_owner owner
    && uuid_is row.lease_token token
    && is_after row.lease_expires_at now

unfoldable pub extended_row : Timestamp → ℤ → JobRow → JobRow
extended_row now lease_ms row = record row {
  lease_expires_at = some (plus_millis now lease_ms);
  updated_at = now;
}

unfoldable pub completed_row : Timestamp → Text → JobRow → JobRow
completed_row now result row = record row {
  state = succeeded;
  result = some result;
  lease_owner = none;
  lease_token = none;
  lease_expires_at = none;
  updated_at = now;
}

-- Does an edge lead from the parent to the child?
unfoldable pub is_child_of : List EdgeRow → Text → Text → JobRow → Bool
is_child_of edges dag_id parent_id child =
    exists_row
      (λ e.
        eq_text e.dag_id child.dag_id
        && eq_text e.parent_id parent_id
        && eq_text e.child_id child.id)
      edges

-- Does the child have a parent that has not succeeded?
unfoldable pub has_open_parent : List EdgeRow → List JobRow → JobRow → Bool
has_open_parent edges jobs child =
    exists_row
      (λ e.
        eq_text e.dag_id child.dag_id
        && eq_text e.child_id child.id
        && exists_row
            (λ parent.
              is_job e.dag_id e.parent_id parent && not (same_state parent.state succeeded))
            jobs)
      edges

-- The condition of the statement that releases the children, on the rows that the statement sees.
unfoldable pub is_released : List EdgeRow → List JobRow → Text → Text → JobRow → Bool
unfolding is_child_of has_open_parent
is_released edges jobs dag_id parent_id child =
    eq_text child.dag_id dag_id
    && same_state child.state pending
    && is_child_of edges dag_id parent_id child
    && not (has_open_parent edges jobs child)

unfoldable pub released_row : Timestamp → JobRow → JobRow
released_row now row = record row { state = ready; available_at = now; updated_at = now }

-- `LEAST(60000, 1000 * power(2, LEAST(16, GREATEST(0, attempts - 1))))`.
unfoldable pub retry_delay : ℕ → ℕ
retry_delay attempts = min 60_000 (1_000 * 2 ^ min 16 (attempts - 1))

-- The assignments that `fail` and `reap` share.
unfoldable pub retried_row : Timestamp → JobRow → JobRow
unfolding retry_delay
retried_row now row =
    if leb row.max_attempts row.attempts
    then record row {
      state = dead_lettered;
      lease_owner = none;
      lease_token = none;
      lease_expires_at = none;
      updated_at = now;
    }
    else record row {
      state = retry_wait;
      available_at = plus_millis now (pos (retry_delay row.attempts));
      lease_owner = none;
      lease_token = none;
      lease_expires_at = none;
      updated_at = now;
    }

unfoldable pub is_expired_row : Timestamp → JobRow → Bool
is_expired_row now row = same_state row.state leased && is_not_after row.lease_expires_at now

unfoldable pub is_open_in : Text → JobRow → Bool
is_open_in dag_id row =
    eq_text row.dag_id dag_id
    && not (
        same_state row.state succeeded
        || same_state row.state dead_lettered
        || same_state row.state cancelled)

unfoldable pub cancelled_row : Timestamp → JobRow → JobRow
cancelled_row now row = record row {
  state = cancelled;
  lease_owner = none;
  lease_token = none;
  lease_expires_at = none;
  updated_at = now;
}

abbrev events_of : Text → Text → Timestamp → List JobRow → List EventRow
events_of event_type owner now [] = []
events_of event_type owner now (row ∷ rows) =
    record {
      dag_id = row.dag_id;
      job_id = row.id;
      event_type = event_type;
      attempt = row.attempts;
      owner = owner;
      occurred_at = now;
    }
    ∷ events_of event_type owner now rows

-- One event for each row that the SELECT finds.
unfoldable pub insert_event : Db → Text → Text → Text → Text → Timestamp → Db
unfolding select_rows
insert_event db dag_id job_id event_type owner now = record db {
  events = db.events ++ events_of event_type owner now (select_rows (is_job dag_id job_id) db.jobs);
}

unfoldable pub reap_in_transaction : Db → Timestamp → ℕ × Db
unfolding count_rows update_rows is_expired_row retried_row
reap_in_transaction db now = (
  count_rows (is_expired_row now) db.jobs,
  record db { jobs = update_rows (is_expired_row now) (retried_row now) db.jobs },
)

-- The second statement of `complete`: the rows that it sees are those that it updates.
unfoldable pub release_children : Db → Text → Text → Timestamp → Db
unfolding is_released released_row update_rows
release_children db dag_id parent_id now = record db {
  jobs = update_rows (is_released db.edges db.jobs dag_id parent_id) (released_row now) db.jobs;
}

module _ {E : Type 0} where
  -- One statement, outside any transaction.
  unfoldable pub heartbeat :
      Db → Text → Text → Text → ℕ → ℤ → Timestamp → Result (StoreError E) (Unit {0}) × Db
  unfolding holds_lease extended_row update_rows count_rows
  heartbeat db dag_id job_id owner token lease_ms now =
      elim (validate_owner_and_lease owner lease_ms) [
        | err e ↦ (err e, db)
        | ok _ ↦
            let held = holds_lease dag_id job_id owner token now in
            (
              ensure_compare_and_set (count_rows held db.jobs),
              record db { jobs = update_rows held (extended_row now lease_ms) db.jobs },
            )
      ]

  -- The first statement of `complete`.
  unfoldable pub mark_succeeded : Db → Text → Text → Text → ℕ → Text → Timestamp → Tx E (Unit {0})
  unfolding holds_lease completed_row update_rows count_rows
  mark_succeeded db dag_id job_id owner token result now = do
    let held = holds_lease dag_id job_id owner token now
    ensure_compare_and_set (count_rows held db.jobs)
    ok (tt, record db { jobs = update_rows held (completed_row now result) db.jobs })

  unfoldable pub complete_tx : Db → Text → Text → Text → ℕ → Text → Timestamp → Tx E (Unit {0})
  unfolding mark_succeeded release_children insert_event
  complete_tx db dag_id job_id owner token result now = do
    fail_if (ltb max_payload_bytes (length result)) invalid_configuration
    (_, marked) ← mark_succeeded db dag_id job_id owner token result now
    ok (
      tt,
      insert_event (release_children marked dag_id job_id now) dag_id job_id (bytes "succeeded")
          owner now,
    )

  unfoldable pub complete :
      Db → Text → Text → Text → ℕ → Text → Timestamp → Result (StoreError E) (Unit {0}) × Db
  unfolding complete_tx
  complete db dag_id job_id owner token result now =
      committed db (complete_tx db dag_id job_id owner token result now)

  unfoldable pub fail_tx : Db → Text → Text → Text → ℕ → Timestamp → Tx E JobState
  unfolding holds_lease retried_row update_rows first_row insert_event parse_state state_name
  fail_tx db dag_id job_id owner token now = do
    let held = holds_lease dag_id job_id owner token now
    row ← ok_or (first_row held db.jobs) lease_conflict
    state ← parse_state (state_name (retried_row now row).state)
    ok (
      state,
      insert_event (record db { jobs = update_rows held (retried_row now) db.jobs }) dag_id job_id
          (state_name state) owner now,
    )

  unfoldable pub fail :
      Db → Text → Text → Text → ℕ → Timestamp → Result (StoreError E) JobState × Db
  unfolding fail_tx
  fail db dag_id job_id owner token now = committed db (fail_tx db dag_id job_id owner token now)

  unfoldable pub reap : Db → Timestamp → Result (StoreError E) ℕ × Db
  unfolding reap_in_transaction
  reap db now = committed db (ok (reap_in_transaction db now))

  unfoldable pub cancel_tx : Db → Text → Timestamp → Tx E ℕ
  unfolding update_rows count_rows is_open_in cancelled_row
  cancel_tx db dag_id now = do
    let dag = λ (d : DagRow). eq_text d.id dag_id
    fail_if (count_rows dag db.dags == 0) not_found
    ok (
      count_rows (is_open_in dag_id) db.jobs,
      record db {
        dags = update_rows dag (λ d. record d { running = false; updated_at = now }) db.dags;
        jobs = update_rows (is_open_in dag_id) (cancelled_row now) db.jobs;
      },
    )

  unfoldable pub cancel : Db → Text → Timestamp → Result (StoreError E) ℕ × Db
  unfolding cancel_tx
  cancel db dag_id now = committed db (cancel_tx db dag_id now)
