-- ===== src/Store/Race.antt =====
-- src/store.rs: two calls of `complete` at the same time, each transaction at PostgreSQL's default
-- level, READ COMMITTED: a statement sees what its own transaction wrote, and what others have
-- committed before it starts.
pub mod Lost
use cloud_job_orchestrator.Base.{ℕ, Bool}
use cloud_job_orchestrator.Base.Text.{Text, bytes}
use cloud_job_orchestrator.Store.Tables.{Timestamp, JobRow, Db, update_rows}
use cloud_job_orchestrator.Store.Lease.{
  insert_event, holds_lease, completed_row, released_row, is_released,
}
use cloud_job_orchestrator.Store.Transactions.{marked_db}

-- One of the calls.
pub record Completion : Type 0 where
  pub job_id : Text
  pub owner : Text
  pub token : ℕ
  pub result : Text

module _ (db : Db) (d : Text) (now : Timestamp) where
  -- The tables after the call's first statement, as its own transaction sees them.
  abbrev pub marked_by : Db → Completion → Db
  marked_by seen c = marked_db seen d c.job_id c.owner c.token c.result now

  -- The rows that the call's second statement finds, when the other call has not committed.
  abbrev pub freed_by : Completion → JobRow → Bool
  freed_by c = is_released (marked_by db c).edges (marked_by db c).jobs d c.job_id

  -- The tables after both calls, each of which ran both statements before the other's commit.
  unfoldable pub both_completed : Completion → Completion → Db
  unfolding is_released released_row update_rows holds_lease completed_row insert_event
  both_completed a b =
      let freed = record db {
        jobs =
            update_rows (freed_by b) (released_row now)
              (update_rows (freed_by a) (released_row now) (marked_by (marked_by db a) b).jobs);
      } in
      insert_event (insert_event freed d a.job_id (bytes "succeeded") a.owner now) d b.job_id
        (bytes "succeeded") b.owner now
