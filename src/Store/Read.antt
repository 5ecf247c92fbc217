-- ===== src/Store/Read.antt =====
-- src/store.rs: `snapshot` and `list_dags`.
use cloud_job_orchestrator.Base.{
  ℕ, zero, suc, Bool, ◌&&◌, not, Option, none, some, List, [], ◌∷◌, leb, Result, ok, ◌>>=◌, ◌>>◌,
  fail_if,
}
use mathlib.Core.Option
use cloud_job_orchestrator.Base.Order.{TotalOrder, TotalPreorder, sort}
use cloud_job_orchestrator.Base.Text.{Text, eq_text}
use cloud_job_orchestrator.Domain.{JobSnapshot, DagSnapshot}
use cloud_job_orchestrator.Store.{
  StoreError, not_found, invalid_configuration, state_name, parse_state,
}
use cloud_job_orchestrator.Store.Tables.{DagRow, JobRow, Db, Postgres, select_rows, exists_row}
use cloud_job_orchestrator.Store.Claim.{unix_millis, nanos_of}

unfoldable pub take {ℓ} : {A : Type ℓ} → ℕ → List A → List A
take zero xs = []
take (suc n) [] = []
take (suc n) (x ∷ xs) = x ∷ take n xs

abbrev pub by_row_id : TotalOrder Text → TotalPreorder JobRow
by_row_id collation = record {
  le = λ a b. collation.le a.id b.id;
  le_total = λ a b. collation.le_total a.id b.id;
  le_trans = λ a b c. collation.le_trans a.id b.id c.id;
}

abbrev after_or_empty : Option Text → Text
after_or_empty none = []
after_or_empty (some after) = after

abbrev pub dag_ids : List DagRow → List Text
dag_ids [] = []
dag_ids (d ∷ dags) = d.id ∷ dag_ids dags

module _ {E : Type 0} (pg : Postgres E) where
  unfoldable pub snapshot_row : JobRow → Result (StoreError E) JobSnapshot
  unfolding parse_state state_name unix_millis nanos_of
  snapshot_row row = do
    state ← parse_state (state_name row.state)
    ok (record {
      id = row.id;
      state = state;
      attempts = row.attempts;
      max_attempts = row.max_attempts;
      available_at_ms = unix_millis (nanos_of row.available_at);
      lease_owner = row.lease_owner;
      lease_expires_at_ms = Option.map (λ t. unix_millis (nanos_of t)) row.lease_expires_at;
      result = row.result;
    })

  unfoldable pub snapshot_rows : List JobRow → Result (StoreError E) (List JobSnapshot)
  unfolding snapshot_row
  snapshot_rows [] = ok []
  snapshot_rows (row ∷ rows) = do job ← snapshot_row row; jobs ← snapshot_rows rows; ok (job ∷ jobs)

  -- The two statements stand in no transaction: each sees the tables of its own time.
  unfoldable pub snapshot : Db → Db → Text → Result (StoreError E) DagSnapshot
  unfolding snapshot_rows exists_row select_rows sort
  snapshot first second dag_id = do
    fail_if (not (exists_row (λ (d : DagRow). eq_text d.id dag_id) first.dags)) not_found
    jobs ← snapshot_rows (
        sort (by_row_id pg.collation)
          (select_rows (λ (row : JobRow). eq_text row.dag_id dag_id) second.jobs))
    ok (record { id = dag_id; jobs = jobs })

  -- `id > COALESCE($1, '')`.
  unfoldable pub comes_after : Option Text → DagRow → Bool
  comes_after after d = not (pg.collation.le d.id (after_or_empty after))

  unfoldable pub list_dags : Db → Option Text → ℕ → Result (StoreError E) (List Text)
  unfolding comes_after select_rows sort take
  list_dags db after limit = do
    fail_if (not (leb 1 limit && leb limit 100)) invalid_configuration
    ok (take limit (sort pg.collation.preorder (dag_ids (select_rows (comes_after after) db.dags))))
