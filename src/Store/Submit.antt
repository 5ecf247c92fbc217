-- ===== src/Store/Submit.antt =====
-- src/store.rs: `submit`, with the constraints of the tables.
use cloud_job_orchestrator.Base.{
  ℕ, Bool, true, ◌&&◌, not, none, List, [], ◌∷◌, ◌++◌, ltb, leb, ◌==◌, length, if◌then◌else◌,
  Result, ok, err, ◌>>=◌, ◌>>◌, fail_if,
}
use cloud_job_orchestrator.Base.Int.{pos, negsuc, leb_ℤ}
use cloud_job_orchestrator.Base.Text.{Text, eq_text, is_empty}
use cloud_job_orchestrator.Base.Map.{Map, lookup}
use cloud_job_orchestrator.Domain.{JobSpec, Dependency, DagSpec, ready, pending}
use cloud_job_orchestrator.Domain.Validate.{validate, all_identifier_bytes}
use cloud_job_orchestrator.Scheduler.Submit.{dependency_counts, count_or_default}
use cloud_job_orchestrator.Store.{StoreError, validation, database, invalid_configuration}
use cloud_job_orchestrator.Store.Tables.{
  Timestamp, DagRow, JobRow, EdgeRow, Db, Postgres, Tx, committed, exists_row, is_job,
}

-- `id ~ '^[A-Za-z0-9_-]{1,64}$'`.
unfoldable pub matches_identifier : Text → Bool
matches_identifier id = not (is_empty id) && leb (length id) 64 && all_identifier_bytes id

-- The constraints on the columns of a job that is inserted.
unfoldable pub satisfies_checks : JobRow → Bool
unfolding matches_identifier
satisfies_checks row =
    matches_identifier row.id
    && leb (length row.payload) 4_096
    && leb 1 row.max_attempts
    && leb row.max_attempts 20
    && leb_ℤ (negsuc 99) row.priority
    && leb_ℤ row.priority (pos 100)

unfoldable pub initial_row : Map ℕ → Text → Timestamp → JobSpec → JobRow
initial_row counts dag_id now job = record {
  dag_id = dag_id;
  id = job.id;
  kind = job.kind;
  payload = job.payload;
  max_attempts = job.max_attempts;
  attempts = 0;
  priority = job.priority;
  state = if count_or_default (lookup job.id counts) == 0 then ready else pending;
  available_at = now;
  lease_owner = none;
  lease_token = none;
  lease_expires_at = none;
  result = none;
  updated_at = now;
}

abbrev pub edge_row : Text → Dependency → EdgeRow
edge_row dag_id edge = record { dag_id = dag_id; parent_id = edge.from; child_id = edge.to }

abbrev pub same_edge : EdgeRow → EdgeRow → Bool
same_edge a b =
    eq_text a.dag_id b.dag_id && eq_text a.parent_id b.parent_id && eq_text a.child_id b.child_id

module _ {E : Type 0} (pg : Postgres E) where
  unfoldable pub insert_dag : Db → Text → Timestamp → Result (StoreError E) Db
  unfolding exists_row matches_identifier
  insert_dag db id now = do
    fail_if (not (matches_identifier id)) (database pg.check_violation)
    fail_if (exists_row (λ (d : DagRow). eq_text d.id id) db.dags) (database pg.unique_violation)
    ok (record db {
      dags = db.dags ++ record { id = id; running = true; created_at = now; updated_at = now } ∷ [];
    })

  -- An i16 holds the attempts, and the column a SMALLINT.
  unfoldable pub insert_job :
      Map ℕ → Text → Timestamp → List JobRow → JobSpec → Result (StoreError E) (List JobRow)
  unfolding initial_row satisfies_checks exists_row
  insert_job counts dag_id now rows job = do
    fail_if (ltb 32_767 job.max_attempts) invalid_configuration
    fail_if (not (satisfies_checks (initial_row counts dag_id now job)))
        (database pg.check_violation)
    fail_if (exists_row (is_job dag_id job.id) rows) (database pg.unique_violation)
    ok (rows ++ initial_row counts dag_id now job ∷ [])

  unfoldable pub insert_jobs :
      Map ℕ → Text → Timestamp → List JobRow → List JobSpec → Result (StoreError E) (List JobRow)
  unfolding insert_job
  insert_jobs counts dag_id now rows [] = ok rows
  insert_jobs counts dag_id now rows (job ∷ jobs) = do
    rows' ← insert_job counts dag_id now rows job
    insert_jobs counts dag_id now rows' jobs

  unfoldable pub insert_edge :
      List JobRow → Text → List EdgeRow → Dependency → Result (StoreError E) (List EdgeRow)
  unfolding exists_row
  insert_edge jobs dag_id rows edge = do
    fail_if (eq_text edge.from edge.to) (database pg.check_violation)
    fail_if (exists_row (same_edge (edge_row dag_id edge)) rows) (database pg.unique_violation)
    fail_if
        (not (exists_row (is_job dag_id edge.from) jobs && exists_row (is_job dag_id edge.to) jobs))
        (database pg.foreign_key_violation)
    ok (rows ++ edge_row dag_id edge ∷ [])

  unfoldable pub insert_edges :
      List JobRow → Text → List EdgeRow → List Dependency → Result (StoreError E) (List EdgeRow)
  unfolding insert_edge
  insert_edges jobs dag_id rows [] = ok rows
  insert_edges jobs dag_id rows (edge ∷ edges) = do
    rows' ← insert_edge jobs dag_id rows edge
    insert_edges jobs dag_id rows' edges

  unfoldable pub submit_tx : Db → DagSpec → Timestamp → Tx E (Unit {0})
  unfolding insert_dag insert_jobs insert_edges
  submit_tx db spec now = elim (validate spec) [
    | err e ↦ err (validation e)
    | ok order ↦ do
      db' ← insert_dag db spec.id now
      jobs ← insert_jobs (dependency_counts spec) spec.id now db'.jobs spec.jobs
      edges ← insert_edges jobs spec.id db'.edges spec.dependencies
      ok (tt, record db' { jobs = jobs; edges = edges })
  ]

  unfoldable pub submit : Db → DagSpec → Timestamp → Result (StoreError E) (Unit {0}) × Db
  unfolding submit_tx
  submit db spec now = committed db (submit_tx db spec now)
