-- ===== src/Bin/Ctl.antt =====
-- src/bin/orchestratorctl.rs: the commands. Parsing the command line, reading files, opening the pool
-- and printing are the libraries'.
use cloud_job_orchestrator.Base.{ℕ, List, [], ◌∷◌, ◌++◌, Result, ok, err, ◌>>=◌, ◌>>◌, fail_if, ltb}
use cloud_job_orchestrator.Base.Text.{Text, bytes, print_ℕ}
use cloud_job_orchestrator.Domain.{DagSpec, DagSnapshot, ValidationError}
use cloud_job_orchestrator.Domain.Validate.{validate}
use cloud_job_orchestrator.Store.{StoreError}
use cloud_job_orchestrator.Store.Tables.{Timestamp, Db, Postgres}
use cloud_job_orchestrator.Store.Lease.{reap, cancel}
use cloud_job_orchestrator.Store.Read.{snapshot}
use cloud_job_orchestrator.Store.Submit.{submit}

-- The database URL of a command is left out: a run has one database.
pub data Command : Type 0 where
  validate_file submit_file : (file : Text) → Command
  status_of cancel_dag : (dag_id : Text) → Command
  reap_leases : Command

-- The file system's and the JSON reader's errors are `F`.
pub data CtlError (E F : Type 0) : Type 0 where
  invalid : ValidationError → CtlError E F
  store_failed : StoreError E → CtlError E F
  unreadable : F → CtlError E F
  too_large : CtlError E F

-- What is printed: a line, or a snapshot as JSON.
pub data Output : Type 0 where
  line : Text → Output
  pretty : DagSnapshot → Output

-- `join` of the standard library.
unfoldable pub join_text : Text → List Text → Text
join_text separator [] = []
join_text separator (x ∷ []) = x
join_text separator (x ∷ y ∷ ys) = x ++ (separator ++ join_text separator (y ∷ ys))

module _ {E F : Type 0} (pg : Postgres E) (file_size : Text → Result F ℕ)
    (file_spec : Text → Result F DagSpec) where
  abbrev read_failed : {A : Type 0} → Result F A → Result (CtlError E F) A
  read_failed (err e) = err (unreadable e)
  read_failed (ok a) = ok a

  unfoldable pub read_spec : Text → Result (CtlError E F) DagSpec
  read_spec path = do
    size ← read_failed (file_size path)
    fail_if (ltb 1_000_000 size) too_large
    read_failed (file_spec path)

  -- `?` after a call of the store, with the tables that the call leaves.
  abbrev printed :
      {A : Type 0} → (A → Output) → Result (StoreError E) A × Db → Result (CtlError E F) Output × Db
  printed f (err e, db) = (err (store_failed e), db)
  printed f (ok a, db) = (ok (f a), db)

  abbrev validated : DagSpec → Result ValidationError (List Text) → Result (CtlError E F) Output
  validated spec (err e) = err (invalid e)
  validated spec (ok order) =
      ok (line (bytes "valid DAG " ++ (spec.id ++ (bytes ": " ++ join_text (bytes " -> ") order))))

  unfoldable pub main : Db → Timestamp → Command → Result (CtlError E F) Output × Db
  unfolding read_spec join_text print_ℕ submit snapshot cancel reap
  main db now (validate_file file) = elim (read_spec file) [
    | err e ↦ (err e, db)
    | ok spec ↦ (validated spec (validate spec), db)
  ]
  main db now (submit_file file) = elim (read_spec file) [
    | err e ↦ (err e, db)
    | ok spec ↦ printed (λ _. line (bytes "submitted " ++ spec.id)) (submit pg db spec now)
  ]
  main db now (status_of dag_id) = printed pretty (snapshot pg db db dag_id, db)
  main db now (cancel_dag dag_id) =
      printed
        (λ cancelled.
          line (bytes "cancelled " ++ (print_ℕ cancelled ++ (bytes " jobs in " ++ dag_id))))
        (cancel {E = E} db dag_id now)
  main db now reap_leases =
      printed
        (λ reclaimed. line (bytes "reclaimed " ++ (print_ℕ reclaimed ++ bytes " expired leases")))
        (reap {E = E} db now)
