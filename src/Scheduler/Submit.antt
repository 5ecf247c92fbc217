-- ===== src/Scheduler/Submit.antt =====
-- src/scheduler.rs: `submit`.
use cloud_job_orchestrator.Base.{
  ℕ, suc, ◌+◌, Option, none, some, List, [], ◌∷◌, ◌==◌, ltb, leb, length, if◌then◌else◌, Result, ok,
  err, ◌>>◌, fail_if, ◌^◌, min, ◌-◌,
}
use cloud_job_orchestrator.Base.Int.{ℤ}
use cloud_job_orchestrator.Base.Order.{text_order, sort}
use cloud_job_orchestrator.Base.Text.{Text}
use cloud_job_orchestrator.Base.Map.{Map, lookup, contains_key, insert, adjust, map_values}
use cloud_job_orchestrator.Domain.{JobSpec, Dependency, DagSpec, ready, pending}
use cloud_job_orchestrator.Domain.Validate.{validate, push_edge}
use cloud_job_orchestrator.Scheduler.State.{
  JobRecord, ReadyKey, Scheduler, SchedulerError, validation, dag_already_exists, overloaded,
  Outcome, push_ready,
}

unfoldable pub initial_counts : Map ℕ → List JobSpec → Map ℕ
initial_counts counts [] = counts
initial_counts counts (job ∷ jobs) = initial_counts (insert job.id 0 counts) jobs

unfoldable pub count_edges : Map ℕ → List Dependency → Map ℕ
count_edges counts [] = counts
count_edges counts (edge ∷ edges) = count_edges (adjust edge.to suc counts) edges

unfoldable pub dependency_counts : DagSpec → Map ℕ
unfolding initial_counts count_edges
dependency_counts spec = count_edges (initial_counts [] spec.jobs) spec.dependencies

unfoldable pub collect_dependents : Map (List Text) → List Dependency → Map (List Text)
collect_dependents m [] = m
collect_dependents m (edge ∷ edges) = collect_dependents (push_edge edge.from edge.to m) edges

unfoldable pub sorted_dependents : DagSpec → Map (List Text)
unfolding collect_dependents
sorted_dependents spec =
    map_values (sort text_order.preorder) (collect_dependents [] spec.dependencies)

unfoldable pub count_zeros : Map ℕ → ℕ
count_zeros [] = 0
count_zeros ((id, count) ∷ m) = (if count == 0 then 1 else 0) + count_zeros m

abbrev pub count_or_default : Option ℕ → ℕ
count_or_default none = 0
count_or_default (some n) = n

unfoldable pub initial_record : Map ℕ → ℤ → JobSpec → JobRecord
initial_record counts now_ms job =
    let remaining = count_or_default (lookup job.id counts) in
    record {
      spec = job;
      state = if remaining == 0 then ready else pending;
      attempts = 0;
      available_at_ms = now_ms;
      remaining_dependencies = remaining;
      lease = none;
      result = none;
    }

-- The loop over the jobs: the DAG's jobs and the heap.
unfoldable pub admit_records :
    Map ℕ → Text → ℤ → Map JobRecord → List ReadyKey → List JobSpec → Map JobRecord × List ReadyKey
unfolding initial_record
admit_records counts dag_id now_ms jobs heap [] = (jobs, heap)
admit_records counts dag_id now_ms jobs heap (job ∷ rest) =
    let remaining = count_or_default (lookup job.id counts) in
    admit_records counts dag_id now_ms (insert job.id (initial_record counts now_ms job) jobs)
      (if remaining == 0 then push_ready dag_id job now_ms heap else heap) rest

-- `self.ready.len().saturating_add(ready_count)` of usize.
abbrev usize_add : ℕ → ℕ → ℕ
usize_add a b = min (a + b) (2 ^ 64 - 1)

-- The tests that come before the first write.
unfoldable pub submit_checks : Scheduler → DagSpec → Result SchedulerError (Unit {0})
submit_checks s spec = elim (validate spec) [
  | err e ↦ err (validation e)
  | ok order ↦ do
    fail_if (contains_key spec.id s.dags) dag_already_exists
    fail_if (leb s.config.max_dags (length s.dags)) overloaded
    fail_if
        (ltb s.config.max_ready_jobs
          (usize_add (length s.ready) (count_zeros (dependency_counts spec))))
        overloaded
]

unfoldable pub admit : Scheduler → DagSpec → ℤ → Scheduler
unfolding admit_records
admit s spec now_ms =
    let (jobs, heap) = admit_records (dependency_counts spec) spec.id now_ms [] s.ready spec.jobs in
    record s {
      dags = insert spec.id (record { jobs = jobs; dependents = sorted_dependents spec }) s.dags;
      ready = heap;
    }

unfoldable pub submit : Scheduler → DagSpec → ℤ → Outcome (Unit {0})
unfolding submit_checks admit
submit s spec now_ms = elim (submit_checks s spec) [
  | err e ↦ (err e, s)
  | ok _ ↦ (ok tt, admit s spec now_ms)
]
