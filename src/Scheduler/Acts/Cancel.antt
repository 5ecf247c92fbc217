-- ===== src/Scheduler/Acts/Cancel.antt =====
-- src/scheduler.rs: `cancel` as steps of the jobs.
use mathlib.Core.Option
use cloud_job_orchestrator.Base.{
  ◌≡◌, refl, true, arith, inl, inr, if◌then◌else◌, Bool-cases, Option-cases,
}
use cloud_job_orchestrator.Base.Text.{Text, eq_text}
use cloud_job_orchestrator.Base.Map.{
  Map, lookup, adjust, lookup-adjust, lookup-map_values, map_values-Distinct,
}
use cloud_job_orchestrator.Scheduler.State.{JobRecord, DagRecord, Scheduler, find_job}
use cloud_job_orchestrator.Scheduler.Lease.{cancel, cancel_dag, cancelled_job}
use cloud_job_orchestrator.Scheduler.Jobs.{adjust-DistinctJobs}
use cloud_job_orchestrator.Scheduler.Machine.{cancel as cancel_move, Moves, stay, next}
use cloud_job_orchestrator.Scheduler.Acts.{
  Acts, Acts-refl, Rewrites, Rewrites-moves, Rewrites-absent,
}

pub find_job-cancel_dag :
    (d d' j : Text) (dags : Map DagRecord)
    → find_job d' j (adjust d cancel_dag dags)
      ≡ (if eq_text d d' then Option.map cancelled_job (find_job d' j dags) else find_job d' j dags)
unfolding find_job cancel_dag
find_job-cancel_dag d d' j dags = elim (Option-cases (lookup d' dags)) [
  | inl e ↦ ground (arith, lookup-adjust d d' cancel_dag dags)
  | inr (dag, e) ↦
      ground (arith, lookup-adjust d d' cancel_dag dags, lookup-map_values cancelled_job j dag.jobs)
]

abbrev cancelled_in : Text → Text → Text → JobRecord → JobRecord
cancelled_in d d' j r = if eq_text d d' then cancelled_job r else r

abbrev after_cancel : Scheduler → Text → Scheduler
after_cancel s d = record s { dags = adjust d cancel_dag s.dags }

cancel-Rewrites : (s : Scheduler) (d : Text) → Rewrites s (after_cancel s d) (cancelled_in d)
cancel-Rewrites s d d' j = ground (arith, find_job-cancel_dag d d' j s.dags)

cancelled_in-Moves : (d d' j : Text) (r : JobRecord) → Moves true r (cancelled_in d d' j r)
cancelled_in-Moves d d' j r = elim (Bool-cases (eq_text d d')) [
  | inl e ↦ rw e (next stay (cancel_move refl))
  | inr e ↦ rw e stay
]

cancel_dag-Acts : (s : Scheduler) (d : Text) → Acts true s (after_cancel s d)
unfolding cancel_dag
cancel_dag-Acts s d = record {
  moves =
      Rewrites-moves s (after_cancel s d) (cancelled_in d) (cancel-Rewrites s d)
        (λ d' j r f. cancelled_in-Moves d d' j r);
  absent = Rewrites-absent s (after_cancel s d) (cancelled_in d) (cancel-Rewrites s d);
  children_same = λ d' p. ground (arith, lookup-adjust d d' cancel_dag s.dags);
  distinct =
      adjust-DistinctJobs d cancel_dag s.dags
        (λ dag h. map_values-Distinct cancelled_job dag.jobs h);
  config_same = refl;
}

pub cancel-Acts : (s : Scheduler) (d : Text) → Acts true s (cancel s d).1
unfolding cancel
cancel-Acts s d = elim (Option-cases (lookup d s.dags)) [
  | inl e ↦ rw (e, cancel) (Acts-refl s)
  | inr (dag, e) ↦ rw (e, cancel) (cancel_dag-Acts s d)
]
