-- ===== src/Scheduler/Edges/Counts.antt =====
-- src/scheduler.rs: the counts that `submit` starts from.
use mathlib.Core.Option
use cloud_job_orchestrator.Base.{
  ℕ, suc, ◌+◌, ◌≡◌, refl, true, false, Option, some, List, [], ◌∷◌, arith, inl, inr, if◌then◌else◌,
  Option-cases,
}
use cloud_job_orchestrator.Base.Int.{ℤ}
use cloud_job_orchestrator.Base.Text.{Text, mem_text}
use cloud_job_orchestrator.Base.Map.{Map, lookup, adjust, lookup-adjust, insert, lookup-insert}
use cloud_job_orchestrator.Domain.{Dependency, DagSpec, JobSpec}
use cloud_job_orchestrator.Domain.Validate.Policy.{ids}
use cloud_job_orchestrator.Scheduler.State.{JobRecord, same_state}
use cloud_job_orchestrator.Scheduler.Submit.{
  initial_counts, count_edges, dependency_counts, initial_record, count_or_default,
}
use cloud_job_orchestrator.Scheduler.Admission.{find_spec, find_spec_of_mem, find_spec-some}
use cloud_job_orchestrator.Scheduler.Edges.{blocked, job_succeeded}

lookup-initial_counts :
    (c : Text) (m : Map ℕ) (jobs : List JobSpec)
    → lookup c (initial_counts m jobs) ≡ (if mem_text c (ids jobs) then some 0 else lookup c m)
unfolding initial_counts mem_text
lookup-initial_counts c m [] = refl
lookup-initial_counts c m (job ∷ jobs) =
    ground (arith, lookup-initial_counts c (insert job.id 0 m) jobs, lookup-insert job.id c 0 m)

-- With no parent done, each edge to the job blocks it.
lookup-count_edges :
    (c : Text) (m : Map ℕ) (edges : List Dependency)
    → lookup c (count_edges m edges)
      ≡ Option.map (λ n. blocked (λ p. false) c edges + n) (lookup c m)
unfolding count_edges blocked
lookup-count_edges c m [] = ground arith
lookup-count_edges c m (e ∷ edges) =
    ground (arith, lookup-count_edges c (adjust e.to suc m) edges, lookup-adjust e.to c suc m)

pub dependency_counts-blocked :
    (spec : DagSpec) (c : Text)
    → mem_text c (ids spec.jobs) ≡ true
    → count_or_default (lookup c (dependency_counts spec))
      ≡ blocked (λ p. false) c spec.dependencies
unfolding dependency_counts
dependency_counts-blocked spec c h = ground (
  arith,
  lookup-count_edges c (initial_counts [] spec.jobs) spec.dependencies,
  lookup-initial_counts c [] spec.jobs,
)

pub initial_record-waits :
    (spec : DagSpec) (now : ℤ) (c : Text) (r : JobRecord)
    → Option.map (initial_record (dependency_counts spec) now) (find_spec c spec.jobs) ≡ some r
    → r.remaining_dependencies ≡ blocked (λ p. false) c spec.dependencies
unfolding initial_record
initial_record-waits spec now c r h = elim (Option-cases (find_spec c spec.jobs)) [
  | inl e ↦ ground arith
  | inr (x, e) ↦
      let (_, same) = find_spec-some c spec.jobs x e in
      ground (arith, dependency_counts-blocked spec c, find_spec_of_mem c spec.jobs)
]

pub initial_record_not_succeeded :
    (counts : Map ℕ) (now : ℤ) (o : Option JobSpec)
    → job_succeeded (Option.map (initial_record counts now) o) ≡ false
unfolding initial_record same_state
initial_record_not_succeeded counts now o = ground arith
