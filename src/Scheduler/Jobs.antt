-- ===== src/Scheduler/Jobs.antt =====
-- Looking a job up after each way in which the operations of the scheduler write a job.
use mathlib.Core.Option
use cloud_job_orchestrator.Base.{
  ◌≡◌, refl, true, ◌&&◌, none, some, [], ◌∷◌, if◌then◌else◌, arith, Result, ok, err, ◌⊎◌, inl, inr,
  Option-cases,
}
use cloud_job_orchestrator.Base.Text.{Text, eq_text, eq_text_iff}
use cloud_job_orchestrator.Base.Map.{
  Map, lookup, insert, adjust, lookup-insert, lookup-adjust, Distinct, adjust-Distinct,
}
use cloud_job_orchestrator.Domain.{JobState}
use cloud_job_orchestrator.Scheduler.State.{
  JobRecord, DagRecord, Scheduler, SchedulerError, dag_not_found, job_not_found, same_state,
  find_job, job_mut, update_job,
}

pub same_state→eq : (a b : JobState) → same_state a b ≡ true → a ≡ b
unfolding same_state
same_state→eq a b h = ground arith

pub same_state_refl : (a : JobState) → same_state a a ≡ true
unfolding same_state
same_state_refl a = ground arith

pub find_job-update_job :
    (d j d' j' : Text) (f : JobRecord → JobRecord) (dags : Map DagRecord)
    → find_job d' j' (update_job d j f dags) ≡ (
        if eq_text d d' && eq_text j j'
        then Option.map f (find_job d' j' dags)
        else find_job d' j' dags)
unfolding find_job update_job
find_job-update_job d j d' j' f dags = elim (Option-cases (lookup d' dags)) [
  | inl e ↦
      ground (arith, lookup-adjust d d' (λ dag. record dag { jobs = adjust j f dag.jobs }) dags)
  | inr (dag, e) ↦ ground (
    arith,
    lookup-adjust d d' (λ dag. record dag { jobs = adjust j f dag.jobs }) dags,
    lookup-adjust j j' f dag.jobs,
  )
]

-- `job_mut` succeeds exactly on the jobs that are there.
pub job_mut-ok :
    (s : Scheduler) (d j : Text) (r : JobRecord)
    → job_mut s d j ≡ ok r
    → find_job d j s.dags ≡ some r
unfolding job_mut find_job
job_mut-ok s d j r h = ground arith

pub job_mut_of_find_job :
    (s : Scheduler) (d j : Text) (r : JobRecord)
    → find_job d j s.dags ≡ some r
    → job_mut s d j ≡ ok r
unfolding job_mut find_job
job_mut_of_find_job s d j r h = ground arith

pub job_mut_of_none :
    (s : Scheduler) (d j : Text)
    → find_job d j s.dags ≡ none
    → (job_mut s d j ≡ err dag_not_found) ⊎ (job_mut s d j ≡ err job_not_found)
unfolding job_mut find_job
job_mut_of_none s d j h = ground arith

-- No DAG and no job of a DAG stands twice in its map.
abbrev pub DistinctJobs : Map DagRecord → Type 0
DistinctJobs [] = Unit
DistinctJobs ((d, dag) ∷ dags) = (lookup d dags ≡ none) × Distinct dag.jobs × DistinctJobs dags

pub adjust-DistinctJobs :
    (d : Text) (f : DagRecord → DagRecord) (dags : Map DagRecord)
    → ((dag : DagRecord) → Distinct dag.jobs → Distinct (f dag).jobs)
    → DistinctJobs dags
    → DistinctJobs (adjust d f dags)
unfolding adjust
adjust-DistinctJobs d f [] keep h = tt
adjust-DistinctJobs d f ((i, dag) ∷ dags) keep h = ground (
  arith,
  adjust-DistinctJobs d f dags keep,
  keep dag,
  lookup-adjust d i f dags,
  eq_text_iff d i,
  eq_text_iff i d,
)

pub update_job-DistinctJobs :
    (d j : Text) (f : JobRecord → JobRecord) (dags : Map DagRecord)
    → DistinctJobs dags
    → DistinctJobs (update_job d j f dags)
unfolding update_job
update_job-DistinctJobs d j f dags h =
    adjust-DistinctJobs d (λ dag. record dag { jobs = adjust j f dag.jobs }) dags
      (λ dag k. adjust-Distinct j f dag.jobs k) h

pub insert-DistinctJobs :
    (d : Text) (dag : DagRecord) (dags : Map DagRecord)
    → Distinct dag.jobs
    → DistinctJobs dags
    → DistinctJobs (insert d dag dags)
unfolding insert lookup
insert-DistinctJobs d dag [] k h = (refl, k, tt)
insert-DistinctJobs d dag ((i, old) ∷ dags) k h = ground (
  arith,
  insert-DistinctJobs d dag dags k,
  lookup-insert d i dag dags,
  eq_text_iff d i,
  eq_text_iff i d,
)

pub job_mut-err :
    (s : Scheduler) (d j : Text) (e : SchedulerError)
    → job_mut s d j ≡ err e
    → find_job d j s.dags ≡ none
unfolding job_mut find_job
job_mut-err s d j e h = ground arith

pub job_mut-cases :
    (s : Scheduler) (d j : Text)
    → ((r : JobRecord) × (job_mut s d j ≡ ok r) × (find_job d j s.dags ≡ some r))
      ⊎ ((e : SchedulerError) × (job_mut s d j ≡ err e) × (find_job d j s.dags ≡ none))
job_mut-cases s d j = go (job_mut s d j) refl
  where
    go :
        (m : Result SchedulerError JobRecord)
        → job_mut s d j ≡ m
        → ((r : JobRecord) × (job_mut s d j ≡ ok r) × (find_job d j s.dags ≡ some r))
          ⊎ ((e : SchedulerError) × (job_mut s d j ≡ err e) × (find_job d j s.dags ≡ none))
    go (ok r) h = inl (r, h, job_mut-ok s d j r h)
    go (err e) h = inr (e, h, job_mut-err s d j e h)
