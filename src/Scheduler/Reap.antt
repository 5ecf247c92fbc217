-- ===== src/Scheduler/Reap.antt =====
-- src/scheduler.rs: what `retry_or_dead_letter` and `reap` do to every job.
use mathlib.Core.Option
use cloud_job_orchestrator.Base.{
  ◌≡◌, refl, Bool, false, ◌&&◌, ◌||◌, Option, none, some, List, [], ◌∷◌, ◌++◌, if◌then◌else◌, arith,
  ap,
}
use cloud_job_orchestrator.Base.Int.{ℤ}
use cloud_job_orchestrator.Base.Text.{Text, eq_text, eq_text_iff}
use cloud_job_orchestrator.Base.Map.{Map, lookup, Distinct}
use cloud_job_orchestrator.Scheduler.State.{
  SchedulerConfig, JobRecord, DagRecord, Scheduler, find_job,
}
use cloud_job_orchestrator.Scheduler.Retry.{retried, retry_or_dead_letter}
use cloud_job_orchestrator.Scheduler.Claim.{is_expired, expired_jobs, expired, retry_all, reap}
use cloud_job_orchestrator.Scheduler.Jobs.{
  find_job-update_job, job_mut-cases, DistinctJobs, update_job-DistinctJobs,
}

-- Doing it twice is doing it once.
retried_twice :
    (c : SchedulerConfig) (j : Text) (now : ℤ) (r : JobRecord)
    → retried c j now (retried c j now r) ≡ retried c j now r
unfolding retried
retried_twice c j now r = ground arith

map-retried_twice :
    (c : SchedulerConfig) (j : Text) (now : ℤ) (o : Option JobRecord)
    → Option.map (retried c j now) (Option.map (retried c j now) o) ≡ Option.map (retried c j now) o
map-retried_twice c j now none = refl
map-retried_twice c j now (some r) = ap some (retried_twice c j now r)

pub retry_or_dead_letter-config :
    (s : Scheduler) (d j : Text) (now : ℤ) → (retry_or_dead_letter s d j now).1.config ≡ s.config
unfolding retry_or_dead_letter
retry_or_dead_letter-config s d j now = ground arith

-- `retry_or_dead_letter` rewrites the job that it is given and no other.
pub find_job-retry_or_dead_letter :
    (s : Scheduler) (d j d' j' : Text) (now : ℤ)
    → find_job d' j' (retry_or_dead_letter s d j now).1.dags ≡ (
        if eq_text d d' && eq_text j j'
        then Option.map (retried s.config j now) (find_job d' j' s.dags)
        else find_job d' j' s.dags)
unfolding retry_or_dead_letter
find_job-retry_or_dead_letter s d j d' j' now = ground (
  arith,
  job_mut-cases s d j,
  find_job-update_job d j d' j' (retried s.config j now) s.dags,
  eq_text_iff d d',
  eq_text_iff j j',
)

in_pairs : Text → Text → List (Text × Text) → Bool
in_pairs d j [] = false
in_pairs d j ((d', j') ∷ l) = (eq_text d' d && eq_text j' j) || in_pairs d j l

-- The loop rewrites the jobs that the list names.
find_job-retry_all :
    (now : ℤ) (s : Scheduler) (l : List (Text × Text)) (d j : Text)
    → find_job d j (retry_all now s l).dags ≡ (
        if in_pairs d j l
        then Option.map (retried s.config j now) (find_job d j s.dags)
        else find_job d j s.dags)
unfolding retry_all in_pairs
find_job-retry_all now s [] d j = refl
find_job-retry_all now s ((d', j') ∷ l) d j = ground (
  arith,
  find_job-retry_all now (retry_or_dead_letter s d' j' now).1 l d j,
  find_job-retry_or_dead_letter s d' j' d j now,
  retry_or_dead_letter-config s d' j' now,
  map-retried_twice s.config j now (find_job d j s.dags),
  eq_text_iff d' d,
  eq_text_iff j' j,
)

in_pairs-append :
    (d j : Text) (l k : List (Text × Text))
    → in_pairs d j (l ++ k) ≡ (in_pairs d j l || in_pairs d j k)
unfolding in_pairs
in_pairs-append d j [] k = refl
in_pairs-append d j ((d', j') ∷ l) k = ground (arith, in_pairs-append d j l k)

abbrev holds : (JobRecord → Bool) → Option JobRecord → Bool
holds p none = false
holds p (some r) = p r

in_pairs-expired_jobs :
    (now : ℤ) (d d' j : Text) (jobs : Map JobRecord)
    → Distinct jobs
    → in_pairs d j (expired_jobs now d' jobs)
      ≡ (eq_text d' d && holds (is_expired now) (lookup j jobs))
unfolding in_pairs expired_jobs lookup
in_pairs-expired_jobs now d d' j [] h = ground arith
in_pairs-expired_jobs now d d' j ((i, r) ∷ jobs) h =
    ground (arith, in_pairs-expired_jobs now d d' j jobs h.1, eq_text_iff i j)

-- The list names exactly the jobs whose lease has run out.
in_pairs-expired :
    (now : ℤ) (d j : Text) (dags : Map DagRecord)
    → DistinctJobs dags
    → in_pairs d j (expired now dags) ≡ holds (is_expired now) (find_job d j dags)
unfolding in_pairs expired lookup find_job
in_pairs-expired now d j [] h = refl
in_pairs-expired now d j ((i, dag) ∷ dags) h = ground (
  arith,
  in_pairs-append d j (expired_jobs now i dag.jobs) (expired now dags),
  in_pairs-expired_jobs now d i j dag.jobs h.1,
  in_pairs-expired now d j dags h.2,
  eq_text_iff i d,
)

-- What `reap` makes of a job.
abbrev pub reaped : SchedulerConfig → Text → ℤ → JobRecord → JobRecord
reaped c j now r = if is_expired now r then retried c j now r else r

pub find_job-reap :
    (s : Scheduler) (now : ℤ) (d j : Text)
    → DistinctJobs s.dags
    → find_job d j (reap s now).1.dags ≡ Option.map (reaped s.config j now) (find_job d j s.dags)
unfolding reap
find_job-reap s now d j h =
    ground
      (arith, find_job-retry_all now s (expired now s.dags) d j, in_pairs-expired now d j s.dags h)

pub retry_or_dead_letter-DistinctJobs :
    (s : Scheduler) (d j : Text) (now : ℤ)
    → DistinctJobs s.dags
    → DistinctJobs (retry_or_dead_letter s d j now).1.dags
unfolding retry_or_dead_letter
retry_or_dead_letter-DistinctJobs s d j now h =
    ground (arith, update_job-DistinctJobs d j (retried s.config j now) s.dags h)

retry_all-keeps :
    (now : ℤ) (s : Scheduler) (l : List (Text × Text))
    → DistinctJobs s.dags
    → DistinctJobs (retry_all now s l).dags × ((retry_all now s l).config ≡ s.config)
unfolding retry_all
retry_all-keeps now s [] h = (h, refl)
retry_all-keeps now s ((d, j) ∷ l) h = ground (
  arith,
  retry_all-keeps now (retry_or_dead_letter s d j now).1 l,
  retry_or_dead_letter-DistinctJobs s d j now h,
  retry_or_dead_letter-config s d j now,
)

pub reap-keeps :
    (s : Scheduler) (now : ℤ)
    → DistinctJobs s.dags
    → DistinctJobs (reap s now).1.dags × ((reap s now).1.config ≡ s.config)
unfolding reap
reap-keeps s now = retry_all-keeps now s (expired now s.dags)
