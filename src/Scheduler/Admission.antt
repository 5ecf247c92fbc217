-- ===== src/Scheduler/Admission.antt =====
-- src/scheduler.rs: what `submit` checks, and the records that it makes of the jobs of a submission.
pub mod Edges
use mathlib.Core.Option
use cloud_job_orchestrator.Base.{
  ℕ, ◌+◌, ◌≤◌, ◌<◌, ◌≡◌, refl, Bool, true, false, ◌&&◌, ◌||◌, Option, none, some, List, [], ◌∷◌,
  arith, ◌⊎◌, inl, inr, ◌∙◌, ap, if◌then◌else◌, has_value, All, Bool-cases, Option-cases, Result,
  ok, err, Result-cases, length, ◌==◌, sym, ◌++◌, All-append, ltb, leb,
}
use cloud_job_orchestrator.Base.Int.{ℤ}
use cloud_job_orchestrator.Base.Order.{In, All-In, TotalPreorder, text_order, sort, insert_sorted}
use cloud_job_orchestrator.Base.Text.{Text, eq_text, eq_text_iff, mem_text, count_text}
use cloud_job_orchestrator.Base.Map.{
  Map, lookup, insert, contains_key, lookup-insert, Distinct, insert-Distinct, map_values,
  lookup-map_values,
}
use cloud_job_orchestrator.Domain.{JobSpec, Dependency, DagSpec, JobState, ready, pending}
use cloud_job_orchestrator.Domain.Validate.{validate, push_edge}
use cloud_job_orchestrator.Domain.Validate.Policy.{
  ids, IsAdmissible, IsWellFormed, Validated, validate→Validated, JoinsJobs,
}
use cloud_job_orchestrator.Scheduler.State.{
  JobRecord, DagRecord, ReadyKey, Scheduler, SchedulerError, find_job, push_ready, validation,
  dag_already_exists, overloaded,
}
use cloud_job_orchestrator.Scheduler.Submit.{
  submit, submit_checks, admit, admit_records, initial_record, dependency_counts, sorted_dependents,
  collect_dependents, count_or_default,
}
use cloud_job_orchestrator.Scheduler.Jobs.{DistinctJobs, insert-DistinctJobs}
use cloud_job_orchestrator.Scheduler.Lease.{list_or_empty, dependents_of}
use cloud_job_orchestrator.Scheduler.Release.{children, AllPresent}
use cloud_job_orchestrator.Scheduler.Machine.{JobInv}

-- A submission that is accepted.
pub record Accepted (s : Scheduler) (spec : DagSpec) : Type 0 where
  pub order : List Text
  pub valid : validate spec ≡ ok order
  pub is_new : lookup spec.id s.dags ≡ none
  pub has_room : length s.dags < s.config.max_dags

submit_checks→Accepted :
    (s : Scheduler) (spec : DagSpec) → submit_checks s spec ≡ ok tt → Accepted s spec
unfolding submit_checks contains_key
submit_checks→Accepted s spec h = elim (Result-cases (validate spec)) [
  | inl (order, v) ↦ record {
    order = order;
    valid = v;
    is_new = ground arith;
    has_room = ground arith;
  }
  | inr (e, v) ↦ cc (rw (v, submit_checks) at h)
]

-- Either nothing changes, or the submission is accepted and admitted.
pub submit-cases :
    (s : Scheduler) (spec : DagSpec) (now : ℤ)
    → ((e : SchedulerError) × (submit s spec now ≡ (err e, s)))
      ⊎ (Accepted s spec × (submit s spec now ≡ (ok tt, admit s spec now)))
unfolding submit
submit-cases s spec now = elim (Result-cases (submit_checks s spec)) [
  | inl (tt, h) ↦ inr (submit_checks→Accepted s spec h, rw (h, submit) refl)
  | inr (e, h) ↦ inl (e, rw (h, submit) refl)
]

-- The specification under an identifier; the last one counts.
pub find_spec : Text → List JobSpec → Option JobSpec
find_spec j [] = none
find_spec j (x ∷ xs) = elim (find_spec j xs) [
  | some found ↦ some found
  | none ↦ if eq_text x.id j then some x else none
]

pub find_spec-some :
    (j : Text) (xs : List JobSpec) (x : JobSpec) → find_spec j xs ≡ some x → In x xs × (x.id ≡ j)
unfolding find_spec
find_spec-some j [] x h = cc
find_spec-some j (y ∷ xs) x h = elim (Option-cases (find_spec j xs)) [
  | inl e ↦
      let k : (if eq_text y.id j then some y else none) ≡ some x = rw (e, find_spec) at h in
      (inl (ground arith), ground (arith, eq_text_iff y.id j))
  | inr (z, e) ↦
      let (i, same) = find_spec-some j xs z e in
      let k : some z ≡ some x = rw (e, find_spec) at h in (ground arith, ground arith)
]

pub find_spec_of_mem :
    (j : Text) (xs : List JobSpec) → mem_text j (ids xs) ≡ has_value (find_spec j xs)
unfolding find_spec mem_text
find_spec_of_mem j [] = refl
find_spec_of_mem j (x ∷ xs) = ground (arith, find_spec_of_mem j xs)

abbrev or_else : Option JobRecord → Option JobRecord → Option JobRecord
or_else none o = o
or_else (some r) o = some r

abbrev pub next_heap : Map ℕ → Text → ℤ → List ReadyKey → JobSpec → List ReadyKey
next_heap counts d now heap x =
    if count_or_default (lookup x.id counts) == 0 then push_ready d x now heap else heap

lookup-admit_records :
    (counts : Map ℕ) (d : Text) (now : ℤ) (jobs : Map JobRecord) (heap : List ReadyKey)
    (xs : List JobSpec) (j : Text)
    → lookup j (admit_records counts d now jobs heap xs).0
      ≡ or_else (Option.map (initial_record counts now) (find_spec j xs)) (lookup j jobs)
unfolding admit_records find_spec
lookup-admit_records counts d now jobs heap [] j = refl
lookup-admit_records counts d now jobs heap (x ∷ xs) j = ground (
  arith,
  lookup-admit_records counts d now (insert x.id (initial_record counts now x) jobs)
      (next_heap counts d now heap x) xs j,
  lookup-insert x.id j (initial_record counts now x) jobs,
)

admit_records-Distinct :
    (counts : Map ℕ) (d : Text) (now : ℤ) (jobs : Map JobRecord) (heap : List ReadyKey)
    (xs : List JobSpec)
    → Distinct jobs
    → Distinct (admit_records counts d now jobs heap xs).0
unfolding admit_records
admit_records-Distinct counts d now jobs heap [] u = u
admit_records-Distinct counts d now jobs heap (x ∷ xs) u =
    admit_records-Distinct counts d now (insert x.id (initial_record counts now x) jobs)
      (next_heap counts d now heap x) xs (insert-Distinct x.id (initial_record counts now x) jobs u)

-- The jobs that a submission adds, and nothing else about the jobs.
pub find_job-admit :
    (s : Scheduler) (spec : DagSpec) (now : ℤ) (d j : Text)
    → find_job d j (admit s spec now).dags ≡ (
        if eq_text spec.id d
        then Option.map (initial_record (dependency_counts spec) now) (find_spec j spec.jobs)
        else find_job d j s.dags)
unfolding admit find_job lookup
find_job-admit s spec now d j = ground (
  arith,
  lookup-insert spec.id d
      (record {
        jobs = (admit_records (dependency_counts spec) spec.id now [] s.ready spec.jobs).0;
        dependents = sorted_dependents spec;
      })
      s.dags,
  lookup-admit_records (dependency_counts spec) spec.id now [] s.ready spec.jobs j,
)

pub children-admit :
    (s : Scheduler) (spec : DagSpec) (now : ℤ) (d p : Text)
    → children d p (admit s spec now).dags ≡ (
        if eq_text spec.id d
        then list_or_empty (lookup p (sorted_dependents spec))
        else children d p s.dags)
unfolding admit
children-admit s spec now d p = ground (
  arith,
  lookup-insert spec.id d
      (record {
        jobs = (admit_records (dependency_counts spec) spec.id now [] s.ready spec.jobs).0;
        dependents = sorted_dependents spec;
      })
      s.dags,
)

pub admit-DistinctJobs :
    (s : Scheduler) (spec : DagSpec) (now : ℤ)
    → DistinctJobs s.dags
    → DistinctJobs (admit s spec now).dags
unfolding admit
admit-DistinctJobs s spec now u =
    insert-DistinctJobs spec.id _ s.dags
      (admit_records-Distinct (dependency_counts spec) spec.id now [] s.ready spec.jobs tt) u

initial_record-JobInv :
    (counts : Map ℕ) (now : ℤ) (x : JobSpec) → IsAdmissible x → JobInv (initial_record counts now x)
unfolding initial_record
initial_record-JobInv counts now x a =
    let h = a.attempts_pos in let k = a.attempts_le in ground arith

-- The jobs of an accepted submission satisfy the invariant of a job.
pub find_spec-JobInv :
    (spec : DagSpec) (counts : Map ℕ) (now : ℤ) (j : Text) (r : JobRecord)
    → IsWellFormed spec
    → Option.map (initial_record counts now) (find_spec j spec.jobs) ≡ some r
    → JobInv r × (r.spec.id ≡ j)
unfolding initial_record
find_spec-JobInv spec counts now j r w h = elim (Option-cases (find_spec j spec.jobs)) [
  | inl e ↦ ground arith
  | inr (x, e) ↦
      let (i, same) = find_spec-some j spec.jobs x e in
      let made : initial_record counts now x ≡ r = ground arith in
      (
        rw (sym made)
            (initial_record-JobInv counts now x (All-In IsAdmissible x spec.jobs w.admissible i)),
        rw (sym made) same,
      )
]
