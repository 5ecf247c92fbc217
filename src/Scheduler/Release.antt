-- ===== src/Scheduler/Release.antt =====
-- src/scheduler.rs: what the loop of `complete` over the dependents does to every job.
use mathlib.Core.Option
use cloud_job_orchestrator.Base.{
  has_value, ℕ, suc, ◌-◌, ◌≡◌, refl, true, ◌&&◌, Option, none, some, List, [], ◌∷◌, if◌then◌else◌,
  arith, ok, inl, inr, ap, All, leb, ◌∙◌,
}
use cloud_job_orchestrator.Base.Int.{ℤ}
use cloud_job_orchestrator.Base.Text.{Text, eq_text, count_text}
use cloud_job_orchestrator.Base.Map.{Map, lookup, adjust, lookup-adjust}
use cloud_job_orchestrator.Domain.{pending, ready}
use cloud_job_orchestrator.Scheduler.State.{
  JobRecord, DagRecord, Scheduler, same_state, find_job, update_job,
}
use cloud_job_orchestrator.Scheduler.Lease.{released, release_one, release_all, dependents_of}
use cloud_job_orchestrator.Scheduler.Jobs.{
  find_job-update_job, job_mut-cases, DistinctJobs, update_job-DistinctJobs,
}

-- The children that a DAG lists for a job.
abbrev pub children : Text → Text → Map DagRecord → List Text
children d p dags = dependents_of p (lookup d dags)

pub children-update_job :
    (d j d' p : Text) (f : JobRecord → JobRecord) (dags : Map DagRecord)
    → children d' p (update_job d j f dags) ≡ children d' p dags
unfolding update_job
children-update_job d j d' p f dags =
    ground (arith, lookup-adjust d d' (λ dag. record dag { jobs = adjust j f dag.jobs }) dags)

-- What `n` parents that succeed make of a job.
abbrev pub freed : ℤ → ℕ → JobRecord → JobRecord
freed now n r =
    if leb 1 n && (leb r.remaining_dependencies n && same_state r.state pending)
    then record r {
      remaining_dependencies = r.remaining_dependencies - n;
      state = ready;
      available_at_ms = now;
    }
    else record r { remaining_dependencies = r.remaining_dependencies - n }

freed-released :
    (now : ℤ) (n : ℕ) (r : JobRecord) → freed now n (released now r) ≡ freed now (suc n) r
unfolding released same_state
freed-released now n r = ground arith

freed-zero : (now : ℤ) (r : JobRecord) → freed now 0 r ≡ r
freed-zero now r = ground arith

map-freed-zero : (now : ℤ) (o : Option JobRecord) → Option.map (freed now 0) o ≡ o
map-freed-zero now none = refl
map-freed-zero now (some r) = ap some (freed-zero now r)

map-freed-released :
    (now : ℤ) (n : ℕ) (o : Option JobRecord)
    → Option.map (freed now n) (Option.map (released now) o) ≡ Option.map (freed now (suc n)) o
map-freed-released now n none = refl
map-freed-released now n (some r) = ap some (freed-released now n r)

find_job-release_one :
    (s : Scheduler) (d j d' j' : Text) (now : ℤ) (r : JobRecord)
    → find_job d' j' (release_one s d j now r).dags ≡ (
        if eq_text d d' && eq_text j j'
        then Option.map (released now) (find_job d' j' s.dags)
        else find_job d' j' s.dags)
unfolding release_one
find_job-release_one s d j d' j' now r = find_job-update_job d j d' j' (released now) s.dags

has_value-release_one :
    (s : Scheduler) (d j d' j' : Text) (now : ℤ) (r : JobRecord)
    → has_value (find_job d' j' (release_one s d j now r).dags) ≡ has_value (find_job d' j' s.dags)
has_value-release_one s d j d' j' now r = ground (arith, find_job-release_one s d j d' j' now r)

abbrev pub AllPresent : Text → Map DagRecord → List Text → Type 0
AllPresent d dags js = All (λ j. has_value (find_job d j dags) ≡ true) js

AllPresent-release_one :
    (s : Scheduler) (d j : Text) (now : ℤ) (r : JobRecord) (js : List Text)
    → AllPresent d s.dags js
    → AllPresent d (release_one s d j now r).dags js
AllPresent-release_one s d j now r [] h = tt
AllPresent-release_one s d j now r (x ∷ js) h =
    (has_value-release_one s d j d x now r ∙ h.0, AllPresent-release_one s d j now r js h.1)

-- The loop over the children frees each as often as it is listed, and touches no other job.
pub find_job-release_all :
    (now : ℤ) (d : Text) (s : Scheduler) (js : List Text) (d' j' : Text)
    → AllPresent d s.dags js
    → find_job d' j' (release_all now d s js).1.dags ≡ (
        if eq_text d d'
        then Option.map (freed now (count_text j' js)) (find_job d' j' s.dags)
        else find_job d' j' s.dags)
unfolding release_all count_text
find_job-release_all now d s [] d' j' h = ground (arith, map-freed-zero now (find_job d' j' s.dags))
find_job-release_all now d s (x ∷ js) d' j' h = elim (job_mut-cases s d x) [
  | inl (r, e, f) ↦
      rw (e, release_all)
        (ground (
          arith,
          find_job-release_all now d (release_one s d x now r) js d' j'
              (AllPresent-release_one s d x now r js h.1),
          find_job-release_one s d x d' j' now r,
          map-freed-released now (count_text j' js) (find_job d' j' s.dags),
        ))
  | inr (e, _, f) ↦ cc (h.0)
]

-- It does not fail.
pub release_all-ok :
    (now : ℤ) (d : Text) (s : Scheduler) (js : List Text)
    → AllPresent d s.dags js
    → (release_all now d s js).0 ≡ ok tt
unfolding release_all
release_all-ok now d s [] h = refl
release_all-ok now d s (x ∷ js) h = elim (job_mut-cases s d x) [
  | inl (r, e, f) ↦
      rw (e, release_all)
        (release_all-ok now d (release_one s d x now r) js
          (AllPresent-release_one s d x now r js h.1))
  | inr (e, _, f) ↦ cc (h.0)
]

pub release_one-keeps :
    (s : Scheduler) (d j : Text) (now : ℤ) (r : JobRecord)
    → DistinctJobs s.dags
    → DistinctJobs (release_one s d j now r).dags
unfolding release_one
release_one-keeps s d j now r = update_job-DistinctJobs d j (released now) s.dags

children-release_one :
    (s : Scheduler) (d j d' p : Text) (now : ℤ) (r : JobRecord)
    → children d' p (release_one s d j now r).dags ≡ children d' p s.dags
unfolding release_one
children-release_one s d j d' p now r = children-update_job d j d' p (released now) s.dags

pub release_all-keeps :
    (now : ℤ) (d : Text) (s : Scheduler) (js : List Text)
    → DistinctJobs s.dags
    → DistinctJobs (release_all now d s js).1.dags
unfolding release_all
release_all-keeps now d s [] h = h
release_all-keeps now d s (x ∷ js) h = elim (job_mut-cases s d x) [
  | inl (r, e, f) ↦
      rw (e, release_all)
        (release_all-keeps now d (release_one s d x now r) js (release_one-keeps s d x now r h))
  | inr (e, g, f) ↦ rw (g, release_all) h
]

pub children-release_all :
    (now : ℤ) (d : Text) (s : Scheduler) (js : List Text) (d' p : Text)
    → children d' p (release_all now d s js).1.dags ≡ children d' p s.dags
unfolding release_all
children-release_all now d s [] d' p = refl
children-release_all now d s (x ∷ js) d' p = elim (job_mut-cases s d x) [
  | inl (r, e, f) ↦
      rw (e, release_all)
        (children-release_all now d (release_one s d x now r) js d' p
          ∙ children-release_one s d x d' p now r)
  | inr (e, g, f) ↦ rw (g, release_all) refl
]

pub release_all-config :
    (now : ℤ) (d : Text) (s : Scheduler) (js : List Text)
    → (release_all now d s js).1.config ≡ s.config
unfolding release_all release_one
release_all-config now d s [] = refl
release_all-config now d s (x ∷ js) = elim (job_mut-cases s d x) [
  | inl (r, e, f) ↦ rw (e, release_all) (release_all-config now d (release_one s d x now r) js)
  | inr (e, g, f) ↦ rw (g, release_all) refl
]
