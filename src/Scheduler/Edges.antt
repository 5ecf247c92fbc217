-- ===== src/Scheduler/Edges.antt =====
-- src/scheduler.rs: `remaining_dependencies` and the edges from parents that have not succeeded.
pub mod Counts
pub mod Calm
pub mod Finish
pub mod Steps
use mathlib.Core.Option
use cloud_job_orchestrator.Base.{
  ℕ, ◌+◌, ◌-◌, ◌≤◌, ◌<◌, ◌≡◌, refl, Bool, true, false, ◌&&◌, ◌||◌, not, Option, none, some, List,
  [], ◌∷◌, arith, ◌⊎◌, inl, inr, ◌∙◌, if◌then◌else◌, Option-cases, Bool-cases,
}
use cloud_job_orchestrator.Base.Text.{Text, eq_text, eq_text_iff, count_text}
use cloud_job_orchestrator.Base.Map.{Map}
use cloud_job_orchestrator.Domain.{Dependency, JobState, succeeded}
use cloud_job_orchestrator.Scheduler.State.{JobRecord, DagRecord, Scheduler, same_state, find_job}
use cloud_job_orchestrator.Scheduler.Release.{children}
use cloud_job_orchestrator.Scheduler.Admission.Edges.{count_edge}

abbrev pub job_succeeded : Option JobRecord → Bool
job_succeeded none = false
job_succeeded (some r) = same_state r.state succeeded

-- Has this job of the DAG succeeded?
abbrev pub has_succeeded : Map DagRecord → Text → Text → Bool
has_succeeded dags d p = job_succeeded (find_job d p dags)

-- The edges to a job from parents that are not done.
unfoldable pub blocked : (Text → Bool) → Text → List Dependency → ℕ
blocked done c [] = 0
blocked done c (e ∷ edges) =
    (if eq_text e.to c && not (done e.from) then 1 else 0) + blocked done c edges

pub blocked_ext :
    (done done' : Text → Bool) (c : Text) (edges : List Dependency)
    → ((p : Text) → done' p ≡ done p)
    → blocked done' c edges ≡ blocked done c edges
unfolding blocked
blocked_ext done done' c [] h = refl
blocked_ext done done' c (e ∷ edges) h = ground (arith, blocked_ext done done' c edges h, h e.from)

-- One parent more is done.
pub blocked_finish :
    (done done' : Text → Bool) (j c : Text) (edges : List Dependency)
    → ((p : Text) → done' p ≡ (eq_text j p || done p))
    → done j ≡ false
    → blocked done' c edges + count_edge j c edges ≡ blocked done c edges
unfolding blocked count_edge
blocked_finish done done' j c [] h n = ground arith
blocked_finish done done' j c (e ∷ edges) h n = ground (
  arith,
  blocked_finish done done' j c edges h n,
  h e.from,
  eq_text_iff j e.from,
  eq_text_iff e.from j,
)

-- No edge to the job comes from a parent that is not done.
pub blocked_zero :
    (done : Text → Bool) (p c : Text) (edges : List Dependency)
    → blocked done c edges ≡ 0
    → 1 ≤ count_edge p c edges
    → done p ≡ true
unfolding blocked count_edge
blocked_zero done p c [] h n = ground arith
blocked_zero done p c (e ∷ edges) h n = elim (Bool-cases (eq_text e.from p && eq_text e.to c)) [
  | inl hit ↦ ground (arith, eq_text_iff e.from p)
  | inr miss ↦ blocked_zero done p c edges (ground arith) (ground arith)
]

-- The scheduler stores these edges of the DAG, and counts them.
pub record EdgeInv (s : Scheduler) (d : Text) (edges : List Dependency) : Type 0 where
  pub stored : (p c : Text) → count_text c (children d p s.dags) ≡ count_edge p c edges
  pub waits :
      (c : Text) (r : JobRecord)
      → find_job d c s.dags ≡ some r
      → r.remaining_dependencies ≡ blocked (has_succeeded s.dags d) c edges
