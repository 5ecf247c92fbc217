-- ===== src/Scheduler/Run.antt =====
-- src/scheduler.rs: histories of calls, and the invariant of the scheduler.
pub mod Lifecycle
use cloud_job_orchestrator.Base.{
  Bool, ℕ, ◌≤◌, ◌<◌, ◌≡◌, refl, true, false, none, some, List, [], ◌∷◌, arith, ◌⊎◌, inl, inr, ◌∙◌,
  ap, if◌then◌else◌, has_value, All, All-map, Bool-cases, Option-cases, sym,
}
use cloud_job_orchestrator.Base.Int.{ℤ}
use cloud_job_orchestrator.Base.Text.{Text, eq_text, eq_text_iff}
use cloud_job_orchestrator.Base.Map.{lookup}
use cloud_job_orchestrator.Domain.{DagSpec}
use cloud_job_orchestrator.Domain.Validate.Policy.{IsWellFormed, validate→Validated}
use cloud_job_orchestrator.Scheduler.State.{SchedulerConfig, JobRecord, Scheduler, find_job, new}
use cloud_job_orchestrator.Scheduler.Retry.{fail}
use cloud_job_orchestrator.Scheduler.Submit.{submit, admit, dependency_counts}
use cloud_job_orchestrator.Scheduler.Claim.{reap, claim}
use cloud_job_orchestrator.Scheduler.Lease.{heartbeat, complete, cancel}
use cloud_job_orchestrator.Scheduler.Jobs.{DistinctJobs}
use cloud_job_orchestrator.Scheduler.Release.{children, AllPresent}
use cloud_job_orchestrator.Scheduler.Machine.{JobInv, Moves, stay, Moves-JobInv}
use cloud_job_orchestrator.Scheduler.Machine.Evolution.{Moves-Evolves}
use cloud_job_orchestrator.Scheduler.Acts.{Acts, Acts-any}
use cloud_job_orchestrator.Scheduler.Acts.Cancel.{cancel-Acts}
use cloud_job_orchestrator.Scheduler.Acts.Leases.{heartbeat-Acts, fail-Acts, complete-Acts}
use cloud_job_orchestrator.Scheduler.Acts.Claims.{reap-Acts, claim-Acts}
use cloud_job_orchestrator.Scheduler.Admission.{
  Accepted, submit-cases, find_job-admit, children-admit, admit-DistinctJobs, find_spec-JobInv,
}
use cloud_job_orchestrator.Scheduler.Admission.Edges.{admit-AllPresent}

-- A call of one of the methods that change the scheduler.
pub data Call : Type 0 where
  submits : DagSpec → (now : ℤ) → Call
  claims : (owner : Text) (now lease_ms : ℤ) → Call
  heartbeats : (d j owner token : Text) (now lease_ms : ℤ) → Call
  completes : (d j owner token result : Text) (now : ℤ) → Call
  fails : (d j owner token : Text) (now : ℤ) → Call
  reaps : (now : ℤ) → Call
  cancels : (d : Text) → Call

unfoldable pub step : Scheduler → Call → Scheduler
step s (submits spec now) = (submit s spec now).1
step s (claims owner now lease_ms) = (claim s owner now lease_ms).1
step s (heartbeats d j owner token now lease_ms) = (heartbeat s d j owner token now lease_ms).1
step s (completes d j owner token result now) = (complete s d j owner token result now).1
step s (fails d j owner token now) = (fail s d j owner token now).1
step s (reaps now) = (reap s now).1
step s (cancels d) = (cancel s d).1

unfoldable pub run : Scheduler → List Call → Scheduler
run s [] = s
run s (c ∷ cs) = run (step s c) cs

-- Every job satisfies its invariant and is stored under its identifier; the maps have distinct keys;
-- every dependent that a DAG lists is a job of it.
pub record Inv (s : Scheduler) : Type 0 where
  pub distinct : DistinctJobs s.dags
  pub jobs :
      (d j : Text) (r : JobRecord) → find_job d j s.dags ≡ some r → JobInv r × (r.spec.id ≡ j)
  pub linked : (d p : Text) → AllPresent d s.dags (children d p s.dags)

pub new-Inv : (c : SchedulerConfig) → Inv (new c)
unfolding new find_job lookup
new-Inv c = record { distinct = tt; jobs = λ d j r h. cc; linked = λ d p. tt }

pub Acts-backwards :
    {calm : Bool} (s s' : Scheduler)
    → Acts calm s s'
    → (d j : Text) (r' : JobRecord) → find_job d j s'.dags ≡ some r'
    → (r : JobRecord) × (find_job d j s.dags ≡ some r) × Moves calm r r'
Acts-backwards s s' a d j r' h = elim (Option-cases (find_job d j s.dags)) [
  | inl e ↦ let gone = a.absent d j e in cc
  | inr (r, e) ↦
      let (r'', f, m) = a.moves d j r e in
      let same : r'' ≡ r' = ground arith in (r, e, rw same at m)
]

Acts-present :
    {calm : Bool} (s s' : Scheduler)
    → Acts calm s s'
    → (d j : Text) → has_value (find_job d j s.dags) ≡ true
    → has_value (find_job d j s'.dags) ≡ true
Acts-present s s' a d j h = elim (Option-cases (find_job d j s.dags)) [
  | inl e ↦ ground arith
  | inr (r, e) ↦ let (r', f, m) = a.moves d j r e in ground arith
]

Acts-Inv : {calm : Bool} (s s' : Scheduler) → Acts calm s s' → Inv s → Inv s'
Acts-Inv s s' a v = record {
  distinct = a.distinct v.distinct;
  jobs = λ d j r' h.
      let (r, f, m) = Acts-backwards s s' a d j r' h in
      let (inv, id) = v.jobs d j r f in
      (Moves-JobInv m inv, ap (λ x. x.id) (Moves-Evolves m inv).same_spec ∙ id);
  linked = λ d p.
      rw (a.children_same d p)
        (All-map (λ j. Acts-present s s' a d j) (children d p s.dags) (v.linked d p));
}

admit-Inv :
    (s : Scheduler) (spec : DagSpec) (now : ℤ) → Accepted s spec → Inv s → Inv (admit s spec now)
admit-Inv s spec now a v = record {
  distinct = admit-DistinctJobs s spec now v.distinct;
  jobs = λ d j r h. elim (Bool-cases (eq_text spec.id d)) [
    | inl e ↦
        find_spec-JobInv spec (dependency_counts spec) now j r well_formed
          (ground (arith, find_job-admit s spec now d j))
    | inr e ↦ v.jobs d j r (ground (arith, find_job-admit s spec now d j))
  ];
  linked = λ d p. elim (Bool-cases (eq_text spec.id d)) [
    | inl e ↦ rw (← (eq_text_iff spec.id d).0 e) (admit-AllPresent s spec now p well_formed)
    | inr e ↦
        rw (children-admit s spec now d p, e)
          (All-map (λ j h. ground (arith, find_job-admit s spec now d j)) (children d p s.dags)
            (v.linked d p))
  ];
}
  where
    well_formed : IsWellFormed spec
    well_formed = (validate→Validated spec a.order a.valid).well_formed

submit-Inv : (s : Scheduler) (spec : DagSpec) (now : ℤ) → Inv s → Inv (submit s spec now).1
submit-Inv s spec now v = elim (submit-cases s spec now) [
  | inl (e, h) ↦ rw h v
  | inr (a, h) ↦ rw h (admit-Inv s spec now a v)
]

-- Every call keeps the invariant of the scheduler, whether it succeeds or fails: distinct identifiers,
-- the invariant of each job in its state, and dependents that are jobs of their DAG.
pub step-Inv : (s : Scheduler) (c : Call) → Inv s → Inv (step s c)
unfolding step
step-Inv s (submits spec now) v = submit-Inv s spec now v
step-Inv s (claims owner now lease_ms) v =
    Acts-Inv s _ (claim-Acts s owner now lease_ms v.distinct) v
step-Inv s (heartbeats d j owner token now lease_ms) v =
    Acts-Inv s _ (heartbeat-Acts s d j owner token now lease_ms) v
step-Inv s (completes d j owner token result now) v =
    Acts-Inv s _ (complete-Acts s d j owner token result now (v.linked d j)) v
step-Inv s (fails d j owner token now) v = Acts-Inv s _ (fail-Acts s d j owner token now) v
step-Inv s (reaps now) v = Acts-Inv s _ (reap-Acts s now v.distinct) v
step-Inv s (cancels d) v = Acts-Inv s _ (cancel-Acts s d) v

pub run-Inv : (s : Scheduler) (cs : List Call) → Inv s → Inv (run s cs)
unfolding run
run-Inv s [] v = v
run-Inv s (c ∷ cs) v = run-Inv (step s c) cs (step-Inv s c v)

abbrev pub MovesIn : Scheduler → Scheduler → Type 0
MovesIn s s' =
    (d j : Text) (r : JobRecord)
    → find_job d j s.dags ≡ some r
    → (r' : JobRecord) × (find_job d j s'.dags ≡ some r') × Moves false r r'

submit-moves : (s : Scheduler) (spec : DagSpec) (now : ℤ) → MovesIn s (submit s spec now).1
unfolding find_job
submit-moves s spec now d j r f = elim (submit-cases s spec now) [
  | inl (e, h) ↦ rw h (r, f, stay)
  | inr (a, h) ↦
      let absent = a.is_new in
      rw h (r, ground (arith, find_job-admit s spec now d j, eq_text_iff spec.id d), stay)
]

-- A call moves each job that is there along the machine of one job, and removes none.
pub step-moves : (s : Scheduler) (c : Call) → Inv s → MovesIn s (step s c)
unfolding step
step-moves s (submits spec now) v = submit-moves s spec now
step-moves s (claims owner now lease_ms) v =
    (Acts-any (claim-Acts s owner now lease_ms v.distinct)).moves
step-moves s (heartbeats d j owner token now lease_ms) v =
    (Acts-any (heartbeat-Acts s d j owner token now lease_ms)).moves
step-moves s (completes d j owner token result now) v =
    (complete-Acts s d j owner token result now (v.linked d j)).moves
step-moves s (fails d j owner token now) v = (Acts-any (fail-Acts s d j owner token now)).moves
step-moves s (reaps now) v = (Acts-any (reap-Acts s now v.distinct)).moves
step-moves s (cancels d) v = (Acts-any (cancel-Acts s d)).moves
