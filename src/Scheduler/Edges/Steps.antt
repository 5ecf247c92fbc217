-- ===== src/Scheduler/Edges/Steps.antt =====
-- src/scheduler.rs: the counts over a history, and the parents of the jobs that are released.
use cloud_job_orchestrator.Base.{
  ◌≤◌, ◌≡◌, refl, Bool, true, false, none, some, ◌⊎◌, List, [], ◌∷◌, arith, inl, inr, ◌∙◌, ap, sym,
  subst, Bool-cases, Result-cases,
}
use cloud_job_orchestrator.Base.Int.{ℤ}
use cloud_job_orchestrator.Base.Text.{Text, eq_text, eq_text_iff, count_text}
use cloud_job_orchestrator.Base.Map.{lookup}
use cloud_job_orchestrator.Domain.{
  Dependency, DagSpec, JobState, leased, succeeded, ready, retry_wait,
}
use cloud_job_orchestrator.Scheduler.State.{SchedulerConfig, JobRecord, Scheduler, find_job, new}
use cloud_job_orchestrator.Scheduler.Submit.{admit, dependency_counts}
use cloud_job_orchestrator.Scheduler.Lease.{complete}
use cloud_job_orchestrator.Scheduler.Release.{children}
use cloud_job_orchestrator.Scheduler.Machine.{JobInv}
use cloud_job_orchestrator.Scheduler.Cas.Complete.{complete_atomic}
use cloud_job_orchestrator.Scheduler.Acts.Cancel.{cancel-Acts}
use cloud_job_orchestrator.Scheduler.Acts.Leases.{heartbeat-Acts, fail-Acts}
use cloud_job_orchestrator.Scheduler.Acts.Claims.{reap-Acts, claim-Acts}
use cloud_job_orchestrator.Scheduler.Admission.{
  submit-cases, find_job-admit, children-admit, find_spec,
}
use cloud_job_orchestrator.Scheduler.Admission.Edges.{count_text-admit, count_edge}
use cloud_job_orchestrator.Scheduler.Run.{
  Call, submits, claims, heartbeats, completes, fails, reaps, cancels, step, run, Inv, step-Inv,
  new-Inv, run-Inv,
}
use cloud_job_orchestrator.Scheduler.Edges.{job_succeeded, has_succeeded, blocked_ext, EdgeInv}
use cloud_job_orchestrator.Scheduler.Edges.Counts.{
  initial_record-waits, initial_record_not_succeeded,
}
use cloud_job_orchestrator.Scheduler.Edges.{blocked_zero}
use cloud_job_orchestrator.Scheduler.Edges.Calm.{calm-EdgeInv}
use cloud_job_orchestrator.Scheduler.Edges.Finish.{complete-EdgeInv_ok}

complete-EdgeInv :
    (s : Scheduler) (d j owner token result : Text) (now : ℤ) (d' : Text) (edges : List Dependency)
    → Inv s
    → EdgeInv s d' edges
    → EdgeInv (complete s d j owner token result now).1 d' edges
complete-EdgeInv s d j owner token result now d' edges v i =
    elim (Result-cases (complete s d j owner token result now).0) [
      | inl (tt, h) ↦ complete-EdgeInv_ok s d j owner token result now v h d' edges i
      | inr (e, h) ↦ rw (complete_atomic s d j owner token result now (v.linked d j) e h) i
    ]

module _ (s : Scheduler) (spec : DagSpec) (now : ℤ) where
  admit_not_succeeded : (p : Text) → has_succeeded (admit s spec now).dags spec.id p ≡ false
  admit_not_succeeded p = ground (
    arith,
    find_job-admit s spec now spec.id p,
    eq_text_iff spec.id spec.id,
    initial_record_not_succeeded (dependency_counts spec) now (find_spec p spec.jobs),
  )

  pub admit-EdgeInv_self : EdgeInv (admit s spec now) spec.id spec.dependencies
  admit-EdgeInv_self = record {
    stored = λ p c. count_text-admit s spec now p c;
    waits = λ c r f.
        initial_record-waits spec now c r
          (ground (arith, find_job-admit s spec now spec.id c, eq_text_iff spec.id spec.id))
        ∙ sym (
            blocked_ext (λ p. false) (has_succeeded (admit s spec now).dags spec.id) c
              spec.dependencies admit_not_succeeded);
  }

  admit_elsewhere :
      (d c : Text)
      → eq_text spec.id d ≡ false
      → find_job d c (admit s spec now).dags ≡ find_job d c s.dags
  admit_elsewhere d c e = ground (arith, find_job-admit s spec now d c)

  admit-EdgeInv_other :
      (d : Text) (edges : List Dependency)
      → eq_text spec.id d ≡ false
      → EdgeInv s d edges
      → EdgeInv (admit s spec now) d edges
  admit-EdgeInv_other d edges e i = record {
    stored = λ p c. ground (arith, children-admit s spec now d p, i.stored p c);
    waits = λ c r f.
        i.waits c r (sym (admit_elsewhere d c e) ∙ f)
        ∙ sym (
            blocked_ext (has_succeeded s.dags d) (has_succeeded (admit s spec now).dags d) c edges
              (λ p. ap job_succeeded (admit_elsewhere d p e)));
  }

-- The DAG has kept these edges through the call, or the call has brought it in with its own.
abbrev pub KeepsEdges : Scheduler → Call → Text → List Dependency → Type 0
KeepsEdges s c d edges =
    EdgeInv (step s c) d edges
    ⊎ (spec : DagSpec) × (now : ℤ) × (c ≡ submits spec now)
      × (spec.id ≡ d)
      × (lookup d s.dags ≡ none)
      × EdgeInv (step s c) d spec.dependencies

submit-KeepsEdges :
    (s : Scheduler) (spec : DagSpec) (now : ℤ) (d : Text) (edges : List Dependency)
    → EdgeInv s d edges
    → KeepsEdges s (submits spec now) d edges
unfolding step
submit-KeepsEdges s spec now d edges i = elim (submit-cases s spec now) [
  | inl (e, h) ↦ inl (rw (h, step) i)
  | inr (a, h) ↦ elim (Bool-cases (eq_text spec.id d)) [
    | inl e ↦
        let same = (eq_text_iff spec.id d).0 e in
        inr (
          spec,
          now,
          refl,
          same,
          subst (λ x. lookup x s.dags ≡ none) same a.is_new,
          rw (h, step)
              (subst (λ x. EdgeInv (admit s spec now) x spec.dependencies) same
                (admit-EdgeInv_self s spec now)),
        )
    | inr e ↦ inl (rw (h, step) (admit-EdgeInv_other s spec now d edges e i))
  ]
]

-- Take a state that satisfies the invariant, in which a DAG stores certain edges, and counts for each
-- job its edges from parents that have not succeeded. After any call, the DAG stores the same edges
-- and counts them so; unless the DAG was not there and the call submits it, and then it stores and
-- counts the edges of the submission.
pub step-EdgeInv :
    (s : Scheduler) (c : Call) (d : Text) (edges : List Dependency)
    → Inv s
    → EdgeInv s d edges
    → KeepsEdges s c d edges
unfolding step
step-EdgeInv s (submits spec now) d edges v i = submit-KeepsEdges s spec now d edges i
step-EdgeInv s (claims owner now lease_ms) d edges v i =
    inl (calm-EdgeInv s _ (claim-Acts s owner now lease_ms v.distinct) v d edges i)
step-EdgeInv s (heartbeats d' j owner token now lease_ms) d edges v i =
    inl (calm-EdgeInv s _ (heartbeat-Acts s d' j owner token now lease_ms) v d edges i)
step-EdgeInv s (completes d' j owner token result now) d edges v i =
    inl (complete-EdgeInv s d' j owner token result now d edges v i)
step-EdgeInv s (fails d' j owner token now) d edges v i =
    inl (calm-EdgeInv s _ (fail-Acts s d' j owner token now) v d edges i)
step-EdgeInv s (reaps now) d edges v i =
    inl (calm-EdgeInv s _ (reap-Acts s now v.distinct) v d edges i)
step-EdgeInv s (cancels d') d edges v i = inl (calm-EdgeInv s _ (cancel-Acts s d') v d edges i)

pub run-EdgeInv :
    (s : Scheduler) (cs : List Call) (d : Text) (edges : List Dependency)
    → Inv s
    → EdgeInv s d edges
    → (edges' : List Dependency) × EdgeInv (run s cs) d edges'
unfolding run
run-EdgeInv s [] d edges v i = (edges, i)
run-EdgeInv s (c ∷ cs) d edges v i = elim (step-EdgeInv s c d edges v i) [
  | inl k ↦ run-EdgeInv (step s c) cs d edges (step-Inv s c v) k
  | inr (spec, now, _, _, _, k) ↦ run-EdgeInv (step s c) cs d spec.dependencies (step-Inv s c v) k
]

pub new-EdgeInv : (config : SchedulerConfig) (d : Text) → EdgeInv (new config) d []
unfolding new find_job lookup count_text count_edge
new-EdgeInv config d = record { stored = λ p c. refl; waits = λ c r h. cc }

-- The states of a job that has been released.
unfoldable pub was_released : JobState → Bool
was_released ready = true
was_released retry_wait = true
was_released leased = true
was_released succeeded = true
was_released _ = false

released_waits_for_none :
    (r : JobRecord) → JobInv r → was_released r.state ≡ true → r.remaining_dependencies ≡ 0
unfolding was_released
released_waits_for_none r v h = let k = v.in_state in ground arith

-- After any history from an empty scheduler: a job that is ready, waits for a retry, is leased or has
-- succeeded stands behind succeeded parents only, for each parent that its DAG lists it under.
pub released_after_parents :
    (config : SchedulerConfig) (cs : List Call) (d p c : Text) (r : JobRecord)
    → find_job d c (run (new config) cs).dags ≡ some r
    → was_released r.state ≡ true
    → 1 ≤ count_text c (children d p (run (new config) cs).dags)
    → has_succeeded (run (new config) cs).dags d p ≡ true
released_after_parents config cs d p c r f w listed =
    let s = run (new config) cs in
    let v = run-Inv (new config) cs (new-Inv config) in
    let (edges, i) = run-EdgeInv (new config) cs d [] (new-Inv config) (new-EdgeInv config d) in
    blocked_zero (has_succeeded s.dags d) p c edges
      (sym (i.waits c r f) ∙ released_waits_for_none r (v.jobs d c r f).0 w)
      (omega (arith, i.stored p c, listed))
