-- ===== src/Scheduler/Cas/Complete.antt =====
-- src/scheduler.rs: `complete`: whose results it accepts, and what it changes.
use mathlib.Core.Option
use cloud_job_orchestrator.Base.{
  has_value, ◌≤◌, ◌≡◌, List, [], ◌∷◌, if◌then◌else◌, arith, length, ok, err, inl, inr, ◌↔◌, ◌∙◌,
}
use cloud_job_orchestrator.Base.Int.{ℤ}
use cloud_job_orchestrator.Base.Text.{Text, eq_text, count_text}
use cloud_job_orchestrator.Base.Map.{Map}
use cloud_job_orchestrator.Domain.{max_payload_bytes}
use cloud_job_orchestrator.Scheduler.State.{
  DagRecord, Scheduler, SchedulerError, find_job, update_job,
}
use cloud_job_orchestrator.Scheduler.Lease.{complete, commit, finished}
use cloud_job_orchestrator.Scheduler.Jobs.{job_mut_of_find_job, find_job-update_job}
use cloud_job_orchestrator.Scheduler.Release.{
  freed, children, AllPresent, find_job-release_all, release_all-ok,
}
use cloud_job_orchestrator.Scheduler.Cas.{HoldsLease, assert_lease-cases, HoldsLease→assert_lease}

module _ (s : Scheduler) (d j owner token result : Text) (now : ℤ)
    (linked : AllPresent d s.dags (children d j s.dags)) where
  finish_dags : Map DagRecord
  finish_dags = update_job d j (finished result) s.dags

  has_value-finish :
      (x : Text) → has_value (find_job d x finish_dags) ≡ has_value (find_job d x s.dags)
  unfolding finish_dags
  has_value-finish x = ground (arith, find_job-update_job d j d x (finished result) s.dags)

  AllPresent-finish : (js : List Text) → AllPresent d s.dags js → AllPresent d finish_dags js
  AllPresent-finish [] h = tt
  AllPresent-finish (x ∷ js) h = (has_value-finish x ∙ h.0, AllPresent-finish js h.1)

  commit-ok : HoldsLease s d j owner token now → (commit s d j result now).0 ≡ ok tt
  unfolding commit finish_dags
  commit-ok (r, f, o) =
      rw (job_mut_of_find_job s d j r f, commit)
        (release_all-ok now d (record s { dags = finish_dags }) (children d j s.dags)
          (AllPresent-finish (children d j s.dags) linked))

  -- Where the dependents that the DAG lists for the job exist, a result is accepted exactly if it is at
  -- most 4096 bytes long and the caller owns a lease on the job, under its token, that has not run out.
  pub complete_iff :
      ((complete s d j owner token result now).0 ≡ ok tt)
      ↔ ((length result ≤ max_payload_bytes) × HoldsLease s d j owner token now)
  unfolding complete
  complete_iff = elim (assert_lease-cases s d j owner token now) [
    | inl (o, a) ↦ (λ h. (ground arith, o), λ h. ground (arith, commit-ok o))
    | inr (e, a) ↦
        (λ h. ground arith, λ h. ground (arith, HoldsLease→assert_lease s d j owner token now h.1))
  ]

  -- Where the dependents that the DAG lists for the job exist, a call of `complete` that fails leaves
  -- the scheduler as it was.
  pub complete_atomic :
      (e : SchedulerError)
      → (complete s d j owner token result now).0 ≡ err e
      → (complete s d j owner token result now).1 ≡ s
  unfolding complete
  complete_atomic e h = elim (assert_lease-cases s d j owner token now) [
    | inl (o, a) ↦ ground (arith, commit-ok o)
    | inr (e', a) ↦ ground arith
  ]

  -- Where the listed dependents exist, an accepted result makes the job succeed with it, frees each dependent once for every edge from
  -- the job, and changes no other job.
  pub find_job-complete :
      (d' j' : Text)
      → (complete s d j owner token result now).0 ≡ ok tt
      → find_job d' j' (complete s d j owner token result now).1.dags ≡ (
          if eq_text d d'
          then Option.map (freed now (count_text j' (children d j s.dags))) (
              if eq_text j j'
              then Option.map (finished result) (find_job d' j' s.dags)
              else find_job d' j' s.dags)
          else find_job d' j' s.dags)
  unfolding complete commit finish_dags
  find_job-complete d' j' h = elim (assert_lease-cases s d j owner token now) [
    | inl ((r, f, o), a) ↦ ground (
      arith,
      job_mut_of_find_job s d j r f,
      find_job-release_all now d (record s { dags = finish_dags }) (children d j s.dags) d' j'
          (AllPresent-finish (children d j s.dags) linked),
      find_job-update_job d j d' j' (finished result) s.dags,
    )
    | inr (e', a) ↦ ground arith
  ]
