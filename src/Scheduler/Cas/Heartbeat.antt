-- ===== src/Scheduler/Cas/Heartbeat.antt =====
-- src/scheduler.rs: `heartbeat`: whose leases it extends, and what it changes.
use mathlib.Core.Option
use cloud_job_orchestrator.Base.{◌≡◌, ◌&&◌, ◌||◌, if◌then◌else◌, arith, ok, err, inl, inr, ◌↔◌}
use cloud_job_orchestrator.Base.Int.{ℤ, pos, ◌<ℤ◌, ◌≤ℤ◌, leb_ℤ, ltb_ℤ, saturating_add}
use cloud_job_orchestrator.Base.Text.{Text, eq_text}
use cloud_job_orchestrator.Scheduler.State.{
  Scheduler, SchedulerError, invalid_lease, find_job, update_job, Outcome,
}
use cloud_job_orchestrator.Scheduler.Retry.{assert_lease}
use cloud_job_orchestrator.Scheduler.Lease.{heartbeat, extended}
use cloud_job_orchestrator.Scheduler.Jobs.{find_job-update_job}
use cloud_job_orchestrator.Scheduler.Cas.{HoldsLease, assert_lease-cases, HoldsLease→assert_lease}

module _ (s : Scheduler) (d j owner token : Text) (now lease_ms : ℤ) where
  -- The same, with the check that `complete` and `fail` make.
  heartbeat_checked : Outcome ℤ
  heartbeat_checked =
      if leb_ℤ lease_ms (pos 0) || ltb_ℤ s.config.max_lease_ms lease_ms
      then (err invalid_lease, s)
      else elim (assert_lease s d j owner token now) [
        | err e ↦ (err e, s)
        | ok _ ↦ (
          ok (saturating_add now lease_ms),
          record s { dags = update_job d j (extended (saturating_add now lease_ms)) s.dags },
        )
      ]

  heartbeat-eq-checked : heartbeat s d j owner token now lease_ms ≡ heartbeat_checked
  unfolding heartbeat heartbeat_checked assert_lease
  heartbeat-eq-checked = ground arith

  -- A heartbeat is answered with a deadline exactly if the duration is in range and the caller owns
  -- a running lease on the job under its token; the deadline is then the duration from now.
  pub heartbeat_iff :
      (deadline : ℤ)
      → ((heartbeat s d j owner token now lease_ms).0 ≡ ok deadline) ↔ (
          (pos 0 <ℤ lease_ms)
          × (lease_ms ≤ℤ s.config.max_lease_ms)
          × HoldsLease s d j owner token now
          × (deadline ≡ saturating_add now lease_ms))
  unfolding heartbeat_checked
  heartbeat_iff deadline = elim (assert_lease-cases s d j owner token now) [
    | inl (o, a) ↦
        (λ h. ground (arith, heartbeat-eq-checked, o), λ h. ground (arith, heartbeat-eq-checked))
    | inr (e, a) ↦ (
      λ h. ground (arith, heartbeat-eq-checked),
      λ h. ground (arith, heartbeat-eq-checked, HoldsLease→assert_lease s d j owner token now h.2),
    )
  ]

  -- A call of `heartbeat` that fails leaves the scheduler as it was.
  pub heartbeat_atomic :
      (e : SchedulerError)
      → (heartbeat s d j owner token now lease_ms).0 ≡ err e
      → (heartbeat s d j owner token now lease_ms).1 ≡ s
  unfolding heartbeat
  heartbeat_atomic e h = ground arith

  -- An accepted heartbeat moves the deadline of the job's lease, and changes no other job.
  pub find_job-heartbeat :
      (d' j' : Text) (deadline : ℤ)
      → (heartbeat s d j owner token now lease_ms).0 ≡ ok deadline
      → find_job d' j' (heartbeat s d j owner token now lease_ms).1.dags ≡ (
          if eq_text d d' && eq_text j j'
          then Option.map (extended deadline) (find_job d' j' s.dags)
          else find_job d' j' s.dags)
  unfolding heartbeat
  find_job-heartbeat d' j' deadline h =
      ground (arith, find_job-update_job d j d' j' (extended deadline) s.dags)
