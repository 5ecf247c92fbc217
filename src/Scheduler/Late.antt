-- ===== src/Scheduler/Late.antt =====
-- src/scheduler.rs: what a worker can still do with a lease that `reap` or `cancel` has taken back.
use mathlib.Core.Option
use cloud_job_orchestrator.Base.{
  ℕ, ◌≡◌, refl, true, none, some, arith, inl, inr, sym, ◌∙◌, Bool-cases, Option-cases, length, ltb,
  ok, err, Option,
}
use cloud_job_orchestrator.Base.Int.{ℤ, ◌≤ℤ◌}
use cloud_job_orchestrator.Base.Text.{Text, eq_text_iff}
use cloud_job_orchestrator.Base.Map.{lookup}
use cloud_job_orchestrator.Domain.{leased, max_payload_bytes}
use cloud_job_orchestrator.Scheduler.State.{
  SchedulerConfig, Lease, JobRecord, Scheduler, SchedulerError, result_too_large, find_job,
  same_state,
}
use cloud_job_orchestrator.Scheduler.Retry.{retried}
use cloud_job_orchestrator.Scheduler.Claim.{reap, is_expired}
use cloud_job_orchestrator.Scheduler.Lease.{complete, cancel, cancelled_job, is_terminal}
use cloud_job_orchestrator.Scheduler.Jobs.{DistinctJobs}
use cloud_job_orchestrator.Scheduler.Reap.{find_job-reap}
use cloud_job_orchestrator.Scheduler.Cas.{Owns, HoldsLease, assert_lease-cases}
use cloud_job_orchestrator.Scheduler.Machine.{JobInv}
use cloud_job_orchestrator.Scheduler.Acts.Cancel.{find_job-cancel_dag}
use cloud_job_orchestrator.Scheduler.Run.{Inv, step, step-Inv, cancels}

-- Whoever owns no running lease cannot complete the job, and changes nothing by trying.
not_owner_completes :
    (s : Scheduler) (d j owner token result : Text) (now : ℤ)
    → (HoldsLease s d j owner token now → ⊥)
    → (e : SchedulerError) × (complete s d j owner token result now ≡ (err e, s))
unfolding complete
not_owner_completes s d j owner token result now h =
    elim (assert_lease-cases s d j owner token now) [
      | inl (o, a) ↦ absurd (h o)
      | inr (e, a) ↦ elim (Bool-cases (ltb max_payload_bytes (length result))) [
        | inl long ↦ (result_too_large, rw (long, complete) refl)
        | inr short ↦ (e, rw (short, complete) (rw (a, complete) refl))
      ]
    ]

no_lease_is_owned :
    (r : JobRecord) (owner token : Text) (now : ℤ) → r.lease ≡ none → Owns r owner token now → ⊥
no_lease_is_owned r owner token now h o = let k = o.held in cc

retried_has_no_lease :
    (c : SchedulerConfig) (j : Text) (now : ℤ) (r : JobRecord) → (retried c j now r).lease ≡ none
unfolding retried
retried_has_no_lease c j now r = ground arith

lease_is_expired :
    (r : JobRecord) (lease : Lease) (now : ℤ)
    → r.state ≡ leased
    → r.lease ≡ some lease
    → lease.expires_at_ms ≤ℤ now
    → is_expired now r ≡ true
unfolding is_expired same_state
lease_is_expired r lease now q l e = rw (q, l) (ground arith)

module _ (s : Scheduler) (d j : Text) (r : JobRecord) (lease : Lease) (now : ℤ)
    (distinct : DistinctJobs s.dags) (found : find_job d j s.dags ≡ some r)
    (is_leased : r.state ≡ leased) (held : r.lease ≡ some lease)
    (expired : lease.expires_at_ms ≤ℤ now) where
  find_job-reaped : find_job d j (reap s now).1.dags ≡ some (retried s.config j now r)
  find_job-reaped =
      find_job-reap s now d j distinct
      ∙ rw (found, lease_is_expired r lease now is_leased held expired) refl

  -- Where identifiers are distinct: once `reap` has taken back a lease that has run out, a worker that completes the job, under
  -- whatever token and at whatever time, is refused, and changes nothing.
  pub late_completion_is_refused :
      (owner token result : Text) (later : ℤ)
      → (e : SchedulerError) × (complete (reap s now).1 d j owner token result later
          ≡ (err e, (reap s now).1))
  late_completion_is_refused owner token result later =
      not_owner_completes (reap s now).1 d j owner token result later (λ (r', f, o).
        let same : retried s.config j now r ≡ r' = ground (arith, find_job-reaped) in
        no_lease_is_owned r' owner token later (rw same at (retried_has_no_lease s.config j now r))
          o)

cancelled_is_terminal : (r : JobRecord) → is_terminal (cancelled_job r).state ≡ true
unfolding cancelled_job is_terminal
cancelled_is_terminal r = ground arith

terminal_has_no_lease : (r : JobRecord) → JobInv r → is_terminal r.state ≡ true → r.lease ≡ none
unfolding is_terminal
terminal_has_no_lease r v t = let k = v.in_state in ground arith

map_cancelled_is_terminal :
    (o : Option JobRecord) (r : JobRecord)
    → Option.map cancelled_job o ≡ some r
    → is_terminal r.state ≡ true
map_cancelled_is_terminal none r h = cc
map_cancelled_is_terminal (some x) r h =
    let same : cancelled_job x ≡ r = ground arith in rw same at (cancelled_is_terminal x)

cancel-ok-dags :
    (s : Scheduler) (d : Text) (n : ℕ) (j : Text)
    → (cancel s d).0 ≡ ok n
    → find_job d j (cancel s d).1.dags ≡ Option.map cancelled_job (find_job d j s.dags)
unfolding cancel
cancel-ok-dags s d n j h = elim (Option-cases (lookup d s.dags)) [
  | inl e ↦ ground arith
  | inr (dag, e) ↦
      rw (e, cancel) (ground (arith, find_job-cancel_dag d d j s.dags, eq_text_iff d d))
]

-- From a state that satisfies the invariant: after a cancellation that succeeds, every job of the DAG has ended and none has a lease.
pub cancel_ends_all :
    (s : Scheduler) (d : Text) (n : ℕ) (j : Text) (r : JobRecord)
    → Inv s
    → (cancel s d).0 ≡ ok n
    → find_job d j (cancel s d).1.dags ≡ some r
    → (is_terminal r.state ≡ true) × (r.lease ≡ none)
unfolding step
cancel_ends_all s d n j r v h f =
    let t =
      map_cancelled_is_terminal (find_job d j s.dags) r (sym (cancel-ok-dags s d n j h) ∙ f) in
    (t, terminal_has_no_lease r ((step-Inv s (cancels d) v).jobs d j r f).0 t)
