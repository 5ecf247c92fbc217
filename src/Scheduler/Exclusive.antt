-- ===== src/Scheduler/Exclusive.antt =====
-- src/scheduler.rs: `claim` and the jobs whose leases are running.
use cloud_job_orchestrator.Base.{
  ◌≡◌, refl, false, ◌&&◌, some, List, arith, ◌⊎◌, inl, inr, ◌∙◌, Bool-cases,
}
use cloud_job_orchestrator.Base.Int.{ℤ, ◌<ℤ◌}
use cloud_job_orchestrator.Base.Text.{Text, eq_text, eq_text_iff}
use cloud_job_orchestrator.Domain.{leased, ready, retry_wait}
use cloud_job_orchestrator.Scheduler.State.{Lease, JobRecord, ReadyKey, Scheduler, find_job}
use cloud_job_orchestrator.Scheduler.Claim.{
  claim, claim_loop, claim_is_invalid, grant, reap, is_expired,
}
use cloud_job_orchestrator.Scheduler.Claim.Loop.{Granted, claim_loop-LoopEnds, is_current_state}
use cloud_job_orchestrator.Scheduler.Jobs.{DistinctJobs, find_job-update_job}
use cloud_job_orchestrator.Scheduler.Reap.{find_job-reap}

not_current_when_leased :
    (r : JobRecord) → r.state ≡ leased → (r.state ≡ ready) ⊎ (r.state ≡ retry_wait) → ⊥
not_current_when_leased r h k = ground arith

not_expired_in_time :
    (r : JobRecord) (lease : Lease) (now : ℤ)
    → r.lease ≡ some lease
    → now <ℤ lease.expires_at_ms
    → is_expired now r ≡ false
unfolding is_expired
not_expired_in_time r lease now l e = rw l (ground arith)

module _ (s : Scheduler) (owner d j : Text) (now lease_ms : ℤ) (r : JobRecord)
    (is_leased : r.state ≡ leased) where
  grant_misses :
      (key : ReadyKey) (r' : JobRecord)
      → find_job d j s.dags ≡ some r
      → Granted s now key r'
      → (eq_text key.dag_id d && eq_text key.job_id j) ≡ false
  grant_misses key r' f g = elim (Bool-cases (eq_text key.dag_id d && eq_text key.job_id j)) [
    | inl hit ↦
        let p : key.dag_id ≡ d = ground (arith, eq_text_iff key.dag_id d) in
        let q : key.job_id ≡ j = ground (arith, eq_text_iff key.job_id j) in
        let found : find_job d j s.dags ≡ some r' = rw (p, q) at g.found in
        let same : r' ≡ r = ground arith in
        absurd
          (not_current_when_leased r is_leased (rw same at (is_current_state key r' g.current)))
    | inr miss ↦ miss
  ]

  grant_keeps :
      (key : ReadyKey) (r' : JobRecord) (rest : List ReadyKey)
      → find_job d j s.dags ≡ some r
      → Granted s now key r'
      → find_job d j (grant s key r' owner now lease_ms rest).1.dags ≡ some r
  unfolding grant
  grant_keeps key r' rest f g =
      find_job-update_job key.dag_id key.job_id d j _ s.dags ∙ rw (grant_misses key r' f g) f

  loop_keeps :
      (heap : List ReadyKey)
      → find_job d j s.dags ≡ some r
      → find_job d j (claim_loop s owner now lease_ms heap).1.dags ≡ some r
  loop_keeps heap f = elim (claim_loop-LoopEnds s owner now lease_ms heap) [
    | inl (_, i) ↦ rw i.dags_same f
    | inr (key, r', rest, g, e) ↦ rw e (grant_keeps key r' rest f g)
  ]

-- Where identifiers are distinct, a claim, whoever makes it, leaves a job alone that is under a lease
-- which still runs: the job keeps its owner, its token and its attempts.
pub claim_keeps_running_lease :
    (s : Scheduler) (owner d j : Text) (now lease_ms : ℤ) (r : JobRecord) (lease : Lease)
    → DistinctJobs s.dags
    → find_job d j s.dags ≡ some r
    → r.state ≡ leased
    → r.lease ≡ some lease
    → now <ℤ lease.expires_at_ms
    → find_job d j (claim s owner now lease_ms).1.dags ≡ some r
unfolding claim
claim_keeps_running_lease s owner d j now lease_ms r lease u f q l e =
    elim (Bool-cases (claim_is_invalid s.config owner lease_ms)) [
      | inl invalid ↦ rw invalid f
      | inr valid ↦
          let kept : find_job d j (reap s now).1.dags ≡ some r =
            find_job-reap s now d j u ∙ rw (f, not_expired_in_time r lease now l e) refl in
          rw valid (loop_keeps (reap s now).1 owner d j now lease_ms r q (reap s now).1.ready kept)
    ]
