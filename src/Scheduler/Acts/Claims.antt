-- ===== src/Scheduler/Acts/Claims.antt =====
-- src/scheduler.rs: `reap` and `claim` as steps of the jobs.
use cloud_job_orchestrator.Base.{◌≡◌, refl, true, List, [], ◌∷◌, arith, inl, inr, ◌∙◌, Bool-cases}
use cloud_job_orchestrator.Base.Int.{ℤ}
use cloud_job_orchestrator.Base.Text.{Text}
use cloud_job_orchestrator.Domain.{leased}
use cloud_job_orchestrator.Scheduler.State.{SchedulerConfig, JobRecord, ReadyKey, Scheduler}
use cloud_job_orchestrator.Scheduler.Retry.{retried, retry_or_dead_letter}
use cloud_job_orchestrator.Scheduler.Claim.{
  reap, claim_loop, is_expired, retry_all, expired, claim, grant, claim_is_invalid,
}
use cloud_job_orchestrator.Scheduler.Claim.Loop.{Granted, claim_loop-LoopEnds, is_current_state}
use cloud_job_orchestrator.Scheduler.Jobs.{DistinctJobs, same_state→eq, job_mut-cases}
use cloud_job_orchestrator.Scheduler.Reap.{reaped, find_job-reap, reap-keeps}
use cloud_job_orchestrator.Scheduler.Release.{children, children-update_job}
use cloud_job_orchestrator.Scheduler.Machine.{lease_out, retry, Moves, stay, next}
use cloud_job_orchestrator.Scheduler.Acts.{
  Acts, Acts-refl, Acts-trans, Acts-of_dags, Rewrites-moves, Rewrites-absent, update_job-Acts,
}

children-retry_or_dead_letter :
    (s : Scheduler) (d j d' p : Text) (now : ℤ)
    → children d' p (retry_or_dead_letter s d j now).1.dags ≡ children d' p s.dags
unfolding retry_or_dead_letter
children-retry_or_dead_letter s d j d' p now =
    ground
      (arith, job_mut-cases s d j, children-update_job d j d' p (retried s.config j now) s.dags)

children-retry_all :
    (now : ℤ) (s : Scheduler) (l : List (Text × Text)) (d p : Text)
    → children d p (retry_all now s l).dags ≡ children d p s.dags
unfolding retry_all
children-retry_all now s [] d p = refl
children-retry_all now s ((d', j') ∷ l) d p =
    children-retry_all now (retry_or_dead_letter s d' j' now).1 l d p
    ∙ children-retry_or_dead_letter s d' j' d p now

expired_is_leased : (now : ℤ) (r : JobRecord) → is_expired now r ≡ true → r.state ≡ leased
unfolding is_expired
expired_is_leased now r h = same_state→eq r.state leased (ground arith)

reaped-Moves :
    (c : SchedulerConfig) (j : Text) (now : ℤ) (r : JobRecord) → Moves true r (reaped c j now r)
reaped-Moves c j now r = elim (Bool-cases (is_expired now r)) [
  | inl e ↦ rw e (next stay (retry (expired_is_leased now r e) c j now refl))
  | inr e ↦ rw e stay
]

module _ (s : Scheduler) (now : ℤ) (u : DistinctJobs s.dags) where
  pub reap-Acts : Acts true s (reap s now).1
  unfolding reap
  reap-Acts = record {
    moves =
        Rewrites-moves s (reap s now).1 (λ d j. reaped s.config j now)
          (λ d j. find_job-reap s now d j u) (λ d j r f. reaped-Moves s.config j now r);
    absent =
        Rewrites-absent s (reap s now).1 (λ d j. reaped s.config j now)
          (λ d j. find_job-reap s now d j u);
    children_same = children-retry_all now s (expired now s.dags);
    distinct = λ h. (reap-keeps s now h).0;
    config_same = (reap-keeps s now u).1;
  }

grant-Acts :
    (s : Scheduler) (now lease_ms : ℤ) (owner : Text) (key : ReadyKey) (r : JobRecord)
    (rest : List ReadyKey)
    → Granted s now key r
    → Acts true s (grant s key r owner now lease_ms rest).1
unfolding grant
grant-Acts s now lease_ms owner key r rest g =
    update_job-Acts s key.dag_id key.job_id _
      (λ r' f.
        lease_out (is_current_state key r' (let c = g.current in let f' = g.found in ground arith))
          _ _ _ refl)
      _ refl refl

pub claim_loop-Acts :
    (s : Scheduler) (owner : Text) (now lease_ms : ℤ) (heap : List ReadyKey)
    → Acts true s (claim_loop s owner now lease_ms heap).1
claim_loop-Acts s owner now lease_ms heap = elim (claim_loop-LoopEnds s owner now lease_ms heap) [
  | inl (_, i) ↦ Acts-of_dags s _ i.dags_same i.config_same
  | inr (key, r, rest, g, e) ↦ rw e (grant-Acts s now lease_ms owner key r rest g)
]

pub claim-Acts :
    (s : Scheduler) (owner : Text) (now lease_ms : ℤ)
    → DistinctJobs s.dags
    → Acts true s (claim s owner now lease_ms).1
unfolding claim
claim-Acts s owner now lease_ms u = elim (Bool-cases (claim_is_invalid s.config owner lease_ms)) [
  | inl e ↦ rw e (Acts-refl s)
  | inr e ↦
      rw e (Acts-trans (reap-Acts s now u) (claim_loop-Acts (reap s now).1 owner now lease_ms _))
]
