-- ===== src/Scheduler/Edges/Calm.antt =====
-- src/scheduler.rs: the counts under the calls that finish no job.
use cloud_job_orchestrator.Base.{
  List, ◌≡◌, refl, true, arith, ◌⊎◌, inl, inr, ◌∙◌, ap, sym, Option-cases,
}
use cloud_job_orchestrator.Base.Int.{ℤ}
use cloud_job_orchestrator.Base.Text.{Text, count_text}
use cloud_job_orchestrator.Domain.{Dependency, leased, succeeded, ready, retry_wait}
use cloud_job_orchestrator.Scheduler.State.{
  SchedulerConfig, JobRecord, Scheduler, same_state, find_job,
}
use cloud_job_orchestrator.Scheduler.Retry.{retried}
use cloud_job_orchestrator.Scheduler.Claim.{leased_to}
use cloud_job_orchestrator.Scheduler.Lease.{extended, cancelled_job}
use cloud_job_orchestrator.Scheduler.Machine.{
  Move, lease_out, extend, finish, free, retry, cancel, Moves, stay, next, JobInv, Moves-JobInv,
}
use cloud_job_orchestrator.Scheduler.Acts.{Acts}
use cloud_job_orchestrator.Scheduler.Run.{Inv, Acts-backwards}
use cloud_job_orchestrator.Scheduler.Edges.{has_succeeded, blocked_ext, EdgeInv}

-- Neither the count nor the success of a job changes.
abbrev Calm : JobRecord → JobRecord → Type 0
Calm r r' =
    (r'.remaining_dependencies ≡ r.remaining_dependencies)
    × (same_state r'.state succeeded ≡ same_state r.state succeeded)

lease_out-Calm :
    (r : JobRecord) (owner token : Text) (deadline : ℤ)
    → JobInv r
    → (r.state ≡ ready) ⊎ (r.state ≡ retry_wait)
    → Calm r (leased_to owner token deadline r)
unfolding leased_to same_state
lease_out-Calm r owner token deadline v g = ground arith

extend-Calm : (r : JobRecord) (deadline : ℤ) → Calm r (extended deadline r)
unfolding extended
extend-Calm r deadline = ground arith

retry-Calm :
    (r : JobRecord) (c : SchedulerConfig) (j : Text) (now : ℤ)
    → r.state ≡ leased
    → Calm r (retried c j now r)
unfolding retried same_state
retry-Calm r c j now g = ground arith

cancel-Calm : (r : JobRecord) → Calm r (cancelled_job r)
unfolding cancelled_job same_state
cancel-Calm r = ground arith

Move-Calm : {r r' : JobRecord} → Move true r r' → JobInv r → Calm r r'
Move-Calm {r} (lease_out g owner token deadline e) v =
    rw e (lease_out-Calm r owner token deadline v g)
Move-Calm {r} (extend g deadline e) v = rw e (extend-Calm r deadline)
Move-Calm (finish c g result e) v = cc
Move-Calm (free c now n e) v = cc
Move-Calm {r} (retry g c j now e) v = rw e (retry-Calm r c j now g)
Move-Calm {r} (cancel e) v = rw e (cancel-Calm r)

Moves-Calm : {r r' : JobRecord} → Moves true r r' → JobInv r → Calm r r'
Moves-Calm stay v = (refl, refl)
Moves-Calm (next ms m) v =
    let (n, s) = Moves-Calm ms v in
    let (n', s') = Move-Calm m (Moves-JobInv ms v) in (n' ∙ n, s' ∙ s)

module _ (s s' : Scheduler) (a : Acts true s s') (v : Inv s) where
  has_succeeded-calm : (d p : Text) → has_succeeded s'.dags d p ≡ has_succeeded s.dags d p
  has_succeeded-calm d p = elim (Option-cases (find_job d p s.dags)) [
    | inl e ↦ let gone = a.absent d p e in ground arith
    | inr (r, e) ↦
        let (r', f, m) = a.moves d p r e in
        let (_, same) = Moves-Calm m (v.jobs d p r e).0 in ground arith
  ]

  pub calm-EdgeInv : (d : Text) (edges : List Dependency) → EdgeInv s d edges → EdgeInv s' d edges
  calm-EdgeInv d edges i = record {
    stored = λ p c. ap (count_text c) (a.children_same d p) ∙ i.stored p c;
    waits = λ c r' h.
        let (r, f, m) = Acts-backwards s s' a d c r' h in
        let (n, _) = Moves-Calm m (v.jobs d c r f).0 in
        n
        ∙ i.waits c r f
        ∙ sym (
            blocked_ext (has_succeeded s.dags d) (has_succeeded s'.dags d) c edges
              (has_succeeded-calm d));
  }
