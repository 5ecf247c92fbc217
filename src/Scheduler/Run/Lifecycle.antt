-- ===== src/Scheduler/Run/Lifecycle.antt =====
-- src/scheduler.rs: a job over a history of calls.
use cloud_job_orchestrator.Base.{◌≤◌, ◌≡◌, true, some, List, [], ◌∷◌, arith, ◌↔◌, has_value}
use cloud_job_orchestrator.Base.Text.{Text}
use cloud_job_orchestrator.Domain.{leased, succeeded}
use cloud_job_orchestrator.Scheduler.State.{SchedulerConfig, JobRecord, Scheduler, find_job, new}
use cloud_job_orchestrator.Scheduler.Machine.{JobInv, stay, Moves_trans, Evolves}
use cloud_job_orchestrator.Scheduler.Machine.Evolution.{Moves-Evolves}
use cloud_job_orchestrator.Scheduler.Run.{
  Call, step, run, Inv, MovesIn, step-Inv, step-moves, run-Inv, new-Inv,
}

run-moves : (s : Scheduler) (cs : List Call) → Inv s → MovesIn s (run s cs)
unfolding run
run-moves s [] v d j r f = (r, f, stay)
run-moves s (c ∷ cs) v d j r f =
    let (r', f', m) = step-moves s c v d j r f in
    let (r'', f'', m') = run-moves (step s c) cs (step-Inv s c v) d j r' f' in
    (r'', f'', Moves_trans m m')

-- From a state that satisfies the invariant: no call loses a job, and over any history a job keeps its specification, its attempts do not fall,
-- its state follows the life cycle, and once it has succeeded, been buried or been cancelled, it
-- keeps its state, its result and its attempts.
pub run-Evolves :
    (s : Scheduler) (cs : List Call) (d j : Text) (r : JobRecord)
    → Inv s
    → find_job d j s.dags ≡ some r
    → (r' : JobRecord) × (find_job d j (run s cs).dags ≡ some r') × Evolves r r'
run-Evolves s cs d j r v f =
    let (r', f', m) = run-moves s cs v d j r f in (r', f', Moves-Evolves m (v.jobs d j r f).0)

lease_of_leased : (r : JobRecord) → JobInv r → (r.state ≡ leased) ↔ (has_value r.lease ≡ true)
lease_of_leased r v = (λ h. ground arith, λ h. ground arith)

-- After any history that starts from an empty scheduler, a job holds a lease exactly while its state
-- is leased, holds a result exactly if it has succeeded, and has used no more attempts than its
-- budget, which is at most twenty.
pub run-new_job :
    (config : SchedulerConfig) (cs : List Call) (d j : Text) (r : JobRecord)
    → find_job d j (run (new config) cs).dags ≡ some r
    → ((r.state ≡ leased) ↔ (has_value r.lease ≡ true))
      × ((r.state ≡ succeeded) ↔ (has_value r.result ≡ true))
      × (r.attempts ≤ r.spec.max_attempts)
      × (r.spec.max_attempts ≤ 20)
run-new_job config cs d j r f =
    let v = ((run-Inv (new config) cs (new-Inv config)).jobs d j r f).0 in
    (lease_of_leased r v, (λ h. ground arith, λ h. ground arith), v.in_budget, v.budget_le)
