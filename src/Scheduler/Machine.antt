-- ===== src/Scheduler/Machine.antt =====
-- src/scheduler.rs: the life of one job as an abstract state machine.
pub mod Evolution
use cloud_job_orchestrator.Base.{
  ℕ, zero, suc, ◌-◌, ◌≤◌, ◌<◌, ◌≡◌, refl, Bool, true, false, ◌||◌, ◌&&◌, Option, none, some, arith,
  ◌⊎◌, inl, inr, ◌∙◌, if◌then◌else◌, ltb, leb, has_value,
}
use cloud_job_orchestrator.Base.Int.{ℤ}
use cloud_job_orchestrator.Base.Text.{Text}
use cloud_job_orchestrator.Domain.{
  JobSpec, JobState, pending, ready, retry_wait, leased, succeeded, dead_lettered, cancelled,
}
use cloud_job_orchestrator.Scheduler.State.{SchedulerConfig, Lease, JobRecord, same_state}
use cloud_job_orchestrator.Scheduler.Retry.{retried}
use cloud_job_orchestrator.Scheduler.Claim.{leased_to}
use cloud_job_orchestrator.Scheduler.Lease.{extended, finished, cancelled_job, is_terminal}
use cloud_job_orchestrator.Scheduler.Release.{freed}

-- One change of a job, with its guard. A calm change finishes no job and frees none.
pub data Move (calm : Bool) (r r' : JobRecord) : Type 0 where
  lease_out :
      (r.state ≡ ready) ⊎ (r.state ≡ retry_wait)
      → (owner token : Text) (deadline : ℤ) → r' ≡ leased_to owner token deadline r
      → Move calm r r'
  extend : r.state ≡ leased → (deadline : ℤ) → r' ≡ extended deadline r → Move calm r r'
  finish :
      calm ≡ false → r.state ≡ leased → (result : Text) → r' ≡ finished result r → Move calm r r'
  free : calm ≡ false → (now : ℤ) (parents : ℕ) → r' ≡ freed now parents r → Move calm r r'
  retry :
      r.state ≡ leased
      → (c : SchedulerConfig) (j : Text) (now : ℤ) → r' ≡ retried c j now r
      → Move calm r r'
  cancel : r' ≡ cancelled_job r → Move calm r r'

pub data Moves (calm : Bool) (r : JobRecord) : JobRecord → Type 0 where
  stay : Moves calm r r
  next : {r' r'' : JobRecord} → Moves calm r r' → Move calm r' r'' → Moves calm r r''

-- What holds of a job in each state.
abbrev pub StateInv : JobState → JobRecord → Type 0
StateInv pending r =
    (r.lease ≡ none) × (1 ≤ r.remaining_dependencies) × (r.attempts ≡ 0) × (r.result ≡ none)
StateInv ready r =
    (r.lease ≡ none) × (r.remaining_dependencies ≡ 0) × (r.attempts ≡ 0) × (r.result ≡ none)
StateInv retry_wait r =
    (r.lease ≡ none)
    × (r.remaining_dependencies ≡ 0)
    × (1 ≤ r.attempts)
    × (r.attempts < r.spec.max_attempts)
    × (r.result ≡ none)
StateInv leased r =
    (r.remaining_dependencies ≡ 0)
    × (1 ≤ r.attempts)
    × (r.result ≡ none)
    × (has_value r.lease ≡ true)
StateInv succeeded r =
    (r.lease ≡ none)
    × (r.remaining_dependencies ≡ 0)
    × (1 ≤ r.attempts)
    × (has_value r.result ≡ true)
StateInv dead_lettered r =
    (r.lease ≡ none)
    × (r.remaining_dependencies ≡ 0)
    × (r.attempts ≡ r.spec.max_attempts)
    × (r.result ≡ none)
StateInv cancelled r = (r.lease ≡ none) × (r.result ≡ none)

pub record JobInv (r : JobRecord) : Type 0 where
  pub budget_pos : 1 ≤ r.spec.max_attempts
  pub budget_le : r.spec.max_attempts ≤ 20
  pub in_budget : r.attempts ≤ r.spec.max_attempts
  pub in_state : StateInv r.state r

abbrev InvParts : JobRecord → Type 0
InvParts r =
    (1 ≤ r.spec.max_attempts)
    × (r.spec.max_attempts ≤ 20)
    × (r.attempts ≤ r.spec.max_attempts)
    × StateInv r.state r

parts : {r : JobRecord} → JobInv r → InvParts r
parts v = (v.budget_pos, v.budget_le, v.in_budget, v.in_state)

lease_out-JobInv :
    (r : JobRecord) (owner token : Text) (deadline : ℤ)
    → (r.state ≡ ready) ⊎ (r.state ≡ retry_wait)
    → JobInv r
    → JobInv (leased_to owner token deadline r)
unfolding leased_to
lease_out-JobInv r owner token deadline g v = ground arith

extend-JobInv :
    (r : JobRecord) (deadline : ℤ) → r.state ≡ leased → JobInv r → JobInv (extended deadline r)
unfolding extended
extend-JobInv r deadline g v = ground arith

finish-JobInv :
    (r : JobRecord) (result : Text) → r.state ≡ leased → JobInv r → JobInv (finished result r)
unfolding finished
finish-JobInv r result g v = ground arith

free-JobInv : (r : JobRecord) (now : ℤ) (n : ℕ) → JobInv r → JobInv (freed now n r)
unfolding same_state
free-JobInv r now n v = ground arith

retry-JobInv :
    (r : JobRecord) (c : SchedulerConfig) (j : Text) (now : ℤ)
    → r.state ≡ leased
    → JobInv r
    → JobInv (retried c j now r)
unfolding retried
retry-JobInv r c j now g v = ground arith

cancel-JobInv : (r : JobRecord) → JobInv r → JobInv (cancelled_job r)
unfolding cancelled_job
cancel-JobInv r v = ground arith

-- Every change of a job keeps its invariant.
pub Move-JobInv : {calm : Bool} {r r' : JobRecord} → Move calm r r' → JobInv r → JobInv r'
Move-JobInv {r} (lease_out g owner token deadline e) v =
    rw e (lease_out-JobInv r owner token deadline g v)
Move-JobInv {r} (extend g deadline e) v = rw e (extend-JobInv r deadline g v)
Move-JobInv {r} (finish _ g result e) v = rw e (finish-JobInv r result g v)
Move-JobInv {r} (free _ now n e) v = rw e (free-JobInv r now n v)
Move-JobInv {r} (retry g c j now e) v = rw e (retry-JobInv r c j now g v)
Move-JobInv {r} (cancel e) v = rw e (cancel-JobInv r v)

pub Moves-JobInv : {calm : Bool} {r r' : JobRecord} → Moves calm r r' → JobInv r → JobInv r'
Moves-JobInv stay v = v
Moves-JobInv (next ms m) v = Move-JobInv m (Moves-JobInv ms v)

pub Moves_trans :
    {calm : Bool} {r r' r'' : JobRecord} → Moves calm r r' → Moves calm r' r'' → Moves calm r r''
Moves_trans ms stay = ms
Moves_trans ms (next ks k) = next (Moves_trans ms ks) k

-- The life cycle: which state may follow which, at once.
pub data Follows : JobState → JobState → Type 0 where
  released : Follows pending ready
  claimed : Follows ready leased
  reclaimed : Follows retry_wait leased
  completed : Follows leased succeeded
  failed : Follows leased retry_wait
  exhausted : Follows leased dead_lettered
  cancelled_pending : Follows pending cancelled
  cancelled_ready : Follows ready cancelled
  cancelled_waiting : Follows retry_wait cancelled
  cancelled_leased : Follows leased cancelled

pub data Lives (a : JobState) : JobState → Type 0 where
  same : Lives a a
  followed_by : {b c : JobState} → Lives a b → Follows b c → Lives a c

-- What a job keeps whatever happens to it: its specification; attempts are not taken back; its state
-- goes along the life cycle; and once it has ended it keeps state, result and attempts.
pub record Evolves (r r' : JobRecord) : Type 0 where
  pub same_spec : r'.spec ≡ r.spec
  pub attempts_grow : r.attempts ≤ r'.attempts
  pub lives : Lives r.state r'.state
  pub final :
      is_terminal r.state ≡ true
      → (r'.state ≡ r.state) × (r'.result ≡ r.result) × (r'.attempts ≡ r.attempts)

pub along : {a b : JobState} → Follows a b → Lives a b
along f = followed_by same f

Move_any : {calm : Bool} {r r' : JobRecord} → Move true r r' → Move calm r r'
Move_any (lease_out g owner token deadline e) = lease_out g owner token deadline e
Move_any (extend g deadline e) = extend g deadline e
Move_any (finish c g result e) = cc
Move_any (free c now parents e) = cc
Move_any (retry g c j now e) = retry g c j now e
Move_any (cancel e) = cancel e

pub Moves_any : {calm : Bool} {r r' : JobRecord} → Moves true r r' → Moves calm r r'
Moves_any stay = stay
Moves_any (next ms m) = next (Moves_any ms) (Move_any m)
