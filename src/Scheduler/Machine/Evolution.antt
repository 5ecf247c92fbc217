-- ===== src/Scheduler/Machine/Evolution.antt =====
-- src/scheduler.rs: the changes of a job along the life cycle.
use cloud_job_orchestrator.Base.{
  ℕ, ◌≤◌, ◌≡◌, refl, Bool, true, false, arith, ◌⊎◌, inl, inr, ◌∙◌, ap,
}
use cloud_job_orchestrator.Base.Int.{ℤ}
use cloud_job_orchestrator.Base.Text.{Text}
use cloud_job_orchestrator.Domain.{
  JobState, pending, ready, retry_wait, leased, succeeded, dead_lettered, cancelled,
}
use cloud_job_orchestrator.Scheduler.State.{SchedulerConfig, JobRecord, same_state}
use cloud_job_orchestrator.Scheduler.Retry.{retried}
use cloud_job_orchestrator.Scheduler.Claim.{leased_to}
use cloud_job_orchestrator.Scheduler.Lease.{extended, finished, cancelled_job, is_terminal}
use cloud_job_orchestrator.Scheduler.Release.{freed}
use cloud_job_orchestrator.Scheduler.Machine.{
  Move, lease_out, extend, finish, free, retry, cancel, Moves, stay, next, JobInv, released,
  claimed, reclaimed, completed, failed, exhausted, cancelled_pending, cancelled_ready,
  cancelled_waiting, cancelled_leased, Lives, same, followed_by, along, Evolves, Moves-JobInv,
}

Lives-between : {a a' b b' : JobState} → a ≡ a' → b ≡ b' → Lives a' b' → Lives a b
Lives-between p q l = rw (p, q) l

pub Lives-trans : {a b c : JobState} → Lives a b → Lives b c → Lives a c
Lives-trans l same = l
Lives-trans l (followed_by k f) = followed_by (Lives-trans l k) f

freed_state :
    (now : ℤ) (n : ℕ) (r : JobRecord)
    → (r.state ≡ pending) × ((freed now n r).state ≡ ready) ⊎ ((freed now n r).state ≡ r.state)
unfolding same_state
freed_state now n r = ground arith

retried_state :
    (c : SchedulerConfig) (j : Text) (now : ℤ) (r : JobRecord)
    → ((retried c j now r).state ≡ dead_lettered) ⊎ ((retried c j now r).state ≡ retry_wait)
unfolding retried
retried_state c j now r = ground arith

pub cancel-Lives : (a : JobState) → is_terminal a ≡ false → Lives a cancelled
unfolding is_terminal
cancel-Lives pending h = along cancelled_pending
cancel-Lives ready h = along cancelled_ready
cancel-Lives retry_wait h = along cancelled_waiting
cancel-Lives leased h = along cancelled_leased
cancel-Lives succeeded h = cc
cancel-Lives dead_lettered h = cc
cancel-Lives cancelled h = cc

cancelled_state :
    (r : JobRecord)
    → ((cancelled_job r).state ≡ r.state)
      ⊎ ((is_terminal r.state ≡ false) × ((cancelled_job r).state ≡ cancelled))
unfolding cancelled_job
cancelled_state r = ground arith

lease_out-Lives :
    (r : JobRecord) (owner token : Text) (deadline : ℤ)
    → (r.state ≡ ready) ⊎ (r.state ≡ retry_wait)
    → Lives r.state (leased_to owner token deadline r).state
unfolding leased_to
lease_out-Lives r owner token deadline (inl g) = Lives-between g refl (along claimed)
lease_out-Lives r owner token deadline (inr g) = Lives-between g refl (along reclaimed)

retry-Lives :
    (c : SchedulerConfig) (j : Text) (now : ℤ) (r : JobRecord)
    → r.state ≡ leased
    → Lives r.state (retried c j now r).state
retry-Lives c j now r g = elim (retried_state c j now r) [
  | inl e ↦ Lives-between g e (along exhausted)
  | inr e ↦ Lives-between g e (along failed)
]

free-Lives : (now : ℤ) (n : ℕ) (r : JobRecord) → Lives r.state (freed now n r).state
free-Lives now n r = elim (freed_state now n r) [
  | inl (g, e) ↦ Lives-between g e (along released)
  | inr e ↦ Lives-between refl e same
]

cancel_job-Lives : (r : JobRecord) → Lives r.state (cancelled_job r).state
cancel_job-Lives r = elim (cancelled_state r) [
  | inl e ↦ Lives-between refl e same
  | inr (h, e) ↦ Lives-between refl e (cancel-Lives r.state h)
]

Move-Lives : {calm : Bool} {r r' : JobRecord} → Move calm r r' → Lives r.state r'.state
unfolding finished extended
Move-Lives {r} (lease_out g owner token deadline e) =
    Lives-between refl (ap (λ x. x.state) e) (lease_out-Lives r owner token deadline g)
Move-Lives {r} (extend g deadline e) = Lives-between refl (ap (λ x. x.state) e) same
Move-Lives {r} (finish _ g result e) = Lives-between g (ap (λ x. x.state) e) (along completed)
Move-Lives {r} (free _ now n e) = Lives-between refl (ap (λ x. x.state) e) (free-Lives now n r)
Move-Lives {r} (retry g c j now e) =
    Lives-between refl (ap (λ x. x.state) e) (retry-Lives c j now r g)
Move-Lives {r} (cancel e) = Lives-between refl (ap (λ x. x.state) e) (cancel_job-Lives r)

abbrev Fixed : JobRecord → JobRecord → Type 0
Fixed r r' =
    (r'.spec ≡ r.spec)
    × (r.attempts ≤ r'.attempts)
    × (is_terminal r.state ≡ true
        → (r'.state ≡ r.state) × (r'.result ≡ r.result) × (r'.attempts ≡ r.attempts))

lease_out-Fixed :
    (r : JobRecord) (owner token : Text) (deadline : ℤ)
    → (r.state ≡ ready) ⊎ (r.state ≡ retry_wait)
    → JobInv r
    → Fixed r (leased_to owner token deadline r)
unfolding leased_to is_terminal
lease_out-Fixed r owner token deadline g v = (refl, ground arith, λ h. ground arith)

extend-Fixed : (r : JobRecord) (deadline : ℤ) → Fixed r (extended deadline r)
unfolding extended
extend-Fixed r deadline = (refl, ground arith, λ h. ground arith)

finish-Fixed : (r : JobRecord) (result : Text) → r.state ≡ leased → Fixed r (finished result r)
unfolding finished is_terminal
finish-Fixed r result g = (refl, ground arith, λ h. ground arith)

free-Fixed : (r : JobRecord) (now : ℤ) (n : ℕ) → Fixed r (freed now n r)
unfolding same_state is_terminal
free-Fixed r now n = (ground arith, ground arith, λ h. ground arith)

retry-Fixed :
    (r : JobRecord) (c : SchedulerConfig) (j : Text) (now : ℤ)
    → r.state ≡ leased
    → Fixed r (retried c j now r)
unfolding retried is_terminal
retry-Fixed r c j now g = (ground arith, ground arith, λ h. ground arith)

cancel-Fixed : (r : JobRecord) → Fixed r (cancelled_job r)
unfolding cancelled_job
cancel-Fixed r = (ground arith, ground arith, λ h. ground arith)

Move-Fixed : {calm : Bool} {r r' : JobRecord} → Move calm r r' → JobInv r → Fixed r r'
Move-Fixed {r} (lease_out g owner token deadline e) v =
    rw e (lease_out-Fixed r owner token deadline g v)
Move-Fixed {r} (extend g deadline e) v = rw e (extend-Fixed r deadline)
Move-Fixed {r} (finish _ g result e) v = rw e (finish-Fixed r result g)
Move-Fixed {r} (free _ now n e) v = rw e (free-Fixed r now n)
Move-Fixed {r} (retry g c j now e) v = rw e (retry-Fixed r c j now g)
Move-Fixed {r} (cancel e) v = rw e (cancel-Fixed r)

pub Move-Evolves : {calm : Bool} {r r' : JobRecord} → Move calm r r' → JobInv r → Evolves r r'
Move-Evolves m v =
    let (spec, attempts, final) = Move-Fixed m v in
    record { same_spec = spec; attempts_grow = attempts; lives = Move-Lives m; final = final }

pub Evolves-refl : (r : JobRecord) → Evolves r r
Evolves-refl r = record {
  same_spec = refl;
  attempts_grow = ground arith;
  lives = same;
  final = λ h. (refl, refl, refl);
}

pub Evolves-trans : {r r' r'' : JobRecord} → Evolves r r' → Evolves r' r'' → Evolves r r''
Evolves-trans a b = record {
  same_spec = b.same_spec ∙ a.same_spec;
  attempts_grow = omega (arith, a.attempts_grow, b.attempts_grow);
  lives = Lives-trans a.lives b.lives;
  final = λ h.
      let (s, t, n) = a.final h in let (s', t', n') = b.final (rw s h) in (s' ∙ s, t' ∙ t, n' ∙ n);
}

-- Any sequence of changes of a job goes along the life cycle and leaves an ended job as it is.
pub Moves-Evolves : {calm : Bool} {r r' : JobRecord} → Moves calm r r' → JobInv r → Evolves r r'
Moves-Evolves {r} stay v = Evolves-refl r
Moves-Evolves (next ms m) v =
    Evolves-trans (Moves-Evolves ms v) (Move-Evolves m (Moves-JobInv ms v))
