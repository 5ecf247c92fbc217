-- ===== src/Scheduler/Claim/Loop.antt =====
-- src/scheduler.rs: the outcomes of `claim`.
use cloud_job_orchestrator.Base.{
  ◌≡◌, refl, true, none, some, List, [], ◌∷◌, arith, ◌⊎◌, inl, inr, ok, Bool-cases, Option-cases,
}
use cloud_job_orchestrator.Base.Int.{ℤ, ◌≤ℤ◌, ltb_ℤ}
use cloud_job_orchestrator.Base.Text.{Text}
use cloud_job_orchestrator.Domain.{ready, retry_wait}
use cloud_job_orchestrator.Scheduler.State.{JobRecord, ReadyKey, Scheduler, find_job, same_state}
use cloud_job_orchestrator.Scheduler.Claim.{grant, claim_loop, is_current}

-- A round of the loop that hands a job out: the entry is current and its time has come.
pub record Granted (s : Scheduler) (now : ℤ) (key : ReadyKey) (r : JobRecord) : Type 0 where
  pub found : find_job key.dag_id key.job_id s.dags ≡ some r
  pub current : is_current key r ≡ true
  pub due : key.available_at_ms ≤ℤ now

-- What the loop leaves, if it hands nothing out.
pub record Idle (s s' : Scheduler) : Type 0 where
  pub dags_same : s'.dags ≡ s.dags
  pub config_same : s'.config ≡ s.config
  pub sequence_same : s'.sequence ≡ s.sequence

module _ (s : Scheduler) (owner : Text) (now lease_ms : ℤ) where
  abbrev pub LoopEnds : List ReadyKey → Type 0
  LoopEnds heap =
      ((claim_loop s owner now lease_ms heap).0 ≡ ok none)
        × Idle s (claim_loop s owner now lease_ms heap).1
      ⊎ ((key : ReadyKey) × (r : JobRecord) × (rest : List ReadyKey) × Granted s now key r
          × (claim_loop s owner now lease_ms heap ≡ grant s key r owner now lease_ms rest))

  claim_loop-step : (key : ReadyKey) (heap : List ReadyKey) → LoopEnds heap → LoopEnds (key ∷ heap)
  unfolding claim_loop
  claim_loop-step key heap ih = elim (Bool-cases (ltb_ℤ now key.available_at_ms)) [
    | inl early ↦
        rw early (inl (refl, record { dags_same = refl; config_same = refl; sequence_same = refl }))
    | inr due ↦ elim (Option-cases (find_job key.dag_id key.job_id s.dags)) [
      | inl e ↦ rw due (rw (e, claim_loop) ih)
      | inr (r, e) ↦ elim (Bool-cases (is_current key r)) [
        | inl c ↦ rw due (
            rw (e, claim_loop)
              (rw c
                (inr (key, r, heap, record { found = e; current = c; due = ground arith }, refl))))
        | inr c ↦ rw due (rw (e, claim_loop) (rw c ih))
      ]
    ]
  ]

  pub claim_loop-LoopEnds : (heap : List ReadyKey) → LoopEnds heap
  unfolding claim_loop
  claim_loop-LoopEnds [] =
      inl (refl, record { dags_same = refl; config_same = refl; sequence_same = refl })
  claim_loop-LoopEnds (key ∷ heap) = claim_loop-step key heap (claim_loop-LoopEnds heap)

pub is_current_state :
    (key : ReadyKey) (r : JobRecord)
    → is_current key r ≡ true
    → (r.state ≡ ready) ⊎ (r.state ≡ retry_wait)
unfolding is_current same_state
is_current_state key r h = ground arith
