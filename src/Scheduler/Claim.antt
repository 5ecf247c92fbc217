-- ===== src/Scheduler/Claim.antt =====
-- src/scheduler.rs: `reap` and `claim`.
pub mod Loop
use cloud_job_orchestrator.Base.{
  ℕ, ◌+◌, ◌-◌, ◌^◌, min, Bool, false, ◌&&◌, ◌||◌, Option, none, some, List, [], ◌∷◌, ◌++◌, ltb,
  length, if◌then◌else◌, ok, err,
}
use cloud_job_orchestrator.Base.Int.{ℤ, pos, ltb_ℤ, leb_ℤ, eq_ℤ, saturating_add}
use cloud_job_orchestrator.Base.Text.{Text, bytes, is_empty, print_ℕ}
use cloud_job_orchestrator.Base.Map.{Map}
use cloud_job_orchestrator.Domain.{ready, retry_wait, leased}
use cloud_job_orchestrator.Scheduler.State.{
  SchedulerConfig, Lease, JobRecord, DagRecord, ReadyKey, ClaimedJob, Scheduler, invalid_lease,
  Outcome, same_state, find_job, update_job,
}
use cloud_job_orchestrator.Scheduler.Retry.{retry_or_dead_letter}

abbrev pub lease_expired : ℤ → Option Lease → Bool
lease_expired now_ms none = false
lease_expired now_ms (some lease) = leb_ℤ lease.expires_at_ms now_ms

-- The filter of `reap`.
unfoldable pub is_expired : ℤ → JobRecord → Bool
is_expired now_ms job = same_state job.state leased && lease_expired now_ms job.lease

unfoldable pub expired_jobs : ℤ → Text → Map JobRecord → List (Text × Text)
unfolding is_expired
expired_jobs now_ms dag_id [] = []
expired_jobs now_ms dag_id ((job_id, job) ∷ jobs) =
    let rest = expired_jobs now_ms dag_id jobs in
    if is_expired now_ms job then (dag_id, job_id) ∷ rest else rest

unfoldable pub expired : ℤ → Map DagRecord → List (Text × Text)
unfolding expired_jobs
expired now_ms [] = []
expired now_ms ((dag_id, dag) ∷ dags) = expired_jobs now_ms dag_id dag.jobs ++ expired now_ms dags

-- The loop drops each result.
unfoldable pub retry_all : ℤ → Scheduler → List (Text × Text) → Scheduler
retry_all now_ms s [] = s
retry_all now_ms s ((dag_id, job_id) ∷ rest) =
    retry_all now_ms (retry_or_dead_letter s dag_id job_id now_ms).1 rest

unfoldable pub reap : Scheduler → ℤ → ℕ × Scheduler
reap s now_ms = (length (expired now_ms s.dags), retry_all now_ms s (expired now_ms s.dags))

-- `sequence.saturating_add(1)` of a u64.
unfoldable pub next_sequence : ℕ → ℕ
next_sequence n = min (n + 1) (2 ^ 64 - 1)

-- `attempts.saturating_add(1)` of a u16.
unfoldable pub next_attempt : ℕ → ℕ
next_attempt n = min (n + 1) (2 ^ 16 - 1)

unfoldable pub lease_token : Text → Text → ℕ → Text
lease_token dag_id job_id sequence =
    bytes "lease-" ++ (dag_id ++ (b'-' ∷ (job_id ++ (b'-' ∷ print_ℕ sequence))))

-- The entry is current: the job waits to be claimed, since the time that the key names.
unfoldable pub is_current : ReadyKey → JobRecord → Bool
is_current key job =
    (same_state job.state ready || same_state job.state retry_wait)
    && eq_ℤ job.available_at_ms key.available_at_ms

unfoldable pub leased_to : Text → Text → ℤ → JobRecord → JobRecord
unfolding next_attempt
leased_to owner token expires_at_ms job = record job {
  attempts = next_attempt job.attempts;
  state = leased;
  lease = some (record { owner = owner; token = token; expires_at_ms = expires_at_ms });
}

unfoldable pub grant :
    Scheduler → ReadyKey → JobRecord → Text → ℤ → ℤ → List ReadyKey → Outcome (Option ClaimedJob)
unfolding next_sequence lease_token leased_to
grant s key job owner now_ms lease_ms heap =
    let sequence = next_sequence s.sequence in
    let token = lease_token key.dag_id key.job_id sequence in
    let expires_at_ms = saturating_add now_ms lease_ms in
    (
      ok (
          some (record {
            dag_id = key.dag_id;
            job_id = key.job_id;
            kind = job.spec.kind;
            payload = job.spec.payload;
            attempt = next_attempt job.attempts;
            lease_token = token;
            lease_expires_at_ms = expires_at_ms;
          })),
      record s {
        dags = update_job key.dag_id key.job_id (leased_to owner token expires_at_ms) s.dags;
        ready = heap;
        sequence = sequence;
      },
    )

-- The loop, by recursion on the heap: each round that goes on has popped an entry.
unfoldable pub claim_loop : Scheduler → Text → ℤ → ℤ → List ReadyKey → Outcome (Option ClaimedJob)
unfolding is_current grant
claim_loop s owner now_ms lease_ms [] = (ok none, record s { ready = [] })
claim_loop s owner now_ms lease_ms (key ∷ heap) =
    let later = claim_loop s owner now_ms lease_ms heap in
    if ltb_ℤ now_ms key.available_at_ms
    then (ok none, record s { ready = key ∷ heap })
    else elim (find_job key.dag_id key.job_id s.dags) [
      | none ↦ later
      | some job ↦ if is_current key job then grant s key job owner now_ms lease_ms heap else later
    ]

unfoldable pub claim_is_invalid : SchedulerConfig → Text → ℤ → Bool
claim_is_invalid config owner lease_ms =
    is_empty owner
    || ltb 64 (length owner)
    || leb_ℤ lease_ms (pos 0)
    || ltb_ℤ config.max_lease_ms lease_ms

unfoldable pub claim : Scheduler → Text → ℤ → ℤ → Outcome (Option ClaimedJob)
unfolding claim_is_invalid
claim s owner now_ms lease_ms =
    if claim_is_invalid s.config owner lease_ms
    then (err invalid_lease, s)
    else let s' = (reap s now_ms).1 in claim_loop s' owner now_ms lease_ms s'.ready
