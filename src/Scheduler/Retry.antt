-- ===== src/Scheduler/Retry.antt =====
-- src/scheduler.rs: the jitter, the backoff, `retry_or_dead_letter`, `assert_lease` and `fail`.
use cloud_job_orchestrator.Base.{
  ℕ, ◌+◌, ◌-◌, ◌*◌, ◌%◌, ◌^◌, min, Bool, ◌&&◌, none, some, [], ◌∷◌, leb, if◌then◌else◌, Result, ok,
  err, ◌>>=◌,
}
use cloud_job_orchestrator.Base.Int.{
  ℤ, pos, pos_part, ltb_ℤ, leb_ℤ, min_ℤ, div5, saturating_add, saturating_mul,
}
use cloud_job_orchestrator.Base.Text.{Text, eq_text}
use cloud_job_orchestrator.Domain.{JobState, leased, retry_wait, dead_lettered}
use cloud_job_orchestrator.Scheduler.State.{
  SchedulerConfig, Lease, JobRecord, Scheduler, SchedulerError, lease_conflict, Outcome, same_state,
  job_mut, update_job, push_ready,
}

-- The fold over the bytes, modulo 2^64.
unfoldable pub hash_bytes : ℕ → Text → ℕ
hash_bytes value [] = value
hash_bytes value (byte ∷ rest) = hash_bytes ((value * 31 % 2 ^ 64 + byte) % 2 ^ 64) rest

-- The conversions do not fail: the ceiling is positive, and the remainder is below it.
unfoldable pub deterministic_jitter : Text → ℤ → ℤ
unfolding hash_bytes
deterministic_jitter job_id ceiling =
    if leb_ℤ ceiling (pos 0) then pos 0 else pos (hash_bytes 0 job_id % pos_part ceiling)

-- `base.min(max_retry_ms)`, at 2^(attempts - 1) with an exponent of at most 16.
unfoldable pub bounded_delay : SchedulerConfig → ℕ → ℤ
bounded_delay config attempts =
    min_ℤ (saturating_mul config.base_retry_ms (pos (2 ^ min (attempts - 1) 16)))
      config.max_retry_ms

unfoldable pub retry_at : SchedulerConfig → Text → ℕ → ℤ → ℤ
retry_at config job_id attempts now_ms =
    let bounded = bounded_delay config attempts in
    saturating_add (saturating_add now_ms bounded) (deterministic_jitter job_id (div5 bounded))

unfoldable pub is_exhausted : JobRecord → Bool
is_exhausted job = leb job.spec.max_attempts job.attempts

-- What `retry_or_dead_letter` makes of the job.
unfoldable pub retried : SchedulerConfig → Text → ℤ → JobRecord → JobRecord
unfolding is_exhausted
retried config job_id now_ms job =
    if is_exhausted job then record job { lease = none; state = dead_lettered } else record job {
      lease = none;
      available_at_ms = retry_at config job_id job.attempts now_ms;
      state = retry_wait;
    }

unfoldable pub retry_or_dead_letter : Scheduler → Text → Text → ℤ → Outcome JobState
unfolding retried is_exhausted
retry_or_dead_letter s dag_id job_id now_ms = elim (job_mut s dag_id job_id) [
  | err e ↦ (err e, s)
  | ok job ↦
      let job' = retried s.config job_id now_ms job in
      let dags = update_job dag_id job_id (retried s.config job_id now_ms) s.dags in
      if is_exhausted job then (ok dead_lettered, record s { dags = dags }) else (
        ok retry_wait,
        record s { dags = dags; ready = push_ready dag_id job.spec job'.available_at_ms s.ready },
      )
]

-- Does this lease, on a job in this state, belong to the caller, and is it still running?
unfoldable pub lease_matches : JobState → Lease → Text → Text → ℤ → Bool
lease_matches state lease owner token now_ms =
    same_state state leased
    && eq_text lease.owner owner
    && eq_text lease.token token
    && ltb_ℤ now_ms lease.expires_at_ms

unfoldable pub check_lease : JobRecord → Text → Text → ℤ → Result SchedulerError (Unit {0})
unfolding lease_matches
check_lease job owner token now_ms = elim job.lease [
  | none ↦ err lease_conflict
  | some lease ↦
      if lease_matches job.state lease owner token now_ms then ok tt else err lease_conflict
]

unfoldable pub assert_lease :
    Scheduler → Text → Text → Text → Text → ℤ → Result SchedulerError (Unit {0})
unfolding check_lease
assert_lease s dag_id job_id owner token now_ms = do
  job ← job_mut s dag_id job_id
  check_lease job owner token now_ms

unfoldable pub fail : Scheduler → Text → Text → Text → Text → ℤ → Outcome JobState
unfolding assert_lease
fail s dag_id job_id owner token now_ms = elim (assert_lease s dag_id job_id owner token now_ms) [
  | err e ↦ (err e, s)
  | ok _ ↦ retry_or_dead_letter s dag_id job_id now_ms
]
