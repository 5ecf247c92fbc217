-- ===== src/Scheduler/Cas/Fail.antt =====
-- src/scheduler.rs: `fail`: whose failures it accepts, and what it changes.
use mathlib.Core.Option
use cloud_job_orchestrator.Base.{◌≡◌, ◌≤◌, ◌<◌, none, arith, err}
use cloud_job_orchestrator.Base.Int.{ℤ}
use cloud_job_orchestrator.Base.Text.{Text}
use cloud_job_orchestrator.Domain.{JobState, retry_wait, dead_lettered}
use cloud_job_orchestrator.Scheduler.State.{JobRecord, Scheduler, SchedulerError}
use cloud_job_orchestrator.Scheduler.Retry.{retry_at, retry_or_dead_letter, fail}

-- What a failure makes of the record of the job, and the state that it reports.
pub record FailedJob (s : Scheduler) (j : Text) (now : ℤ) (r r' : JobRecord) (state : JobState)
    : Type 0 where
  pub reported : r'.state ≡ state
  pub exhausted : r.spec.max_attempts ≤ r.attempts → r'.state ≡ dead_lettered
  pub retries : r.attempts < r.spec.max_attempts → r'.state ≡ retry_wait
  pub waits :
      r.attempts < r.spec.max_attempts → r'.available_at_ms ≡ retry_at s.config j r.attempts now
  pub no_lease : r'.lease ≡ none
  pub same_spec : r'.spec ≡ r.spec
  pub same_attempts : r'.attempts ≡ r.attempts
  pub same_result : r'.result ≡ r.result

module _ (s : Scheduler) (d j owner token : Text) (now : ℤ) where
  abbrev after : Scheduler
  after = (fail s d j owner token now).1

  -- A call of `fail` that fails leaves the scheduler as it was.
  pub fail_atomic : (e : SchedulerError) → (fail s d j owner token now).0 ≡ err e → after ≡ s
  unfolding fail retry_or_dead_letter
  fail_atomic e h = ground arith
