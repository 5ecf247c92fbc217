-- ===== src/Tests/Runs.antt =====
-- The tests of domain.rs and scheduler.rs, by evaluation.
use cloud_job_orchestrator.Base.{◌≡◌, refl, Option, none, some, List, [], ◌∷◌, Result, ok, err}
use mathlib.Core.Option
use cloud_job_orchestrator.Base.Int.{pos, saturating_add, saturating_mul, saturating_sub16, div5}
use cloud_job_orchestrator.Base.Order.{sort, insert_sorted}
use cloud_job_orchestrator.Base.Text.{Text, bytes, parse_u64, print_ℕ}
use cloud_job_orchestrator.Base.Map.{lookup, contains_key, insert, adjust, map_values}
use cloud_job_orchestrator.Domain.{cycle, DagSpec, JobState, retry_wait, dead_lettered}
use cloud_job_orchestrator.Domain.Validate.{
  validate, validate_payload, validate_identifier, admit_jobs, admit_job, admit_edges, admit_edge,
  kahn, relax, topological_order, zero_keys, decrement, push_edge,
}
use cloud_job_orchestrator.Scheduler.State.{
  SchedulerConfig, Scheduler, ClaimedJob, SchedulerError, lease_conflict, default_config, new,
  find_job, job_mut, update_job, push_ready, ready_key, key_le, same_state,
}
use cloud_job_orchestrator.Scheduler.Retry.{
  retry_or_dead_letter, retry_at, bounded_delay, deterministic_jitter, fail,
}
use cloud_job_orchestrator.Scheduler.Submit.{
  submit, submit_checks, admit, dependency_counts, sorted_dependents, count_zeros,
}
use cloud_job_orchestrator.Scheduler.Claim.{claim, claim_loop, reap, retry_all, expired}
use cloud_job_orchestrator.Scheduler.Lease.{
  heartbeat, complete, cancel, snapshot, commit, cancel_dag,
}
use cloud_job_orchestrator.Scheduler.Run.{step, run, Call, submits, claims}
use cloud_job_orchestrator.Tests.Samples.{
  diamond, cyclic, chain, priorities, submitted, claimed_calls, completed_calls, first_token,
  chain_id, extract, publish, worker_a, worker_b, job,
}

-- Opens what a run of the validation computes with.
unfoldable pub domain_program : Unit {0}
unfolding validate validate_identifier validate_payload admit_jobs admit_job admit_edges admit_edge
    topological_order kahn relax zero_keys decrement push_edge lookup contains_key insert adjust
    sort insert_sorted parse_u64
domain_program = tt

order_is_stable : validate diamond ≡ ok (bytes "a" ∷ bytes "b" ∷ bytes "c" ∷ [])
unfolding domain_program
order_is_stable = refl

cycle_is_rejected : validate cyclic ≡ err cycle
unfolding domain_program
cycle_is_rejected = refl

numbers :
    (parse_u64 (bytes "+5000") ≡ some 5000)
    × (parse_u64 (bytes "18446744073709551616") ≡ none)
    × (parse_u64 (bytes "-1") ≡ none)
    × (print_ℕ 1024 ≡ bytes "1024")
unfolding parse_u64 print_ℕ
numbers = (refl, refl, refl, refl)

unfoldable pub program : Unit {0}
unfolding domain_program new submit submit_checks admit dependency_counts sorted_dependents
    count_zeros map_values claim claim_loop reap retry_all expired retry_or_dead_letter retry_at
    bounded_delay deterministic_jitter saturating_add saturating_mul saturating_sub16 div5 find_job
    job_mut update_job push_ready ready_key key_le same_state fail heartbeat complete commit cancel
    cancel_dag snapshot step run print_ℕ
program = tt

state_of : Text → Text → Scheduler → Option JobState
unfolding find_job
state_of d j s = Option.map (λ r. r.state) (find_job d j s.dags)

abbrev job_of : Result SchedulerError (Option ClaimedJob) → Option Text
job_of (ok (some claim)) = some claim.job_id
job_of _ = none

-- The chain: only `extract` can be claimed, until it has succeeded.
dependent_is_released_only_after_success :
    (job_of (claim (run (new default_config) submitted) worker_a (pos 1) (pos 100)).0
      ≡ some extract)
    × ((claim (run (new default_config) claimed_calls) worker_b (pos 2) (pos 100)).0 ≡ ok none)
    × (job_of (claim (run (new default_config) completed_calls) worker_b (pos 4) (pos 100)).0
        ≡ some publish)
unfolding program
dependent_is_released_only_after_success = (refl, refl, refl)

abbrev short_retries : SchedulerConfig
short_retries = record default_config { base_retry_ms = pos 10; max_retry_ms = pos 10 }

abbrev expired_calls : List Call
expired_calls = submits chain (pos 0) ∷ claims worker_a (pos 0) (pos 5) ∷ []

expired_lease_retries_and_rejects_late_completion :
    ((reap (run (new short_retries) expired_calls) (pos 5)).0 ≡ 1)
    × ((complete
          (reap (run (new short_retries) expired_calls) (pos 5)).1
          chain_id
          extract
          worker_a
          first_token
          (bytes "late")
          (pos 5)).0
        ≡ err lease_conflict)
    × (state_of chain_id extract (reap (run (new short_retries) expired_calls) (pos 5)).1
        ≡ some retry_wait)
unfolding program state_of
expired_lease_retries_and_rejects_late_completion = (refl, refl, refl)

abbrev fragile : DagSpec
fragile = record {
  id = bytes "dlq";
  jobs = job (bytes "fragile") (pos 0) 1 ∷ [];
  dependencies = [];
}

dead_letters_after_attempt_budget :
    (fail
      (run (new default_config) (submits fragile (pos 0) ∷ claims worker_a (pos 0) (pos 5) ∷ []))
      (bytes "dlq")
      (bytes "fragile")
      worker_a
      (bytes "lease-dlq-fragile-1")
      (pos 1)).0
    ≡ ok dead_lettered
unfolding program
dead_letters_after_attempt_budget = refl

cancellation_invalidates_a_live_lease :
    ((cancel (run (new default_config) claimed_calls) chain_id).0 ≡ ok 2)
    × ((heartbeat
          (cancel (run (new default_config) claimed_calls) chain_id).1
          chain_id
          extract
          worker_a
          first_token
          (pos 1)
          (pos 100)).0
        ≡ err lease_conflict)
unfolding program
cancellation_invalidates_a_live_lease = (refl, refl)

higher_priority_job_is_claimed_first :
    job_of
      (claim
        (run (new default_config) (submits priorities (pos 0) ∷ []))
        worker_a
        (pos 0)
        (pos 100)).0
    ≡ some (bytes "high")
unfolding program
higher_priority_job_is_claimed_first = refl
