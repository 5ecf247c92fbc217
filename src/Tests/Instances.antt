-- ===== src/Tests/Instances.antt =====
-- Instances of the theorems about histories, claims, leases and retries, on the chain of two jobs.
use mathlib.Core.Option
use cloud_job_orchestrator.Base.{
  ◌≤◌, ◌≡◌, refl, arith, none, some, [], ◌∷◌, ok, err, true, ◌⊎◌, ◌↔◌, length, has_value,
  if◌then◌else◌,
}
use cloud_job_orchestrator.Base.Int.{pos, ◌≤ℤ◌, ◌<ℤ◌, saturating_add}
use cloud_job_orchestrator.Base.Text.{Text, bytes, count_text, eq_text}
use cloud_job_orchestrator.Domain.{pending, ready, leased, succeeded, max_payload_bytes}
use cloud_job_orchestrator.Scheduler.State.{
  Lease, JobRecord, Scheduler, SchedulerError, default_config, new, find_job,
}
use cloud_job_orchestrator.Scheduler.Claim.{reap, claim, claim_is_invalid}
use cloud_job_orchestrator.Scheduler.Lease.{heartbeat, complete, finished}
use cloud_job_orchestrator.Scheduler.Release.{freed, children}
use cloud_job_orchestrator.Scheduler.Cas.{Owns, HoldsLease}
use cloud_job_orchestrator.Scheduler.Cas.Complete.{complete_iff, find_job-complete}
use cloud_job_orchestrator.Scheduler.Cas.Heartbeat.{heartbeat_iff}
use cloud_job_orchestrator.Scheduler.Machine.{Evolves}
use cloud_job_orchestrator.Scheduler.Run.{run, Inv, new-Inv, run-Inv, claims}
use cloud_job_orchestrator.Scheduler.Run.Lifecycle.{run-Evolves, run-new_job}
use cloud_job_orchestrator.Scheduler.Edges.{has_succeeded}
use cloud_job_orchestrator.Scheduler.Edges.Steps.{released_after_parents, was_released}
use cloud_job_orchestrator.Scheduler.Heap.Claims.{NoneDue}
use cloud_job_orchestrator.Scheduler.Heap.Steps.{claim_picks_first, HandsOutFirst, reaped_run}
use cloud_job_orchestrator.Scheduler.Exclusive.{claim_keeps_running_lease}
use cloud_job_orchestrator.Scheduler.Late.{late_completion_is_refused}
use cloud_job_orchestrator.Tests.Runs.{program}
use cloud_job_orchestrator.Tests.Samples.{
  claimed_calls, completed_calls, first_token, chain_id, extract, publish, worker_a, worker_b, job,
}

abbrev claimed_run : Scheduler
claimed_run = run (new default_config) claimed_calls

abbrev completed_run : Scheduler
completed_run = run (new default_config) completed_calls

abbrev first_lease : Lease
first_lease = record { owner = worker_a; token = first_token; expires_at_ms = pos 101 }

-- The first job while it is leased.
abbrev leased_extract : JobRecord
leased_extract = record {
  spec = job extract (pos 1) 3;
  state = leased;
  attempts = 1;
  available_at_ms = pos 0;
  remaining_dependencies = 0;
  lease = some first_lease;
  result = none;
}

abbrev pending_publish : JobRecord
pending_publish = record {
  spec = job publish (pos 0) 3;
  state = pending;
  attempts = 0;
  available_at_ms = pos 0;
  remaining_dependencies = 1;
  lease = none;
  result = none;
}

-- The second job once the first has succeeded.
abbrev ready_publish : JobRecord
ready_publish = record pending_publish {
  state = ready;
  available_at_ms = pos 3;
  remaining_dependencies = 0;
}

found_extract : find_job chain_id extract claimed_run.dags ≡ some leased_extract
unfolding program
found_extract = refl

found_publish : find_job chain_id publish completed_run.dags ≡ some ready_publish
unfolding program
found_publish = refl

Owns-extract : Owns leased_extract worker_a first_token (pos 3)
Owns-extract = record {
  lease = first_lease;
  held = refl;
  is_leased = refl;
  owner_matches = refl;
  token_matches = refl;
  in_time = omega arith;
}

claimed-Inv : Inv claimed_run
claimed-Inv = run-Inv (new default_config) claimed_calls (new-Inv default_config)

released_after_parents_example : has_succeeded completed_run.dags chain_id extract ≡ true
unfolding program count_text was_released
released_after_parents_example =
    released_after_parents default_config completed_calls chain_id extract publish ready_publish
      found_publish refl (omega arith)

claim_picks_first_example :
    ((claim completed_run worker_b (pos 4) (pos 100)).0 ≡ ok none)
      × NoneDue (reaped_run default_config completed_calls worker_b (pos 4) (pos 100)) (pos 4)
    ⊎ HandsOutFirst default_config completed_calls worker_b (pos 4) (pos 100)
unfolding claim_is_invalid program
claim_picks_first_example =
    claim_picks_first default_config completed_calls worker_b (pos 4) (pos 100) refl

run-Evolves_example :
    (r' : JobRecord) × (find_job chain_id extract
        (run claimed_run (claims worker_b (pos 200) (pos 50) ∷ [])).dags
      ≡ some r')
    × Evolves leased_extract r'
run-Evolves_example =
    run-Evolves claimed_run (claims worker_b (pos 200) (pos 50) ∷ []) chain_id extract
      leased_extract claimed-Inv found_extract

run-new_job_example :
    ((leased_extract.state ≡ leased) ↔ (has_value leased_extract.lease ≡ true))
    × ((leased_extract.state ≡ succeeded) ↔ (has_value leased_extract.result ≡ true))
    × (leased_extract.attempts ≤ leased_extract.spec.max_attempts)
    × (leased_extract.spec.max_attempts ≤ 20)
run-new_job_example =
    run-new_job default_config claimed_calls chain_id extract leased_extract found_extract

complete_iff_example :
    ((complete claimed_run chain_id extract worker_a first_token (bytes "ok") (pos 3)).0 ≡ ok tt)
    ↔ ((length (bytes "ok") ≤ max_payload_bytes)
        × HoldsLease claimed_run chain_id extract worker_a first_token (pos 3))
complete_iff_example =
    complete_iff claimed_run chain_id extract worker_a first_token (bytes "ok") (pos 3)
      (claimed-Inv.linked chain_id extract)

find_job-complete_example :
    find_job chain_id publish
      (complete claimed_run chain_id extract worker_a first_token (bytes "ok") (pos 3)).1.dags
    ≡ (if eq_text chain_id chain_id
        then Option.map
            (freed (pos 3) (count_text publish (children chain_id extract claimed_run.dags)))
            (if eq_text extract publish
              then Option.map (finished (bytes "ok")) (find_job chain_id publish claimed_run.dags)
              else find_job chain_id publish claimed_run.dags)
        else find_job chain_id publish claimed_run.dags)
unfolding program
find_job-complete_example =
    find_job-complete claimed_run chain_id extract worker_a first_token (bytes "ok") (pos 3)
      (claimed-Inv.linked chain_id extract) chain_id publish refl

heartbeat_iff_example :
    ((heartbeat claimed_run chain_id extract worker_a first_token (pos 3) (pos 50)).0 ≡ ok (pos 53))
    ↔ ((pos 0 <ℤ pos 50)
        × (pos 50 ≤ℤ claimed_run.config.max_lease_ms)
        × HoldsLease claimed_run chain_id extract worker_a first_token (pos 3)
        × (pos 53 ≡ saturating_add (pos 3) (pos 50)))
heartbeat_iff_example =
    heartbeat_iff claimed_run chain_id extract worker_a first_token (pos 3) (pos 50) (pos 53)

late_completion_is_refused_example :
    (e : SchedulerError) × (complete
        (reap claimed_run (pos 101)).1
        chain_id
        extract
        worker_a
        first_token
        (bytes "late")
        (pos 102)
      ≡ (err e, (reap claimed_run (pos 101)).1))
late_completion_is_refused_example =
    late_completion_is_refused claimed_run chain_id extract leased_extract first_lease (pos 101)
      claimed-Inv.distinct found_extract refl refl (omega arith) worker_a first_token (bytes "late")
      (pos 102)

claim_keeps_running_lease_example :
    find_job chain_id extract (claim claimed_run worker_b (pos 100) (pos 50)).1.dags
    ≡ some leased_extract
claim_keeps_running_lease_example =
    claim_keeps_running_lease claimed_run worker_b chain_id extract (pos 100) (pos 50)
      leased_extract first_lease claimed-Inv.distinct found_extract refl refl (omega arith)
