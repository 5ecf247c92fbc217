-- ===== src/Tests/Samples.antt =====
-- Concrete submissions, those of the tests in domain.rs and scheduler.rs among them.
use cloud_job_orchestrator.Base.{ℕ, List, [], ◌∷◌}
use cloud_job_orchestrator.Base.Int.{ℤ, pos, negsuc}
use cloud_job_orchestrator.Base.Text.{Text, bytes}
use cloud_job_orchestrator.Domain.{uppercase, JobSpec, Dependency, DagSpec}
use cloud_job_orchestrator.Scheduler.Run.{Call, submits, claims, completes}

abbrev pub job : Text → ℤ → ℕ → JobSpec
job id priority max_attempts = record {
  id = id;
  kind = uppercase;
  payload = id;
  max_attempts = max_attempts;
  priority = priority;
}

abbrev pub edge : Text → Text → Dependency
edge from to = record { from = from; to = to }

abbrev pub extract : Text
extract = bytes "extract"

abbrev pub publish : Text
publish = bytes "publish"

abbrev pub chain_id : Text
chain_id = bytes "chain"

abbrev pub worker_a : Text
worker_a = bytes "worker-a"

abbrev pub worker_b : Text
worker_b = bytes "worker-b"

-- Two parents and a child, listed backwards.
abbrev pub diamond : DagSpec
diamond = record {
  id = bytes "release";
  jobs = job (bytes "c") (pos 0) 3 ∷ job (bytes "b") (pos 0) 3 ∷ job (bytes "a") (pos 0) 3 ∷ [];
  dependencies = edge (bytes "a") (bytes "c") ∷ edge (bytes "b") (bytes "c") ∷ [];
}

abbrev pub cyclic : DagSpec
cyclic = record {
  id = bytes "cycle";
  jobs = job (bytes "a") (pos 0) 3 ∷ job (bytes "b") (pos 0) 3 ∷ [];
  dependencies = edge (bytes "a") (bytes "b") ∷ edge (bytes "b") (bytes "a") ∷ [];
}

abbrev pub chain : DagSpec
chain = record {
  id = chain_id;
  jobs = job extract (pos 1) 3 ∷ job publish (pos 0) 3 ∷ [];
  dependencies = edge extract publish ∷ [];
}

abbrev pub priorities : DagSpec
priorities = record {
  id = bytes "priorities";
  jobs = job (bytes "low") (negsuc 4) 1 ∷ job (bytes "high") (pos 10) 1 ∷ [];
  dependencies = [];
}

-- The chain submitted, and its first job claimed at time 1 for 100 milliseconds.
abbrev pub submitted : List Call
submitted = submits chain (pos 0) ∷ []

abbrev pub claimed_calls : List Call
claimed_calls = submits chain (pos 0) ∷ claims worker_a (pos 1) (pos 100) ∷ []

abbrev pub first_token : Text
first_token = bytes "lease-chain-extract-1"

abbrev pub completed_calls : List Call
completed_calls =
    submits chain (pos 0)
    ∷ claims worker_a (pos 1) (pos 100)
    ∷ completes chain_id extract worker_a first_token (bytes "ok") (pos 3)
    ∷ []
