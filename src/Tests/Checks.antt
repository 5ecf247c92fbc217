-- ===== src/Tests/Checks.antt =====
-- Instances of the theorems about admission, the graph, the views, the worker and the store.
use mathlib.Core.List.{Perm}
use cloud_job_orchestrator.Base.{
  ℕ, ◌^◌, ◌-◌, ◌≤◌, ◌<◌, ◌≡◌, refl, arith, Option, none, some, List, [], ◌∷◌, ok, true, false, ◌↔◌,
  length, leb, if◌then◌else◌, ◌&&◌,
}
use cloud_job_orchestrator.Base.Int.{pos, ◌≤ℤ◌, ◌+ℤ◌, div5}
use cloud_job_orchestrator.Base.Order.{IsSorted}
use cloud_job_orchestrator.Base.Text.{Text, bytes, count_text}
use cloud_job_orchestrator.Base.Map.{Map, lookup}
use cloud_job_orchestrator.Domain.{uppercase, ready, cancelled, max_payload_bytes}
use cloud_job_orchestrator.Domain.Validate.{
  Graph, admit_jobs, admit_edges, validate, validate_payload, topological_order,
}
use cloud_job_orchestrator.Domain.Validate.Policy.{ids, IsWellFormed}
use cloud_job_orchestrator.Scheduler.State.{DagRecord, JobRecord, Scheduler, default_config, new}
use cloud_job_orchestrator.Scheduler.Retry.{retry_at}
use cloud_job_orchestrator.Scheduler.Submit.{admit}
use cloud_job_orchestrator.Scheduler.Claim.{claim_is_invalid}
use cloud_job_orchestrator.Scheduler.Lease.{is_terminal}
use cloud_job_orchestrator.Scheduler.Release.{children}
use cloud_job_orchestrator.Scheduler.Admission.Edges.{count_edge, count_text-admit}
use cloud_job_orchestrator.Scheduler.Edges.{EdgeInv}
use cloud_job_orchestrator.Scheduler.Edges.Steps.{step-EdgeInv, KeepsEdges, admit-EdgeInv_self}
use cloud_job_orchestrator.Scheduler.Edges.Calm.{calm-EdgeInv}
use cloud_job_orchestrator.Scheduler.Acts.Claims.{claim-Acts}
use cloud_job_orchestrator.Scheduler.Heap.{HeapInv}
use cloud_job_orchestrator.Scheduler.Heap.Steps.{run-new-HeapInv}
use cloud_job_orchestrator.Scheduler.Backoff.{retry_at-bounds}
use cloud_job_orchestrator.Scheduler.Late.{cancel_ends_all}
use cloud_job_orchestrator.Scheduler.Views.{snapshot-ShowsJobs, ShowsJobs, shown_ids}
use cloud_job_orchestrator.Scheduler.Run.{
  run, step, Inv, new-Inv, run-Inv, step-Inv, submits, completes,
}
use cloud_job_orchestrator.Http.{
  store, into_response, into_response-IsInternal_iff, IsInternal, IsDuplicate,
}
use cloud_job_orchestrator.Store.{
  database, state_name, parse_state, parse_state_iff, validate_owner_and_lease,
  validate_owner_and_lease_iff,
}
use cloud_job_orchestrator.Domain.{DagSnapshot}
use cloud_job_orchestrator.Base.Order.{text_order}
use cloud_job_orchestrator.Base.Map.{Map}
use cloud_job_orchestrator.Scheduler.Lease.{snapshot}
use cloud_job_orchestrator.Topology.Exact.{validate_iff}
use cloud_job_orchestrator.Topology.Order.{walked, adjacent_edges}
use cloud_job_orchestrator.Topology.Sound.{IsOrder, validate→IsOrder}
use cloud_job_orchestrator.Topology.Walk.{Walked}
use cloud_job_orchestrator.Worker.{execute, execute_is_bounded}
use cloud_job_orchestrator.Tests.Runs.{program}
use cloud_job_orchestrator.Tests.Samples.{
  diamond, chain, claimed_calls, completed_calls, first_token, chain_id, extract, publish, worker_a,
  job,
}

abbrev claimed_state : Scheduler
claimed_state = run (new default_config) claimed_calls

claimed_state-Inv : Inv claimed_state
claimed_state-Inv = run-Inv (new default_config) claimed_calls (new-Inv default_config)

step-Inv_example :
    Inv (step claimed_state (completes chain_id extract worker_a first_token (bytes "ok") (pos 3)))
step-Inv_example =
    step-Inv claimed_state (completes chain_id extract worker_a first_token (bytes "ok") (pos 3))
      claimed_state-Inv

abbrev submitted_state : Scheduler
submitted_state = run (new default_config) (submits chain (pos 0) ∷ [])

submitted_state-Inv : Inv submitted_state
submitted_state-Inv =
    run-Inv (new default_config) (submits chain (pos 0) ∷ []) (new-Inv default_config)

claimed_state-EdgeInv : EdgeInv claimed_state chain_id chain.dependencies
unfolding program
claimed_state-EdgeInv =
    calm-EdgeInv submitted_state _
      (claim-Acts submitted_state worker_a (pos 1) (pos 100) submitted_state-Inv.distinct)
      submitted_state-Inv chain_id chain.dependencies
      (admit-EdgeInv_self (new default_config) chain (pos 0))

step-EdgeInv_example :
    KeepsEdges claimed_state
      (completes chain_id extract worker_a first_token (bytes "ok") (pos 3))
      chain_id
      chain.dependencies
step-EdgeInv_example =
    step-EdgeInv claimed_state
      (completes chain_id extract worker_a first_token (bytes "ok") (pos 3)) chain_id
      chain.dependencies claimed_state-Inv claimed_state-EdgeInv

run-new-HeapInv_example : HeapInv (run (new default_config) completed_calls)
run-new-HeapInv_example = run-new-HeapInv default_config completed_calls

count_text-admit_example :
    count_text publish (children chain_id extract (admit (new default_config) chain (pos 0)).dags)
    ≡ count_edge extract publish chain.dependencies
count_text-admit_example = count_text-admit (new default_config) chain (pos 0) extract publish

-- The first job once the DAG is cancelled while it is leased.
abbrev cancelled_extract : JobRecord
cancelled_extract = record {
  spec = job extract (pos 1) 3;
  state = cancelled;
  attempts = 1;
  available_at_ms = pos 0;
  remaining_dependencies = 0;
  lease = none;
  result = none;
}

cancel_ends_all_example :
    (is_terminal cancelled_extract.state ≡ true) × (cancelled_extract.lease ≡ none)
unfolding program
cancel_ends_all_example =
    cancel_ends_all claimed_state chain_id 2 extract cancelled_extract claimed_state-Inv refl refl

-- The chain while its first job is leased, and what a snapshot shows of it.
abbrev shown : Option DagRecord → DagRecord
shown none = record { jobs = []; dependents = [] }
shown (some dag) = dag

abbrev claimed_dag : DagRecord
claimed_dag = shown (lookup chain_id claimed_state.dags)

snapshot-ShowsJobs_example :
    (view : DagSnapshot) × (jobs : Map JobRecord) × (snapshot claimed_state chain_id ≡ ok view)
    × (view.id ≡ chain_id)
    × IsSorted text_order.preorder (shown_ids view.jobs)
    × Perm jobs claimed_dag.jobs
    × ShowsJobs jobs view.jobs
unfolding program
snapshot-ShowsJobs_example = snapshot-ShowsJobs claimed_state chain_id claimed_dag refl

retry_at-bounds_example :
    (pos 7 ≤ℤ retry_at default_config extract 2 (pos 7))
    × (retry_at default_config extract 2 (pos 7) ≤ℤ (pos 7 +ℤ pos 60_000) +ℤ div5 (pos 60_000))
retry_at-bounds_example =
    retry_at-bounds default_config extract 2 (pos 7) (omega arith) (omega arith) (omega arith)
      (omega arith)

validate→IsOrder_example : IsOrder diamond (bytes "a" ∷ bytes "b" ∷ bytes "c" ∷ [])
unfolding program
validate→IsOrder_example = validate→IsOrder diamond (bytes "a" ∷ bytes "b" ∷ bytes "c" ∷ []) refl

validate_iff_example :
    ((order : List Text) × (validate diamond ≡ ok order))
    ↔ (IsWellFormed diamond × ((o : List Text) × IsOrder diamond o))
validate_iff_example = validate_iff diamond

abbrev zero_counts : Map ℕ
zero_counts = (extract, 0) ∷ (publish, 0) ∷ []

abbrev chain_graph : Graph
chain_graph = record {
  indegree = (extract, 0) ∷ (publish, 1) ∷ [];
  outgoing = (extract, publish ∷ []) ∷ [];
}

chain_jobs_admitted : admit_jobs [] chain.jobs ≡ ok zero_counts
unfolding program
chain_jobs_admitted = refl

chain_edges_admitted :
    admit_edges (record { indegree = zero_counts; outgoing = [] }) chain.dependencies
    ≡ ok chain_graph
unfolding program
chain_edges_admitted = refl

few_chain_edges : length chain.dependencies < 2 ^ 64
few_chain_edges = omega arith

walked_example :
    Walked chain.dependencies
      (ids chain.jobs)
      chain_graph.outgoing
      (adjacent_edges chain zero_counts chain_graph chain_jobs_admitted chain_edges_admitted
        few_chain_edges)
      few_chain_edges
      (topological_order 2 chain_graph)
walked_example =
    walked chain zero_counts chain_graph chain_jobs_admitted chain_edges_admitted few_chain_edges

-- A stand-in for the digest and for the conversion to upper case.
abbrev upper : Text → Text
upper [] = []
upper (b ∷ bs) = (if leb b'a' b && leb b b'z' then b - 32 else b) ∷ upper bs

execute_is_bounded_example :
    (length (bytes "SAFE JOB") ≤ max_payload_bytes)
    × (validate_payload uppercase (bytes "safe job") ≡ ok tt)
unfolding program execute
execute_is_bounded_example =
    execute_is_bounded upper upper uppercase (bytes "safe job") (bytes "SAFE JOB") refl

parse_state_iff_example :
    (parse_state {E = Text} (bytes "ready") ≡ ok ready) ↔ (bytes "ready" ≡ state_name ready)
parse_state_iff_example = parse_state_iff (bytes "ready") ready

validate_owner_and_lease_iff_example :
    (validate_owner_and_lease {E = Text} worker_a (pos 100) ≡ ok tt)
    ↔ (claim_is_invalid default_config worker_a (pos 100) ≡ false)
validate_owner_and_lease_iff_example = validate_owner_and_lease_iff worker_a (pos 100)

-- The library's errors, as their SQLSTATE.
into_response-IsInternal_iff_example :
    (((into_response some (store (database (bytes "23505")))).0 ≡ 500)
      ↔ IsInternal some (store (database (bytes "23505"))))
    × ((into_response some (store (database (bytes "23505"))) ≡ (409, bytes "already_exists"))
        ↔ IsDuplicate some (store (database (bytes "23505"))))
into_response-IsInternal_iff_example =
    into_response-IsInternal_iff some (store (database (bytes "23505")))
