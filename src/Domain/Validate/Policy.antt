-- ===== src/Domain/Validate/Policy.antt =====
-- src/domain.rs: what a submission has to satisfy, and the loops over its jobs and its edges.
use cloud_job_orchestrator.Base.{
  ℕ, suc, ◌≤◌, ◌≡◌, ◌≢◌, refl, true, false, none, some, List, [], ◌∷◌, map, if◌then◌else◌, arith,
  length, ok, All, >>=-eq-ok,
}
use cloud_job_orchestrator.Base.Int.{pos, negsuc, ◌≤ℤ◌}
use cloud_job_orchestrator.Base.Text.{Text, eq_text_iff, mem_text, DistinctTexts, parse_u64}
use cloud_job_orchestrator.Base.Map.{
  Map, lookup, contains_key, insert, adjust, lookup-insert, lookup-adjust,
}
use cloud_job_orchestrator.Domain.{
  JobKind, delay, JobSpec, Dependency, DagSpec, max_payload_bytes, max_job_id_bytes,
  max_dag_id_bytes, max_jobs_per_dag, max_dependencies_per_dag,
}
use cloud_job_orchestrator.Domain.Validate.{
  Graph, admit_job, admit_jobs, admit_edge, admit_edges, push_edge, policy_is_invalid,
  validate_identifier, validate_payload, all_identifier_bytes, validate, topological_order,
  check_order,
}

-- 1..=max bytes, letters, digits, dashes and underscores.
pub record IsIdentifier (value : Text) (max_bytes : ℕ) : Type 0 where
  pub not_empty : 1 ≤ length value
  pub short : length value ≤ max_bytes
  pub allowed : all_identifier_bytes value ≡ true

-- The limits on one job.
pub record IsAdmissible (job : JobSpec) : Type 0 where
  pub identifier : IsIdentifier job.id max_job_id_bytes
  pub payload_fits : length job.payload ≤ max_payload_bytes
  pub delay_is_bounded :
      job.kind ≡ delay → (ms : ℕ) × (parse_u64 job.payload ≡ some ms) × (ms ≤ 5_000)
  pub attempts_pos : 1 ≤ job.max_attempts
  pub attempts_le : job.max_attempts ≤ 20
  pub priority_ge : negsuc 99 ≤ℤ job.priority
  pub priority_le : job.priority ≤ℤ pos 100

validate_identifier→IsIdentifier :
    (value : Text) (n : ℕ) → validate_identifier value n ≡ ok tt → IsIdentifier value n
unfolding validate_identifier
validate_identifier→IsIdentifier [] n h = ground arith
validate_identifier→IsIdentifier (b ∷ bs) n h = record {
  not_empty = ground arith;
  short = ground arith;
  allowed = ground arith;
}

validate_payload_fits :
    (kind : JobKind) (payload : Text)
    → validate_payload kind payload ≡ ok tt
    → length payload ≤ max_payload_bytes
unfolding validate_payload
validate_payload_fits kind payload h = ground arith

validate_payload_delay :
    (payload : Text)
    → validate_payload delay payload ≡ ok tt
    → (ms : ℕ) × (parse_u64 payload ≡ some ms) × (ms ≤ 5_000)
unfolding validate_payload
validate_payload_delay payload h = ground arith

admit_job→IsAdmissible : (m m' : Map ℕ) (job : JobSpec) → admit_job m job ≡ ok m' → IsAdmissible job
unfolding admit_job policy_is_invalid
admit_job→IsAdmissible m m' job h = record {
  identifier = validate_identifier→IsIdentifier job.id max_job_id_bytes (ground arith);
  payload_fits = validate_payload_fits job.kind job.payload (ground arith);
  delay_is_bounded = λ e. validate_payload_delay job.payload (ground arith);
  attempts_pos = ground arith;
  attempts_le = ground arith;
  priority_ge = ground arith;
  priority_le = ground arith;
}

admit_job-insert :
    (m m' : Map ℕ) (job : JobSpec)
    → admit_job m job ≡ ok m'
    → (lookup job.id m ≡ none) × (m' ≡ insert job.id 0 m)
unfolding admit_job contains_key
admit_job-insert m m' job h = ground arith

abbrev pub ids : List JobSpec → List Text
ids jobs = map (λ job. job.id) jobs

-- The jobs are distinct and their counts start at zero.
pub record Admitted (m m' : Map ℕ) (jobs : List JobSpec) : Type 0 where
  pub admissible : All IsAdmissible jobs
  pub distinct : DistinctTexts (ids jobs)
  pub fresh : All (λ job. lookup job.id m ≡ none) jobs
  pub counts : (k : Text) → lookup k m' ≡ (if mem_text k (ids jobs) then some 0 else lookup k m)

not-mem_of_fresh :
    (j : Text) (v : ℕ) (m : Map ℕ) (jobs : List JobSpec)
    → All (λ job. lookup job.id (insert j v m) ≡ none) jobs
    → (mem_text j (ids jobs) ≡ false) × All (λ job. lookup job.id m ≡ none) jobs
unfolding mem_text
not-mem_of_fresh j v m [] h = (refl, tt)
not-mem_of_fresh j v m (job ∷ jobs) h = ground (
  arith,
  not-mem_of_fresh j v m jobs h.1,
  lookup-insert j job.id v m,
  eq_text_iff j job.id,
  eq_text_iff job.id j,
)

pub admit_jobs→Admitted :
    (m m' : Map ℕ) (jobs : List JobSpec) → admit_jobs m jobs ≡ ok m' → Admitted m m' jobs
unfolding admit_jobs mem_text
admit_jobs→Admitted m m' [] h = record {
  admissible = tt;
  distinct = tt;
  fresh = tt;
  counts = λ k. ground arith;
}
admit_jobs→Admitted m m' (job ∷ jobs) h =
    let (m1, first, rest) = >>=-eq-ok (admit_job m job) (λ m1. admit_jobs m1 jobs) h in
    let (absent, e) = admit_job-insert m m1 job first in
    let a = admit_jobs→Admitted m1 m' jobs rest in
    let (once, fresh) = not-mem_of_fresh job.id 0 m jobs (rw e at a.fresh) in
    record {
      admissible = (admit_job→IsAdmissible m m1 job first, a.admissible);
      distinct = (once, a.distinct);
      fresh = (absent, fresh);
      counts = λ k. ground (arith, a.counts k, lookup-insert job.id k 0 m);
    }

-- An edge joins two different jobs of the DAG.
pub record JoinsJobs (jobs : List Text) (edge : Dependency) : Type 0 where
  pub no_loop : edge.from ≢ edge.to
  pub from_known : mem_text edge.from jobs ≡ true
  pub to_known : mem_text edge.to jobs ≡ true

-- The keys of the map are those of the list.
abbrev pub HasKeys : Map ℕ → List Text → Type 0
HasKeys m keys = (k : Text) → contains_key k m ≡ mem_text k keys

pub contains_key-adjust :
    (k j : Text) (f : ℕ → ℕ) (m : Map ℕ) → contains_key j (adjust k f m) ≡ contains_key j m
unfolding contains_key
contains_key-adjust k j f m = ground (arith, lookup-adjust k j f m)

pub admit_edge-ok :
    (keys : List Text) (g g' : Graph) (edge : Dependency)
    → HasKeys g.indegree keys
    → admit_edge g edge ≡ ok g'
    → JoinsJobs keys edge
      × (g'.indegree ≡ adjust edge.to suc g.indegree)
      × (g'.outgoing ≡ push_edge edge.from edge.to g.outgoing)
unfolding admit_edge
admit_edge-ok keys g g' edge has h = (
  record {
    no_loop = λ e. ground (arith, eq_text_iff edge.from edge.to);
    from_known = ground (arith, has edge.from);
    to_known = ground (arith, has edge.to);
  },
  ground arith,
  ground arith,
)

pub admit_edges→JoinsJobs :
    (keys : List Text) (g g' : Graph) (edges : List Dependency)
    → HasKeys g.indegree keys
    → admit_edges g edges ≡ ok g'
    → All (JoinsJobs keys) edges
unfolding admit_edges
admit_edges→JoinsJobs keys g g' [] has h = tt
admit_edges→JoinsJobs keys g g' (edge ∷ edges) has h =
    let (g1, first, rest) = >>=-eq-ok (admit_edge g edge) (λ g1. admit_edges g1 edges) h in
    let (joins, e, _) = admit_edge-ok keys g g1 edge has first in
    (
      joins,
      admit_edges→JoinsJobs keys g1 g' edges
          (λ k. rw e (rw (contains_key-adjust edge.to k suc g.indegree) (has k))) rest,
    )

-- What `validate` guarantees about a submission before the graph is walked.
pub record IsWellFormed (spec : DagSpec) : Type 0 where
  pub identifier : IsIdentifier spec.id max_dag_id_bytes
  pub some_job : 1 ≤ length spec.jobs
  pub job_limit : length spec.jobs ≤ max_jobs_per_dag
  pub dependency_limit : length spec.dependencies ≤ max_dependencies_per_dag
  pub admissible : All IsAdmissible spec.jobs
  pub distinct : DistinctTexts (ids spec.jobs)
  pub joins : All (JoinsJobs (ids spec.jobs)) spec.dependencies

-- The parts of a run of `validate` that succeeds.
pub record Validated (spec : DagSpec) (order : List Text) : Type 0 where
  pub indegree : Map ℕ
  pub graph : Graph
  pub well_formed : IsWellFormed spec
  pub jobs_admitted : admit_jobs [] spec.jobs ≡ ok indegree
  pub edges_admitted :
      admit_edges (record { indegree = indegree; outgoing = [] }) spec.dependencies ≡ ok graph
  pub ordered :
      check_order (length spec.jobs) (topological_order (length spec.jobs) graph) ≡ ok order

validate_steps :
    (spec : DagSpec) (order : List Text)
    → validate spec ≡ ok order
    → (validate_identifier spec.id max_dag_id_bytes ≡ ok tt)
      × (1 ≤ length spec.jobs)
      × (length spec.jobs ≤ max_jobs_per_dag)
      × (length spec.dependencies ≤ max_dependencies_per_dag)
      × ((m : Map ℕ) × (admit_jobs [] spec.jobs ≡ ok m)
          × (g : Graph) × (admit_edges (record { indegree = m; outgoing = [] }) spec.dependencies
              ≡ ok g)
          × (check_order (length spec.jobs) (topological_order (length spec.jobs) g) ≡ ok order))
unfolding validate
validate_steps spec order h = ground arith

pub validate→Validated :
    (spec : DagSpec) (order : List Text) → validate spec ≡ ok order → Validated spec order
unfolding contains_key lookup
validate→Validated spec order h =
    let (i, some_job, job_limit, dependency_limit, (m, jobs, g, edges, ordered)) =
      validate_steps spec order h in
    let a = admit_jobs→Admitted [] m spec.jobs jobs in
    let keys : HasKeys m (ids spec.jobs) = λ k. ground (arith, a.counts k) in
    record {
      indegree = m;
      graph = g;
      well_formed = record {
        identifier = validate_identifier→IsIdentifier spec.id max_dag_id_bytes i;
        some_job = some_job;
        job_limit = job_limit;
        dependency_limit = dependency_limit;
        admissible = a.admissible;
        distinct = a.distinct;
        joins = admit_edges→JoinsJobs (ids spec.jobs) _ g spec.dependencies keys edges;
      };
      jobs_admitted = jobs;
      edges_admitted = edges;
      ordered = ordered;
    }
