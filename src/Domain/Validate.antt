-- ===== src/Domain/Validate.antt =====
-- `DagSpec::validate` of domain.rs, with the checks of one job and of one edge, and Kahn's loop.
pub mod Policy
use cloud_job_orchestrator.Base.{
  ℕ, zero, suc, ◌+◌, ◌-◌, ◌%◌, ◌^◌, Bool, true, false, ◌&&◌, ◌||◌, not, Option, none, some, List,
  [], ◌∷◌, ◌++◌, ltb, leb, ◌==◌, if◌then◌else◌, length, Result, ok, err, ◌>>=◌, ◌>>◌, fail_if,
  ok_or,
}
use cloud_job_orchestrator.Base.Int.{ℤ, pos, negsuc, leb_ℤ}
use cloud_job_orchestrator.Base.Order.{text_order, sort}
use cloud_job_orchestrator.Base.Text.{Text, eq_text, is_empty, parse_u64}
use cloud_job_orchestrator.Base.Map.{Map, lookup, contains_key, insert, adjust}
use cloud_job_orchestrator.Domain.{
  JobKind, delay, checksum, uppercase, JobSpec, Dependency, DagSpec, ValidationError,
  invalid_identifier, invalid_job_count, invalid_dependency_count, duplicate_job, unknown_job,
  cycle, payload_too_large, invalid_delay, invalid_policy, max_dag_id_bytes, max_job_id_bytes,
  max_jobs_per_dag, max_dependencies_per_dag, max_payload_bytes,
}

abbrev pub Checked : Type 0 → Type 0
Checked A = Result ValidationError A

abbrev is_delay : JobKind → Bool
is_delay delay = true
is_delay checksum = false
is_delay uppercase = false

-- The test of the delay's length, after `parse`.
abbrev check_delay : Option ℕ → Checked (Unit {0})
check_delay none = err invalid_delay
check_delay (some d) = fail_if (ltb 5_000 d) invalid_delay

unfoldable pub validate_payload : JobKind → Text → Checked (Unit {0})
validate_payload kind payload = do
  fail_if (ltb max_payload_bytes (length payload)) payload_too_large
  if is_delay kind then check_delay (parse_u64 payload) else ok tt

-- `is_ascii_alphanumeric`, a dash or an underscore.
unfoldable pub is_identifier_byte : ℕ → Bool
is_identifier_byte b =
    leb b'0' b && leb b b'9'
    || leb b'A' b && leb b b'Z'
    || leb b'a' b && leb b b'z'
    || b == b'-'
    || b == b'_'

unfoldable pub all_identifier_bytes : Text → Bool
unfolding is_identifier_byte
all_identifier_bytes [] = true
all_identifier_bytes (b ∷ bs) = is_identifier_byte b && all_identifier_bytes bs

unfoldable pub validate_identifier : Text → ℕ → Checked (Unit {0})
unfolding all_identifier_bytes
validate_identifier value max_bytes =
    if not (is_empty value) && leb (length value) max_bytes && all_identifier_bytes value
    then ok tt
    else err (invalid_identifier value)

-- The attempt budget is 1..=20 and the priority -100..=100.
unfoldable pub policy_is_invalid : JobSpec → Bool
policy_is_invalid job =
    job.max_attempts == 0
    || ltb 20 job.max_attempts
    || not (leb_ℤ (negsuc 99) job.priority && leb_ℤ job.priority (pos 100))

-- The body of the loop over the jobs: the new `indegree`.
unfoldable pub admit_job : Map ℕ → JobSpec → Checked (Map ℕ)
unfolding validate_identifier validate_payload policy_is_invalid
admit_job indegree job = do
  validate_identifier job.id max_job_id_bytes
  validate_payload job.kind job.payload
  fail_if (policy_is_invalid job) invalid_policy
  fail_if (contains_key job.id indegree) (duplicate_job job.id)
  ok (insert job.id 0 indegree)

unfoldable pub admit_jobs : Map ℕ → List JobSpec → Checked (Map ℕ)
admit_jobs indegree [] = ok indegree
admit_jobs indegree (job ∷ jobs) = do indegree' ← admit_job indegree job; admit_jobs indegree' jobs

-- `entry(from).or_default().push(to)`.
unfoldable pub push_edge : Text → Text → Map (List Text) → Map (List Text)
push_edge from to m = elim (lookup from m) [
  | none ↦ insert from (to ∷ []) m
  | some tos ↦ insert from (tos ++ to ∷ []) m
]

-- The two maps that the loop over the edges fills.
pub record Graph : Type 0 where
  pub indegree : Map ℕ
  pub outgoing : Map (List Text)

unfoldable pub admit_edge : Graph → Dependency → Checked Graph
unfolding push_edge
admit_edge g edge = do
  fail_if (eq_text edge.from edge.to) cycle
  fail_if (not (contains_key edge.from g.indegree)) (unknown_job edge.from)
  fail_if (not (contains_key edge.to g.indegree)) (unknown_job edge.to)
  ok (record {
    indegree = adjust edge.to suc g.indegree;
    outgoing = push_edge edge.from edge.to g.outgoing;
  })

unfoldable pub admit_edges : Graph → List Dependency → Checked Graph
admit_edges g [] = ok g
admit_edges g (edge ∷ edges) = do g' ← admit_edge g edge; admit_edges g' edges

-- The keys whose count is zero, in the map's order.
unfoldable pub zero_keys : Map ℕ → List Text
zero_keys [] = []
zero_keys ((id, count) ∷ m) = let rest = zero_keys m in if count == 0 then id ∷ rest else rest

-- `*count -= 1` of a usize, which wraps in a release build.
unfoldable pub decrement : ℕ → ℕ
decrement n = (n + (2 ^ 64 - 1)) % 2 ^ 64

abbrev pub push_if_zero : Option ℕ → Text → List Text → List Text
push_if_zero none child newly_ready = newly_ready
push_if_zero (some n) child newly_ready = if n == 0 then newly_ready ++ child ∷ [] else newly_ready

-- The loop over the children: the new `indegree`, and the children whose count became zero.
unfoldable pub relax : Map ℕ → List Text → List Text → Map ℕ × List Text
unfolding decrement
relax indegree newly_ready [] = (indegree, newly_ready)
relax indegree newly_ready (child ∷ children) =
    let indegree' = adjust child decrement indegree in
    relax indegree' (push_if_zero (lookup child indegree') child newly_ready) children

abbrev pub children_of : Map (List Text) → Text → List Text
children_of outgoing id = elim (lookup id outgoing) [ none ↦ [] | some cs ↦ cs ]

-- The `while let` loop; `none` means that the fuel ran out.
unfoldable pub kahn : ℕ → Map (List Text) → Map ℕ → List Text → List Text → Option (List Text)
kahn zero outgoing indegree queue order = none
kahn (suc fuel) outgoing indegree [] order = some order
kahn (suc fuel) outgoing indegree (id ∷ queue) order =
    let next = relax indegree [] (children_of outgoing id) in
    kahn fuel outgoing next.0 (queue ++ sort text_order.preorder next.1) (order ++ id ∷ [])

-- The order that the loop computes; each job enters the queue at most once.
unfoldable pub topological_order : ℕ → Graph → Option (List Text)
topological_order jobs g =
    kahn (suc jobs) g.outgoing g.indegree (sort text_order.preorder (zero_keys g.indegree)) []

abbrev pub check_order : ℕ → Option (List Text) → Checked (List Text)
check_order jobs none = err cycle
check_order jobs (some order) = if length order == jobs then ok order else err cycle

unfoldable pub validate : DagSpec → Checked (List Text)
validate spec = do
  validate_identifier spec.id max_dag_id_bytes
  fail_if (length spec.jobs == 0 || ltb max_jobs_per_dag (length spec.jobs)) invalid_job_count
  fail_if (ltb max_dependencies_per_dag (length spec.dependencies)) invalid_dependency_count
  indegree ← admit_jobs [] spec.jobs
  g ← admit_edges (record { indegree = indegree; outgoing = [] }) spec.dependencies
  check_order (length spec.jobs) (topological_order (length spec.jobs) g)
