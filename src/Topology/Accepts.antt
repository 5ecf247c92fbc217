-- ===== src/Topology/Accepts.antt =====
-- src/domain.rs: the loops over the jobs and the edges on a submission that is well formed.
use cloud_job_orchestrator.Base.{
  ℕ, suc, false, ◌≤◌, ◌≡◌, refl, none, some, List, [], ◌∷◌, arith, ◌∙◌, length, ok, All,
}
use cloud_job_orchestrator.Base.Text.{Text, eq_text_iff, mem_text, DistinctTexts, parse_u64}
use cloud_job_orchestrator.Base.Map.{Map, lookup, contains_key, adjust, insert, lookup-insert}
use cloud_job_orchestrator.Domain.{
  JobKind, delay, checksum, uppercase, Dependency, JobSpec, max_payload_bytes,
}
use cloud_job_orchestrator.Domain.Validate.{
  Graph, admit_job, admit_jobs, admit_edge, admit_edges, validate_identifier, validate_payload,
  policy_is_invalid, push_edge,
}
use cloud_job_orchestrator.Domain.Validate.Policy.{
  ids, IsIdentifier, IsAdmissible, JoinsJobs, HasKeys, contains_key-adjust,
}

pub validate_identifier-ok :
    (value : Text) (n : ℕ) → IsIdentifier value n → validate_identifier value n ≡ ok tt
unfolding validate_identifier
validate_identifier-ok [] n i = let h = i.not_empty in ground arith
validate_identifier-ok (b ∷ bs) n i = let h = i.short in let k = i.allowed in ground arith

validate_payload-ok :
    (kind : JobKind) (payload : Text)
    → length payload ≤ max_payload_bytes
    → (kind ≡ delay → (ms : ℕ) × (parse_u64 payload ≡ some ms) × (ms ≤ 5_000))
    → validate_payload kind payload ≡ ok tt
unfolding validate_payload
validate_payload-ok delay payload h k = let (ms, parsed, bound) = k refl in ground arith
validate_payload-ok checksum payload h k = ground arith
validate_payload-ok uppercase payload h k = ground arith

policy-ok : (job : JobSpec) → IsAdmissible job → policy_is_invalid job ≡ false
unfolding policy_is_invalid
policy-ok job a =
    let p = a.attempts_pos in
    let q = a.attempts_le in let r = a.priority_ge in let t = a.priority_le in ground arith

absent_key : (k : Text) (m : Map ℕ) → lookup k m ≡ none → contains_key k m ≡ false
unfolding contains_key
absent_key k m h = ground arith

admit_job-ok :
    (m : Map ℕ) (job : JobSpec)
    → IsAdmissible job
    → lookup job.id m ≡ none
    → admit_job m job ≡ ok (insert job.id 0 m)
unfolding admit_job
admit_job-ok m job a fresh =
    rw
      (
        validate_identifier-ok job.id 64 a.identifier,
        validate_payload-ok job.kind job.payload a.payload_fits a.delay_is_bounded,
        policy-ok job a,
        absent_key job.id m fresh,
      )
      refl

fresh-insert :
    (j : Text) (m : Map ℕ) (jobs : List JobSpec)
    → mem_text j (ids jobs) ≡ false
    → All (λ job. lookup job.id m ≡ none) jobs
    → All (λ job. lookup job.id (insert j 0 m) ≡ none) jobs
unfolding mem_text
fresh-insert j m [] h f = tt
fresh-insert j m (job ∷ jobs) h f = (
  ground (arith, lookup-insert j job.id 0 m, eq_text_iff j job.id, eq_text_iff job.id j),
  fresh-insert j m jobs (ground arith) f.1,
)

pub admit_jobs-ok :
    (m : Map ℕ) (jobs : List JobSpec)
    → All IsAdmissible jobs
    → DistinctTexts (ids jobs)
    → All (λ job. lookup job.id m ≡ none) jobs
    → (m' : Map ℕ) × (admit_jobs m jobs ≡ ok m')
unfolding admit_jobs
admit_jobs-ok m [] a d f = (m, refl)
admit_jobs-ok m (job ∷ jobs) a d f =
    let (m', h) =
      admit_jobs-ok (insert job.id 0 m) jobs a.1 d.1 (fresh-insert job.id m jobs d.0 f.1) in
    (m', rw (admit_job-ok m job a.0 f.0) h)

admit_edge-accepts :
    (keys : List Text) (g : Graph) (e : Dependency)
    → HasKeys g.indegree keys
    → JoinsJobs keys e
    → admit_edge g e
      ≡ ok (record {
        indegree = adjust e.to suc g.indegree;
        outgoing = push_edge e.from e.to g.outgoing;
      })
unfolding admit_edge
admit_edge-accepts keys g e has j =
    let p = j.no_loop in
    let q = j.from_known in
    let r = j.to_known in ground (arith, eq_text_iff e.from e.to, has e.from, has e.to)

pub admit_edges-ok :
    (keys : List Text) (g : Graph) (edges : List Dependency)
    → HasKeys g.indegree keys
    → All (JoinsJobs keys) edges
    → (g' : Graph) × (admit_edges g edges ≡ ok g')
unfolding admit_edges
admit_edges-ok keys g [] has j = (g, refl)
admit_edges-ok keys g (e ∷ edges) has j =
    let (g', h) =
      admit_edges-ok keys
        (record {
          indegree = adjust e.to suc g.indegree;
          outgoing = push_edge e.from e.to g.outgoing;
        })
        edges (λ k. contains_key-adjust e.to k suc g.indegree ∙ has k) j.1 in
    (g', rw (admit_edge-accepts keys g e has j.0) h)
