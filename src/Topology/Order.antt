-- ===== src/Topology/Order.antt =====
-- src/domain.rs: what the loops over jobs and edges hand to the walk.
use mathlib.Core.Option
use cloud_job_orchestrator.Base.{
  ℕ, suc, ◌+◌, ◌^◌, ◌<◌, ◌≡◌, refl, List, [], ◌∷◌, arith, length, ok, >>=-eq-ok,
}
use cloud_job_orchestrator.Base.Order.{text_order, sort}
use cloud_job_orchestrator.Base.Text.{Text, count_text, mem_text}
use cloud_job_orchestrator.Base.Map.{
  Map, lookup, adjust, insert, lookup-adjust, Distinct, insert-Distinct, adjust-Distinct,
}
use cloud_job_orchestrator.Domain.{Dependency, JobSpec, DagSpec}
use cloud_job_orchestrator.Domain.Validate.{
  Graph, admit_job, admit_jobs, admit_edge, admit_edges, push_edge, zero_keys, children_of,
  topological_order,
}
use cloud_job_orchestrator.Domain.Validate.Policy.{ids, admit_jobs→Admitted}
use cloud_job_orchestrator.Scheduler.Lease.{list_or_empty}
use cloud_job_orchestrator.Scheduler.Edges.{blocked}
use cloud_job_orchestrator.Scheduler.Admission.Edges.{
  count_text-push_edge, count_text-sort, count_edge,
}
use cloud_job_orchestrator.Topology.Relax.{count_text-zero_keys}
use cloud_job_orchestrator.Topology.Walk.{missing, WalkInv, Walked, kahn-Walked}

children_of-eq-list :
    (m : Map (List Text)) (p : Text) → children_of m p ≡ list_or_empty (lookup p m)
children_of-eq-list m p = ground arith

-- What the loop over the edges makes of the two maps.
record Joined (g g' : Graph) (edges : List Dependency) : Type 0 where
  degrees :
      (k : Text)
      → lookup k g'.indegree ≡ Option.map (λ n. n + missing edges [] k) (lookup k g.indegree)
  adjacent :
      (p c : Text)
      → count_text c (children_of g'.outgoing p)
        ≡ count_edge p c edges + count_text c (children_of g.outgoing p)
  distinct : Distinct g.indegree → Distinct g'.indegree

admit_edge-maps :
    (g g' : Graph) (e : Dependency)
    → admit_edge g e ≡ ok g'
    → (g'.indegree ≡ adjust e.to suc g.indegree) × (g'.outgoing ≡ push_edge e.from e.to g.outgoing)
unfolding admit_edge
admit_edge-maps g g' e h = (ground arith, ground arith)

admit_edges→Joined :
    (g g' : Graph) (edges : List Dependency) → admit_edges g edges ≡ ok g' → Joined g g' edges
unfolding admit_edges blocked mem_text count_edge
admit_edges→Joined g g' [] h = record {
  degrees = λ k. ground arith;
  adjacent = λ p c. ground arith;
  distinct = λ d. ground arith;
}
admit_edges→Joined g g' (e ∷ edges) h =
    let (g1, first, rest) = >>=-eq-ok (admit_edge g e) (λ g1. admit_edges g1 edges) h in
    let (indegree, outgoing) = admit_edge-maps g g1 e first in
    let j = admit_edges→Joined g1 g' edges rest in
    record {
      degrees = λ k. ground (arith, j.degrees k, lookup-adjust e.to k suc g.indegree);
      adjacent = λ p c. ground (
        arith,
        j.adjacent p c,
        count_text-push_edge e.from e.to p c g.outgoing,
        children_of-eq-list g.outgoing p,
        children_of-eq-list (push_edge e.from e.to g.outgoing) p,
      );
      distinct = λ d. j.distinct (rw indegree (adjust-Distinct e.to suc g.indegree d));
    }

admit_job-Distinct :
    (m m' : Map ℕ) (job : JobSpec) → admit_job m job ≡ ok m' → m' ≡ insert job.id 0 m
unfolding admit_job
admit_job-Distinct m m' job h = ground arith

admit_jobs-Distinct :
    (m m' : Map ℕ) (jobs : List JobSpec) → admit_jobs m jobs ≡ ok m' → Distinct m → Distinct m'
unfolding admit_jobs
admit_jobs-Distinct m m' [] h d = ground arith
admit_jobs-Distinct m m' (job ∷ jobs) h d =
    let (m1, first, rest) = >>=-eq-ok (admit_job m job) (λ m1. admit_jobs m1 jobs) h in
    admit_jobs-Distinct m1 m' jobs rest
      (rw (admit_job-Distinct m m1 job first) (insert-Distinct job.id 0 m d))

pub length-map_ids : (jobs : List JobSpec) → length (ids jobs) ≡ length jobs
length-map_ids [] = refl
length-map_ids (job ∷ jobs) = ground (arith, length-map_ids jobs)

-- What the loops over the jobs and the edges hand to the walk.
module _ (spec : DagSpec) (m : Map ℕ) (g : Graph) (jobs : admit_jobs [] spec.jobs ≡ ok m)
    (edges : admit_edges (record { indegree = m; outgoing = [] }) spec.dependencies ≡ ok g)
    (few : length spec.dependencies < 2 ^ 64) where
  joined : Joined (record { indegree = m; outgoing = [] }) g spec.dependencies
  joined = admit_edges→Joined _ g spec.dependencies edges

  pub adjacent_edges :
      (p c : Text) → count_text c (children_of g.outgoing p) ≡ count_edge p c spec.dependencies
  unfolding lookup count_text
  adjacent_edges p c = ground (arith, joined.adjacent p c)

  start-WalkInv :
      WalkInv spec.dependencies
        (ids spec.jobs)
        g.outgoing
        adjacent_edges
        few
        g.indegree
        (sort text_order.preorder (zero_keys g.indegree))
        []
  unfolding lookup count_text
  start-WalkInv =
      let a = admit_jobs→Admitted [] m spec.jobs jobs in
      record {
        degrees = λ k. ground (arith, joined.degrees k, a.counts k);
        visited = λ k. ground (
          arith,
          count_text-sort k (zero_keys g.indegree),
          count_text-zero_keys k g.indegree
              (joined.distinct (admit_jobs-Distinct [] m spec.jobs jobs tt)),
        );
        ordered = tt;
      }

  -- For a submission whose loops over jobs and edges succeed, with less than 2^64 edges, the walk ends
  -- within its fuel, with an empty queue and counts of the edges from jobs that it has not taken.
  pub walked :
      Walked spec.dependencies
        (ids spec.jobs)
        g.outgoing
        adjacent_edges
        few
        (topological_order (length spec.jobs) g)
  unfolding topological_order
  walked =
      kahn-Walked spec.dependencies (ids spec.jobs) g.outgoing adjacent_edges few (length spec.jobs)
        g.indegree (sort text_order.preorder (zero_keys g.indegree)) [] start-WalkInv
        (ground (arith, length-map_ids spec.jobs))
