-- ===== src/Topology/Exact.antt =====
-- src/domain.rs: which submissions `validate` accepts.
use cloud_job_orchestrator.Topology.Sound.{
  IsOrder, few_edges, validate→IsOrder, All-taken, mem-All, All-mem, count_of_distinct,
}
use cloud_job_orchestrator.Base.{
  ℕ, true, ◌≡◌, refl, none, List, [], ◌∷◌, arith, ◌∙◌, sym, length, ok, All, ◌↔◌,
}
use cloud_job_orchestrator.Base.Text.{Text, count_text, mem_text}
use cloud_job_orchestrator.Base.Map.{Map, lookup, contains_key}
use cloud_job_orchestrator.Domain.{JobSpec, DagSpec}
use cloud_job_orchestrator.Domain.Validate.{
  Graph, admit_jobs, admit_edges, topological_order, check_order, validate,
}
use cloud_job_orchestrator.Domain.Validate.Policy.{
  ids, admit_jobs→Admitted, validate→Validated, IsWellFormed,
}
use cloud_job_orchestrator.Topology.Relax.{zero_count}
use cloud_job_orchestrator.Topology.Counts.{Fewer, Fewer-length, mem_text-eq-count}
use cloud_job_orchestrator.Topology.Walk.{Walked, visited_le}
use cloud_job_orchestrator.Topology.Order.{walked, adjacent_edges, length-map_ids}
use cloud_job_orchestrator.Topology.Accepts.{validate_identifier-ok, admit_jobs-ok, admit_edges-ok}

module _ (spec : DagSpec) (w : IsWellFormed spec) (o : List Text) (is_order : IsOrder spec o)
    (m : Map ℕ) (g : Graph) (jobs : admit_jobs [] spec.jobs ≡ ok m)
    (edges : admit_edges (record { indegree = m; outgoing = [] }) spec.dependencies ≡ ok g) where
  walk :
      Walked spec.dependencies
        (ids spec.jobs)
        g.outgoing
        (adjacent_edges spec m g jobs edges (few_edges spec w))
        (few_edges spec w)
        (topological_order (length spec.jobs) g)
  walk = walked spec m g jobs edges (few_edges spec w)

  listed : (k : Text) → mem_text k o ≡ mem_text k (ids spec.jobs)
  listed k =
      ground
        (arith, mem_text-eq-count k o, mem_text-eq-count k (ids spec.jobs), is_order.complete k)

  walk_visited : (k : Text) → count_text k walk.order ≡ zero_count (lookup k walk.indegree)
  unfolding count_text
  walk_visited k = ground (arith, walk.inv.visited k)

  walk_takes : All (λ x. mem_text x walk.order ≡ true) o
  unfolding mem_text
  walk_takes =
      All-taken spec.dependencies (ids spec.jobs) walk.order walk.indegree walk.inv.degrees
        walk_visited [] o is_order.parents_first (λ k i. cc)
        (mem-All (λ x. mem_text x (ids spec.jobs) ≡ true) o (λ k i. sym (listed k) ∙ i))

  walk_is_full : Fewer (ids spec.jobs) walk.order
  walk_is_full k = ground (
    arith,
    count_of_distinct k (ids spec.jobs) w.distinct,
    mem_text-eq-count k (ids spec.jobs),
    mem_text-eq-count k walk.order,
    listed k,
    All-mem (λ x. mem_text x walk.order ≡ true) k o walk_takes,
  )

  walk_length : length walk.order ≡ length spec.jobs
  walk_length = ground (
    arith,
    Fewer-length (ids spec.jobs) walk.order walk_is_full,
    visited_le spec.dependencies (ids spec.jobs) g.outgoing
        (adjacent_edges spec m g jobs edges (few_edges spec w)) (few_edges spec w) walk.indegree []
        walk.order walk.inv,
    length-map_ids spec.jobs,
  )

  check-ok : check_order (length spec.jobs) (topological_order (length spec.jobs) g) ≡ ok walk.order
  check-ok = ground (arith, walk.same, walk_length)

  validate-ok : validate spec ≡ ok walk.order
  unfolding validate
  validate-ok =
      let p = w.some_job in
      let q = w.job_limit in
      let r = w.dependency_limit in
      ground (arith, validate_identifier-ok spec.id 64 w.identifier, jobs, edges, check-ok)

fresh_in_empty : (jobs : List JobSpec) → All (λ job. lookup {V = ℕ} job.id [] ≡ none) jobs
unfolding lookup
fresh_in_empty [] = tt
fresh_in_empty (job ∷ jobs) = (refl, fresh_in_empty jobs)

accepts :
    (spec : DagSpec) (o : List Text)
    → IsWellFormed spec
    → IsOrder spec o
    → (order : List Text) × (validate spec ≡ ok order)
unfolding contains_key lookup
accepts spec o w is_order =
    let (m, jobs) = admit_jobs-ok [] spec.jobs w.admissible w.distinct (fresh_in_empty spec.jobs) in
    let a = admit_jobs→Admitted [] m spec.jobs jobs in
    let (g, edges) =
      admit_edges-ok (ids spec.jobs) (record { indegree = m; outgoing = [] }) spec.dependencies
        (λ k. ground (arith, a.counts k)) w.joins in
    ((walk spec w o is_order m g jobs edges).order, validate-ok spec w o is_order m g jobs edges)

-- A submission is accepted exactly if it is well formed and some list of its jobs has each job once,
-- after all its parents.
pub validate_iff :
    (spec : DagSpec)
    → ((order : List Text) × (validate spec ≡ ok order))
      ↔ (IsWellFormed spec × ((o : List Text) × IsOrder spec o))
validate_iff spec = (
  λ (order, h).
      ((validate→Validated spec order h).well_formed, (order, validate→IsOrder spec order h)),
  λ (w, (o, is_order)). accepts spec o w is_order,
)
