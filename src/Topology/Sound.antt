-- ===== src/Topology/Sound.antt =====
-- src/domain.rs: the order that `validate` returns, against any order of the jobs.
use cloud_job_orchestrator.Base.{
  ℕ, true, Bool, ◌^◌, ◌≤◌, ◌<◌, ◌≡◌, refl, Option, none, some, List, [], ◌∷◌, ◌++◌, if◌then◌else◌,
  arith, inl, inr, Bool-cases, length, ok, All,
}
use cloud_job_orchestrator.Base.Text.{
  Text, eq_text, eq_text_iff, count_text, mem_text, DistinctTexts,
}
use cloud_job_orchestrator.Base.Map.{Map, lookup}
use cloud_job_orchestrator.Domain.{Dependency, DagSpec}
use cloud_job_orchestrator.Domain.Validate.{topological_order, check_order, validate}
use cloud_job_orchestrator.Domain.Validate.Policy.{ids, validate→Validated, IsWellFormed}
use cloud_job_orchestrator.Scheduler.Edges.{blocked}
use cloud_job_orchestrator.Topology.Relax.{zero_count}
use cloud_job_orchestrator.Topology.Counts.{Fewer-full, Fewer, mem_text-eq-count, mem_text-snoc}
use cloud_job_orchestrator.Topology.Walk.{missing, IsTopological, visited-Fewer}
use cloud_job_orchestrator.Topology.Order.{walked, adjacent_edges, length-map_ids}

-- A list of jobs in which every job of the submission stands once, and after all its parents.
pub record IsOrder (spec : DagSpec) (order : List Text) : Type 0 where
  pub complete : (k : Text) → count_text k order ≡ count_text k (ids spec.jobs)
  pub parents_first : IsTopological spec.dependencies [] order

pub few_edges : (spec : DagSpec) → IsWellFormed spec → length spec.dependencies < 2 ^ 64
few_edges spec w = let h = w.dependency_limit in ground arith

check_order-ok :
    (n : ℕ) (o : Option (List Text)) (w order : List Text)
    → o ≡ some w
    → check_order n o ≡ ok order
    → (w ≡ order) × (length order ≡ n)
check_order-ok n none w order s h = cc
check_order-ok n (some x) w order s h = (ground arith, ground arith)

pub nil_append : (xs : List Text) → xs ++ [] ≡ xs
nil_append [] = refl
nil_append (x ∷ xs) = ground (arith, nil_append xs)

-- The order that `validate` returns holds each job once, after all its parents.
pub validate→IsOrder :
    (spec : DagSpec) (order : List Text) → validate spec ≡ ok order → IsOrder spec order
validate→IsOrder spec order h =
    let v = validate→Validated spec order h in
    let few = few_edges spec v.well_formed in
    let adjacent = adjacent_edges spec v.indegree v.graph v.jobs_admitted v.edges_admitted few in
    let w = walked spec v.indegree v.graph v.jobs_admitted v.edges_admitted few in
    let (same, full) =
      check_order-ok (length spec.jobs) (topological_order (length spec.jobs) v.graph) w.order order
        w.same v.ordered in
    let fewer : Fewer w.order (ids spec.jobs) = rw (nil_append w.order) at (
      visited-Fewer spec.dependencies (ids spec.jobs) v.graph.outgoing adjacent few w.indegree []
        w.order w.inv) in
    record {
      complete =
          rw same at
            (Fewer-full w.order (ids spec.jobs) fewer (ground (arith, length-map_ids spec.jobs)));
      parents_first = rw same at w.inv.ordered;
    }

blocked_antitone :
    (done done' : Text → Bool) (c : Text) (edges : List Dependency)
    → ((p : Text) → done p ≡ true → done' p ≡ true)
    → blocked done' c edges ≤ blocked done c edges
unfolding blocked
blocked_antitone done done' c [] h = omega arith
blocked_antitone done done' c (e ∷ edges) h =
    ground (arith, blocked_antitone done done' c edges h, h e.from)

-- Where the walk has ended, it has taken every job of any list that is in order.
module _ (edges : List Dependency) (keys : List Text) (order : List Text) (m : Map ℕ)
    (degrees : (k : Text)
      → lookup k m ≡ (if mem_text k keys then some (missing edges order k) else none))
    (visited : (k : Text) → count_text k order ≡ zero_count (lookup k m)) where
  taken : (x : Text) → mem_text x keys ≡ true → missing edges order x ≡ 0 → mem_text x order ≡ true
  taken x known free = ground (arith, visited x, degrees x, mem_text-eq-count x order)

  pub All-taken :
      (done xs : List Text)
      → IsTopological edges done xs
      → ((k : Text) → mem_text k done ≡ true → mem_text k order ≡ true)
      → All (λ x. mem_text x keys ≡ true) xs
      → All (λ x. mem_text x order ≡ true) xs
  All-taken done [] t before known = tt
  All-taken done (x ∷ xs) t before known =
      let less = blocked_antitone (λ p. mem_text p done) (λ p. mem_text p order) x edges before in
      let now = taken x known.0 (omega (arith, less, t.0)) in
      (
        now,
        All-taken (done ++ x ∷ []) xs t.1
            (λ k. ground (arith, mem_text-snoc k x done, before k, eq_text_iff x k)) known.1,
      )

pub mem-All :
    (P : Text → Type 0) (xs : List Text) → ((k : Text) → mem_text k xs ≡ true → P k) → All P xs
unfolding mem_text
mem-All P [] h = tt
mem-All P (x ∷ xs) h =
    (h x (ground (arith, eq_text_iff x x)), mem-All P xs (λ k i. h k (ground arith)))

pub All-mem :
    (P : Text → Type 0) (k : Text) (xs : List Text) → All P xs → mem_text k xs ≡ true → P k
unfolding mem_text
All-mem P k [] h i = cc
All-mem P k (x ∷ xs) h i = elim (Bool-cases (eq_text x k)) [
  | inl e ↦ rw (← (eq_text_iff x k).0 e) h.0
  | inr e ↦ All-mem P k xs h.1 (ground arith)
]

pub count_of_distinct : (k : Text) (xs : List Text) → DistinctTexts xs → count_text k xs ≤ 1
unfolding count_text
count_of_distinct k [] d = omega arith
count_of_distinct k (x ∷ xs) d =
    ground (arith, count_of_distinct k xs d.1, mem_text-eq-count x xs, eq_text_iff x k)
