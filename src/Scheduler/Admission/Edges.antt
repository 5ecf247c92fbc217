-- ===== src/Scheduler/Admission/Edges.antt =====
-- src/scheduler.rs: the edges that `submit` stores with a DAG.
use cloud_job_orchestrator.Base.{
  ℕ, ◌+◌, ◌≡◌, refl, true, ◌&&◌, List, [], ◌∷◌, arith, inl, inr, if◌then◌else◌, has_value, All,
  Option-cases, ◌++◌, All-append, All-map,
}
use cloud_job_orchestrator.Base.Int.{ℤ}
use cloud_job_orchestrator.Base.Order.{text_order, sort, sort-All, insert_sorted}
use cloud_job_orchestrator.Base.Text.{
  Text, eq_text, eq_text_iff, eq_text_refl, mem_text, count_text,
}
use cloud_job_orchestrator.Base.Map.{Map, lookup, lookup-insert, lookup-map_values}
use cloud_job_orchestrator.Domain.{Dependency, DagSpec}
use cloud_job_orchestrator.Domain.Validate.{push_edge}
use cloud_job_orchestrator.Domain.Validate.Policy.{ids, IsWellFormed}
use cloud_job_orchestrator.Scheduler.State.{Scheduler, find_job}
use cloud_job_orchestrator.Scheduler.Submit.{admit, sorted_dependents, collect_dependents}
use cloud_job_orchestrator.Scheduler.Lease.{list_or_empty}
use cloud_job_orchestrator.Scheduler.Release.{children, AllPresent}
use cloud_job_orchestrator.Scheduler.Admission.{find_spec_of_mem, find_job-admit, children-admit}

push_edge-All :
    (P : Text → Type 0) (from to p : Text) (m : Map (List Text))
    → P to
    → All P (list_or_empty (lookup p m))
    → All P (list_or_empty (lookup from m))
    → All P (list_or_empty (lookup p (push_edge from to m)))
unfolding push_edge
push_edge-All P from to p m h hp hf = elim (Option-cases (lookup from m)) [
  | inl e ↦ rw (e, push_edge) (ground (arith, lookup-insert from p (to ∷ []) m))
  | inr (tos, e) ↦
      let all : All P (tos ++ to ∷ []) = All-append P tos (to ∷ []) (rw e at hf) (h, tt) in
      rw (e, push_edge) (ground (arith, lookup-insert from p (tos ++ to ∷ []) m))
]

collect_dependents-All :
    (P : Text → Type 0) (m : Map (List Text)) (edges : List Dependency)
    → All (λ e. P e.to) edges
    → ((p : Text) → All P (list_or_empty (lookup p m)))
    → (p : Text) → All P (list_or_empty (lookup p (collect_dependents m edges)))
unfolding collect_dependents
collect_dependents-All P m [] h k p = k p
collect_dependents-All P m (e ∷ edges) h k p =
    collect_dependents-All P (push_edge e.from e.to m) edges h.1
      (λ q. push_edge-All P e.from e.to q m h.0 (k q) (k e.from)) p

sorted_dependents-All :
    (P : Text → Type 0) (spec : DagSpec) (p : Text)
    → All (λ e. P e.to) spec.dependencies
    → All P (list_or_empty (lookup p (sorted_dependents spec)))
unfolding sorted_dependents lookup
sorted_dependents-All P spec p h =
    let m = collect_dependents [] spec.dependencies in
    let all = collect_dependents-All P [] spec.dependencies h (λ q. tt) p in
    elim (Option-cases (lookup p m)) [
      | inl e ↦ rw (lookup-map_values (sort text_order.preorder) p m, e) tt
      | inr (l, e) ↦
          rw (lookup-map_values (sort text_order.preorder) p m, e)
            (sort-All text_order.preorder P l (rw e at all))
    ]

admit-present :
    (s : Scheduler) (spec : DagSpec) (now : ℤ) (c : Text)
    → mem_text c (ids spec.jobs) ≡ true
    → has_value (find_job spec.id c (admit s spec now).dags) ≡ true
admit-present s spec now c h = ground (
  arith,
  find_job-admit s spec now spec.id c,
  find_spec_of_mem c spec.jobs,
  eq_text_iff spec.id spec.id,
)

-- Each dependent that `submit` stores is a job of the DAG.
pub admit-AllPresent :
    (s : Scheduler) (spec : DagSpec) (now : ℤ) (p : Text)
    → IsWellFormed spec
    → AllPresent spec.id (admit s spec now).dags (children spec.id p (admit s spec now).dags)
admit-AllPresent s spec now p w =
    let stored = children-admit s spec now spec.id p in
    let known =
      sorted_dependents-All (λ c. mem_text c (ids spec.jobs) ≡ true) spec p
        (All-map (λ e j. j.to_known) spec.dependencies w.joins) in
    rw (stored, eq_text_refl spec.id)
      (All-map (λ c h. admit-present s spec now c h)
        (list_or_empty (lookup p (sorted_dependents spec))) known)

-- How many edges lead from one job to another.
unfoldable pub count_edge : Text → Text → List Dependency → ℕ
count_edge p c [] = 0
count_edge p c (e ∷ edges) =
    (if eq_text e.from p && eq_text e.to c then 1 else 0) + count_edge p c edges

pub count_text-append :
    (c : Text) (xs ys : List Text) → count_text c (xs ++ ys) ≡ count_text c xs + count_text c ys
unfolding count_text
count_text-append c [] ys = ground arith
count_text-append c (x ∷ xs) ys = ground (arith, count_text-append c xs ys)

pub count_text-push_edge :
    (from to p c : Text) (m : Map (List Text))
    → count_text c (list_or_empty (lookup p (push_edge from to m)))
      ≡ (if eq_text from p && eq_text to c then 1 else 0)
        + count_text c (list_or_empty (lookup p m))
unfolding push_edge count_text
count_text-push_edge from to p c m = elim (Option-cases (lookup from m)) [
  | inl e ↦ ground (arith, lookup-insert from p (to ∷ []) m, eq_text_iff from p)
  | inr (tos, e) ↦ ground (
    arith,
    lookup-insert from p (tos ++ to ∷ []) m,
    count_text-append c tos (to ∷ []),
    eq_text_iff from p,
  )
]

count_text-collect :
    (p c : Text) (m : Map (List Text)) (edges : List Dependency)
    → count_text c (list_or_empty (lookup p (collect_dependents m edges)))
      ≡ count_edge p c edges + count_text c (list_or_empty (lookup p m))
unfolding collect_dependents count_edge
count_text-collect p c m [] = ground arith
count_text-collect p c m (e ∷ edges) = ground (
  arith,
  count_text-collect p c (push_edge e.from e.to m) edges,
  count_text-push_edge e.from e.to p c m,
)

count_text-insert_sorted :
    (c x : Text) (xs : List Text)
    → count_text c (insert_sorted text_order.preorder x xs)
      ≡ (if eq_text x c then 1 else 0) + count_text c xs
unfolding insert_sorted count_text
count_text-insert_sorted c x [] = refl
count_text-insert_sorted c x (y ∷ ys) = ground (arith, count_text-insert_sorted c x ys)

pub count_text-sort :
    (c : Text) (xs : List Text) → count_text c (sort text_order.preorder xs) ≡ count_text c xs
unfolding sort count_text
count_text-sort c [] = refl
count_text-sort c (x ∷ xs) =
    ground (arith, count_text-insert_sorted c x (sort text_order.preorder xs), count_text-sort c xs)

-- `submit` stores each edge of the submission, as often as it is there, and no other.
pub count_text-admit :
    (s : Scheduler) (spec : DagSpec) (now : ℤ) (p c : Text)
    → count_text c (children spec.id p (admit s spec now).dags) ≡ count_edge p c spec.dependencies
unfolding sorted_dependents lookup count_text
count_text-admit s spec now p c = ground (
  arith,
  children-admit s spec now spec.id p,
  eq_text_iff spec.id spec.id,
  lookup-map_values (sort text_order.preorder) p (collect_dependents [] spec.dependencies),
  count_text-sort c (list_or_empty (lookup p (collect_dependents [] spec.dependencies))),
  count_text-collect p c [] spec.dependencies,
)
