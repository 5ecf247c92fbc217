-- ===== src/Topology/Walk.antt =====
-- src/domain.rs: the invariant of the walk and its fuel.
use cloud_job_orchestrator.Base.{
  ℕ, zero, suc, true, false, Bool, ◌+◌, ◌-◌, ◌^◌, ◌≤◌, ◌<◌, ◌≡◌, refl, Option, none, some, List, [],
  ◌∷◌, ◌++◌, if◌then◌else◌, arith, inl, inr, Bool-cases, sym, length, length-append,
}
use cloud_job_orchestrator.Base.Order.{text_order, sort}
use cloud_job_orchestrator.Base.Text.{Text, eq_text_iff, count_text, mem_text}
use cloud_job_orchestrator.Base.Map.{Map, lookup}
use cloud_job_orchestrator.Domain.{Dependency}
use cloud_job_orchestrator.Domain.Validate.{relax, kahn, children_of}
use cloud_job_orchestrator.Scheduler.Edges.{blocked, blocked_finish}
use cloud_job_orchestrator.Scheduler.Admission.Edges.{
  count_text-append, count_text-sort, count_edge,
}
use cloud_job_orchestrator.Topology.Counts.{mem_text-eq-count, mem_text-snoc, Fewer, Fewer-length}
use cloud_job_orchestrator.Topology.Relax.{zero_count, lookup-relax-none, lookup-relax-some}

-- How many edges lead to the job from jobs that are not in the list.
abbrev pub missing : List Dependency → List Text → Text → ℕ
missing edges done k = blocked (λ p. mem_text p done) k edges

-- Each job of the list comes after all its parents, which are in the list or done before it.
abbrev pub IsTopological : List Dependency → List Text → List Text → Type 0
IsTopological edges done [] = Unit
IsTopological edges done (x ∷ xs) =
    (missing edges done x ≡ 0) × IsTopological edges (done ++ x ∷ []) xs

pub blocked_le :
    (done : Text → Bool) (k : Text) (edges : List Dependency) → blocked done k edges ≤ length edges
unfolding blocked
blocked_le done k [] = omega arith
blocked_le done k (e ∷ edges) = ground (arith, blocked_le done k edges)

append_assoc : (xs ys zs : List Text) → (xs ++ ys) ++ zs ≡ xs ++ (ys ++ zs)
append_assoc [] ys zs = refl
append_assoc (x ∷ xs) ys zs = ground (arith, append_assoc xs ys zs)

append_nil : (xs : List Text) → xs ++ [] ≡ xs
append_nil [] = refl
append_nil (x ∷ xs) = ground (arith, append_nil xs)

IsTopological-snoc :
    (edges : List Dependency) (done xs : List Text) (x : Text)
    → IsTopological edges done xs
    → missing edges (done ++ xs) x ≡ 0
    → IsTopological edges done (xs ++ x ∷ [])
IsTopological-snoc edges done [] x t h = (rw (sym (append_nil done)) h, tt)
IsTopological-snoc edges done (y ∷ xs) x t h =
    (t.0, IsTopological-snoc edges (done ++ y ∷ []) xs x t.1 (rw (append_assoc done (y ∷ []) xs) h))

module _ (edges : List Dependency) (keys : List Text) (outgoing : Map (List Text))
    (adjacent : (p c : Text) → count_text c (children_of outgoing p) ≡ count_edge p c edges)
    (few : length edges < 2 ^ 64) where
  -- The counts are those of the edges from jobs that have not been taken, and each job without such
  -- an edge is in the order or in the queue, once.
  pub record WalkInv (indegree : Map ℕ) (queue order : List Text) : Type 0 where
    pub degrees :
        (k : Text)
        → lookup k indegree ≡ (if mem_text k keys then some (missing edges order k) else none)
    pub visited :
        (k : Text) → count_text k order + count_text k queue ≡ zero_count (lookup k indegree)
    pub ordered : IsTopological edges [] order

  module _ (m : Map ℕ) (id : Text) (queue order : List Text)
      (v : WalkInv m (id ∷ queue) order) where
    not_taken : mem_text id order ≡ false
    unfolding count_text
    not_taken = ground (arith, mem_text-eq-count id order, v.visited id, eq_text_iff id id)

    has_no_parent : missing edges order id ≡ 0
    unfolding count_text
    has_no_parent = ground (arith, v.visited id, v.degrees id, eq_text_iff id id)

    missing-snoc :
        (k : Text)
        → missing edges (order ++ id ∷ []) k + count_edge id k edges ≡ missing edges order k
    missing-snoc k =
        blocked_finish (λ p. mem_text p order) (λ p. mem_text p (order ++ id ∷ [])) id k edges
          (λ p. mem_text-snoc p id order) not_taken

    abbrev next : Map ℕ × List Text
    next = relax m [] (children_of outgoing id)

    next_known :
        (k : Text)
        → mem_text k keys ≡ true
        → (lookup k next.0 ≡ some (missing edges (order ++ id ∷ []) k))
          × (count_text k next.1 + zero_count (lookup k m) ≡ zero_count (lookup k next.0))
    unfolding count_text
    next_known k known =
        let n = missing edges order k in
        let start : lookup k m ≡ some n = ground (arith, v.degrees k) in
        let room : count_text k (children_of outgoing id) ≤ n =
          omega (arith, adjacent id k, missing-snoc k) in
        let small : n < 2 ^ 64 = omega (arith, few, blocked_le (λ p. mem_text p order) k edges) in
        let (fell, pushed) =
          lookup-relax-some k m [] (children_of outgoing id) n start room small in
        let same : n - count_text k (children_of outgoing id) ≡ missing edges (order ++ id ∷ []) k =
          omega (arith, adjacent id k, missing-snoc k) in
        let fell' : lookup k next.0 ≡ some (missing edges (order ++ id ∷ []) k) =
          rw (sym same) fell in
        let pushed' = rw same at pushed in (fell', rw (start, fell') (ground arith))

    next_unknown :
        (k : Text)
        → mem_text k keys ≡ false
        → (lookup k next.0 ≡ none)
          × (count_text k next.1 + zero_count (lookup k m) ≡ zero_count (lookup k next.0))
    unfolding count_text
    next_unknown k unknown =
        let start : lookup k m ≡ none = ground (arith, v.degrees k) in
        let (same, pushed) = lookup-relax-none k m [] (children_of outgoing id) start in
        (same, rw (start, same) (ground arith))

    step-WalkInv : WalkInv next.0 (queue ++ sort text_order.preorder next.1) (order ++ id ∷ [])
    unfolding count_text
    step-WalkInv = record {
      degrees = λ k. elim (Bool-cases (mem_text k keys)) [
        | inl known ↦ rw known (next_known k known).0
        | inr unknown ↦ rw unknown (next_unknown k unknown).0
      ];
      visited = λ k. elim (Bool-cases (mem_text k keys)) [
        | inl known ↦
            let (_, e) = next_known k known in
            ground (
              arith,
              v.visited k,
              count_text-append k order (id ∷ []),
              count_text-append k queue (sort text_order.preorder next.1),
              count_text-sort k next.1,
            )
        | inr unknown ↦
            let (_, e) = next_unknown k unknown in
            ground (
              arith,
              v.visited k,
              count_text-append k order (id ∷ []),
              count_text-append k queue (sort text_order.preorder next.1),
              count_text-sort k next.1,
            )
      ];
      ordered = IsTopological-snoc edges [] order id v.ordered has_no_parent;
    }

  pub visited-Fewer :
      (m : Map ℕ) (queue order : List Text) → WalkInv m queue order → Fewer (order ++ queue) keys
  visited-Fewer m queue order v k =
      ground
        (arith, v.visited k, v.degrees k, count_text-append k order queue, mem_text-eq-count k keys)

  pub visited_le :
      (m : Map ℕ) (queue order : List Text)
      → WalkInv m queue order
      → length order + length queue ≤ length keys
  visited_le m queue order v = omega (
    arith,
    Fewer-length (order ++ queue) keys (visited-Fewer m queue order v),
    length-append order queue,
  )

  pub record Walked (result : Option (List Text)) : Type 0 where
    pub order : List Text
    pub indegree : Map ℕ
    pub same : result ≡ some order
    pub inv : WalkInv indegree [] order

  -- Fuel for each job that is not in the order yet is enough.
  pub kahn-Walked :
      (fuel : ℕ) (m : Map ℕ) (queue order : List Text)
      → WalkInv m queue order
      → length keys ≤ length order + fuel
      → Walked (kahn (suc fuel) outgoing m queue order)
  unfolding kahn
  kahn-Walked fuel m [] order v h = record { order = order; indegree = m; same = refl; inv = v }
  kahn-Walked zero m (id ∷ queue) order v h =
      absurd (ground (arith, visited_le m (id ∷ queue) order v))
  kahn-Walked (suc fuel) m (id ∷ queue) order v h =
      kahn-Walked fuel (next m id queue order v).0 _ (order ++ id ∷ [])
        (step-WalkInv m id queue order v) (omega (arith, h, length-append order (id ∷ [])))
