-- ===== src/Scheduler/Heap/Admits.antt =====
-- src/scheduler.rs: the heap under `submit`.
use mathlib.Core.Option
use cloud_job_orchestrator.Base.{
  ℕ, ◌≡◌, refl, true, none, some, List, [], ◌∷◌, arith, inl, inr, if◌then◌else◌, Bool-cases,
  Option-cases, subst, ◌==◌,
}
use cloud_job_orchestrator.Base.Int.{ℤ}
use cloud_job_orchestrator.Base.Order.{In, IsSorted}
use cloud_job_orchestrator.Base.Text.{Text, eq_text, eq_text_iff}
use cloud_job_orchestrator.Base.Map.{Map, lookup, insert}
use cloud_job_orchestrator.Domain.{JobSpec, DagSpec}
use cloud_job_orchestrator.Scheduler.State.{
  JobRecord, Scheduler, ReadyKey, same_state, key_order, push_ready, ready_key,
}
use cloud_job_orchestrator.Scheduler.Submit.{
  submit, admit, admit_records, initial_record, count_or_default, dependency_counts,
}
use cloud_job_orchestrator.Scheduler.Admission.{
  find_spec, find_spec-some, find_job-admit, submit-cases,
}
use cloud_job_orchestrator.Scheduler.Heap.{
  is_waiting, key_of, HeapInv, Within, push_ready-Within, In-push_ready, push_ready-IsSorted,
}

abbrev next_heap : Map ℕ → Text → ℤ → List ReadyKey → JobSpec → List ReadyKey
next_heap counts d now heap x =
    if count_or_default (lookup x.id counts) == 0 then push_ready d x now heap else heap

module _ (counts : Map ℕ) (d : Text) (now : ℤ) where
  next_heap-Within :
      (heap : List ReadyKey) (x : JobSpec) → Within heap (next_heap counts d now heap x)
  next_heap-Within heap x k i = elim (Bool-cases (count_or_default (lookup x.id counts) == 0)) [
    | inl e ↦ rw e (push_ready-Within d x now heap k i)
    | inr e ↦ rw e i
  ]

  next_heap-IsSorted :
      (heap : List ReadyKey) (x : JobSpec)
      → IsSorted key_order.preorder heap
      → IsSorted key_order.preorder (next_heap counts d now heap x)
  next_heap-IsSorted heap x o = elim (Bool-cases (count_or_default (lookup x.id counts) == 0)) [
    | inl e ↦ rw e (push_ready-IsSorted d x now heap o)
    | inr e ↦ rw e o
  ]

  admit_records-Within :
      (jobs : Map JobRecord) (heap : List ReadyKey) (xs : List JobSpec)
      → Within heap (admit_records counts d now jobs heap xs).1
  unfolding admit_records
  admit_records-Within jobs heap [] k i = i
  admit_records-Within jobs heap (x ∷ xs) k i =
      admit_records-Within (insert x.id (initial_record counts now x) jobs)
        (next_heap counts d now heap x) xs k (next_heap-Within heap x k i)

  admit_records-IsSorted :
      (jobs : Map JobRecord) (heap : List ReadyKey) (xs : List JobSpec)
      → IsSorted key_order.preorder heap
      → IsSorted key_order.preorder (admit_records counts d now jobs heap xs).1
  unfolding admit_records
  admit_records-IsSorted jobs heap [] o = o
  admit_records-IsSorted jobs heap (x ∷ xs) o =
      admit_records-IsSorted (insert x.id (initial_record counts now x) jobs)
        (next_heap counts d now heap x) xs (next_heap-IsSorted heap x o)

  In-admit_records :
      (jobs : Map JobRecord) (heap : List ReadyKey) (xs : List JobSpec) (y : JobSpec)
      → In y xs
      → (count_or_default (lookup y.id counts) == 0) ≡ true
      → In (ready_key d y now) (admit_records counts d now jobs heap xs).1
  unfolding admit_records
  In-admit_records jobs heap [] y i z = elim i [ ]
  In-admit_records jobs heap (x ∷ xs) y (inl e) z =
      admit_records-Within (insert x.id (initial_record counts now x) jobs)
        (next_heap counts d now heap x) xs (ready_key d y now)
        (subst (λ (u : JobSpec). In (ready_key d y now) (next_heap counts d now heap u)) e
          (rw z (In-push_ready d y now heap)))
  In-admit_records jobs heap (x ∷ xs) y (inr i) z =
      In-admit_records (insert x.id (initial_record counts now x) jobs)
        (next_heap counts d now heap x) xs y i z

none_is_not_some : (f : JobSpec → JobRecord) (r : JobRecord) → Option.map f none ≡ some r → ⊥
none_is_not_some f r h = cc

initial_waits :
    (counts : Map ℕ) (now : ℤ) (x : JobSpec)
    → is_waiting (initial_record counts now x) ≡ true
    → (count_or_default (lookup x.id counts) == 0) ≡ true
unfolding initial_record same_state
initial_waits counts now x w = ground arith

initial_key :
    (counts : Map ℕ) (now : ℤ) (d : Text) (x : JobSpec)
    → key_of d (initial_record counts now x) ≡ ready_key d x now
unfolding initial_record
initial_key counts now d x = refl

module _ (s : Scheduler) (spec : DagSpec) (now : ℤ) (v : HeapInv s) where
  abbrev admitted : List ReadyKey
  admitted = (admit_records (dependency_counts spec) spec.id now [] s.ready spec.jobs).1

  admitted-Covers_own :
      (j : Text) (r : JobRecord)
      → Option.map (initial_record (dependency_counts spec) now) (find_spec j spec.jobs) ≡ some r
      → is_waiting r ≡ true
      → In (key_of spec.id r) admitted
  admitted-Covers_own j r h w = elim (Option-cases (find_spec j spec.jobs)) [
    | inl e ↦ absurd (none_is_not_some (initial_record (dependency_counts spec) now) r (rw e at h))
    | inr (x, e) ↦
        let (i, same) = find_spec-some j spec.jobs x e in
        let made : initial_record (dependency_counts spec) now x ≡ r = ground arith in
        let z = initial_waits (dependency_counts spec) now x (rw made w) in
        let k : In (ready_key spec.id x now) admitted =
          In-admit_records (dependency_counts spec) spec.id now [] s.ready spec.jobs x i z in
        subst (λ (y : JobRecord). In (key_of spec.id y) admitted) made
          (rw (initial_key (dependency_counts spec) now spec.id x) k)
  ]

  admit-HeapInv : HeapInv (admit s spec now)
  unfolding admit
  admit-HeapInv = record {
    sorted =
        admit_records-IsSorted (dependency_counts spec) spec.id now [] s.ready spec.jobs v.sorted;
    covers = λ d j r f w. elim (Bool-cases (eq_text spec.id d)) [
      | inl e ↦
          let same : spec.id ≡ d = ground (arith, eq_text_iff spec.id d) in
          subst (λ (x : Text). In (key_of x r) admitted) same
            (admitted-Covers_own j r (ground (arith, find_job-admit s spec now d j)) w)
      | inr e ↦
          admit_records-Within (dependency_counts spec) spec.id now [] s.ready spec.jobs
            (key_of d r) (v.covers d j r (ground (arith, find_job-admit s spec now d j)) w)
    ];
  }

pub submit-HeapInv :
    (s : Scheduler) (spec : DagSpec) (now : ℤ) → HeapInv s → HeapInv (submit s spec now).1
submit-HeapInv s spec now v = elim (submit-cases s spec now) [
  | inl (e, h) ↦ rw h v
  | inr (a, h) ↦ rw h (admit-HeapInv s spec now v)
]
