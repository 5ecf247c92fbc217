-- ===== src/Scheduler/Roots.antt =====
-- src/scheduler.rs: the jobs of a submission that wait for none, as `submit` counts them.
use cloud_job_orchestrator.Base.{
  ℕ, suc, ◌+◌, ◌≡◌, refl, Bool, false, none, List, [], ◌∷◌, ◌||◌, ◌==◌, arith, if◌then◌else◌, All,
  ◌∙◌,
}
use cloud_job_orchestrator.Base.Text.{Text, eq_text, eq_text_iff, mem_text, DistinctTexts}
use cloud_job_orchestrator.Base.Map.{
  Map, lookup, insert, adjust, Distinct, insert-Distinct, adjust-Distinct, lookup-insert,
}
use cloud_job_orchestrator.Domain.{JobSpec, Dependency, DagSpec}
use cloud_job_orchestrator.Domain.Validate.Policy.{ids}
use cloud_job_orchestrator.Scheduler.Submit.{
  initial_counts, count_edges, dependency_counts, count_zeros,
}

-- Does an edge lead to the job?
unfoldable pub has_parent : Text → List Dependency → Bool
has_parent c [] = false
has_parent c (e ∷ edges) = eq_text e.to c || has_parent c edges

-- The number of jobs that no edge leads to.
unfoldable pub count_roots : List Dependency → List JobSpec → ℕ
unfolding has_parent
count_roots edges [] = 0
count_roots edges (x ∷ xs) = (if has_parent x.id edges then 0 else 1) + count_roots edges xs

-- The counts that are zero and stay so when the edges are counted.
unfoldable zeros_left : List Dependency → Map ℕ → ℕ
unfolding has_parent
zeros_left edges [] = 0
zeros_left edges ((k, n) ∷ m) =
    (if has_parent k edges then 0 else if n == 0 then 1 else 0) + zeros_left edges m

zeros_left-nil : (m : Map ℕ) → count_zeros m ≡ zeros_left [] m
unfolding zeros_left count_zeros has_parent
zeros_left-nil [] = refl
zeros_left-nil ((k, n) ∷ m) = ground (arith, zeros_left-nil m)

zeros_left-absent :
    (e : Dependency) (edges : List Dependency) (m : Map ℕ)
    → lookup e.to m ≡ none
    → zeros_left (e ∷ edges) m ≡ zeros_left edges m
unfolding zeros_left lookup has_parent
zeros_left-absent e edges [] h = refl
zeros_left-absent e edges ((k, n) ∷ m) h =
    ground (arith, zeros_left-absent e edges m, eq_text_iff e.to k, eq_text_iff k e.to)

zeros_left-adjust :
    (e : Dependency) (edges : List Dependency) (m : Map ℕ)
    → Distinct m
    → zeros_left edges (adjust e.to suc m) ≡ zeros_left (e ∷ edges) m
unfolding zeros_left adjust has_parent
zeros_left-adjust e edges [] d = refl
zeros_left-adjust e edges ((k, n) ∷ m) d = ground (
  arith,
  zeros_left-adjust e edges m d.1,
  zeros_left-absent e edges m,
  eq_text_iff e.to k,
  eq_text_iff k e.to,
  d.0,
)

count_zeros-count_edges :
    (edges : List Dependency) (m : Map ℕ)
    → Distinct m
    → count_zeros (count_edges m edges) ≡ zeros_left edges m
unfolding count_edges
count_zeros-count_edges [] m d = zeros_left-nil m
count_zeros-count_edges (e ∷ edges) m d =
    count_zeros-count_edges edges (adjust e.to suc m) (adjust-Distinct e.to suc m d)
    ∙ zeros_left-adjust e edges m d

zeros_left-insert :
    (edges : List Dependency) (j : Text) (m : Map ℕ)
    → lookup j m ≡ none
    → zeros_left edges (insert j 0 m) ≡ (if has_parent j edges then 0 else 1) + zeros_left edges m
unfolding zeros_left insert lookup
zeros_left-insert edges j [] h = ground arith
zeros_left-insert edges j ((k, n) ∷ m) h = ground (arith, zeros_left-insert edges j m)

fresh-insert :
    (j : Text) (m : Map ℕ) (xs : List JobSpec)
    → mem_text j (ids xs) ≡ false
    → All (λ (x : JobSpec). lookup x.id m ≡ none) xs
    → All (λ (x : JobSpec). lookup x.id (insert j 0 m) ≡ none) xs
unfolding mem_text
fresh-insert j m [] h f = tt
fresh-insert j m (x ∷ xs) h f = (
  ground (arith, lookup-insert j x.id 0 m, eq_text_iff j x.id, eq_text_iff x.id j, f.0),
  fresh-insert j m xs (ground arith) f.1,
)

zeros_left-initial_counts :
    (edges : List Dependency) (m : Map ℕ) (xs : List JobSpec)
    → DistinctTexts (ids xs)
    → All (λ (x : JobSpec). lookup x.id m ≡ none) xs
    → zeros_left edges (initial_counts m xs) ≡ count_roots edges xs + zeros_left edges m
unfolding initial_counts count_roots
zeros_left-initial_counts edges m [] d f = ground arith
zeros_left-initial_counts edges m (x ∷ xs) d f =
    let rest =
      zeros_left-initial_counts edges (insert x.id 0 m) xs d.1 (fresh-insert x.id m xs d.0 f.1) in
    ground (arith, rest, zeros_left-insert edges x.id m f.0)

initial_counts-Distinct :
    (m : Map ℕ) (xs : List JobSpec) → Distinct m → Distinct (initial_counts m xs)
unfolding initial_counts
initial_counts-Distinct m [] d = d
initial_counts-Distinct m (x ∷ xs) d =
    initial_counts-Distinct (insert x.id 0 m) xs (insert-Distinct x.id 0 m d)

all_absent : (xs : List JobSpec) → All (λ (x : JobSpec). lookup {V = ℕ} x.id [] ≡ none) xs
unfolding lookup
all_absent [] = tt
all_absent (x ∷ xs) = (refl, all_absent xs)

-- For distinct identifiers, the counts that are zero are those of the jobs that no edge leads to.
pub count_zeros-eq-count_roots :
    (spec : DagSpec)
    → DistinctTexts (ids spec.jobs)
    → count_zeros (dependency_counts spec) ≡ count_roots spec.dependencies spec.jobs
unfolding dependency_counts zeros_left
count_zeros-eq-count_roots spec d =
    let counts = initial_counts [] spec.jobs in
    let counted =
      count_zeros-count_edges spec.dependencies counts (initial_counts-Distinct [] spec.jobs tt) in
    let started =
      zeros_left-initial_counts spec.dependencies [] spec.jobs d (all_absent spec.jobs) in
    omega (arith, counted, started)
