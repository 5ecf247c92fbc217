-- ===== src/Store/Waits/Submit.antt =====
-- src/store.rs: rows that wait for a parent, through `submit`.
use cloud_job_orchestrator.Base.{
  ℕ, ◌≡◌, refl, Bool, true, false, List, [], ◌∷◌, ◌++◌, arith, inl, inr, ◌∙◌, Bool-cases, All,
  All-append, All-map, ◌≢◌,
}
use cloud_job_orchestrator.Base.Map.{Map, lookup}
use cloud_job_orchestrator.Base.Text.{Text, eq_text, eq_text_iff, eq_text_refl, mem_text}
use cloud_job_orchestrator.Domain.{JobSpec, Dependency, DagSpec, pending}
use cloud_job_orchestrator.Domain.Validate.Policy.{ids, JoinsJobs, validate→Validated}
use cloud_job_orchestrator.Scheduler.State.{same_state}
use cloud_job_orchestrator.Scheduler.Submit.{dependency_counts, count_or_default}
use cloud_job_orchestrator.Scheduler.Edges.{blocked}
use cloud_job_orchestrator.Scheduler.Edges.Counts.{dependency_counts-blocked}
use cloud_job_orchestrator.Store.Tables.{Timestamp, JobRow, EdgeRow, Db, Postgres, exists_row}
use cloud_job_orchestrator.Store.Lease.{has_open_parent}
use cloud_job_orchestrator.Store.Submit.{initial_row, edge_row, submit_tx, submit}
use cloud_job_orchestrator.Store.Inserts.{initial_rows, edge_rows, Submitted, submit_tx-Submitted}
use cloud_job_orchestrator.Store.Waits.{
  Waits, AllWait, exists_row-append, exists_row_mono, is_open_parent,
}
use cloud_job_orchestrator.Store.Waits.Calls.{committed-AllWait}

pub exists_row-append_left :
    {A : Type 0} (p : A → Bool) (xs ys : List A)
    → exists_row p xs ≡ true
    → exists_row p (xs ++ ys) ≡ true
exists_row-append_left p xs ys h = ground (arith, exists_row-append p xs ys)

pub exists_row-append_right :
    {A : Type 0} (p : A → Bool) (xs ys : List A)
    → exists_row p ys ≡ true
    → exists_row p (xs ++ ys) ≡ true
exists_row-append_right p xs ys h = ground (arith, exists_row-append p xs ys)

has_open_parent-append_left :
    (edges edges' : List EdgeRow) (jobs jobs' : List JobRow) (r : JobRow)
    → has_open_parent edges jobs r ≡ true
    → has_open_parent (edges ++ edges') (jobs ++ jobs') r ≡ true
unfolding has_open_parent
has_open_parent-append_left edges edges' jobs jobs' r h = exists_row-append_left _ edges edges' (
    exists_row_mono _ _ edges
      (λ e k. ground (arith, exists_row-append_left (is_open_parent e) jobs jobs')) h)

has_open_parent-append_right :
    (edges edges' : List EdgeRow) (jobs jobs' : List JobRow) (r : JobRow)
    → has_open_parent edges' jobs' r ≡ true
    → has_open_parent (edges ++ edges') (jobs ++ jobs') r ≡ true
unfolding has_open_parent
has_open_parent-append_right edges edges' jobs jobs' r h = exists_row-append_right _ edges edges' (
    exists_row_mono _ _ edges'
      (λ e k. ground (arith, exists_row-append_right (is_open_parent e) jobs jobs')) h)

module _ (counts : Map ℕ) (d : Text) (now : Timestamp) where
  initial_row-is_open_parent :
      (job : JobSpec) (e : Dependency)
      → eq_text job.id e.from ≡ true
      → is_open_parent (edge_row d e) (initial_row counts d now job) ≡ true
  unfolding initial_row same_state
  initial_row-is_open_parent job e h = rw (eq_text_refl d, h) (ground arith)

  initial_rows-open_parent :
      (jobs : List JobSpec) (e : Dependency)
      → mem_text e.from (ids jobs) ≡ true
      → exists_row (is_open_parent (edge_row d e)) (initial_rows counts d now jobs) ≡ true
  unfolding exists_row mem_text
  initial_rows-open_parent [] e h = cc
  initial_rows-open_parent (job ∷ jobs) e h =
      ground (arith, initial_rows-open_parent jobs e, initial_row-is_open_parent job e)

  -- A job with an edge to it has an open parent among the rows of the submission.
  blocked-has_open_parent :
      (jobs : List JobSpec) (deps : List Dependency) (r : JobRow)
      → r.dag_id ≡ d
      → All (JoinsJobs (ids jobs)) deps
      → blocked (λ p. false) r.id deps ≢ 0
      → has_open_parent (edge_rows d deps) (initial_rows counts d now jobs) r ≡ true
  unfolding has_open_parent exists_row blocked
  blocked-has_open_parent jobs [] r same joins h = absurd (h refl)
  blocked-has_open_parent jobs (e ∷ deps) r same joins h = elim (Bool-cases (eq_text e.to r.id)) [
    | inl t ↦
        let open_one = initial_rows-open_parent jobs e joins.0.from_known in
        ground (arith, eq_text_iff d r.dag_id)
    | inr t ↦
        let rest = blocked-has_open_parent jobs deps r same joins.1 (λ k. h (ground arith)) in
        ground arith
  ]

ids-known : (jobs : List JobSpec) → All (λ job. mem_text job.id (ids jobs) ≡ true) jobs
unfolding mem_text
ids-known [] = tt
ids-known (job ∷ jobs) = (
  ground (arith, eq_text_refl job.id),
  All-map (λ x (h : mem_text x.id (ids jobs) ≡ true). ground arith) jobs (ids-known jobs),
)

initial_row_pending :
    (counts : Map ℕ) (d : Text) (now : Timestamp) (job : JobSpec)
    → (initial_row counts d now job).state ≡ pending
    → count_or_default (lookup job.id counts) ≢ 0
unfolding initial_row
initial_row_pending counts d now job h k = ground arith

initial_row_dag :
    (counts : Map ℕ) (d : Text) (now : Timestamp) (job : JobSpec)
    → ((initial_row counts d now job).dag_id ≡ d) × ((initial_row counts d now job).id ≡ job.id)
unfolding initial_row
initial_row_dag counts d now job = (refl, refl)

module _ (spec : DagSpec) (now : Timestamp)
    (joins : All (JoinsJobs (ids spec.jobs)) spec.dependencies) where
  abbrev counts : Map ℕ
  counts = dependency_counts spec

  initial_row-waits :
      (job : JobSpec)
      → mem_text job.id (ids spec.jobs) ≡ true
      → (initial_row counts spec.id now job).state ≡ pending
      → has_open_parent
          (edge_rows spec.id spec.dependencies)
          (initial_rows counts spec.id now spec.jobs)
          (initial_row counts spec.id now job)
        ≡ true
  initial_row-waits job known h =
      let (p, q) = initial_row_dag counts spec.id now job in
      let waits = initial_row_pending counts spec.id now job h in
      let counted = dependency_counts-blocked spec job.id known in
      blocked-has_open_parent counts spec.id now spec.jobs spec.dependencies
        (initial_row counts spec.id now job) p joins (rw q (λ k. waits (counted ∙ k)))

  initial_rows-Waits :
      (jobs : List JobSpec)
      → All (λ job. mem_text job.id (ids spec.jobs) ≡ true) jobs
      → Waits
          (edge_rows spec.id spec.dependencies)
          (initial_rows counts spec.id now spec.jobs)
          (initial_rows counts spec.id now jobs)
  initial_rows-Waits [] h = tt
  initial_rows-Waits (job ∷ jobs) h = (initial_row-waits job h.0, initial_rows-Waits jobs h.1)

Submitted-AllWait :
    (spec : DagSpec) (now : Timestamp) (db db' : Db)
    → Submitted spec now db db'
    → AllWait db
    → AllWait db'
Submitted-AllWait spec now db db' s w =
    let joins = (validate→Validated spec s.order s.valid).well_formed.joins in
    let rows = initial_rows (dependency_counts spec) spec.id now spec.jobs in
    let edges = edge_rows spec.id spec.dependencies in
    let P : JobRow → Type 0 =
      λ r. r.state ≡ pending → has_open_parent (db.edges ++ edges) (db.jobs ++ rows) r ≡ true in
    let old : All P db.jobs =
      All-map {Q = P}
        (λ r (f : r.state ≡ pending → has_open_parent db.edges db.jobs r ≡ true) h.
          has_open_parent-append_left db.edges edges db.jobs rows r (f h))
        db.jobs w in
    let new : All P rows =
      All-map {Q = P}
        (λ r (f : r.state ≡ pending → has_open_parent edges rows r ≡ true) h.
          has_open_parent-append_right db.edges edges db.jobs rows r (f h))
        rows (initial_rows-Waits spec now joins spec.jobs (ids-known spec.jobs)) in
    rw (s.jobs_added, s.edges_added) (All-append P db.jobs rows old new)

pub submit-AllWait :
    {E : Type 0} (pg : Postgres E) (db : Db) (spec : DagSpec) (now : Timestamp)
    → AllWait db
    → AllWait (submit pg db spec now).1
unfolding submit
submit-AllWait pg db spec now w =
    committed-AllWait db (submit_tx pg db spec now) w
      (λ u db' h. Submitted-AllWait spec now db db' (submit_tx-Submitted pg db spec now u db' h) w)
