-- ===== src/Store/Accepts.antt =====
-- src/store.rs and migrations: a valid submission against the constraints of the tables.
use cloud_job_orchestrator.Base.{
  ℕ, ◌≡◌, ◌≢◌, refl, true, false, List, [], ◌∷◌, ◌++◌, ltb, arith, inl, inr, ◌⊎◌, Bool-cases,
  Result, ok, err, Result-cases, sym, All,
}
use cloud_job_orchestrator.Base.Map.{Map}
use cloud_job_orchestrator.Base.Text.{Text, eq_text, eq_text_iff, eq_text_refl, mem_text}
use cloud_job_orchestrator.Domain.{JobSpec, Dependency, DagSpec}
use cloud_job_orchestrator.Domain.Validate.{validate}
use cloud_job_orchestrator.Domain.Validate.Policy.{
  ids, IsIdentifier, IsAdmissible, JoinsJobs, validate→Validated,
}
use cloud_job_orchestrator.Scheduler.Submit.{dependency_counts}
use cloud_job_orchestrator.Store.{StoreError, database}
use cloud_job_orchestrator.Store.Tables.{
  Timestamp, DagRow, JobRow, EdgeRow, Db, Postgres, exists_row, is_job,
}
use cloud_job_orchestrator.Store.Submit.{
  matches_identifier, satisfies_checks, initial_row, insert_dag, insert_job, insert_jobs,
  insert_edge, insert_edges, submit_tx, submit, edge_row, same_edge,
}
use cloud_job_orchestrator.Store.Inserts.{initial_rows, insert_jobs-ok, insert_edge-ok}
use cloud_job_orchestrator.Store.Waits.Submit.{exists_row-append_left, exists_row-append_right}
use cloud_job_orchestrator.Base.Order.{In}

-- A value, or the error of a key that is taken.
abbrev pub OkOrTaken : {E A : Type 0} → Postgres E → Result (StoreError E) A → Type 0
OkOrTaken {E} {A} pg outcome =
    ((a : A) × (outcome ≡ ok a)) ⊎ (outcome ≡ err (database pg.unique_violation))

IsIdentifier-matches : (id : Text) → IsIdentifier id 64 → matches_identifier id ≡ true
unfolding matches_identifier
IsIdentifier-matches [] i = let p = i.not_empty in ground arith
IsIdentifier-matches (b ∷ bs) i = let p = i.short in let q = i.allowed in ground arith

admissible-satisfies_checks :
    (counts : Map ℕ) (d : Text) (now : Timestamp) (job : JobSpec)
    → IsAdmissible job
    → satisfies_checks (initial_row counts d now job) ≡ true
unfolding satisfies_checks initial_row
admissible-satisfies_checks counts d now job a =
    let named = IsIdentifier-matches job.id a.identifier in
    let p = a.payload_fits in
    let q = a.attempts_pos in
    let r = a.attempts_le in let s = a.priority_ge in let t = a.priority_le in ground arith

initial_rows-exists :
    (counts : Map ℕ) (d : Text) (now : Timestamp) (jobs : List JobSpec) (j : Text)
    → mem_text j (ids jobs) ≡ true
    → exists_row (is_job d j) (initial_rows counts d now jobs) ≡ true
unfolding exists_row mem_text initial_row
initial_rows-exists counts d now [] j h = cc
initial_rows-exists counts d now (job ∷ jobs) j h =
    ground (arith, initial_rows-exists counts d now jobs j, eq_text_refl d)

same_edge_refl :
    (d : Text) (e : Dependency) → exists_row (same_edge (edge_row d e)) (edge_row d e ∷ []) ≡ true
unfolding exists_row
same_edge_refl d e = rw (eq_text_refl d, eq_text_refl e.from, eq_text_refl e.to) refl

module _ {E : Type 0} (pg : Postgres E) where
  insert_dag-OkOrTaken :
      (db : Db) (id : Text) (now : Timestamp)
      → IsIdentifier id 64
      → OkOrTaken pg (insert_dag pg db id now)
  unfolding insert_dag
  insert_dag-OkOrTaken db id now i =
      let named = IsIdentifier-matches id i in
      elim (Bool-cases (exists_row (λ (x : DagRow). eq_text x.id id) db.dags)) [
        | inl e ↦ inr (rw (named, e) refl)
        | inr e ↦ rw (named, e) (inl (_, refl))
      ]

  insert_job-OkOrTaken :
      (counts : Map ℕ) (d : Text) (now : Timestamp) (rows : List JobRow) (job : JobSpec)
      → IsAdmissible job
      → OkOrTaken pg (insert_job pg counts d now rows job)
  unfolding insert_job
  insert_job-OkOrTaken counts d now rows job a =
      let checked = admissible-satisfies_checks counts d now job a in
      let small : ltb 32_767 job.max_attempts ≡ false = let r = a.attempts_le in ground arith in
      elim (Bool-cases (exists_row (is_job d job.id) rows)) [
        | inl e ↦ inr (rw (small, checked, e) refl)
        | inr e ↦ rw (small, checked, e) (inl (_, refl))
      ]

  insert_jobs-OkOrTaken :
      (counts : Map ℕ) (d : Text) (now : Timestamp) (rows : List JobRow) (jobs : List JobSpec)
      → All IsAdmissible jobs
      → OkOrTaken pg (insert_jobs pg counts d now rows jobs)
  unfolding insert_jobs
  insert_jobs-OkOrTaken counts d now rows [] a = inl (rows, refl)
  insert_jobs-OkOrTaken counts d now rows (job ∷ jobs) a =
      elim (insert_job-OkOrTaken counts d now rows job a.0) [
        | inl (mid, e) ↦ rw e (insert_jobs-OkOrTaken counts d now mid jobs a.1)
        | inr e ↦ inr (rw e refl)
      ]

  insert_edge-OkOrTaken :
      (jobs : List JobRow) (known : List Text) (d : Text) (rows : List EdgeRow) (edge : Dependency)
      → ((j : Text) → mem_text j known ≡ true → exists_row (is_job d j) jobs ≡ true)
      → JoinsJobs known edge
      → OkOrTaken pg (insert_edge pg jobs d rows edge)
  unfolding insert_edge
  insert_edge-OkOrTaken jobs known d rows edge stored joins =
      let apart : eq_text edge.from edge.to ≡ false =
        elim (Bool-cases (eq_text edge.from edge.to)) [
          | inl e ↦ absurd (joins.no_loop ((eq_text_iff edge.from edge.to).0 e))
          | inr e ↦ e
        ] in
      let parent = stored edge.from joins.from_known in
      let child = stored edge.to joins.to_known in
      elim (Bool-cases (exists_row (same_edge (edge_row d edge)) rows)) [
        | inl e ↦ inr (rw (apart, e) refl)
        | inr e ↦ rw (apart, e, parent, child) (inl (_, refl))
      ]

  insert_edges-OkOrTaken :
      (jobs : List JobRow) (known : List Text) (d : Text) (rows : List EdgeRow)
      (edges : List Dependency)
      → ((j : Text) → mem_text j known ≡ true → exists_row (is_job d j) jobs ≡ true)
      → All (JoinsJobs known) edges
      → OkOrTaken pg (insert_edges pg jobs d rows edges)
  unfolding insert_edges
  insert_edges-OkOrTaken jobs known d rows [] stored joins = inl (rows, refl)
  insert_edges-OkOrTaken jobs known d rows (edge ∷ edges) stored joins =
      elim (insert_edge-OkOrTaken jobs known d rows edge stored joins.0) [
        | inl (mid, e) ↦ rw e (insert_edges-OkOrTaken jobs known d mid edges stored joins.1)
        | inr e ↦ inr (rw e refl)
      ]

  submit_tx-OkOrTaken :
      (db : Db) (spec : DagSpec) (now : Timestamp) (order : List Text)
      → validate spec ≡ ok order
      → OkOrTaken pg (submit_tx pg db spec now)
  unfolding submit_tx
  submit_tx-OkOrTaken db spec now order v =
      let w = (validate→Validated spec order v).well_formed in
      elim (insert_dag-OkOrTaken db spec.id now w.identifier) [
        | inr e ↦ inr (rw (v, e, submit_tx) refl)
        | inl (mid, e) ↦
            elim (insert_jobs-OkOrTaken (dependency_counts spec) spec.id now mid.jobs spec.jobs
              w.admissible) [
                | inr f ↦ inr (rw (v, e, f, submit_tx) refl)
                | inl (jobs, f) ↦
                    let (made, _) =
                      insert_jobs-ok pg (dependency_counts spec) spec.id now mid.jobs jobs spec.jobs
                        f in
                    let stored : (j : Text)
                        → mem_text j (ids spec.jobs) ≡ true
                        → exists_row (is_job spec.id j) jobs ≡ true =
                      λ j h. rw made (
                        exists_row-append_right (is_job spec.id j) mid.jobs
                          (initial_rows (dependency_counts spec) spec.id now spec.jobs)
                          (initial_rows-exists (dependency_counts spec) spec.id now spec.jobs j
                            h)) in
                    elim (insert_edges-OkOrTaken jobs (ids spec.jobs) spec.id mid.edges
                      spec.dependencies stored w.joins) [
                        | inr g ↦ inr (rw (v, e, f, g, submit_tx) refl)
                        | inl (edges, g) ↦
                            let stored_all : submit_tx pg db spec now
                                ≡ ok (tt, record mid { jobs = jobs; edges = edges }) =
                              rw (v, e, f, g, submit_tx) refl in
                            inl ((tt, record mid { jobs = jobs; edges = edges }), stored_all)
                      ]
              ]
      ]

  -- A submission that `validate` accepts breaks no constraint of the tables but the keys: `submit`
  -- stores it, or refuses it since a key is taken and leaves the tables as they were.
  pub submit-OkOrTaken :
      (db : Db) (spec : DagSpec) (now : Timestamp) (order : List Text)
      → validate spec ≡ ok order
      → ((submit pg db spec now).0 ≡ ok tt)
        ⊎ (submit pg db spec now ≡ (err (database pg.unique_violation), db))
  unfolding submit
  submit-OkOrTaken db spec now order v = elim (submit_tx-OkOrTaken db spec now order v) [
    | inl ((u, db'), e) ↦ inl (rw e refl)
    | inr e ↦ inr (rw e refl)
  ]

  insert_edges_doubled :
      (jobs : List JobRow) (d : Text) (rows rows' : List EdgeRow) (e : Dependency)
      (edges : List Dependency)
      → exists_row (same_edge (edge_row d e)) rows ≡ true
      → In e edges
      → insert_edges pg jobs d rows edges ≢ ok rows'
  unfolding insert_edges insert_edge
  insert_edges_doubled jobs d rows rows' e [] taken i h = elim i [ ]
  insert_edges_doubled jobs d rows rows' e (x ∷ edges) taken i h =
      elim (Result-cases (insert_edge pg jobs d rows x)) [
        | inr (z, f) ↦ absurd (ground arith)
        | inl (mid, f) ↦ elim i [
          | inl same ↦
              let taken' : exists_row (same_edge (edge_row d x)) rows ≡ true =
                rw (sym same) taken in
              absurd (ground arith)
          | inr k ↦
              insert_edges_doubled jobs d mid rows' e edges
                (rw (insert_edge-ok pg jobs d rows mid x f) (
                  exists_row-append_left (same_edge (edge_row d e)) rows (edge_row d x ∷ []) taken))
                k (ground arith)
        ]
      ]

  insert_edges_twice :
      (jobs : List JobRow) (d : Text) (rows rows' : List EdgeRow) (e : Dependency)
      (xs ys : List Dependency)
      → In e ys
      → insert_edges pg jobs d rows (xs ++ e ∷ ys) ≢ ok rows'
  unfolding insert_edges
  insert_edges_twice jobs d rows rows' e [] ys i h =
      elim (Result-cases (insert_edge pg jobs d rows e)) [
        | inr (z, f) ↦ absurd (ground arith)
        | inl (mid, f) ↦
            insert_edges_doubled jobs d mid rows' e ys
              (rw (insert_edge-ok pg jobs d rows mid e f) (
                exists_row-append_right (same_edge (edge_row d e)) rows (edge_row d e ∷ [])
                  (same_edge_refl d e)))
              i (ground arith)
      ]
  insert_edges_twice jobs d rows rows' e (x ∷ xs) ys i h =
      elim (Result-cases (insert_edge pg jobs d rows x)) [
        | inr (z, f) ↦ absurd (ground arith)
        | inl (mid, f) ↦ insert_edges_twice jobs d mid rows' e xs ys i (ground arith)
      ]

  submit_tx-edges :
      (db db' : Db) (spec : DagSpec) (now : Timestamp) (u : Unit {0})
      → submit_tx pg db spec now ≡ ok (u, db')
      → (jobs : List JobRow) × (rows rows' : List EdgeRow) × (insert_edges pg jobs spec.id rows
            spec.dependencies
          ≡ ok rows')
  unfolding submit_tx
  submit_tx-edges db db' spec now u h = elim (Result-cases (validate spec)) [
    | inr (x, v) ↦ absurd (ground arith)
    | inl (order, v) ↦ elim (Result-cases (insert_dag pg db spec.id now)) [
      | inr (x, e) ↦ absurd (ground arith)
      | inl (mid, e) ↦
          elim (Result-cases
            (insert_jobs pg (dependency_counts spec) spec.id now mid.jobs spec.jobs)) [
              | inr (x, f) ↦ absurd (ground arith)
              | inl (jobs, f) ↦
                  elim (Result-cases (insert_edges pg jobs spec.id mid.edges spec.dependencies)) [
                    | inr (x, g) ↦ absurd (ground arith)
                    | inl (rows, g) ↦ (jobs, mid.edges, rows, g)
                  ]
            ]
    ]
  ]

  -- A submission that `validate` accepts and that lists an edge twice is refused by `submit` as one
  -- whose key is taken, whatever the tables hold, and leaves them as they were.
  pub submit-doubled_edge :
      (db : Db) (spec : DagSpec) (now : Timestamp) (order : List Text) (e : Dependency)
      (xs ys : List Dependency)
      → validate spec ≡ ok order
      → spec.dependencies ≡ xs ++ e ∷ ys
      → In e ys
      → submit pg db spec now ≡ (err (database pg.unique_violation), db)
  unfolding submit
  submit-doubled_edge db spec now order e xs ys v twice i =
      elim (submit_tx-OkOrTaken db spec now order v) [
        | inr k ↦ rw k refl
        | inl ((u, db'), k) ↦
            let (jobs, rows, rows', inserted) = submit_tx-edges db db' spec now u k in
            absurd (insert_edges_twice jobs spec.id rows rows' e xs ys i (rw (sym twice) inserted))
      ]
