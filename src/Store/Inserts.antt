-- ===== src/Store/Inserts.antt =====
-- src/store.rs: what the statements of `submit` add to the tables.
use cloud_job_orchestrator.Base.{
  ℕ, ◌≡◌, refl, true, false, none, some, List, [], ◌∷◌, ◌++◌, arith, inl, inr, Bool-cases,
  Option-cases, ok, Result-cases, ◌∙◌, sym, ap, ◌==◌,
}
use cloud_job_orchestrator.Base.Map.{Map, lookup}
use cloud_job_orchestrator.Base.Text.{Text, eq_text_iff}
use cloud_job_orchestrator.Domain.{JobSpec, Dependency, DagSpec}
use cloud_job_orchestrator.Domain.Validate.{validate}
use cloud_job_orchestrator.Scheduler.Submit.{dependency_counts, count_or_default}
use cloud_job_orchestrator.Store.Tables.{
  Timestamp, JobRow, EdgeRow, Db, Postgres, exists_row, is_job, find_row, first_row,
}
use cloud_job_orchestrator.Store.Submit.{
  satisfies_checks, initial_row, edge_row, insert_dag, insert_job, insert_jobs, insert_edge,
  insert_edges, submit_tx, submit,
}
use cloud_job_orchestrator.Store.Rows.{find_row-append, find_row-append_none, DistinctRows}
use cloud_job_orchestrator.Store.Moves.{RowInv}

-- Rows that are added, and what they are.
pub record RowsGrow (rows rows' : List JobRow) : Type 0 where
  pub kept : (d j : Text) (r : JobRow) → find_row d j rows ≡ some r → find_row d j rows' ≡ some r
  pub distinct : DistinctRows rows → DistinctRows rows'
  pub fresh :
      (d j : Text) (r : JobRow) → find_row d j rows ≡ none → find_row d j rows' ≡ some r → RowInv r

pub RowsGrow-refl : (rows : List JobRow) → RowsGrow rows rows
RowsGrow-refl rows = record { kept = λ d j r h. h; distinct = λ h. h; fresh = λ d j r h k. cc }

RowsGrow-trans : (a b c : List JobRow) → RowsGrow a b → RowsGrow b c → RowsGrow a c
RowsGrow-trans a b c x y = record {
  kept = λ d j r h. y.kept d j r (x.kept d j r h);
  distinct = λ h. y.distinct (x.distinct h);
  fresh = λ d j r h k. elim (Option-cases (find_row d j b)) [
    | inl e ↦ y.fresh d j r e k
    | inr (z, e) ↦
        let kept = y.kept d j z e in
        let same : z ≡ r = ground arith in x.fresh d j r h (rw (sym same) e)
  ];
}

exists_row-find_row :
    (d j : Text) (rows : List JobRow)
    → exists_row (is_job d j) rows ≡ false
    → find_row d j rows ≡ none
unfolding exists_row find_row first_row
exists_row-find_row d j [] h = refl
exists_row-find_row d j (r ∷ rows) h = ground (arith, exists_row-find_row d j rows)

other_job : (x y : JobRow) → is_job x.dag_id x.id y ≡ false → is_job y.dag_id y.id x ≡ false
other_job x y h = ground (
  arith,
  eq_text_iff x.dag_id y.dag_id,
  eq_text_iff y.dag_id x.dag_id,
  eq_text_iff x.id y.id,
  eq_text_iff y.id x.id,
)

append-DistinctRows :
    (rows : List JobRow) (x : JobRow)
    → exists_row (is_job x.dag_id x.id) rows ≡ false
    → DistinctRows rows
    → DistinctRows (rows ++ x ∷ [])
unfolding exists_row find_row first_row
append-DistinctRows [] x h u = (refl, tt)
append-DistinctRows (y ∷ ys) x h u =
    let other : is_job y.dag_id y.id x ≡ false = other_job x y (ground arith) in
    (
      find_row-append_none y.dag_id y.id ys (x ∷ []) u.0 ∙ rw other refl,
      append-DistinctRows ys x (ground arith) u.1,
    )

only_row : (d j : Text) (x r : JobRow) → find_row d j (x ∷ []) ≡ some r → x ≡ r
unfolding find_row first_row
only_row d j x r h = ground arith

append-RowsGrow :
    (rows : List JobRow) (x : JobRow)
    → exists_row (is_job x.dag_id x.id) rows ≡ false
    → RowInv x
    → RowsGrow rows (rows ++ x ∷ [])
append-RowsGrow rows x h v = record {
  kept = λ d j r k. find_row-append d j rows (x ∷ []) r k;
  distinct = append-DistinctRows rows x h;
  fresh = λ d j r n k.
      let found : find_row d j (x ∷ []) ≡ some r =
        sym (find_row-append_none d j rows (x ∷ []) n) ∙ k in
      rw (sym (only_row d j x r found)) v;
}

initial_row-RowInv :
    (counts : Map ℕ) (d : Text) (now : Timestamp) (job : JobSpec)
    → satisfies_checks (initial_row counts d now job) ≡ true
    → RowInv (initial_row counts d now job)
unfolding satisfies_checks initial_row
initial_row-RowInv counts d now job h =
    elim (Bool-cases (count_or_default (lookup job.id counts) == 0)) [
      | inl e ↦ rw e (record {
        budget_pos = ground arith;
        budget_le = ground arith;
        in_budget = ground arith;
        in_state = ((refl, refl, refl), refl, refl);
      })
      | inr e ↦ rw e (record {
        budget_pos = ground arith;
        budget_le = ground arith;
        in_budget = ground arith;
        in_state = ((refl, refl, refl), refl, refl);
      })
    ]

initial_row_key :
    (counts : Map ℕ) (d : Text) (now : Timestamp) (job : JobSpec)
    → ((initial_row counts d now job).dag_id ≡ d) × ((initial_row counts d now job).id ≡ job.id)
unfolding initial_row
initial_row_key counts d now job = (refl, refl)

abbrev pub initial_rows : Map ℕ → Text → Timestamp → List JobSpec → List JobRow
initial_rows counts d now [] = []
initial_rows counts d now (job ∷ jobs) =
    initial_row counts d now job ∷ initial_rows counts d now jobs

abbrev pub edge_rows : Text → List Dependency → List EdgeRow
edge_rows d [] = []
edge_rows d (edge ∷ edges) = edge_row d edge ∷ edge_rows d edges

append_assoc :
    {A : Type 0} (xs : List A) (y : A) (ys : List A) → (xs ++ y ∷ []) ++ ys ≡ xs ++ y ∷ ys
append_assoc [] y ys = refl
append_assoc (x ∷ xs) y ys = ap (λ zs. x ∷ zs) (append_assoc xs y ys)

append_nil : {A : Type 0} (xs : List A) → xs ++ [] ≡ xs
append_nil [] = refl
append_nil (x ∷ xs) = ap (λ zs. x ∷ zs) (append_nil xs)

module _ {E : Type 0} (pg : Postgres E) (counts : Map ℕ) (d : Text) (now : Timestamp) where
  insert_job-ok :
      (rows rows' : List JobRow) (job : JobSpec)
      → insert_job pg counts d now rows job ≡ ok rows'
      → (rows' ≡ rows ++ initial_row counts d now job ∷ []) × RowsGrow rows rows'
  unfolding insert_job
  insert_job-ok rows rows' job h =
      let x = initial_row counts d now job in
      let made : rows' ≡ rows ++ x ∷ [] = ground arith in
      let checked : satisfies_checks x ≡ true = ground arith in
      let (p, q) = initial_row_key counts d now job in
      let new : exists_row (is_job d job.id) rows ≡ false = ground arith in
      (
        made,
        rw made
            (append-RowsGrow rows x (rw (p, q) new) (initial_row-RowInv counts d now job checked)),
      )

  pub insert_jobs-ok :
      (rows rows' : List JobRow) (jobs : List JobSpec)
      → insert_jobs pg counts d now rows jobs ≡ ok rows'
      → (rows' ≡ rows ++ initial_rows counts d now jobs) × RowsGrow rows rows'
  unfolding insert_jobs
  insert_jobs-ok rows rows' [] h =
      let same : rows ≡ rows' = ground arith in
      (sym same ∙ sym (append_nil rows), rw same (RowsGrow-refl rows'))
  insert_jobs-ok rows rows' (job ∷ jobs) h =
      elim (Result-cases (insert_job pg counts d now rows job)) [
        | inl (mid, e) ↦
            let (made, grow) = insert_job-ok rows mid job e in
            let (rest, more) = insert_jobs-ok mid rows' jobs (ground arith) in
            (
              rest
                  ∙ ap (λ r. r ++ initial_rows counts d now jobs) made
                  ∙ append_assoc rows (initial_row counts d now job)
                      (initial_rows counts d now jobs),
              RowsGrow-trans rows mid rows' grow more,
            )
        | inr (x, e) ↦ absurd (ground arith)
      ]

module _ {E : Type 0} (pg : Postgres E) (jobs : List JobRow) (d : Text) where
  pub insert_edge-ok :
      (rows rows' : List EdgeRow) (edge : Dependency)
      → insert_edge pg jobs d rows edge ≡ ok rows'
      → rows' ≡ rows ++ edge_row d edge ∷ []
  unfolding insert_edge
  insert_edge-ok rows rows' edge h = ground arith

  insert_edges-ok :
      (rows rows' : List EdgeRow) (edges : List Dependency)
      → insert_edges pg jobs d rows edges ≡ ok rows'
      → rows' ≡ rows ++ edge_rows d edges
  unfolding insert_edges
  insert_edges-ok rows rows' [] h =
      let same : rows ≡ rows' = ground arith in sym same ∙ sym (append_nil rows)
  insert_edges-ok rows rows' (edge ∷ edges) h =
      elim (Result-cases (insert_edge pg jobs d rows edge)) [
        | inl (mid, e) ↦
            insert_edges-ok mid rows' edges (ground arith)
            ∙ ap (λ r. r ++ edge_rows d edges) (insert_edge-ok rows mid edge e)
            ∙ append_assoc rows (edge_row d edge) (edge_rows d edges)
        | inr (x, e) ↦ absurd (ground arith)
      ]

-- What a submission that is committed leaves in the tables.
pub record Submitted (spec : DagSpec) (now : Timestamp) (db db' : Db) : Type 0 where
  pub order : List Text
  pub valid : validate spec ≡ ok order
  pub jobs_added : db'.jobs ≡ db.jobs ++ initial_rows (dependency_counts spec) spec.id now spec.jobs
  pub edges_added : db'.edges ≡ db.edges ++ edge_rows spec.id spec.dependencies
  pub grows : RowsGrow db.jobs db'.jobs

module _ {E : Type 0} (pg : Postgres E) (db : Db) (spec : DagSpec) (now : Timestamp) where
  insert_dag-ok :
      (id : Text) (db' : Db)
      → insert_dag pg db id now ≡ ok db'
      → (db'.jobs ≡ db.jobs) × (db'.edges ≡ db.edges)
  unfolding insert_dag
  insert_dag-ok id db' h = (ground arith, ground arith)

  pub submit_tx-Submitted :
      (u : Unit {0}) (db' : Db) → submit_tx pg db spec now ≡ ok (u, db') → Submitted spec now db db'
  unfolding submit_tx
  submit_tx-Submitted u db' h = elim (Result-cases (validate spec)) [
    | inr (x, e) ↦ absurd (ground arith)
    | inl (order, v) ↦ elim (Result-cases (insert_dag pg db spec.id now)) [
      | inr (x, e) ↦ absurd (ground arith)
      | inl (mid, e) ↦
          elim (Result-cases
            (insert_jobs pg (dependency_counts spec) spec.id now mid.jobs spec.jobs)) [
              | inr (x, f) ↦ absurd (ground arith)
              | inl (jobs, f) ↦
                  elim (Result-cases (insert_edges pg jobs spec.id mid.edges spec.dependencies)) [
                    | inr (x, g) ↦ absurd (ground arith)
                    | inl (edges, g) ↦
                        let same : db'.jobs ≡ jobs = ground arith in
                        let same' : db'.edges ≡ edges = ground arith in
                        let (p, q) = insert_dag-ok spec.id mid e in
                        let (made, grow) =
                          insert_jobs-ok pg (dependency_counts spec) spec.id now mid.jobs jobs
                            spec.jobs f in
                        let linked =
                          insert_edges-ok pg jobs spec.id mid.edges edges spec.dependencies g in
                        record {
                          order = order;
                          valid = v;
                          jobs_added = rw (same, sym p) made;
                          edges_added = rw (same', sym q) linked;
                          grows = rw (same, sym p) grow;
                        }
                  ]
            ]
    ]
  ]

  pub submit-RowsGrow : RowsGrow db.jobs (submit pg db spec now).1.jobs
  unfolding submit
  submit-RowsGrow = elim (Result-cases (submit_tx pg db spec now)) [
    | inl ((u, db'), e) ↦ rw e (submit_tx-Submitted u db' e).grows
    | inr (x, e) ↦ rw e (RowsGrow-refl db.jobs)
  ]
