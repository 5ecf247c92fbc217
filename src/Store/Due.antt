-- ===== src/Store/Due.antt =====
-- src/store.rs: the rows that `claim` may hand out and their order, in terms of the tables.
use cloud_job_orchestrator.Base.{
  ℕ, ◌≡◌, ◌≢◌, refl, Bool, true, false, List, [], ◌∷◌, arith, inl, inr, ◌⊎◌, ◌&&◌, ◌||◌, not,
  Bool-cases, sym,
}
use cloud_job_orchestrator.Base.Int.{◌<ℤ◌, ◌≤ℤ◌, leb_ℤ}
use cloud_job_orchestrator.Base.Order.{In, TotalOrder, ℤ-le_antisymm, le_refl}
use cloud_job_orchestrator.Base.Text.{Text, eq_text, eq_text_iff, eq_text→eq}
use cloud_job_orchestrator.Domain.{ready, retry_wait, succeeded}
use cloud_job_orchestrator.Scheduler.State.{same_state}
use cloud_job_orchestrator.Scheduler.Jobs.{same_state→eq, same_state_refl}
use cloud_job_orchestrator.Store.Tables.{
  Timestamp, DagRow, JobRow, EdgeRow, Db, Postgres, exists_row, is_job,
}
use cloud_job_orchestrator.Store.Lease.{has_open_parent}
use cloud_job_orchestrator.Store.Claim.{in_running_dag, is_claimable, claim_order}
use cloud_job_orchestrator.Store.Picks.{IsPicked, AllTaken}

-- The job's DAG is running, the job is ready or waits for a retry, its time has come, and no edge leads
-- to it from a job that has not succeeded.
pub record IsDue (db : Db) (now : Timestamp) (row : JobRow) : Type 0 where
  pub dag : DagRow
  pub dag_stored : In dag db.dags
  pub dag_id : dag.id ≡ row.dag_id
  pub dag_running : dag.running ≡ true
  pub waiting : (row.state ≡ ready) ⊎ (row.state ≡ retry_wait)
  pub available : row.available_at ≤ℤ now
  pub parents :
      (e : EdgeRow) (parent : JobRow)
      → In e db.edges
      → In parent db.jobs
      → e.dag_id ≡ row.dag_id
      → e.child_id ≡ row.id
      → parent.dag_id ≡ e.dag_id
      → parent.id ≡ e.parent_id
      → parent.state ≡ succeeded

-- The higher priority, else the earlier time, else the key by the collation.
abbrev pub ComesFirst : TotalOrder Text → JobRow → JobRow → Type 0
ComesFirst collation a b =
    (b.priority <ℤ a.priority)
    ⊎ (a.priority ≡ b.priority)
      × ((a.available_at <ℤ b.available_at)
          ⊎ (a.available_at ≡ b.available_at)
            × ((a.dag_id ≢ b.dag_id) × (collation.le a.dag_id b.dag_id ≡ true)
                ⊎ (a.dag_id ≡ b.dag_id) × (collation.le a.id b.id ≡ true)))

module _ {A : Type 0} (p : A → Bool) where
  exists_row-some : (xs : List A) → exists_row p xs ≡ true → (x : A) × In x xs × (p x ≡ true)
  unfolding exists_row
  exists_row-some [] h = cc
  exists_row-some (y ∷ ys) h = elim (Bool-cases (p y)) [
    | inl e ↦ (y, inl refl, e)
    | inr e ↦ let (x, i, k) = exists_row-some ys (ground arith) in (x, inr i, k)
  ]

  pub exists_row_of_In : (x : A) (xs : List A) → In x xs → p x ≡ true → exists_row p xs ≡ true
  unfolding exists_row
  exists_row_of_In x [] i h = elim i [ ]
  exists_row_of_In x (y ∷ ys) (inl e) h = rw (sym e, h) refl
  exists_row_of_In x (y ∷ ys) (inr i) h = ground (arith, exists_row_of_In x ys i h)

open_parent_of :
    (edges : List EdgeRow) (jobs : List JobRow) (row : JobRow) (e : EdgeRow) (parent : JobRow)
    → In e edges
    → In parent jobs
    → (e.dag_id ≡ row.dag_id) × (e.child_id ≡ row.id)
    → (parent.dag_id ≡ e.dag_id) × (parent.id ≡ e.parent_id)
    → same_state parent.state succeeded ≡ false
    → has_open_parent edges jobs row ≡ true
unfolding has_open_parent
open_parent_of edges jobs row e parent i k (a, b) (c, d) h =
    let inner =
      exists_row_of_In
        (λ (x : JobRow). is_job e.dag_id e.parent_id x && not (same_state x.state succeeded)) parent
        jobs k
        (ground (arith, eq_text_iff parent.dag_id e.dag_id, eq_text_iff parent.id e.parent_id)) in
    exists_row_of_In _ e edges i
      (rw inner (ground (arith, eq_text_iff e.dag_id row.dag_id, eq_text_iff e.child_id row.id)))

open_parent-some :
    (edges : List EdgeRow) (jobs : List JobRow) (row : JobRow)
    → has_open_parent edges jobs row ≡ true
    → (e : EdgeRow) × (parent : JobRow) × In e edges
      × In parent jobs
      × (e.dag_id ≡ row.dag_id)
      × (e.child_id ≡ row.id)
      × (parent.dag_id ≡ e.dag_id)
      × (parent.id ≡ e.parent_id)
      × (same_state parent.state succeeded ≡ false)
unfolding has_open_parent
open_parent-some edges jobs row h =
    let (e, i, p) = exists_row-some _ edges h in
    let (parent, k, q) =
      exists_row-some
        (λ (x : JobRow). is_job e.dag_id e.parent_id x && not (same_state x.state succeeded)) jobs
        (ground arith) in
    (
      e,
      parent,
      i,
      k,
      eq_text→eq e.dag_id row.dag_id (ground arith),
      eq_text→eq e.child_id row.id (ground arith),
      eq_text→eq parent.dag_id e.dag_id (ground arith),
      eq_text→eq parent.id e.parent_id (ground arith),
      ground arith,
    )

is_claimable→IsDue :
    (db : Db) (now : Timestamp) (row : JobRow) → is_claimable db now row ≡ true → IsDue db now row
unfolding is_claimable in_running_dag
is_claimable→IsDue db now row h =
    let (dag, i, p) =
      exists_row-some (λ (d : DagRow). eq_text d.id row.dag_id && d.running) db.dags
        (ground arith) in
    record {
      dag = dag;
      dag_stored = i;
      dag_id = eq_text→eq dag.id row.dag_id (ground arith);
      dag_running = ground arith;
      waiting = elim (Bool-cases (same_state row.state ready)) [
        | inl e ↦ inl (same_state→eq row.state ready e)
        | inr e ↦ inr (same_state→eq row.state retry_wait (ground arith))
      ];
      available = ground arith;
      parents = λ e parent i k a b c d. elim (Bool-cases (same_state parent.state succeeded)) [
        | inl s ↦ same_state→eq parent.state succeeded s
        | inr s ↦
            let unfinished = open_parent_of db.edges db.jobs row e parent i k (a, b) (c, d) s in
            absurd (ground arith)
      ];
    }

IsDue→is_claimable :
    (db : Db) (now : Timestamp) (row : JobRow) → IsDue db now row → is_claimable db now row ≡ true
unfolding is_claimable in_running_dag
IsDue→is_claimable db now row due =
    let running =
      exists_row_of_In (λ (d : DagRow). eq_text d.id row.dag_id && d.running) due.dag db.dags
        due.dag_stored
        (ground (arith, eq_text_iff due.dag.id row.dag_id, due.dag_id, due.dag_running)) in
    let waits : (same_state row.state ready || same_state row.state retry_wait) ≡ true =
      elim due.waiting [
        | inl e ↦ rw (e, same_state_refl ready) refl
        | inr e ↦ ground (arith, same_state_refl retry_wait)
      ] in
    elim (Bool-cases (has_open_parent db.edges db.jobs row)) [
      | inl h ↦
          let (e, parent, i, k, a, b, c, d, n) = open_parent-some db.edges db.jobs row h in
          let done = due.parents e parent i k a b c d in
          absurd (ground (arith, same_state_refl succeeded))
      | inr h ↦ ground (arith, due.available)
    ]

apart_of_le : (collation : TotalOrder Text) (a b : Text) → collation.le b a ≡ false → a ≢ b
apart_of_le collation a b h e =
    let t : collation.le b a ≡ true = rw e (le_refl collation.preorder b) in cc

claim_order-ComesFirst :
    (collation : TotalOrder Text) (a b : JobRow)
    → (claim_order collation).le a b ≡ true
    → ComesFirst collation a b
claim_order-ComesFirst collation a b h = elim (Bool-cases (leb_ℤ a.priority b.priority)) [
  | inr e ↦ inl (ground arith)
  | inl e ↦ elim (Bool-cases (leb_ℤ b.available_at a.available_at)) [
    | inr f ↦ inr (ℤ-le_antisymm a.priority b.priority e (ground arith), inl (ground arith))
    | inl f ↦ inr (
      ℤ-le_antisymm a.priority b.priority e (ground arith),
      inr (
        ℤ-le_antisymm a.available_at b.available_at (ground arith) f,
        elim (Bool-cases (collation.le b.dag_id a.dag_id)) [
          | inl g ↦ inr (collation.le_antisymm a.dag_id b.dag_id (ground arith) g, ground arith)
          | inr g ↦ inl (apart_of_le collation a.dag_id b.dag_id g, ground arith)
        ],
      ),
    )
  ]
]

module _ {E : Type 0} (pg : Postgres E) (uuid_text : ℕ → Text) (db : Db)
    (locked : Text → Text → Bool) (now : Timestamp) where
  -- The row to hand out: it is due, nobody has locked it, and it comes before all other such rows.
  pub record IsCandidate (row : JobRow) : Type 0 where
    pub stored : In row db.jobs
    pub due : IsDue db now row
    pub unlocked : locked row.dag_id row.id ≡ false
    pub first :
        (x : JobRow)
        → In x db.jobs
        → IsDue db now x
        → locked x.dag_id x.id ≡ false
        → ComesFirst pg.collation row x

  abbrev pub AllLocked : Type 0
  AllLocked = (x : JobRow) → In x db.jobs → IsDue db now x → locked x.dag_id x.id ≡ true

  pub IsPicked→IsCandidate :
      (row : JobRow) → IsPicked pg uuid_text db locked now row → IsCandidate row
  IsPicked→IsCandidate row p = record {
    stored = p.stored;
    due = is_claimable→IsDue db now row p.claimable;
    unlocked = p.unlocked;
    first = λ x i d u.
        claim_order-ComesFirst pg.collation row x (p.first x i (IsDue→is_claimable db now x d) u);
  }

  pub AllTaken→AllLocked : AllTaken pg uuid_text db locked now → AllLocked
  AllTaken→AllLocked all x i d = all x i (IsDue→is_claimable db now x d)
