-- ===== src/Store/Waits/Complete.antt =====
-- src/store.rs: rows that wait for a parent, through `complete`.
use cloud_job_orchestrator.Base.{
  ℕ, ◌≡◌, Bool, true, false, List, [], ◌∷◌, arith, inl, inr, ◌⊎◌, Bool-cases, All, ◌≢◌,
}
use cloud_job_orchestrator.Base.Text.{Text, eq_text, eq_text_iff}
use cloud_job_orchestrator.Domain.{pending}
use cloud_job_orchestrator.Scheduler.State.{same_state}
use cloud_job_orchestrator.Store.Tables.{Timestamp, JobRow, EdgeRow, Db, exists_row, update_rows}
use cloud_job_orchestrator.Store.Lease.{
  holds_lease, completed_row, released_row, has_open_parent, is_child_of, is_released, insert_event,
  release_children, complete_tx, complete,
}
use cloud_job_orchestrator.Store.Rows.{Names}
use cloud_job_orchestrator.Store.Cas.Match.{holds_lease-Names}
use cloud_job_orchestrator.Store.Transactions.{marked_db, completed_db, complete_tx-ok}
use cloud_job_orchestrator.Store.Waits.{Waits, AllWait, is_open_parent, has_open_parent-update_rows}
use cloud_job_orchestrator.Store.Waits.Calls.{released_row-Unsettling, committed-AllWait}

module _ (d j : Text) (p : JobRow → Bool) (f : JobRow → JobRow) (names : Names d j p) where
  -- After the job is marked, an edge has its open parent still, or the job is its parent.
  open_parent_or_job :
      (e : EdgeRow) (jobs : List JobRow)
      → exists_row (is_open_parent e) jobs ≡ true
      → (exists_row (is_open_parent e) (update_rows p f jobs) ≡ true)
        ⊎ (eq_text e.dag_id d ≡ true) × (eq_text e.parent_id j ≡ true)
  unfolding exists_row update_rows
  open_parent_or_job e [] h = cc
  open_parent_or_job e (r ∷ rows) h = elim (Bool-cases (is_open_parent e r)) [
    | inl t ↦ elim (Bool-cases (p r)) [
      | inl hit ↦
          let named = names r hit in
          inr (
            ground (
              arith,
              eq_text_iff r.dag_id d,
              eq_text_iff r.dag_id e.dag_id,
              eq_text_iff e.dag_id d,
            ),
            ground (
              arith,
              eq_text_iff r.id j,
              eq_text_iff r.id e.parent_id,
              eq_text_iff e.parent_id j,
            ),
          )
      | inr miss ↦ inl (ground arith)
    ]
    | inr t ↦ elim (open_parent_or_job e rows (ground arith)) [
      | inl k ↦ inl (ground arith)
      | inr k ↦ inr k
    ]
  ]

  open_or_child :
      (edges : List EdgeRow) (jobs : List JobRow) (r : JobRow)
      → has_open_parent edges jobs r ≡ true
      → (has_open_parent edges (update_rows p f jobs) r ≡ true)
        ⊎ (is_child_of edges d j r ≡ true) × (eq_text r.dag_id d ≡ true)
  unfolding has_open_parent is_child_of exists_row
  open_or_child [] jobs r h = cc
  open_or_child (e ∷ edges) jobs r h = elim (Bool-cases (has_open_parent edges jobs r)) [
    | inl t ↦ elim (open_or_child edges jobs r t) [
      | inl k ↦ inl (ground arith)
      | inr k ↦ inr (ground arith, k.1)
    ]
    | inr t ↦ elim (open_parent_or_job e jobs (ground arith)) [
      | inl k ↦ inl (ground arith)
      | inr (a, b) ↦ inr (
        ground arith,
        ground
            (arith, eq_text_iff e.dag_id r.dag_id, eq_text_iff e.dag_id d, eq_text_iff r.dag_id d),
      )
    ]
  ]

-- What is left of the wait between the statements of `complete`.
abbrev WaitsOrChild : Text → Text → List EdgeRow → List JobRow → List JobRow → Type 0
WaitsOrChild d j edges jobs rows =
    All
      (λ r.
        r.state ≡ pending
        → (has_open_parent edges jobs r ≡ true)
          ⊎ (is_child_of edges d j r ≡ true) × (eq_text r.dag_id d ≡ true))
      rows

module _ (db : Db) (d j owner : Text) (token : ℕ) (result : Text) (now : Timestamp) where
  abbrev held : JobRow → Bool
  held = holds_lease d j owner token now

  abbrev marked : Db
  marked = marked_db db d j owner token result now

  completed_row_not_pending : (r : JobRow) → (completed_row now result r).state ≢ pending
  unfolding completed_row
  completed_row_not_pending r h = cc

  mark_Waits :
      (rows : List JobRow)
      → Waits db.edges db.jobs rows
      → WaitsOrChild d j db.edges marked.jobs (update_rows held (completed_row now result) rows)
  unfolding update_rows
  mark_Waits [] w = tt
  mark_Waits (r ∷ rows) w =
      let rest = mark_Waits rows w.1 in
      elim (Bool-cases (held r)) [
        | inl t ↦ rw t (λ h. absurd (completed_row_not_pending r h), rest)
        | inr t ↦ rw t (
          λ h.
              open_or_child d j held (completed_row now result)
                (holds_lease-Names d j owner token now) db.edges db.jobs r (w.0 h),
          rest,
        )
      ]

  -- The condition of the second statement.
  abbrev freed : JobRow → Bool
  freed = is_released marked.edges marked.jobs d j

  released_row_not_pending : (r : JobRow) → (released_row now r).state ≢ pending
  unfolding released_row
  released_row_not_pending r h = cc

  not_freed_waits :
      (r : JobRow)
      → freed r ≡ false
      → r.state ≡ pending
      → (has_open_parent marked.edges marked.jobs r ≡ true)
        ⊎ (is_child_of marked.edges d j r ≡ true) × (eq_text r.dag_id d ≡ true)
      → has_open_parent marked.edges marked.jobs r ≡ true
  unfolding is_released same_state
  not_freed_waits r h s (inl k) = k
  not_freed_waits r h s (inr (a, b)) = ground arith

  release_Waits :
      (rows : List JobRow)
      → WaitsOrChild d j marked.edges marked.jobs rows
      → Waits marked.edges
          (update_rows freed (released_row now) marked.jobs)
          (update_rows freed (released_row now) rows)
  unfolding update_rows
  release_Waits [] w = tt
  release_Waits (r ∷ rows) w =
      let rest = release_Waits rows w.1 in
      elim (Bool-cases (freed r)) [
        | inl t ↦ rw t (λ h. absurd (released_row_not_pending r h), rest)
        | inr t ↦ rw t (
          λ h.
              has_open_parent-update_rows freed (released_row now)
                (released_row-Unsettling freed now) marked.edges marked.jobs r
                (not_freed_waits r t h (w.0 h)),
          rest,
        )
      ]

  completed_db-AllWait : AllWait db → AllWait (completed_db db d j owner token result now)
  unfolding insert_event release_children
  completed_db-AllWait w = release_Waits marked.jobs (mark_Waits db.jobs w)

pub complete-AllWait :
    (E : Type 0) (db : Db) (d j owner : Text) (token : ℕ) (result : Text) (now : Timestamp)
    → AllWait db
    → AllWait (complete {E = E} db d j owner token result now).1
unfolding complete
complete-AllWait E db d j owner token result now w =
    committed-AllWait db (complete_tx {E = E} db d j owner token result now) w (λ t db' h.
      let (_, _, e) = complete_tx-ok E db d j owner token result now t db' h in
      rw e (completed_db-AllWait db d j owner token result now w))
