-- ===== src/Store/Waits.antt =====
-- src/store.rs: the rows that wait for a parent, statement by statement.
use cloud_job_orchestrator.Base.{
  ℕ, ◌≡◌, refl, Bool, true, false, ◌&&◌, ◌||◌, not, Option, none, some, List, [], ◌∷◌, ◌++◌, arith,
  inl, inr, ◌⊎◌, if◌then◌else◌, Bool-cases, All, All-append, All-map, sym, ◌≢◌,
}
use cloud_job_orchestrator.Base.Text.{Text, eq_text, eq_text_iff}
use cloud_job_orchestrator.Domain.{JobState, pending, succeeded}
use cloud_job_orchestrator.Scheduler.State.{same_state}
use cloud_job_orchestrator.Store.Tables.{JobRow, EdgeRow, Db, exists_row, update_rows, is_job}
use cloud_job_orchestrator.Store.Lease.{has_open_parent, is_child_of}
use cloud_job_orchestrator.Store.Rows.{KeepsKey, changed}
pub mod Calls
pub mod History
pub mod Submit
pub mod Complete

-- Every pending row has a parent that has not succeeded.
abbrev pub Waits : List EdgeRow → List JobRow → List JobRow → Type 0
Waits edges jobs rows = All (λ r. r.state ≡ pending → has_open_parent edges jobs r ≡ true) rows

abbrev pub AllWait : Db → Type 0
AllWait db = Waits db.edges db.jobs db.jobs

module _ {A : Type 0} where
  pub exists_row-append :
      (p : A → Bool) (xs ys : List A)
      → exists_row p (xs ++ ys) ≡ (exists_row p xs || exists_row p ys)
  unfolding exists_row
  exists_row-append p [] ys = refl
  exists_row-append p (x ∷ xs) ys = ground (arith, exists_row-append p xs ys)

  pub exists_row_mono :
      (p q : A → Bool) (xs : List A)
      → ((x : A) → p x ≡ true → q x ≡ true)
      → exists_row p xs ≡ true
      → exists_row q xs ≡ true
  unfolding exists_row
  exists_row_mono p q [] h e = cc
  exists_row_mono p q (x ∷ xs) h e = ground (arith, exists_row_mono p q xs h, h x)

exists_row-update_rows :
    (c p q : JobRow → Bool) (f : JobRow → JobRow) (rows : List JobRow)
    → ((r : JobRow) → p r ≡ true → q (changed c f r) ≡ true)
    → exists_row p rows ≡ true
    → exists_row q (update_rows c f rows) ≡ true
unfolding exists_row update_rows
exists_row-update_rows c p q f [] h e = cc
exists_row-update_rows c p q f (r ∷ rows) h e =
    ground (arith, exists_row-update_rows c p q f rows h, h r)

-- The parent of an edge, if it has not succeeded.
abbrev pub is_open_parent : EdgeRow → JobRow → Bool
is_open_parent e parent =
    is_job e.dag_id e.parent_id parent && not (same_state parent.state succeeded)

-- An UPDATE that makes no row pending and none succeeded.
pub record Unsettling (p : JobRow → Bool) (f : JobRow → JobRow) : Type 0 where
  pub keeps : KeepsKey f
  pub not_succeeded : (r : JobRow) → p r ≡ true → same_state (f r).state succeeded ≡ false
  pub not_pending : (r : JobRow) → p r ≡ true → (f r).state ≢ pending

module _ (p : JobRow → Bool) (f : JobRow → JobRow) (u : Unsettling p f) where
  is_open_parent-changed :
      (e : EdgeRow) (r : JobRow)
      → is_open_parent e r ≡ true
      → is_open_parent e (changed p f r) ≡ true
  is_open_parent-changed e r h = elim (Bool-cases (p r)) [
    | inl t ↦ let (a, b) = u.keeps r in rw (t, a, b, u.not_succeeded r t) (ground arith)
    | inr t ↦ rw t h
  ]

  pub has_open_parent-update_rows :
      (edges : List EdgeRow) (jobs : List JobRow) (child : JobRow)
      → has_open_parent edges jobs child ≡ true
      → has_open_parent edges (update_rows p f jobs) child ≡ true
  unfolding has_open_parent
  has_open_parent-update_rows edges jobs child h =
      exists_row_mono _ _ edges
        (λ e k.
          let inner =
            exists_row-update_rows p (is_open_parent e) (is_open_parent e) f jobs
              (is_open_parent-changed e) in
          ground (arith, inner))
        h

  pub update_rows-Waits :
      (edges : List EdgeRow) (jobs rows : List JobRow)
      → Waits edges jobs rows
      → Waits edges (update_rows p f jobs) (update_rows p f rows)
  unfolding update_rows
  update_rows-Waits edges jobs [] w = tt
  update_rows-Waits edges jobs (r ∷ rows) w =
      let rest = update_rows-Waits edges jobs rows w.1 in
      elim (Bool-cases (p r)) [
        | inl t ↦ rw t (λ h. absurd (u.not_pending r t h), rest)
        | inr t ↦ rw t (λ h. has_open_parent-update_rows edges jobs r (w.0 h), rest)
      ]
