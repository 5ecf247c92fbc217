-- ===== src/Store/Race/Lost.antt =====
-- src/store.rs: two calls of `complete` at the same time, and the row of a common child.
use cloud_job_orchestrator.Base.{
  ℕ, ◌≡◌, refl, Bool, true, false, ◌&&◌, not, some, List, [], ◌∷◌, arith, inl, inr, Bool-cases, sym,
  ◌≢◌, ◌∙◌,
}
use cloud_job_orchestrator.Base.Order.{In}
use cloud_job_orchestrator.Base.Text.{Text, eq_text_iff}
use cloud_job_orchestrator.Domain.{JobState, pending, leased, succeeded}
use cloud_job_orchestrator.Scheduler.State.{same_state}
use cloud_job_orchestrator.Store.Tables.{
  Timestamp, JobRow, EdgeRow, Db, exists_row, update_rows, is_job, find_row,
}
use cloud_job_orchestrator.Store.Lease.{
  holds_lease, completed_row, released_row, has_open_parent, is_released, insert_event,
}
use cloud_job_orchestrator.Store.Rows.{find_row-matched, find_row-unmatched, find_row-key}
use cloud_job_orchestrator.Store.Acts.{
  completed_row-KeepsKey, released_row-KeepsKey, holds_lease_state,
}
use cloud_job_orchestrator.Store.Cas.Match.{holds_lease-Names}
use cloud_job_orchestrator.Store.Race.{Completion, marked_by, freed_by, both_completed}

exists_row-In :
    {A : Type 0} (p : A → Bool) (x : A) (xs : List A)
    → In x xs
    → p x ≡ true
    → exists_row p xs ≡ true
unfolding exists_row
exists_row-In p x [] i h = elim i [ ]
exists_row-In p x (y ∷ ys) (inl e) h = rw (sym e, h) refl
exists_row-In p x (y ∷ ys) (inr i) h = ground (arith, exists_row-In p x ys i)

-- An edge of the DAG from the one job to the other.
abbrev pub Edge : Db → Text → Text → Text → Type 0
Edge db d parent child =
    (e : EdgeRow) × In e db.edges × (e.dag_id ≡ d) × (e.parent_id ≡ parent) × (e.child_id ≡ child)

Edge-has_open_parent :
    (db : Db) (jobs : List JobRow) (d parent : Text) (r row : JobRow)
    → r.dag_id ≡ d
    → Edge db d parent r.id
    → find_row d parent jobs ≡ some row
    → same_state row.state succeeded ≡ false
    → has_open_parent db.edges jobs r ≡ true
unfolding has_open_parent
Edge-has_open_parent db jobs d parent r row same (e, i, p, q, s) found h =
    let (a, b, stored) = find_row-key d parent jobs row found in
    let inner =
      exists_row-In (λ x. is_job e.dag_id e.parent_id x && not (same_state x.state succeeded)) row
        jobs stored in
    exists_row-In _ e db.edges i (
      ground (
        arith,
        eq_text_iff e.dag_id r.dag_id,
        eq_text_iff e.child_id r.id,
        eq_text_iff row.dag_id e.dag_id,
        eq_text_iff row.id e.parent_id,
      ))

not_held :
    (d j owner : Text) (token : ℕ) (now : Timestamp) (r : JobRow)
    → r.state ≢ leased
    → holds_lease d j owner token now r ≡ false
not_held d j owner token now r h = elim (Bool-cases (holds_lease d j owner token now r)) [
  | inl e ↦ absurd (h (holds_lease_state d j owner token now r e))
  | inr e ↦ e
]

held_by_other :
    (d i j owner : Text) (token : ℕ) (now : Timestamp) (r : JobRow)
    → r.id ≡ i
    → i ≢ j
    → holds_lease d j owner token now r ≡ false
held_by_other d i j owner token now r h k = elim (Bool-cases (holds_lease d j owner token now r)) [
  | inl e ↦
      let named = holds_lease-Names d j owner token now r e in
      absurd (k (ground (arith, eq_text_iff r.id j)))
  | inr e ↦ e
]

open_is_unreleased :
    (edges : List EdgeRow) (jobs : List JobRow) (d j : Text) (r : JobRow)
    → has_open_parent edges jobs r ≡ true
    → is_released edges jobs d j r ≡ false
unfolding is_released
open_is_unreleased edges jobs d j r h = ground arith

settled_is_unreleased :
    (edges : List EdgeRow) (jobs : List JobRow) (d j : Text) (r : JobRow)
    → same_state r.state pending ≡ false
    → is_released edges jobs d j r ≡ false
unfolding is_released
settled_is_unreleased edges jobs d j r h = ground arith

leased_not_succeeded : (s : JobState) → s ≡ leased → same_state s succeeded ≡ false
unfolding same_state
leased_not_succeeded s h = rw h refl

-- The call holds the lease of its job.
abbrev pub IsHeld : Db → Text → Timestamp → Completion → JobRow → Type 0
IsHeld db d now c row =
    (find_row d c.job_id db.jobs ≡ some row)
    × (holds_lease d c.job_id c.owner c.token now row ≡ true)

module _ (db : Db) (d : Text) (now : Timestamp) where
  -- While the one call is marked alone, a child of the other call's job has an open parent.
  other-has_open_parent :
      (a b : Completion) (row r : JobRow)
      → a.job_id ≢ b.job_id
      → IsHeld db d now b row
      → r.dag_id ≡ d
      → Edge db d b.job_id r.id
      → has_open_parent db.edges (marked_by db d now db a).jobs r ≡ true
  other-has_open_parent a b row r apart (found, held) same edge =
      let (_, named, _) = find_row-key d b.job_id db.jobs row found in
      let kept =
        find_row-unmatched (holds_lease d a.job_id a.owner a.token now) (completed_row now a.result)
          db.jobs d b.job_id row (completed_row-KeepsKey now a.result) found
          (held_by_other d b.job_id a.job_id a.owner a.token now row named (λ e. apart (sym e))) in
      Edge-has_open_parent db (marked_by db d now db a).jobs d b.job_id r row same edge kept
        (leased_not_succeeded row.state (holds_lease_state d b.job_id b.owner b.token now row held))

  module _ (a b : Completion) (row_a row_b r : JobRow) (child : Text) (apart : a.job_id ≢ b.job_id)
      (held_a : IsHeld db d now a row_a) (held_b : IsHeld db d now b row_b)
      (found : find_row d child db.jobs ≡ some r) (waits : r.state ≡ pending)
      (edge_a : Edge db d a.job_id child) (edge_b : Edge db d b.job_id child) where
    abbrev marks : Completion → List JobRow → List JobRow
    marks c rows =
        update_rows (holds_lease d c.job_id c.owner c.token now) (completed_row now c.result) rows

    abbrev frees : Completion → List JobRow → List JobRow
    frees c rows = update_rows (freed_by db d now c) (released_row now) rows

    child_not_freed :
        (c o : Completion) (row : JobRow)
        → c.job_id ≢ o.job_id
        → IsHeld db d now o row
        → Edge db d o.job_id child
        → freed_by db d now c r ≡ false
    child_not_freed c o row other held edge =
        let (p, q, _) = find_row-key d child db.jobs r found in
        open_is_unreleased db.edges (marked_by db d now db c).jobs d c.job_id r
          (other-has_open_parent c o row r other held p (rw q edge))

    child_not_held : (c : Completion) → holds_lease d c.job_id c.owner c.token now r ≡ false
    child_not_held c = not_held d c.job_id c.owner c.token now r (λ e. cc)

    child_marked :
        (c : Completion) (rows : List JobRow)
        → find_row d child rows ≡ some r
        → find_row d child (marks c rows) ≡ some r
    child_marked c rows h =
        find_row-unmatched (holds_lease d c.job_id c.owner c.token now) (completed_row now c.result)
          rows d child r (completed_row-KeepsKey now c.result) h (child_not_held c)

    child_freed :
        (c : Completion) (rows : List JobRow)
        → freed_by db d now c r ≡ false
        → find_row d child rows ≡ some r
        → find_row d child (frees c rows) ≡ some r
    child_freed c rows h k =
        find_row-unmatched (freed_by db d now c) (released_row now) rows d child r
          (released_row-KeepsKey now) k h

    -- A row that has succeeded is left alone by the statement that frees children.
    parent_freed :
        (c : Completion) (rows : List JobRow) (j : Text) (row : JobRow)
        → same_state row.state pending ≡ false
        → find_row d j rows ≡ some row
        → find_row d j (frees c rows) ≡ some row
    parent_freed c rows j row h k =
        find_row-unmatched (freed_by db d now c) (released_row now) rows d j row
          (released_row-KeepsKey now) k
          (settled_is_unreleased db.edges (marked_by db d now db c).jobs d c.job_id row h)

    completed_row_state :
        (c : Completion) (row : JobRow)
        → ((completed_row now c.result row).state ≡ succeeded)
          × ((completed_row now c.result row).id ≡ row.id)
          × (same_state (completed_row now c.result row).state pending ≡ false)
    unfolding completed_row same_state
    completed_row_state c row = (refl, refl, refl)

    both_marked :
        (find_row d a.job_id (marks b (marks a db.jobs)) ≡ some (completed_row now a.result row_a))
        × (find_row d b.job_id (marks b (marks a db.jobs))
            ≡ some (completed_row now b.result row_b))
    both_marked =
        let (_, id_a, _) = find_row-key d a.job_id db.jobs row_a held_a.0 in
        let (_, id_b, _) = find_row-key d b.job_id db.jobs row_b held_b.0 in
        let (_, kept_id, _) = completed_row_state a row_a in
        let p = holds_lease d a.job_id a.owner a.token now in
        let q = holds_lease d b.job_id b.owner b.token now in
        (
          find_row-unmatched q (completed_row now b.result) (marks a db.jobs) d a.job_id
              (completed_row now a.result row_a) (completed_row-KeepsKey now b.result)
              (find_row-matched p (completed_row now a.result) db.jobs d a.job_id row_a
                (completed_row-KeepsKey now a.result) held_a.0 held_a.1)
              (held_by_other d a.job_id b.job_id b.owner b.token now
                (completed_row now a.result row_a) (kept_id ∙ id_a) apart),
          find_row-matched q (completed_row now b.result) (marks a db.jobs) d b.job_id row_b
              (completed_row-KeepsKey now b.result)
              (find_row-unmatched p (completed_row now a.result) db.jobs d b.job_id row_b
                (completed_row-KeepsKey now a.result) held_b.0
                (held_by_other d b.job_id a.job_id a.owner a.token now row_b id_b
                  (λ e. apart (sym e))))
              held_b.1,
        )

    -- The release of a child may be lost: let two workers hold the leases of two parents of a
    -- pending job and complete them at the same time, each releasing the children before the other
    -- commits. Then both parents have succeeded with their results, and the child is still pending.
    pub both_completed-loses_release :
        (find_row d a.job_id (both_completed db d now a b).jobs
          ≡ some (completed_row now a.result row_a))
        × (find_row d b.job_id (both_completed db d now a b).jobs
            ≡ some (completed_row now b.result row_b))
        × (find_row d child (both_completed db d now a b).jobs ≡ some r)
    unfolding both_completed insert_event
    both_completed-loses_release =
        let (done_a, done_b) = both_marked in
        let (_, _, settled_a) = completed_row_state a row_a in
        let (_, _, settled_b) = completed_row_state b row_b in
        let rows = marks b (marks a db.jobs) in
        (
          parent_freed b (frees a rows) a.job_id (completed_row now a.result row_a) settled_a
              (parent_freed a rows a.job_id (completed_row now a.result row_a) settled_a done_a),
          parent_freed b (frees a rows) b.job_id (completed_row now b.result row_b) settled_b
              (parent_freed a rows b.job_id (completed_row now b.result row_b) settled_b done_b),
          child_freed b (frees a rows)
              (child_not_freed b a row_a (λ e. apart (sym e)) held_a edge_a)
              (child_freed a rows (child_not_freed a b row_b apart held_b edge_b)
                (child_marked b (marks a db.jobs) (child_marked a db.jobs found))),
        )
