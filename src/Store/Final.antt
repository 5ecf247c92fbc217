-- ===== src/Store/Final.antt =====
-- src/store.rs: what `complete` writes, over histories of transactions.
use cloud_job_orchestrator.Base.{
  ℕ, ◌≡◌, refl, true, false, some, List, [], ◌∷◌, arith, inl, inr, ◌∙◌, sym, ok, Result-cases, ap,
}
use cloud_job_orchestrator.Base.Text.{Text}
use cloud_job_orchestrator.Domain.{succeeded}
use cloud_job_orchestrator.Scheduler.State.{same_state}
use cloud_job_orchestrator.Scheduler.Lease.{is_terminal}
use cloud_job_orchestrator.Store.Tables.{Timestamp, JobRow, Db, Postgres, find_row}
use cloud_job_orchestrator.Store.Lease.{
  holds_lease, completed_row, is_released, released_row, release_children, insert_event,
  complete_tx, complete,
}
use cloud_job_orchestrator.Store.Rows.{find_row-matched, find_row-unmatched}
use cloud_job_orchestrator.Store.Run.{StoreCall, completes, empty_db, store_step, store_run}
use cloud_job_orchestrator.Store.Moves.{RowMoves, stay, next}
use cloud_job_orchestrator.Store.Acts.{
  completed_row-KeepsKey, released_row-KeepsKey, holds_lease_state,
}
use cloud_job_orchestrator.Store.Transactions.{completed_db, marked_db, complete_tx-ok}
use cloud_job_orchestrator.Store.Cas.Match.{complete_iff_match}
use cloud_job_orchestrator.Store.Evolution.{RowMove-RowEvolves}
use cloud_job_orchestrator.Store.History.{store_run-StoreGrows, store_run-DistinctRows}

-- A row that has ended stays as it is.
ended_stays : {r r' : JobRow} → RowMoves r r' → is_terminal r.state ≡ true → r' ≡ r
ended_stays stay h = refl
ended_stays {r} (next {r'} {r''} ms m) h =
    let e : r'.state ≡ r.state = ap (λ (x : JobRow). x.state) (ended_stays ms h) in
    let was_open : is_terminal r.state ≡ false = rw (sym e) (RowMove-RowEvolves m).was_open in cc

same_row : (a b : JobRow) → some a ≡ some b → a ≡ b
same_row a b h = ground arith

succeeded_is_unreleased :
    (db : Db) (d j : Text) (r : JobRow)
    → r.state ≡ succeeded
    → is_released db.edges db.jobs d j r ≡ false
unfolding is_released same_state
succeeded_is_unreleased db d j r h = ground arith

module _ (db : Db) (d j owner : Text) (token : ℕ) (result : Text) (now : Timestamp) where
  pub find_row-completed_db :
      (row : JobRow)
      → find_row d j db.jobs ≡ some row
      → holds_lease d j owner token now row ≡ true
      → find_row d j (completed_db db d j owner token result now).jobs
        ≡ some (completed_row now result row)
  unfolding insert_event release_children completed_row
  find_row-completed_db row found h =
      let marked = marked_db db d j owner token result now in
      let p = is_released marked.edges marked.jobs d j in
      let done = completed_row now result row in
      find_row-unmatched p (released_row now) marked.jobs d j done (released_row-KeepsKey now)
        (find_row-matched (holds_lease d j owner token now) (completed_row now result) db.jobs d j
          row (completed_row-KeepsKey now result) found h)
        (succeeded_is_unreleased marked d j done refl)

module _ {E : Type 0} (pg : Postgres E) (uuid_text : ℕ → Text) where
  module _ (before after : List StoreCall) (d j owner : Text) (token : ℕ) (result : Text)
      (now : Timestamp) where
    abbrev pub db_before : Db
    db_before = store_run pg uuid_text empty_db before

    abbrev pub db_after : Db
    db_after = store_run pg uuid_text db_before (completes d j owner token result now ∷ after)

    find_row-complete :
        (complete {E = E} db_before d j owner token result now).0 ≡ ok tt
        → (row : JobRow) × (find_row d j
              (complete {E = E} db_before d j owner token result now).1.jobs
            ≡ some (completed_row now result row))
    unfolding complete
    find_row-complete h =
        let u = store_run-DistinctRows pg uuid_text before in
        let (_, (row, found, held)) =
          (complete_iff_match E db_before u d j owner token now result).0 h in
        elim (Result-cases (complete_tx {E = E} db_before d j owner token result now)) [
          | inl ((t, db'), e) ↦
              let (_, _, made) = complete_tx-ok E db_before d j owner token result now t db' e in
              (
                row,
                rw (e, made)
                    (find_row-completed_db db_before d j owner token result now row found held),
              )
          | inr (x, e) ↦ absurd (ground arith)
        ]

    stays_completed :
        (complete {E = E} db_before d j owner token result now).0 ≡ ok tt
        → (row : JobRow) × (find_row d j db_after.jobs ≡ some (completed_row now result row))
    unfolding store_run store_step completed_row is_terminal
    stays_completed h =
        let (row, found) = find_row-complete h in
        let u =
          (store_run-StoreGrows pg uuid_text db_before (completes d j owner token result now ∷ [])
            (store_run-DistinctRows pg uuid_text before)).distinct in
        let (r', e, ms) =
          (store_run-StoreGrows pg uuid_text
              (complete {E = E} db_before d j owner token result now).1 after u).moved
            d j (completed_row now result row) found in
        (row, e ∙ ap some (ended_stays ms refl))

    -- After any history of transactions from empty tables in which a completion is accepted, the job
    -- stays succeeded with that result whatever transactions follow, and no other completion of it
    -- is accepted.
    pub completed_once :
        (complete {E = E} db_before d j owner token result now).0 ≡ ok tt
        → (row : JobRow) × (find_row d j db_after.jobs ≡ some row)
          × (row.state ≡ succeeded)
          × (row.result ≡ some result)
          × ((owner' : Text) (token' : ℕ) (result' : Text) (now' : Timestamp)
              → ¬ ((complete {E = E} db_after d j owner' token' result' now').0 ≡ ok tt))
    unfolding completed_row
    completed_once h =
        let (row, found) = stays_completed h in
        (
          completed_row now result row,
          found,
          refl,
          refl,
          λ owner' token' result' now' again.
              let u =
                (store_run-StoreGrows pg uuid_text db_before
                  (completes d j owner token result now ∷ after)
                  (store_run-DistinctRows pg uuid_text before)).distinct in
              let (_, (r, e, held)) =
                (complete_iff_match E db_after u d j owner' token' now' result').0 again in
              let leased_now = holds_lease_state d j owner' token' now' r held in
              let same : completed_row now result row ≡ r = same_row _ _ (sym found ∙ e) in
              let s : succeeded ≡ r.state = ap (λ (x : JobRow). x.state) same in cc,
        )
