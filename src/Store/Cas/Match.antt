-- ===== src/Store/Cas/Match.antt =====
-- src/store.rs: the condition of the statements that a lease guards, and the row that it finds.
use cloud_job_orchestrator.Base.{
  ℕ, ◌≤◌, ◌≡◌, refl, Bool, true, some, arith, inl, inr, ◌↔◌, Option-cases, Bool-cases, ok,
  Result-cases, length, sym, ◌∙◌, ap,
}
use cloud_job_orchestrator.Base.Int.{ℤ}
use cloud_job_orchestrator.Base.Text.{Text}
use cloud_job_orchestrator.Domain.{JobState, max_payload_bytes}
use cloud_job_orchestrator.Store.{
  validate_owner_and_lease, ensure_compare_and_set, state_name, parse_state_iff,
}
use cloud_job_orchestrator.Store.Tables.{Timestamp, JobRow, Db, find_row, count_rows, first_row}
use cloud_job_orchestrator.Store.Lease.{
  holds_lease, retried_row, heartbeat, mark_succeeded, complete_tx, complete, fail_tx, fail,
  insert_event,
}
use cloud_job_orchestrator.Store.Rows.{
  DistinctRows, Names, count_rows-eq_one, first_row-eq, find_row-matched,
}
use cloud_job_orchestrator.Store.Transactions.{complete_tx-ok, fail_tx-ok, failed_db}
use cloud_job_orchestrator.Store.Acts.{retried_row-KeepsKey}

-- The job's row is found, and satisfies the condition.
abbrev pub Matches : Db → Text → Text → Text → ℕ → Timestamp → Type 0
Matches db d j owner token now =
    (row : JobRow) × (find_row d j db.jobs ≡ some row)
    × (holds_lease d j owner token now row ≡ true)

pub holds_lease-Names :
    (d j owner : Text) (token : ℕ) (now : Timestamp) → Names d j (holds_lease d j owner token now)
unfolding holds_lease
holds_lease-Names d j owner token now r h = ground arith

module _ (db : Db) (u : DistinctRows db.jobs) (d j owner : Text) (token : ℕ) (now : Timestamp) where
  abbrev held : JobRow → Bool
  held = holds_lease d j owner token now

  one_row-Matches : count_rows held db.jobs ≡ 1 → Matches db d j owner token now
  one_row-Matches h =
      let counted = count_rows-eq_one d j held db.jobs (holds_lease-Names d j owner token now) u in
      elim (Option-cases (find_row d j db.jobs)) [
        | inl e ↦ absurd (ground arith)
        | inr (row, e) ↦ (row, e, ground arith)
      ]

  Matches-one_row : Matches db d j owner token now → count_rows held db.jobs ≡ 1
  Matches-one_row (row, e, h) =
      count_rows-eq_one d j held db.jobs (holds_lease-Names d j owner token now) u ∙ rw (e, h) refl

  Matches-first_row :
      (row : JobRow)
      → find_row d j db.jobs ≡ some row
      → held row ≡ true
      → first_row held db.jobs ≡ some row
  Matches-first_row row e h =
      first_row-eq d j held db.jobs (holds_lease-Names d j owner token now) u ∙ rw (e, h) refl

  first_row-Matches :
      (row : JobRow)
      → first_row held db.jobs ≡ some row
      → (find_row d j db.jobs ≡ some row) × (held row ≡ true)
  first_row-Matches row h =
      let first = first_row-eq d j held db.jobs (holds_lease-Names d j owner token now) u in
      elim (Option-cases (find_row d j db.jobs)) [
        | inl e ↦ absurd (ground arith)
        | inr (x, e) ↦ elim (Bool-cases (held x)) [
          | inl t ↦ let same : x ≡ row = ground arith in rw (sym same) (e, t)
          | inr t ↦ absurd (ground arith)
        ]
      ]

module _ (E : Type 0) (db : Db) (u : DistinctRows db.jobs) (d j owner : Text) (token : ℕ)
    (now : Timestamp) where
  pub heartbeat_iff_match :
      (ms : ℤ)
      → ((heartbeat {E = E} db d j owner token ms now).0 ≡ ok tt)
        ↔ ((validate_owner_and_lease {E = E} owner ms ≡ ok tt) × Matches db d j owner token now)
  unfolding heartbeat ensure_compare_and_set
  heartbeat_iff_match ms = (
    λ h. elim (Result-cases (validate_owner_and_lease {E = E} owner ms)) [
      | inl (t, e) ↦ (e, one_row-Matches db u d j owner token now (ground arith))
      | inr (x, e) ↦ absurd (ground arith)
    ],
    λ (v, h). let counted = Matches-one_row db u d j owner token now h in ground arith,
  )

  complete_accepts :
      (result : Text)
      → length result ≤ max_payload_bytes
      → count_rows (holds_lease d j owner token now) db.jobs ≡ 1
      → (complete {E = E} db d j owner token result now).0 ≡ ok tt
  unfolding complete complete_tx mark_succeeded ensure_compare_and_set
  complete_accepts result small counted = ground arith

  fail_accepts :
      (state : JobState) (row : JobRow)
      → first_row (holds_lease d j owner token now) db.jobs ≡ some row
      → state ≡ (retried_row now row).state
      → (fail {E = E} db d j owner token now).0 ≡ ok state
  unfolding fail fail_tx
  fail_accepts state row picked moved =
      let parsed =
        (parse_state_iff {E = E} (state_name (retried_row now row).state)
            (retried_row now row).state).1
          refl in
      rw (picked, parsed) (ap ok (sym moved))

  pub complete_iff_match :
      (result : Text)
      → ((complete {E = E} db d j owner token result now).0 ≡ ok tt)
        ↔ ((length result ≤ max_payload_bytes) × Matches db d j owner token now)
  unfolding complete
  complete_iff_match result = (
    λ h. elim (Result-cases (complete_tx {E = E} db d j owner token result now)) [
      | inl ((t, db'), e) ↦
          let (small, counted, _) = complete_tx-ok E db d j owner token result now t db' e in
          (small, one_row-Matches db u d j owner token now counted)
      | inr (x, e) ↦ absurd (ground arith)
    ],
    λ (small, h). complete_accepts result small (Matches-one_row db u d j owner token now h),
  )

  pub fail_iff_match :
      (state : JobState)
      → ((fail {E = E} db d j owner token now).0 ≡ ok state) ↔ (
          (row : JobRow) × (find_row d j db.jobs ≡ some row)
          × (holds_lease d j owner token now row ≡ true)
          × (state ≡ (retried_row now row).state))
  unfolding fail
  fail_iff_match state = (
    λ h. elim (Result-cases (fail_tx {E = E} db d j owner token now)) [
      | inl ((s, db'), e) ↦
          let (row, picked, moved, _) = fail_tx-ok E db d j owner token now s db' e in
          let (found, held) = first_row-Matches db u d j owner token now row picked in
          let same : s ≡ state = ground arith in (row, found, held, sym same ∙ moved)
      | inr (x, e) ↦ absurd (ground arith)
    ],
    λ (row, found, h, moved).
        fail_accepts state row (Matches-first_row db u d j owner token now row found h) moved,
  )

module _ (E : Type 0) (db : Db) (u : DistinctRows db.jobs) (d j owner : Text) (token : ℕ)
    (now : Timestamp) (row : JobRow) (found : find_row d j db.jobs ≡ some row)
    (held : holds_lease d j owner token now row ≡ true) where
  find_row-failed_db :
      (state : JobState)
      → find_row d j (failed_db db d j owner token now state).jobs ≡ some (retried_row now row)
  unfolding insert_event
  find_row-failed_db state =
      find_row-matched (holds_lease d j owner token now) (retried_row now) db.jobs d j row
        (retried_row-KeepsKey now) found held

  pub fail-held :
      ((fail {E = E} db d j owner token now).0 ≡ ok (retried_row now row).state)
      × (find_row d j (fail {E = E} db d j owner token now).1.jobs ≡ some (retried_row now row))
  unfolding fail
  fail-held =
      let accepted =
        (fail_iff_match E db u d j owner token now (retried_row now row).state).1
          (row, found, held, refl) in
      (
        accepted,
        elim (Result-cases (fail_tx {E = E} db d j owner token now)) [
          | inl ((s, db'), e) ↦
              let (_, _, _, made) = fail_tx-ok E db d j owner token now s db' e in
              rw (e, made) (find_row-failed_db s)
          | inr (x, e) ↦ absurd (ground arith)
        ],
      )
