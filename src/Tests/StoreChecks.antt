-- ===== src/Tests/StoreChecks.antt =====
-- Instances of the theorems about the store, the routes and the worker, on the diamond of three jobs.
use cloud_job_orchestrator.Base.{
  ℕ, ◌≤◌, ◌≡◌, ◌≢◌, refl, true, some, [], ◌∷◌, Result, ok, err, ◌⊎◌, ◌↔◌, inl, inr, length, arith,
}
use cloud_job_orchestrator.Base.Int.{ℤ, pos}
use cloud_job_orchestrator.Base.Text.{Text, eq_text, eq_text_iff}
use cloud_job_orchestrator.Domain.{ready, succeeded, max_payload_bytes}
use cloud_job_orchestrator.Scheduler.Machine.{Evolves}
use cloud_job_orchestrator.Store.{lease_conflict, database}
use cloud_job_orchestrator.Store.Tables.{JobRow, Db, find_row, first_row}
use cloud_job_orchestrator.Store.Lease.{
  has_open_parent, holds_lease, completed_row, complete, reap_in_transaction,
}
use cloud_job_orchestrator.Store.Claim.{claim, leased_row}
use cloud_job_orchestrator.Store.Run.{reaps, store_run, empty_db}
use cloud_job_orchestrator.Store.Rows.{DistinctRows}
use cloud_job_orchestrator.Store.Moves.{RowInv}
use cloud_job_orchestrator.Store.Due.{AllLocked, IsCandidate}
use cloud_job_orchestrator.Store.Grants.{ClaimOutcome, claim_outcome, claim-StoreActs}
use cloud_job_orchestrator.Store.Cas.{Holds, UnderLease, complete_iff_held}
use cloud_job_orchestrator.Store.History.{
  store_run-DistinctRows, store_run-RowInv, store_run-Evolves, stored_job,
}
use cloud_job_orchestrator.Store.Final.{completed_once, db_after}
use cloud_job_orchestrator.Store.Submit.{submit}
use cloud_job_orchestrator.Store.Accepts.{submit-OkOrTaken, submit-doubled_edge}
use cloud_job_orchestrator.Store.Race.{Completion, both_completed}
use cloud_job_orchestrator.Store.Race.Lost.{both_completed-loses_release}
use cloud_job_orchestrator.Store.Waits.History.{no_job_is_stuck}
use cloud_job_orchestrator.Http.{store}
use cloud_job_orchestrator.Http.Handlers.{router, post_complete}
use cloud_job_orchestrator.Http.Refused.{router-refused}
use cloud_job_orchestrator.Bin.Worker.{Stop, Progress, turn, idle, reported, Chance}
use cloud_job_orchestrator.Bin.Worker.Held.{reported_row}
use cloud_job_orchestrator.Bin.Worker.Turn.{turn_outcome, Undisturbed}
use cloud_job_orchestrator.Worker.{execute}
use cloud_job_orchestrator.Tests.Samples.{worker_a, worker_b, diamond, edge, extract, publish}
use cloud_job_orchestrator.Tests.StoreSamples.{
  pg, token_text, parse_token, unlocked, release, a, b, c, both_claimed, store_program, pending_c,
  leased_a, leased_b, edge_to_c,
}
use cloud_job_orchestrator.Tests.StoreRuns.{
  doubled, runs_doubled, claimed_db, runs_claims, moment, runs_conflict, dag_db,
}

claimed-DistinctRows : DistinctRows claimed_db.jobs
claimed-DistinctRows = store_run-DistinctRows pg token_text both_claimed

found_a : find_row release a claimed_db.jobs ≡ some leased_a
found_a = runs_claims.0

found_b : find_row release b claimed_db.jobs ≡ some leased_b
found_b = let (_, h, _) = runs_claims in h

found_c : find_row release c claimed_db.jobs ≡ some pending_c
found_c = let (_, _, h) = runs_claims in h

no_job_is_stuck_example : has_open_parent claimed_db.edges claimed_db.jobs pending_c ≡ true
no_job_is_stuck_example =
    no_job_is_stuck pg token_text both_claimed release c pending_c found_c refl

store_run-Evolves_example :
    (r' : JobRow) × (find_row release a
        (store_run pg token_text claimed_db (reaps (pos 20_000_000) ∷ [])).jobs
      ≡ some r')
    × Evolves (stored_job pg token_text claimed_db leased_a) (
        stored_job pg token_text
          (store_run pg token_text claimed_db (reaps (pos 20_000_000) ∷ []))
          r')
store_run-Evolves_example =
    store_run-Evolves pg token_text both_claimed (reaps (pos 20_000_000) ∷ []) release a leased_a
      found_a

store_run-RowInv_example : RowInv leased_a
store_run-RowInv_example = store_run-RowInv pg token_text both_claimed release a leased_a found_a

claim_outcome_example :
    ClaimOutcome pg token_text dag_db unlocked worker_a 1
      (pos 10_000)
      (pos 1)
      (claim pg token_text dag_db unlocked worker_a 1 (pos 10_000) (pos 1))
unfolding store_program
claim_outcome_example =
    claim_outcome pg token_text dag_db unlocked worker_a 1 (pos 10_000) (pos 1) refl

held_a : holds_lease release a worker_a 1 (pos 3) leased_a ≡ true
unfolding store_program
held_a = refl

leased_a-UnderLease : UnderLease leased_a worker_a 1 (pos 3)
leased_a-UnderLease = record {
  deadline = pos 10_000_001;
  is_leased = refl;
  owner_matches = refl;
  token_matches = refl;
  expires = refl;
  in_time = omega arith;
}

accepted_a : (complete {E = ℕ} claimed_db release a worker_a 1 [] (pos 3)).0 ≡ ok tt
accepted_a =
    (complete_iff_held ℕ claimed_db claimed-DistinctRows release a worker_a 1 (pos 3) []).1
      (ground arith, (leased_a, found_a, leased_a-UnderLease))

completed_once_example :
    (row : JobRow) × (find_row release a
        (db_after pg token_text both_claimed
          (reaps (pos 20_000_000) ∷ [])
          release
          a
          worker_a
          1
          []
          (pos 3)).jobs
      ≡ some row)
    × (row.state ≡ succeeded)
    × (row.result ≡ some [])
    × ((owner : Text) (token : ℕ) (result : Text) (now : ℤ)
        → ¬ (
            (complete {E = ℕ}
              (db_after pg token_text both_claimed
                (reaps (pos 20_000_000) ∷ [])
                release
                a
                worker_a
                1
                []
                (pos 3))
              release
              a
              owner
              token
              result
              now).0
            ≡ ok tt))
completed_once_example =
    completed_once pg token_text both_claimed (reaps (pos 20_000_000) ∷ []) release a worker_a 1 []
      (pos 3) accepted_a

complete_iff_held_example :
    ((complete {E = ℕ} claimed_db release a worker_a 1 [] (pos 3)).0 ≡ ok tt)
    ↔ ((length {A = ℕ} [] ≤ max_payload_bytes) × Holds claimed_db release a worker_a 1 (pos 3))
complete_iff_held_example =
    complete_iff_held ℕ claimed_db claimed-DistinctRows release a worker_a 1 (pos 3) []

router-refused_example :
    (router pg token_text claimed_db moment (
      post_complete (record {
        dag_id = release;
        job_id = a;
        owner = worker_b;
        lease_token = 2;
        result = [];
      }))).1
    ≡ claimed_db
router-refused_example =
    router-refused ℕ claimed_db claimed-DistinctRows pg token_text moment
      (post_complete
        (record { dag_id = release; job_id = a; owner = worker_b; lease_token = 2; result = [] }))
      (store lease_conflict) runs_conflict

-- The two calls of `complete` at time 3.
abbrev completion_a : Completion
completion_a = record { job_id = a; owner = worker_a; token = 1; result = [] }

abbrev completion_b : Completion
completion_b = record { job_id = b; owner = worker_b; token = 2; result = [] }

apart : a ≢ b
apart h = let t : eq_text a b ≡ true = (eq_text_iff a b).1 h in cc

held_b : holds_lease release b worker_b 2 (pos 3) leased_b ≡ true
unfolding store_program
held_b = refl

edges_of_diamond : claimed_db.edges ≡ edge_to_c a ∷ edge_to_c b ∷ []
unfolding store_program
edges_of_diamond = refl

both_completed-loses_release_example :
    (find_row release a (both_completed claimed_db release (pos 3) completion_a completion_b).jobs
      ≡ some (completed_row (pos 3) [] leased_a))
    × (find_row release b (both_completed claimed_db release (pos 3) completion_a completion_b).jobs
        ≡ some (completed_row (pos 3) [] leased_b))
    × (find_row release c (both_completed claimed_db release (pos 3) completion_a completion_b).jobs
        ≡ some pending_c)
both_completed-loses_release_example =
    both_completed-loses_release claimed_db release (pos 3) completion_a completion_b leased_a
      leased_b pending_c c apart (found_a, held_a) (found_b, held_b) found_c refl
      (edge_to_c a, rw edges_of_diamond (inl refl), refl, refl, refl)
      (edge_to_c b, rw edges_of_diamond (inr (inl refl)), refl, refl, refl)

-- A turn of a worker whose operations return their payload, while another worker claims.
abbrev other_claims : Db → Db
other_claims db = (claim pg token_text db unlocked worker_b 2 (pos 10_000) (pos 2)).1

abbrev chance : Chance
chance = record {
  locked = unlocked;
  token = 1;
  claimed_at = pos 1;
  meanwhile = other_claims;
  reported_at = pos 3;
}

dag-DistinctRows : DistinctRows dag_db.jobs
dag-DistinctRows = store_run-DistinctRows pg token_text _

-- The tables that the turn leaves with its claim, before the other worker's.
abbrev before_other : Db
before_other = (claim pg token_text dag_db unlocked worker_a 1 (pos 10_000) (pos 1)).1

before_other-DistinctRows : DistinctRows before_other.jobs
before_other-DistinctRows =
    (claim-StoreActs pg token_text dag_db unlocked worker_a 1 (pos 10_000) (pos 1)
        dag-DistinctRows).distinct
      dag-DistinctRows

abbrev ready_b : JobRow
ready_b = record pending_c { id = b; payload = b; state = ready }

kept_row :
    (d j : Text) (r : JobRow)
    → find_row d j (pending_c ∷ ready_b ∷ leased_a ∷ []) ≡ some r
    → r.lease_token ≡ some 1
    → find_row d j (pending_c ∷ leased_b ∷ leased_a ∷ []) ≡ some r
unfolding find_row first_row
kept_row d j r h t = ground arith

jobs_before : before_other.jobs ≡ pending_c ∷ ready_b ∷ leased_a ∷ []
unfolding store_program
jobs_before = refl

jobs_after : (other_claims before_other).jobs ≡ pending_c ∷ leased_b ∷ leased_a ∷ []
unfolding store_program
jobs_after = refl

undisturbed : Undisturbed 1 before_other (other_claims before_other)
undisturbed = (
  (claim-StoreActs pg token_text before_other unlocked worker_b 2 (pos 10_000) (pos 2)
        before_other-DistinctRows).distinct
      before_other-DistinctRows,
  λ d j r h t. rw jobs_after (kept_row d j r (rw jobs_before at h) t),
)

abbrev outcome : Result (Stop ℕ) Progress × Db
outcome = turn pg token_text parse_token (λ x. x) (λ x. x) worker_a dag_db (pos 10_000) chance

turn_outcome_example :
    (outcome ≡ (ok idle, (reap_in_transaction dag_db (pos 1)).1))
      × AllLocked pg token_text (reap_in_transaction dag_db (pos 1)).1 unlocked (pos 1)
    ⊎ (row : JobRow) × IsCandidate pg token_text
        (reap_in_transaction dag_db (pos 1)).1
        unlocked
        (pos 1)
        row
      × ((outcome.0 ≡ ok reported)
          × (find_row row.dag_id row.id outcome.1.jobs
              ≡ some (
                  reported_row
                    (pos 3)
                    (execute (λ x. x) (λ x. x) row.kind row.payload)
                    (leased_row worker_a 1 (pos 10_000) (pos 1) row))))
unfolding store_program
turn_outcome_example =
    turn_outcome pg token_text parse_token (λ token. refl) (λ x. x) (λ x. x) worker_a dag_db
      (pos 10_000) chance dag-DistinctRows refl undisturbed refl

submit-OkOrTaken_example :
    ((submit pg claimed_db diamond (pos 5)).0 ≡ ok tt)
    ⊎ (submit pg claimed_db diamond (pos 5) ≡ (err (database 23_505), claimed_db))
unfolding store_program
submit-OkOrTaken_example = submit-OkOrTaken pg claimed_db diamond (pos 5) (a ∷ b ∷ c ∷ []) refl

submit-doubled_edge_example : submit pg empty_db doubled (pos 0) ≡ (err (database 23_505), empty_db)
submit-doubled_edge_example =
    submit-doubled_edge pg empty_db doubled (pos 0) (extract ∷ publish ∷ []) (edge extract publish)
      [] (edge extract publish ∷ []) runs_doubled.0 refl (inl refl)
