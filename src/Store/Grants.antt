-- ===== src/Store/Grants.antt =====
-- src/store.rs: `claim` on every outcome.
use cloud_job_orchestrator.Base.{
  ℕ, ◌≡◌, refl, Bool, true, Option, none, some, [], ◌∷◌, ◌++◌, arith, inl, inr, ◌⊎◌, Bool-cases,
  Option-cases, Result, ok, err, Result-cases, sym,
}
use cloud_job_orchestrator.Base.Int.{ℤ}
use cloud_job_orchestrator.Base.Order.{In}
use cloud_job_orchestrator.Base.Text.{Text, bytes, eq_text_iff}
use cloud_job_orchestrator.Domain.{ready, retry_wait}
use cloud_job_orchestrator.Scheduler.State.{ClaimedJob, same_state}
use cloud_job_orchestrator.Scheduler.Jobs.{same_state→eq}
use cloud_job_orchestrator.Store.{StoreError, validate_owner_and_lease, parse_kind_iff, kind_name}
use cloud_job_orchestrator.Store.Tables.{
  Timestamp, plus_millis, JobRow, Db, Postgres, is_job, find_row, update_rows,
}
use cloud_job_orchestrator.Store.Lease.{reap_in_transaction}
use cloud_job_orchestrator.Store.Claim.{
  is_claimable, leased_row, candidate, grant_row, claim_tx, claim, unix_millis, nanos_of,
}
use cloud_job_orchestrator.Store.Rows.{KeepsKey, DistinctRows, In-find_row, find_row-key}
use cloud_job_orchestrator.Store.Moves.{lease_out}
use cloud_job_orchestrator.Store.Acts.{
  StoreActs, StoreActs-refl, StoreActs-trans, update-StoreActs_at, reap_in_transaction-StoreActs,
}
use cloud_job_orchestrator.Store.Picks.{IsPicked, AllTaken, candidate-none, candidate-IsPicked}
use cloud_job_orchestrator.Store.Due.{
  IsCandidate, AllLocked, IsPicked→IsCandidate, AllTaken→AllLocked,
}

pub leased_row-KeepsKey :
    (owner : Text) (token : ℕ) (ms : ℤ) (now : Timestamp) → KeepsKey (leased_row owner token ms now)
unfolding leased_row
leased_row-KeepsKey owner token ms now r = (refl, refl)

-- The state of a row that can be claimed.
is_claimable_state :
    (db : Db) (now : Timestamp) (r : JobRow)
    → is_claimable db now r ≡ true
    → (r.state ≡ ready) ⊎ (r.state ≡ retry_wait)
unfolding is_claimable
is_claimable_state db now r h = elim (Bool-cases (same_state r.state ready)) [
  | inl e ↦ inl (same_state→eq r.state ready e)
  | inr e ↦ inr (same_state→eq r.state retry_wait (ground arith))
]

-- The tables after a grant, and the job that is returned.
module _ (uuid_text : ℕ → Text) (db : Db) (row : JobRow) (owner : Text) (token : ℕ) (ms : ℤ)
    (now : Timestamp) where
  abbrev pub granted_db : Db
  granted_db = record db {
    jobs = update_rows (is_job row.dag_id row.id) (leased_row owner token ms now) db.jobs;
    events =
        db.events
        ++ record {
          dag_id = row.dag_id;
          job_id = row.id;
          event_type = bytes "claimed";
          attempt = (leased_row owner token ms now row).attempts;
          owner = owner;
          occurred_at = now;
        }
          ∷ [];
  }

  abbrev pub granted_job : ClaimedJob
  granted_job = record {
    dag_id = row.dag_id;
    job_id = row.id;
    kind = row.kind;
    payload = row.payload;
    attempt = (leased_row owner token ms now row).attempts;
    lease_token = uuid_text token;
    lease_expires_at_ms = unix_millis (nanos_of (plus_millis now ms));
  }

  pub grant_row-eq :
      {E : Type 0} (pg : Postgres E)
      → grant_row pg uuid_text db row owner token ms now ≡ ok (some granted_job, granted_db)
  unfolding grant_row
  grant_row-eq {E} pg = rw ((parse_kind_iff {E = E} (kind_name row.kind) row.kind).1 refl) refl

  granted-StoreActs :
      DistinctRows db.jobs
      → In row db.jobs
      → is_claimable db now row ≡ true
      → StoreActs db granted_db
  granted-StoreActs u i c =
      update-StoreActs_at (is_job row.dag_id row.id) (leased_row owner token ms now)
        (leased_row-KeepsKey owner token ms now) db granted_db refl refl
        (λ d j r found h.
          let (p, q, _) = find_row-key d j db.jobs r found in
          let a : d ≡ row.dag_id = ground (arith, eq_text_iff r.dag_id row.dag_id) in
          let b : j ≡ row.id = ground (arith, eq_text_iff r.id row.id) in
          let found' : find_row row.dag_id row.id db.jobs ≡ some r = rw (sym a, sym b) found in
          let stored = In-find_row row db.jobs u i in
          let same : r ≡ row = ground arith in
          lease_out (rw same (is_claimable_state db now row c)) owner token ms now refl)

module _ {E : Type 0} (pg : Postgres E) (uuid_text : ℕ → Text) (db : Db)
    (locked : Text → Text → Bool) (owner : Text) (token : ℕ) (ms : ℤ) (now : Timestamp) where
  abbrev pub reaped_db : Db
  reaped_db = (reap_in_transaction db now).1

  -- The outcomes of a claim, by the row that the statement picks.
  pub claim_picks :
      validate_owner_and_lease {E = E} owner ms ≡ ok tt
      → (claim pg uuid_text db locked owner token ms now ≡ (ok none, reaped_db))
          × AllTaken pg uuid_text reaped_db locked now
        ⊎ (row : JobRow) × IsPicked pg uuid_text reaped_db locked now row
          × (claim pg uuid_text db locked owner token ms now ≡ (
            ok (some (granted_job uuid_text reaped_db row owner token ms now)),
            granted_db uuid_text reaped_db row owner token ms now,
          ))
  unfolding claim claim_tx
  claim_picks v = elim (Option-cases (candidate pg uuid_text reaped_db locked now)) [
    | inl e ↦ inl (rw (v, e) refl, candidate-none pg uuid_text reaped_db locked now e)
    | inr (row, e) ↦ inr (
      row,
      candidate-IsPicked pg uuid_text reaped_db locked now row e,
      rw (v, e, grant_row-eq uuid_text reaped_db row owner token ms now pg) refl,
    )
  ]

  -- The outcomes of a claim with a valid owner and duration.
  abbrev pub ClaimOutcome : Result (StoreError E) (Option ClaimedJob) × Db → Type 0
  ClaimOutcome outcome =
      (outcome ≡ (ok none, reaped_db)) × AllLocked pg uuid_text reaped_db locked now
      ⊎ (row : JobRow) × IsCandidate pg uuid_text reaped_db locked now row
        × (outcome ≡ (
          ok (some (granted_job uuid_text reaped_db row owner token ms now)),
          granted_db uuid_text reaped_db row owner token ms now,
        ))

  -- A claim with a valid owner and duration takes back the leases that have run out. It then hands out
  -- nothing if others have locked every row that is due: ready or waiting for a retry, its time come,
  -- in a running DAG, and with no parent that has not succeeded. Otherwise it leases the due row that
  -- nobody has locked and that comes first, by the higher priority, then the earlier time, then the
  -- key, writes its event and returns the job.
  pub claim_outcome :
      validate_owner_and_lease {E = E} owner ms ≡ ok tt
      → ClaimOutcome (claim pg uuid_text db locked owner token ms now)
  claim_outcome v = elim (claim_picks v) [
    | inl (e, all) ↦ inl (e, AllTaken→AllLocked pg uuid_text reaped_db locked now all)
    | inr (row, p, e) ↦ inr (row, IsPicked→IsCandidate pg uuid_text reaped_db locked now row p, e)
  ]

  pub claim_refused :
      (x : StoreError E)
      → validate_owner_and_lease {E = E} owner ms ≡ err x
      → claim pg uuid_text db locked owner token ms now ≡ (err x, db)
  unfolding claim claim_tx
  claim_refused x v = rw v refl

  pub claim-StoreActs :
      DistinctRows db.jobs → StoreActs db (claim pg uuid_text db locked owner token ms now).1
  claim-StoreActs u =
      let reaps = reap_in_transaction-StoreActs db now in
      elim (Result-cases (validate_owner_and_lease {E = E} owner ms)) [
        | inl (t, e) ↦ elim (claim_picks e) [
          | inl (o, _) ↦ rw o reaps
          | inr (row, c, o) ↦ rw o (
              StoreActs-trans db reaped_db _ reaps (
                granted-StoreActs uuid_text reaped_db row owner token ms now (reaps.distinct u)
                  c.stored c.claimable))
        ]
        | inr (x, e) ↦ rw (claim_refused x e) (StoreActs-refl db)
      ]
