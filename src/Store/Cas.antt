-- ===== src/Store/Cas.antt =====
-- src/store.rs: the statements that a lease guards, call by call.
pub mod Match
use cloud_job_orchestrator.Base.{
  ℕ, ◌-◌, ◌*◌, ◌^◌, ◌≤◌, ◌<◌, ◌≡◌, true, none, some, arith, inl, inr, ◌↔◌, Option-cases, ok, length,
  min, ap, ◌+◌, ◌∙◌,
}
use cloud_job_orchestrator.Base.Int.{ℤ, pos, ◌<ℤ◌, ltb_ℤ}
use cloud_job_orchestrator.Base.Text.{Text, eq_text_iff, eq_text→eq}
use cloud_job_orchestrator.Domain.{JobState, leased, retry_wait, dead_lettered, max_payload_bytes}
use cloud_job_orchestrator.Scheduler.Jobs.{same_state→eq, same_state_refl}
use cloud_job_orchestrator.Store.{validate_owner_and_lease}
use cloud_job_orchestrator.Store.Tables.{Timestamp, plus_millis, JobRow, Db, find_row, is_job}
use cloud_job_orchestrator.Store.Lease.{holds_lease, heartbeat, complete}
use cloud_job_orchestrator.Store.Rows.{DistinctRows, find_row-key}
use cloud_job_orchestrator.Store.Cas.Match.{Matches, heartbeat_iff_match, complete_iff_match}

-- The row is leased to this owner under this token, until a time that is still to come.
pub record UnderLease (row : JobRow) (owner : Text) (token : ℕ) (now : Timestamp) : Type 0 where
  pub deadline : Timestamp
  pub is_leased : row.state ≡ leased
  pub owner_matches : row.lease_owner ≡ some owner
  pub token_matches : row.lease_token ≡ some token
  pub expires : row.lease_expires_at ≡ some deadline
  pub in_time : now <ℤ deadline

-- The job's row is found, and is under the lease that the caller names.
abbrev pub Holds : Db → Text → Text → Text → ℕ → Timestamp → Type 0
Holds db d j owner token now =
    (row : JobRow) × (find_row d j db.jobs ≡ some row) × UnderLease row owner token now

holds_lease→UnderLease :
    (d j owner : Text) (token : ℕ) (now : Timestamp) (row : JobRow)
    → holds_lease d j owner token now row ≡ true
    → UnderLease row owner token now
unfolding holds_lease
holds_lease→UnderLease d j owner token now row h = elim (Option-cases row.lease_owner) [
  | inl e ↦ absurd (ground arith)
  | inr (o, e) ↦ elim (Option-cases row.lease_token) [
    | inl f ↦ absurd (ground arith)
    | inr (t, f) ↦ elim (Option-cases row.lease_expires_at) [
      | inl g ↦ absurd (ground arith)
      | inr (x, g) ↦ record {
        deadline = x;
        is_leased = same_state→eq row.state leased (ground arith);
        owner_matches = e ∙ ap some (eq_text→eq o owner (ground arith));
        token_matches = ground arith;
        expires = g;
        in_time = ground arith;
      }
    ]
  ]
]

UnderLease→holds_lease :
    (d j owner : Text) (token : ℕ) (now : Timestamp) (row : JobRow)
    → (row.dag_id ≡ d) × (row.id ≡ j)
    → UnderLease row owner token now
    → holds_lease d j owner token now row ≡ true
unfolding holds_lease
UnderLease→holds_lease d j owner token now row key h = ground (
  arith,
  h.is_leased,
  h.owner_matches,
  h.token_matches,
  h.expires,
  h.in_time,
  same_state_refl leased,
  eq_text_iff owner owner,
  eq_text_iff row.dag_id d,
  eq_text_iff row.id j,
)

module _ (db : Db) (d j owner : Text) (token : ℕ) (now : Timestamp) where
  Matches→Holds : Matches db d j owner token now → Holds db d j owner token now
  Matches→Holds (row, f, h) = (row, f, holds_lease→UnderLease d j owner token now row h)

  Holds→Matches : Holds db d j owner token now → Matches db d j owner token now
  Holds→Matches (row, f, h) =
      let (p, q, _) = find_row-key d j db.jobs row f in
      (row, f, UnderLease→holds_lease d j owner token now row (p, q) h)

-- The milliseconds before the next attempt: a second, doubled for each attempt after the first, and a
-- minute at most.
unfoldable pub backoff : ℕ → ℕ
backoff attempts = min 60_000 (1_000 * 2 ^ (attempts - 1))

-- What a failure makes of the row, and the state that it reports.
pub record Failed (row row' : JobRow) (state : JobState) (now : Timestamp) : Type 0 where
  pub reported : row'.state ≡ state
  pub exhausted : row.max_attempts ≤ row.attempts → row'.state ≡ dead_lettered
  pub retries : row.attempts < row.max_attempts → row'.state ≡ retry_wait
  pub waits :
      row.attempts < row.max_attempts
      → row'.available_at ≡ plus_millis now (pos (backoff row.attempts))
  pub no_owner : row'.lease_owner ≡ none
  pub no_token : row'.lease_token ≡ none
  pub no_deadline : row'.lease_expires_at ≡ none
  pub same_attempts : row'.attempts ≡ row.attempts
  pub same_result : row'.result ≡ row.result

module _ (E : Type 0) (db : Db) (u : DistinctRows db.jobs) (d j owner : Text) (token : ℕ)
    (now : Timestamp) where
  -- Where each job has one row: `heartbeat` succeeds exactly if its owner and duration are valid and
  -- the job's row is leased to that owner under that token until a time to come.
  pub heartbeat_iff_held :
      (ms : ℤ)
      → ((heartbeat {E = E} db d j owner token ms now).0 ≡ ok tt)
        ↔ ((validate_owner_and_lease {E = E} owner ms ≡ ok tt) × Holds db d j owner token now)
  heartbeat_iff_held ms =
      let (to, from) = heartbeat_iff_match E db u d j owner token now ms in
      (
        λ h. let (v, m) = to h in (v, Matches→Holds db d j owner token now m),
        λ (v, h). from (v, Holds→Matches db d j owner token now h),
      )

  -- Where each job has one row: `complete` succeeds exactly if the result is within the limit and the
  -- job's row is leased to that owner under that token until a time to come.
  pub complete_iff_held :
      (result : Text)
      → ((complete {E = E} db d j owner token result now).0 ≡ ok tt)
        ↔ ((length result ≤ max_payload_bytes) × Holds db d j owner token now)
  complete_iff_held result =
      let (to, from) = complete_iff_match E db u d j owner token now result in
      (
        λ h. let (small, m) = to h in (small, Matches→Holds db d j owner token now m),
        λ (small, h). from (small, Holds→Matches db d j owner token now h),
      )
