-- ===== src/Store/Claim.antt =====
-- src/store.rs: `claim` and `unix_millis`.
use cloud_job_orchestrator.Base.{
  ℕ, suc, ◌+◌, ◌/◌, Bool, ◌&&◌, ◌||◌, not, Option, none, some, List, [], ◌∷◌, ◌++◌, if◌then◌else◌,
  Result, ok, ◌>>=◌, ◌>>◌,
}
use cloud_job_orchestrator.Base.Int.{ℤ, pos, negsuc, leb_ℤ, sub_ℕ, int_max, int_min, ltb_ℤ, ◌*ℤ◌}
use cloud_job_orchestrator.Base.Order.{
  TotalOrder, TotalPreorder, ℤ_order, lex_order, descending, sort,
}
use cloud_job_orchestrator.Base.Text.{Text, bytes, eq_text}
use cloud_job_orchestrator.Domain.{ready, retry_wait, leased}
use cloud_job_orchestrator.Scheduler.State.{ClaimedJob, same_state}
use cloud_job_orchestrator.Store.{StoreError, validate_owner_and_lease, kind_name, parse_kind}
use cloud_job_orchestrator.Store.Tables.{
  Timestamp, plus_millis, DagRow, JobRow, Db, Postgres, Tx, committed, select_rows, exists_row,
  update_rows, is_job,
}
use cloud_job_orchestrator.Store.Lease.{has_open_parent, reap_in_transaction}

-- Division of a signed integer by a positive number, towards zero.
abbrev pub div_towards_zero : ℤ → ℕ → ℤ
div_towards_zero (pos n) k = pos (n / k)
div_towards_zero (negsuc n) k = sub_ℕ 0 (suc n / k)

-- Of a time in nanoseconds. The quotient is clamped to an i64.
unfoldable pub unix_millis : ℤ → ℤ
unix_millis nanos =
    let millis = div_towards_zero nanos 1_000_000 in
    if leb_ℤ (int_min 63) millis && leb_ℤ millis (int_max 63)
    then millis
    else if ltb_ℤ nanos (pos 0)
    then int_min 63
    else int_max 63

-- `OffsetDateTime::unix_timestamp_nanos` of a column.
unfoldable pub nanos_of : Timestamp → ℤ
unfolding ◌*ℤ◌
nanos_of t = t *ℤ pos 1_000

unfoldable pub in_running_dag : List DagRow → JobRow → Bool
in_running_dag dags row = exists_row (λ d. eq_text d.id row.dag_id && d.running) dags

-- The condition of the candidates.
unfoldable pub is_claimable : Db → Timestamp → JobRow → Bool
unfolding in_running_dag has_open_parent
is_claimable db now row =
    in_running_dag db.dags row
    && (same_state row.state ready || same_state row.state retry_wait)
    && leb_ℤ row.available_at now
    && not (has_open_parent db.edges db.jobs row)

-- `ORDER BY priority DESC, available_at, dag_id, id`.
abbrev claim_fields : JobRow → ℤ × (ℤ × (Text × Text))
claim_fields row = (row.priority, (row.available_at, (row.dag_id, row.id)))

abbrev pub claim_order : TotalOrder Text → TotalPreorder JobRow
claim_order collation =
    let o = lex_order (descending ℤ_order) (lex_order ℤ_order (lex_order collation collation)) in
    record {
      le = λ a b. o.le (claim_fields a) (claim_fields b);
      le_total = λ a b. o.le_total (claim_fields a) (claim_fields b);
      le_trans = λ a b c. o.le_trans (claim_fields a) (claim_fields b) (claim_fields c);
    }

-- `SKIP LOCKED LIMIT 1`.
abbrev pub first_unlocked : (Text → Text → Bool) → List JobRow → Option JobRow
first_unlocked locked [] = none
first_unlocked locked (row ∷ rows) =
    if locked row.dag_id row.id then first_unlocked locked rows else some row

unfoldable pub leased_row : Text → ℕ → ℤ → Timestamp → JobRow → JobRow
leased_row owner token lease_ms now row = record row {
  attempts = row.attempts + 1;
  state = leased;
  lease_owner = some owner;
  lease_token = some token;
  lease_expires_at = some (plus_millis now lease_ms);
  updated_at = now;
}

module _ {E : Type 0} (pg : Postgres E) (uuid_text : ℕ → Text) where
  unfoldable pub candidate : Db → (Text → Text → Bool) → Timestamp → Option JobRow
  unfolding select_rows sort is_claimable
  candidate db locked now =
      first_unlocked locked
        (sort (claim_order pg.collation) (select_rows (is_claimable db now) db.jobs))

  -- What the claim makes of the candidate: its row, its event and the job that is returned.
  unfoldable pub grant_row : Db → JobRow → Text → ℕ → ℤ → Timestamp → Tx E (Option ClaimedJob)
  unfolding leased_row update_rows parse_kind kind_name unix_millis nanos_of
  grant_row db row owner token lease_ms now = do
    let lease = leased_row owner token lease_ms now
    kind ← parse_kind (kind_name row.kind)
    ok (
      some (record {
        dag_id = row.dag_id;
        job_id = row.id;
        kind = kind;
        payload = row.payload;
        attempt = (lease row).attempts;
        lease_token = uuid_text token;
        lease_expires_at_ms = unix_millis (nanos_of (plus_millis now lease_ms));
      }),
      record db {
        jobs = update_rows (is_job row.dag_id row.id) lease db.jobs;
        events =
            db.events
            ++ record {
              dag_id = row.dag_id;
              job_id = row.id;
              event_type = bytes "claimed";
              attempt = (lease row).attempts;
              owner = owner;
              occurred_at = now;
            }
              ∷ [];
      },
    )

  abbrev pub granted : Db → Option JobRow → Text → ℕ → ℤ → Timestamp → Tx E (Option ClaimedJob)
  granted db none owner token lease_ms now = ok (none, db)
  granted db (some row) owner token lease_ms now = grant_row db row owner token lease_ms now

  unfoldable pub claim_tx :
      Db → (Text → Text → Bool) → Text → ℕ → ℤ → Timestamp → Tx E (Option ClaimedJob)
  unfolding candidate grant_row reap_in_transaction
  claim_tx db locked owner token lease_ms now = do
    validate_owner_and_lease owner lease_ms
    let reaped = (reap_in_transaction db now).1
    granted reaped (candidate reaped locked now) owner token lease_ms now

  -- The rows that other transactions have locked are an argument, and so is the new UUID.
  unfoldable pub claim :
      Db
      → (Text → Text → Bool)
      → Text
      → ℕ
      → ℤ
      → Timestamp
      → Result (StoreError E) (Option ClaimedJob) × Db
  unfolding claim_tx
  claim db locked owner token lease_ms now =
      committed db (claim_tx db locked owner token lease_ms now)
