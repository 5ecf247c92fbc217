-- ===== src/Store/Moves.antt =====
-- src/store.rs: the writes to one row as steps of a machine, and what they keep.
use cloud_job_orchestrator.Base.{
  ℕ, ◌≤◌, ◌<◌, ◌≡◌, Bool, true, false, ◌&&◌, none, arith, ◌⊎◌, has_value,
}
use cloud_job_orchestrator.Base.Int.{ℤ}
use cloud_job_orchestrator.Base.Text.{Text}
use cloud_job_orchestrator.Domain.{
  JobState, pending, ready, retry_wait, leased, succeeded, dead_lettered, cancelled,
}
use cloud_job_orchestrator.Scheduler.Lease.{is_terminal}
use cloud_job_orchestrator.Store.Tables.{JobRow, Timestamp}
use cloud_job_orchestrator.Store.Lease.{
  extended_row, completed_row, released_row, retried_row, cancelled_row,
}
use cloud_job_orchestrator.Store.Claim.{leased_row}

-- One write to a row, with its guard.
pub data RowMove (r r' : JobRow) : Type 0 where
  lease_out :
      (r.state ≡ ready) ⊎ (r.state ≡ retry_wait)
      → (owner : Text) (token : ℕ) (lease_ms : ℤ) (now : Timestamp)
      → r' ≡ leased_row owner token lease_ms now r
      → RowMove r r'
  extend :
      r.state ≡ leased
      → (now : Timestamp) (lease_ms : ℤ) → r' ≡ extended_row now lease_ms r
      → RowMove r r'
  finish :
      r.state ≡ leased
      → (now : Timestamp) (result : Text) → r' ≡ completed_row now result r
      → RowMove r r'
  free : r.state ≡ pending → (now : Timestamp) → r' ≡ released_row now r → RowMove r r'
  retry : r.state ≡ leased → (now : Timestamp) → r' ≡ retried_row now r → RowMove r r'
  cancel : is_terminal r.state ≡ false → (now : Timestamp) → r' ≡ cancelled_row now r → RowMove r r'

pub data RowMoves (r : JobRow) : JobRow → Type 0 where
  stay : RowMoves r r
  next : {r' r'' : JobRow} → RowMoves r r' → RowMove r' r'' → RowMoves r r''

pub RowMoves-trans : {r r' r'' : JobRow} → RowMoves r r' → RowMoves r' r'' → RowMoves r r''
RowMoves-trans ms stay = ms
RowMoves-trans ms (next ks k) = next (RowMoves-trans ms ks) k

abbrev pub has_lease : JobRow → Bool
has_lease r = has_value r.lease_owner && has_value r.lease_token && has_value r.lease_expires_at

abbrev pub NoLease : JobRow → Type 0
NoLease r = (r.lease_owner ≡ none) × (r.lease_token ≡ none) × (r.lease_expires_at ≡ none)

-- What holds of a row in each state.
abbrev pub RowStateInv : JobState → JobRow → Type 0
RowStateInv pending r = NoLease r × (r.attempts ≡ 0) × (r.result ≡ none)
RowStateInv ready r = NoLease r × (r.attempts ≡ 0) × (r.result ≡ none)
RowStateInv retry_wait r =
    NoLease r × (1 ≤ r.attempts) × (r.attempts < r.max_attempts) × (r.result ≡ none)
RowStateInv leased r = (has_lease r ≡ true) × (1 ≤ r.attempts) × (r.result ≡ none)
RowStateInv succeeded r = NoLease r × (1 ≤ r.attempts) × (has_value r.result ≡ true)
RowStateInv dead_lettered r = NoLease r × (r.attempts ≡ r.max_attempts) × (r.result ≡ none)
RowStateInv cancelled r = NoLease r × (r.result ≡ none)

pub record RowInv (r : JobRow) : Type 0 where
  pub budget_pos : 1 ≤ r.max_attempts
  pub budget_le : r.max_attempts ≤ 20
  pub in_budget : r.attempts ≤ r.max_attempts
  pub in_state : RowStateInv r.state r

lease_out-RowInv :
    (r : JobRow) (owner : Text) (token : ℕ) (lease_ms : ℤ) (now : Timestamp)
    → (r.state ≡ ready) ⊎ (r.state ≡ retry_wait)
    → RowInv r
    → RowInv (leased_row owner token lease_ms now r)
unfolding leased_row
lease_out-RowInv r owner token lease_ms now g v = ground arith

extend-RowInv :
    (r : JobRow) (now : Timestamp) (lease_ms : ℤ)
    → r.state ≡ leased
    → RowInv r
    → RowInv (extended_row now lease_ms r)
unfolding extended_row
extend-RowInv r now lease_ms g v = ground arith

finish-RowInv :
    (r : JobRow) (now : Timestamp) (result : Text)
    → r.state ≡ leased
    → RowInv r
    → RowInv (completed_row now result r)
unfolding completed_row
finish-RowInv r now result g v = ground arith

free-RowInv :
    (r : JobRow) (now : Timestamp) → r.state ≡ pending → RowInv r → RowInv (released_row now r)
unfolding released_row
free-RowInv r now g v = ground arith

retry-RowInv :
    (r : JobRow) (now : Timestamp) → r.state ≡ leased → RowInv r → RowInv (retried_row now r)
unfolding retried_row
retry-RowInv r now g v = ground arith

cancel-RowInv :
    (r : JobRow) (now : Timestamp)
    → is_terminal r.state ≡ false
    → RowInv r
    → RowInv (cancelled_row now r)
unfolding cancelled_row is_terminal
cancel-RowInv r now g v = ground arith

pub RowMove-RowInv : {r r' : JobRow} → RowMove r r' → RowInv r → RowInv r'
RowMove-RowInv {r} (lease_out g owner token lease_ms now e) v =
    rw e (lease_out-RowInv r owner token lease_ms now g v)
RowMove-RowInv {r} (extend g now lease_ms e) v = rw e (extend-RowInv r now lease_ms g v)
RowMove-RowInv {r} (finish g now result e) v = rw e (finish-RowInv r now result g v)
RowMove-RowInv {r} (free g now e) v = rw e (free-RowInv r now g v)
RowMove-RowInv {r} (retry g now e) v = rw e (retry-RowInv r now g v)
RowMove-RowInv {r} (cancel g now e) v = rw e (cancel-RowInv r now g v)

pub RowMoves-RowInv : {r r' : JobRow} → RowMoves r r' → RowInv r → RowInv r'
RowMoves-RowInv stay v = v
RowMoves-RowInv (next ms m) v = RowMove-RowInv m (RowMoves-RowInv ms v)
