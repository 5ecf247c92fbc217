-- ===== src/Store.antt =====
-- src/store.rs: the checks that its methods make before and after SQL, and the names of kinds and
-- states in the database.
pub mod Tables
pub mod Lease
pub mod Claim
pub mod Submit
pub mod Read
pub mod Rows
pub mod Run
pub mod Moves
pub mod Acts
pub mod Transactions
pub mod Picks
pub mod Due
pub mod Grants
pub mod Inserts
pub mod Cas
pub mod Final
pub mod Waits
pub mod Pages
pub mod Race
pub mod Accepts
pub mod Pool
pub mod History
pub mod Evolution
use cloud_job_orchestrator.Base.{
  ℕ, ◌≡◌, refl, false, not, ◌&&◌, ◌||◌, ltb, ◌==◌, if◌then◌else◌, length, arith, Result, ok, err,
  ◌↔◌,
}
use cloud_job_orchestrator.Base.Int.{ℤ, pos, leb_ℤ}
use cloud_job_orchestrator.Base.Text.{Text, bytes, eq_text, eq_text_iff, is_empty}
use cloud_job_orchestrator.Domain.{
  JobKind, delay, checksum, uppercase, JobState, pending, ready, retry_wait, leased, succeeded,
  dead_lettered, cancelled, ValidationError,
}
use cloud_job_orchestrator.Scheduler.State.{default_config}
use cloud_job_orchestrator.Scheduler.Claim.{claim_is_invalid}

-- The errors of the two libraries are the parameter.
pub data StoreError (E : Type 0) : Type 0 where
  validation : ValidationError → StoreError E
  database migration : E → StoreError E
  not_found lease_conflict invalid_configuration corrupt_data : StoreError E

unfoldable pub kind_name : JobKind → Text
kind_name delay = bytes "delay"
kind_name checksum = bytes "checksum"
kind_name uppercase = bytes "uppercase"

unfoldable pub state_name : JobState → Text
state_name pending = bytes "pending"
state_name ready = bytes "ready"
state_name retry_wait = bytes "retry_wait"
state_name leased = bytes "leased"
state_name succeeded = bytes "succeeded"
state_name dead_lettered = bytes "dead_lettered"
state_name cancelled = bytes "cancelled"

module _ {E : Type 0} where
  unfoldable pub validate_owner_and_lease : Text → ℤ → Result (StoreError E) (Unit {0})
  validate_owner_and_lease owner lease_ms =
      if is_empty owner
        || ltb 64 (length owner)
        || not (leb_ℤ (pos 1) lease_ms && leb_ℤ lease_ms (pos 60_000))
      then err invalid_configuration
      else ok tt

  unfoldable pub ensure_compare_and_set : ℕ → Result (StoreError E) (Unit {0})
  ensure_compare_and_set changed = if changed == 1 then ok tt else err lease_conflict

  unfoldable pub parse_kind : Text → Result (StoreError E) JobKind
  parse_kind value =
      if eq_text value (bytes "delay")
      then ok delay
      else if eq_text value (bytes "checksum")
      then ok checksum
      else if eq_text value (bytes "uppercase")
      then ok uppercase
      else err corrupt_data

  unfoldable pub parse_state : Text → Result (StoreError E) JobState
  parse_state value =
      if eq_text value (bytes "pending")
      then ok pending
      else if eq_text value (bytes "ready")
      then ok ready
      else if eq_text value (bytes "retry_wait")
      then ok retry_wait
      else if eq_text value (bytes "leased")
      then ok leased
      else if eq_text value (bytes "succeeded")
      then ok succeeded
      else if eq_text value (bytes "dead_lettered")
      then ok dead_lettered
      else if eq_text value (bytes "cancelled")
      then ok cancelled
      else err corrupt_data

  parse_state_name : (s : JobState) → parse_state (state_name s) ≡ ok s
  unfolding parse_state state_name
  parse_state_name pending = refl
  parse_state_name ready = refl
  parse_state_name retry_wait = refl
  parse_state_name leased = refl
  parse_state_name succeeded = refl
  parse_state_name dead_lettered = refl
  parse_state_name cancelled = refl

  state_name_of_parse :
      (value : Text) (s : JobState) → parse_state value ≡ ok s → value ≡ state_name s
  unfolding parse_state state_name
  state_name_of_parse value s h = ground (
    arith,
    eq_text_iff value (bytes "pending"),
    eq_text_iff value (bytes "ready"),
    eq_text_iff value (bytes "retry_wait"),
    eq_text_iff value (bytes "leased"),
    eq_text_iff value (bytes "succeeded"),
    eq_text_iff value (bytes "dead_lettered"),
    eq_text_iff value (bytes "cancelled"),
  )

  -- The database's name of a state reads back as that state, and no other text reads as it.
  pub parse_state_iff :
      (value : Text) (s : JobState) → (parse_state value ≡ ok s) ↔ (value ≡ state_name s)
  parse_state_iff value s = (state_name_of_parse value s, λ e. rw e (parse_state_name s))

  parse_kind_name : (k : JobKind) → parse_kind (kind_name k) ≡ ok k
  unfolding parse_kind kind_name
  parse_kind_name delay = refl
  parse_kind_name checksum = refl
  parse_kind_name uppercase = refl

  kind_name_of_parse : (value : Text) (k : JobKind) → parse_kind value ≡ ok k → value ≡ kind_name k
  unfolding parse_kind kind_name
  kind_name_of_parse value k h = ground (
    arith,
    eq_text_iff value (bytes "delay"),
    eq_text_iff value (bytes "checksum"),
    eq_text_iff value (bytes "uppercase"),
  )

  -- The database's name of a kind reads back as that kind, and no other text reads as it.
  pub parse_kind_iff :
      (value : Text) (k : JobKind) → (parse_kind value ≡ ok k) ↔ (value ≡ kind_name k)
  parse_kind_iff value k = (kind_name_of_parse value k, λ e. rw e (parse_kind_name k))

  -- The store accepts the owners and lease durations that the reference scheduler accepts for a claim
  -- under its default configuration.
  pub validate_owner_and_lease_iff :
      (owner : Text) (lease_ms : ℤ)
      → (validate_owner_and_lease owner lease_ms ≡ ok tt)
        ↔ (claim_is_invalid default_config owner lease_ms ≡ false)
  unfolding validate_owner_and_lease claim_is_invalid
  validate_owner_and_lease_iff owner lease_ms = (λ h. ground arith, λ h. ground arith)
