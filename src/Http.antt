-- ===== src/Http.antt =====
-- src/http.rs: the defaults of requests, the names of states, and the responses to errors.
pub mod Handlers
pub mod Refused
use cloud_job_orchestrator.Base.{
  ℕ, ◌≡◌, refl, Bool, false, Option, none, some, if◌then◌else◌, arith, ◌↔◌, ok, inl, inr, ap, ◌∙◌,
  ◌≢◌, true, ◌==◌, Bool-cases, Option-cases,
}
use cloud_job_orchestrator.Base.Int.{ℤ, pos}
use cloud_job_orchestrator.Base.Text.{Text, bytes, eq_text, eq_text_iff, eq_text→eq}
use cloud_job_orchestrator.Domain.{
  JobState, pending, ready, retry_wait, leased, succeeded, dead_lettered, cancelled,
}
use cloud_job_orchestrator.Store.{
  StoreError, validation, database, migration, not_found, lease_conflict, invalid_configuration,
  corrupt_data, parse_state,
}

abbrev pub default_page_size : ℕ
default_page_size = 25

abbrev pub default_lease_ms : ℤ
default_lease_ms = pos 15_000

unfoldable pub state_name : JobState → Text
state_name pending = bytes "pending"
state_name ready = bytes "ready"
state_name retry_wait = bytes "retry_wait"
state_name leased = bytes "leased"
state_name succeeded = bytes "succeeded"
state_name dead_lettered = bytes "dead_lettered"
state_name cancelled = bytes "cancelled"

pub data ApiError (E : Type 0) : Type 0 where
  store : StoreError E → ApiError E
  unavailable : ApiError E

-- The status and the machine-readable code of a response; its message is left out.
abbrev pub Response : Type 0
Response = ℕ × Text

-- The SQLSTATE of an error, if it is one of the database, is the library's.
module _ {E : Type 0} (error_code : E → Option Text) where
  abbrev has_code : Option Text → Text → Bool
  has_code none expected = false
  has_code (some code) expected = eq_text code expected

  unfoldable pub is_unique_violation : E → Bool
  is_unique_violation error = has_code (error_code error) (bytes "23505")

  unfoldable pub into_response : ApiError E → Response
  unfolding is_unique_violation
  into_response unavailable = (503, bytes "unavailable")
  into_response (store not_found) = (404, bytes "not_found")
  into_response (store lease_conflict) = (409, bytes "lease_conflict")
  into_response (store (validation error)) = (422, bytes "invalid_dag")
  into_response (store invalid_configuration) = (400, bytes "invalid_request")
  into_response (store (database error)) =
      if is_unique_violation error then (409, bytes "already_exists") else (500, bytes "internal")
  into_response (store (migration error)) = (500, bytes "internal")
  into_response (store corrupt_data) = (500, bytes "internal")

  -- An error of the database that reports a key which is there: PostgreSQL's SQLSTATE 23505.
  abbrev pub IsDuplicate : ApiError E → Type 0
  IsDuplicate (store (database error)) = error_code error ≡ some (bytes "23505")
  IsDuplicate _ = ⊥

  -- The errors that the caller did not cause.
  abbrev pub IsInternal : ApiError E → Type 0
  IsInternal (store (database error)) = error_code error ≢ some (bytes "23505")
  IsInternal (store (migration error)) = Unit
  IsInternal (store corrupt_data) = Unit
  IsInternal _ = ⊥

  is_unique_violation_iff :
      (error : E) → (is_unique_violation error ≡ true) ↔ (error_code error ≡ some (bytes "23505"))
  unfolding is_unique_violation
  is_unique_violation_iff error = elim (Option-cases (error_code error)) [
    | inl e ↦ (λ h. ground arith, λ h. ground arith)
    | inr (code, e) ↦ (
      λ h. e ∙ ap some (eq_text→eq code (bytes "23505") (ground arith)),
      λ h. ground (arith, eq_text_iff code (bytes "23505")),
    )
  ]

  database-IsInternal :
      (error : E)
      → ((into_response (store (database error))).0 ≡ 500)
        ↔ (error_code error ≢ some (bytes "23505"))
  unfolding into_response
  database-IsInternal error = elim (Bool-cases (is_unique_violation error)) [
    | inl e ↦ (λ h. ground arith, λ h. absurd (h ((is_unique_violation_iff error).0 e)))
    | inr e ↦ (λ h d. let t = (is_unique_violation_iff error).1 d in cc, λ h. rw e refl)
  ]

  database-IsDuplicate :
      (error : E)
      → (into_response (store (database error)) ≡ (409, bytes "already_exists"))
        ↔ (error_code error ≡ some (bytes "23505"))
  unfolding into_response
  database-IsDuplicate error = elim (Bool-cases (is_unique_violation error)) [
    | inl e ↦ (λ h. (is_unique_violation_iff error).0 e, λ h. rw e refl)
    | inr e ↦ (λ h. cc, λ h. let t = (is_unique_violation_iff error).1 h in absurd (ground arith))
  ]

  other_status : (r : Response) → r ≡ (409, bytes "already_exists") → (r.0 == 409) ≡ true
  other_status r h = rw h refl

  conflict_apart : bytes "lease_conflict" ≢ bytes "already_exists"
  conflict_apart h =
      let t : eq_text (bytes "lease_conflict") (bytes "already_exists") ≡ true =
        (eq_text_iff (bytes "lease_conflict") (bytes "already_exists")).1 h in
      cc

  -- A response has status 500 exactly for a failed migration, for corrupt data, and for an error of the
  -- database whose SQLSTATE is not 23505; and it is 409 with the code `already_exists` exactly for an
  -- error of the database whose SQLSTATE is 23505.
  pub into_response-IsInternal_iff :
      (error : ApiError E)
      → (((into_response error).0 ≡ 500) ↔ IsInternal error)
        × ((into_response error ≡ (409, bytes "already_exists")) ↔ IsDuplicate error)
  unfolding into_response
  into_response-IsInternal_iff unavailable = (
    (λ h. ground arith, λ h. absurd h),
    (λ h. absurd (ground (arith, other_status _ h)), λ h. absurd h),
  )
  into_response-IsInternal_iff (store not_found) = (
    (λ h. ground arith, λ h. absurd h),
    (λ h. absurd (ground (arith, other_status _ h)), λ h. absurd h),
  )
  into_response-IsInternal_iff (store lease_conflict) = (
    (λ h. ground arith, λ h. absurd h),
    (λ h. absurd (conflict_apart (ap (λ (r : Response). r.1) h)), λ h. absurd h),
  )
  into_response-IsInternal_iff (store (validation error)) = (
    (λ h. ground arith, λ h. absurd h),
    (λ h. absurd (ground (arith, other_status _ h)), λ h. absurd h),
  )
  into_response-IsInternal_iff (store invalid_configuration) = (
    (λ h. ground arith, λ h. absurd h),
    (λ h. absurd (ground (arith, other_status _ h)), λ h. absurd h),
  )
  into_response-IsInternal_iff (store (database error)) =
      (database-IsInternal error, database-IsDuplicate error)
  into_response-IsInternal_iff (store (migration error)) =
      ((λ h. tt, λ h. refl), (λ h. absurd (ground (arith, other_status _ h)), λ h. absurd h))
  into_response-IsInternal_iff (store corrupt_data) =
      ((λ h. tt, λ h. refl), (λ h. absurd (ground (arith, other_status _ h)), λ h. absurd h))

-- The name of a state in a response is the one that the database holds.
pub parse_state-eq-ok : {E : Type 0} (s : JobState) → parse_state {E = E} (state_name s) ≡ ok s
unfolding parse_state state_name
parse_state-eq-ok pending = refl
parse_state-eq-ok ready = refl
parse_state-eq-ok retry_wait = refl
parse_state-eq-ok leased = refl
parse_state-eq-ok succeeded = refl
parse_state-eq-ok dead_lettered = refl
parse_state-eq-ok cancelled = refl
