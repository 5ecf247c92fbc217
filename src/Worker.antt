-- ===== src/Worker.antt =====
-- src/worker.rs: `execute`, which runs one of the allowed operations. The digest and the upper-case
-- conversion are of the libraries, and are parameters; the sleep has no result.
use cloud_job_orchestrator.Base.{
  ℕ, ◌≤◌, ◌≡◌, ◌≢◌, Option, none, some, ◌++◌, ltb, if◌then◌else◌, length, arith, Result, ok, err,
  inl, inr, Result-cases,
}
use cloud_job_orchestrator.Base.Text.{Text, bytes, parse_u64, print_ℕ}
use cloud_job_orchestrator.Domain.{
  JobKind, delay, checksum, uppercase, ValidationError, max_payload_bytes,
}
use cloud_job_orchestrator.Domain.Validate.{validate_payload}

pub data WorkerError : Type 0 where
  validation : ValidationError → WorkerError
  invalid_payload result_too_large : WorkerError

module _ (hex_digest to_uppercase : Text → Text) where
  abbrev slept : Option ℕ → Result WorkerError Text
  slept none = err invalid_payload
  slept (some ms) = ok (bytes "slept:" ++ (print_ℕ ms ++ bytes "ms"))

  unfoldable pub output_of : JobKind → Text → Result WorkerError Text
  output_of delay payload = slept (parse_u64 payload)
  output_of checksum payload = ok (hex_digest payload)
  output_of uppercase payload = ok (to_uppercase payload)

  unfoldable pub execute : JobKind → Text → Result WorkerError Text
  unfolding output_of
  execute kind payload = elim (validate_payload kind payload) [
    | err e ↦ err (validation e)
    | ok _ ↦ elim (output_of kind payload) [
      | err e ↦ err e
      | ok output ↦
          if ltb max_payload_bytes (length output) then err result_too_large else ok output
    ]
  ]

  -- The worker never reports an invalid payload: the validation has rejected it before.
  pub execute_reports_no_invalid_payload :
      (kind : JobKind) (payload : Text) → execute kind payload ≢ err invalid_payload
  unfolding execute validate_payload
  execute_reports_no_invalid_payload delay payload h = ground arith
  execute_reports_no_invalid_payload checksum payload h = ground arith
  execute_reports_no_invalid_payload uppercase payload h = ground arith

  -- A result has at most 4096 bytes, and is given for a payload that passes the validation only.
  pub execute_is_bounded :
      (kind : JobKind) (payload output : Text)
      → execute kind payload ≡ ok output
      → (length output ≤ max_payload_bytes) × (validate_payload kind payload ≡ ok tt)
  unfolding execute
  execute_is_bounded kind payload output h = elim (Result-cases (validate_payload kind payload)) [
    | inl (tt, v) ↦ (ground arith, v)
    | inr (e, v) ↦ ground arith
  ]
