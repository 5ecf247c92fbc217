-- ===== src/Domain.antt =====
-- src/domain.rs: the value objects of a submission, their limits and the errors of validation.
pub mod Validate
use cloud_job_orchestrator.Base.{ℕ, Option, List}
use cloud_job_orchestrator.Base.Int.{ℤ}
use cloud_job_orchestrator.Base.Text.{Text}

abbrev pub max_dag_id_bytes : ℕ
max_dag_id_bytes = 64

abbrev pub max_job_id_bytes : ℕ
max_job_id_bytes = 64

abbrev pub max_jobs_per_dag : ℕ
max_jobs_per_dag = 1_000

abbrev pub max_dependencies_per_dag : ℕ
max_dependencies_per_dag = 10_000

abbrev pub max_payload_bytes : ℕ
max_payload_bytes = 4_096

pub data JobKind : Type 0 where
  delay checksum uppercase : JobKind

-- `max_attempts` is a u16 and `priority` an i16.
pub record JobSpec : Type 0 where
  pub id : Text
  pub kind : JobKind
  pub payload : Text
  pub max_attempts : ℕ
  pub priority : ℤ

abbrev pub default_attempts : ℕ
default_attempts = 3

-- `from` must succeed before `to` can run.
pub record Dependency : Type 0 where
  pub from : Text
  pub to : Text

pub record DagSpec : Type 0 where
  pub id : Text
  pub jobs : List JobSpec
  pub dependencies : List Dependency

pub data JobState : Type 0 where
  pending ready retry_wait leased succeeded dead_lettered cancelled : JobState

pub record JobSnapshot : Type 0 where
  pub id : Text
  pub state : JobState
  pub attempts : ℕ
  pub max_attempts : ℕ
  pub available_at_ms : ℤ
  pub lease_owner : Option Text
  pub lease_expires_at_ms : Option ℤ
  pub result : Option Text

pub record DagSnapshot : Type 0 where
  pub id : Text
  pub jobs : List JobSnapshot

pub data ValidationError : Type 0 where
  invalid_identifier : Text → ValidationError
  invalid_job_count : ValidationError
  invalid_dependency_count : ValidationError
  duplicate_job : Text → ValidationError
  unknown_job : Text → ValidationError
  cycle : ValidationError
  payload_too_large : ValidationError
  invalid_delay : ValidationError
  invalid_policy : ValidationError
