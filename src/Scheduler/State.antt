-- ===== src/Scheduler/State.antt =====
-- src/scheduler.rs: configuration, job and DAG records, the ready heap, and access to a job.
use cloud_job_orchestrator.Base.{
  ℕ, ◌≡◌, Bool, true, false, Option, none, some, List, [], Result, ok_or, ◌>>=◌,
}
use cloud_job_orchestrator.Base.Int.{ℤ, pos, saturating_sub16}
use cloud_job_orchestrator.Base.Order.{TotalOrder, ℤ_order, text_order, lex_order, insert_sorted}
use cloud_job_orchestrator.Base.Text.{Text}
use cloud_job_orchestrator.Base.Map.{Map, lookup, adjust}
use cloud_job_orchestrator.Domain.{
  JobKind, JobSpec, JobState, ValidationError, pending, ready, retry_wait, leased, succeeded,
  dead_lettered, cancelled,
}

pub record SchedulerConfig : Type 0 where
  pub max_dags : ℕ
  pub max_ready_jobs : ℕ
  pub max_lease_ms : ℤ
  pub base_retry_ms : ℤ
  pub max_retry_ms : ℤ

abbrev pub default_config : SchedulerConfig
default_config = record {
  max_dags = 100;
  max_ready_jobs = 10_000;
  max_lease_ms = pos 60_000;
  base_retry_ms = pos 1_000;
  max_retry_ms = pos 60_000;
}

pub record ClaimedJob : Type 0 where
  pub dag_id : Text
  pub job_id : Text
  pub kind : JobKind
  pub payload : Text
  pub attempt : ℕ
  pub lease_token : Text
  pub lease_expires_at_ms : ℤ

pub record Lease : Type 0 where
  pub owner : Text
  pub token : Text
  pub expires_at_ms : ℤ

pub record JobRecord : Type 0 where
  pub spec : JobSpec
  pub state : JobState
  pub attempts : ℕ
  pub available_at_ms : ℤ
  pub remaining_dependencies : ℕ
  pub lease : Option Lease
  pub result : Option Text

pub record DagRecord : Type 0 where
  pub jobs : Map JobRecord
  pub dependents : Map (List Text)

pub record ReadyKey : Type 0 where
  pub available_at_ms : ℤ
  pub priority_rank : ℤ
  pub dag_id : Text
  pub job_id : Text

pub data SchedulerError : Type 0 where
  validation : ValidationError → SchedulerError
  dag_already_exists dag_not_found job_not_found overloaded : SchedulerError
  invalid_lease lease_conflict result_too_large : SchedulerError

-- `ready` is the heap of `Reverse<ReadyKey>`, as the sorted list of its keys: equal keys cannot be
-- told apart, so what `peek` and `pop` give depends on nothing else.
pub record Scheduler : Type 0 where
  pub config : SchedulerConfig
  pub dags : Map DagRecord
  pub ready : List ReadyKey
  pub sequence : ℕ

unfoldable pub new : SchedulerConfig → Scheduler
new config = record { config = config; dags = []; ready = []; sequence = 0 }

-- A method returns its result and the scheduler that it leaves, after an error too.
abbrev pub Outcome : Type 0 → Type 0
Outcome A = Result SchedulerError A × Scheduler

-- The derived order: the fields in turn.
abbrev key_fields : ReadyKey → ℤ × (ℤ × (Text × Text))
key_fields k = (k.available_at_ms, (k.priority_rank, (k.dag_id, k.job_id)))

abbrev fields_order : TotalOrder (ℤ × (ℤ × (Text × Text)))
fields_order = lex_order ℤ_order (lex_order ℤ_order (lex_order text_order text_order))

unfoldable pub key_le : ReadyKey → ReadyKey → Bool
key_le a b = fields_order.le (key_fields a) (key_fields b)

pub key-le_total : (a b : ReadyKey) → key_le a b ≡ false → key_le b a ≡ true
unfolding key_le
key-le_total a b = fields_order.le_total (key_fields a) (key_fields b)

pub key-le_trans : (a b c : ReadyKey) → key_le a b ≡ true → key_le b c ≡ true → key_le a c ≡ true
unfolding key_le
key-le_trans a b c = fields_order.le_trans (key_fields a) (key_fields b) (key_fields c)

pub key-le_antisymm : (a b : ReadyKey) → key_le a b ≡ true → key_le b a ≡ true → a ≡ b
unfolding key_le
key-le_antisymm a b h k =
    let e = fields_order.le_antisymm (key_fields a) (key_fields b) h k in
    λ i. record {
      available_at_ms = (e i).0;
      priority_rank = (e i).1.0;
      dag_id = (e i).1.1.0;
      job_id = (e i).1.1.1;
    }

abbrev pub key_order : TotalOrder ReadyKey
key_order = record {
  preorder = record { le = key_le; le_total = key-le_total; le_trans = key-le_trans };
  le_antisymm = key-le_antisymm;
}

unfoldable pub same_state : JobState → JobState → Bool
same_state pending pending = true
same_state ready ready = true
same_state retry_wait retry_wait = true
same_state leased leased = true
same_state succeeded succeeded = true
same_state dead_lettered dead_lettered = true
same_state cancelled cancelled = true
same_state _ _ = false

abbrev jobs_of : Option DagRecord → Option (Map JobRecord)
jobs_of none = none
jobs_of (some dag) = some dag.jobs

abbrev job_in : Text → Option DagRecord → Option JobRecord
job_in job_id none = none
job_in job_id (some dag) = lookup job_id dag.jobs

-- The record of a job, if its DAG and the job are there.
unfoldable pub find_job : Text → Text → Map DagRecord → Option JobRecord
find_job dag_id job_id dags = job_in job_id (lookup dag_id dags)

-- `job_mut`: which of the two look-ups fails decides the error.
unfoldable pub job_mut : Scheduler → Text → Text → Result SchedulerError JobRecord
job_mut s dag_id job_id = do
  dag ← ok_or (lookup dag_id s.dags) dag_not_found
  ok_or (lookup job_id dag.jobs) job_not_found

-- Writes through the reference that `job_mut` returns.
unfoldable pub update_job : Text → Text → (JobRecord → JobRecord) → Map DagRecord → Map DagRecord
update_job dag_id job_id f = adjust dag_id (λ dag. record dag { jobs = adjust job_id f dag.jobs })

unfoldable pub ready_key : Text → JobSpec → ℤ → ReadyKey
ready_key dag_id job available_at_ms = record {
  available_at_ms = available_at_ms;
  priority_rank = saturating_sub16 (pos 100) job.priority;
  dag_id = dag_id;
  job_id = job.id;
}

unfoldable pub push_ready : Text → JobSpec → ℤ → List ReadyKey → List ReadyKey
push_ready dag_id job available_at_ms =
    insert_sorted key_order.preorder (ready_key dag_id job available_at_ms)
