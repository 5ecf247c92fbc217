-- ===== src/Scheduler/Lease.antt =====
-- src/scheduler.rs: `heartbeat`, `complete`, `cancel` and `snapshot`.
use cloud_job_orchestrator.Base.{
  ℕ, ◌+◌, ◌-◌, Bool, true, false, ◌&&◌, ◌||◌, not, Option, none, some, List, [], ◌∷◌, ltb, ◌==◌,
  length, if◌then◌else◌, Result, ok, err,
}
use mathlib.Core.Option
use cloud_job_orchestrator.Base.Int.{ℤ, pos, ltb_ℤ, leb_ℤ, saturating_add}
use cloud_job_orchestrator.Base.Order.{TotalPreorder, text_order, sort}
use cloud_job_orchestrator.Base.Text.{Text, eq_text}
use cloud_job_orchestrator.Base.Map.{Map, lookup, adjust, map_values}
use cloud_job_orchestrator.Domain.{
  JobState, pending, ready, leased, succeeded, dead_lettered, cancelled, JobSnapshot, DagSnapshot,
  max_payload_bytes,
}
use cloud_job_orchestrator.Scheduler.State.{
  Lease, JobRecord, DagRecord, Scheduler, SchedulerError, invalid_lease, lease_conflict,
  result_too_large, dag_not_found, Outcome, same_state, job_mut, update_job, push_ready,
}
use cloud_job_orchestrator.Scheduler.Retry.{assert_lease}

abbrev until : ℤ → Lease → Lease
until expires_at_ms lease = record lease { expires_at_ms = expires_at_ms }

unfoldable pub extended : ℤ → JobRecord → JobRecord
extended expires_at_ms job = record job { lease = Option.map (until expires_at_ms) job.lease }

abbrev heartbeat_lease :
    Scheduler → Text → Text → Text → Text → ℤ → ℤ → JobRecord → Option Lease → Outcome ℤ
heartbeat_lease s dag_id job_id owner token now_ms lease_ms job none = (err lease_conflict, s)
heartbeat_lease s dag_id job_id owner token now_ms lease_ms job (some lease) =
    if not (same_state job.state leased)
      || not (eq_text lease.owner owner)
      || not (eq_text lease.token token)
      || leb_ℤ lease.expires_at_ms now_ms
    then (err lease_conflict, s)
    else let expires_at_ms = saturating_add now_ms lease_ms in
      (
        ok expires_at_ms,
        record s { dags = update_job dag_id job_id (extended expires_at_ms) s.dags },
      )

unfoldable pub heartbeat : Scheduler → Text → Text → Text → Text → ℤ → ℤ → Outcome ℤ
heartbeat s dag_id job_id owner token now_ms lease_ms =
    if leb_ℤ lease_ms (pos 0) || ltb_ℤ s.config.max_lease_ms lease_ms
    then (err invalid_lease, s)
    else elim (job_mut s dag_id job_id) [
      | err e ↦ (err e, s)
      | ok job ↦ heartbeat_lease s dag_id job_id owner token now_ms lease_ms job job.lease
    ]

unfoldable pub finished : Text → JobRecord → JobRecord
finished result job = record job { state = succeeded; lease = none; result = some result }

-- The last parent of a pending job has succeeded.
unfoldable pub becomes_ready : JobRecord → Bool
becomes_ready job = job.remaining_dependencies - 1 == 0 && same_state job.state pending

unfoldable pub released : ℤ → JobRecord → JobRecord
unfolding becomes_ready
released now_ms job =
    if becomes_ready job
    then record job {
      remaining_dependencies = job.remaining_dependencies - 1;
      state = ready;
      available_at_ms = now_ms;
    }
    else record job { remaining_dependencies = job.remaining_dependencies - 1 }

unfoldable pub release_one : Scheduler → Text → Text → ℤ → JobRecord → Scheduler
unfolding released becomes_ready
release_one s dag_id job_id now_ms job = record s {
  dags = update_job dag_id job_id (released now_ms) s.dags;
  ready = if becomes_ready job then push_ready dag_id job.spec now_ms s.ready else s.ready;
}

-- The loop over the dependents; a dependent that is not there ends it.
unfoldable pub release_all : ℤ → Text → Scheduler → List Text → Outcome (Unit {0})
unfolding release_one
release_all now_ms dag_id s [] = (ok tt, s)
release_all now_ms dag_id s (job_id ∷ rest) = elim (job_mut s dag_id job_id) [
  | err e ↦ (err e, s)
  | ok job ↦ release_all now_ms dag_id (release_one s dag_id job_id now_ms job) rest
]

abbrev pub list_or_empty : Option (List Text) → List Text
list_or_empty none = []
list_or_empty (some l) = l

abbrev pub dependents_of : Text → Option DagRecord → List Text
dependents_of job_id none = []
dependents_of job_id (some dag) = list_or_empty (lookup job_id dag.dependents)

-- What follows a lease that holds. The job was found, so both look-ups succeed once more.
unfoldable pub commit : Scheduler → Text → Text → Text → ℤ → Outcome (Unit {0})
unfolding finished release_all
commit s dag_id job_id result now_ms = elim (job_mut s dag_id job_id) [
  | err e ↦ (err e, s)
  | ok _ ↦
      release_all now_ms dag_id
        (record s { dags = update_job dag_id job_id (finished result) s.dags })
        (dependents_of job_id (lookup dag_id s.dags))
]

unfoldable pub complete : Scheduler → Text → Text → Text → Text → Text → ℤ → Outcome (Unit {0})
unfolding commit assert_lease
complete s dag_id job_id owner token result now_ms =
    if ltb max_payload_bytes (length result)
    then (err result_too_large, s)
    else elim (assert_lease s dag_id job_id owner token now_ms) [
      | err e ↦ (err e, s)
      | ok _ ↦ commit s dag_id job_id result now_ms
    ]

unfoldable pub is_terminal : JobState → Bool
is_terminal succeeded = true
is_terminal dead_lettered = true
is_terminal cancelled = true
is_terminal _ = false

unfoldable pub cancelled_job : JobRecord → JobRecord
unfolding is_terminal
cancelled_job job =
    if is_terminal job.state then job else record job { state = cancelled; lease = none }

unfoldable pub count_unfinished : Map JobRecord → ℕ
unfolding is_terminal
count_unfinished [] = 0
count_unfinished ((id, job) ∷ jobs) =
    (if is_terminal job.state then 0 else 1) + count_unfinished jobs

unfoldable pub cancel_dag : DagRecord → DagRecord
unfolding cancelled_job
cancel_dag dag = record dag { jobs = map_values cancelled_job dag.jobs }

unfoldable pub cancel : Scheduler → Text → Outcome ℕ
unfolding cancel_dag count_unfinished
cancel s dag_id = elim (lookup dag_id s.dags) [
  | none ↦ (err dag_not_found, s)
  | some dag ↦ (ok (count_unfinished dag.jobs), record s { dags = adjust dag_id cancel_dag s.dags })
]

unfoldable pub job_snapshot : JobRecord → JobSnapshot
job_snapshot job = record {
  id = job.spec.id;
  state = job.state;
  attempts = job.attempts;
  max_attempts = job.spec.max_attempts;
  available_at_ms = job.available_at_ms;
  lease_owner = Option.map (λ l. l.owner) job.lease;
  lease_expires_at_ms = Option.map (λ l. l.expires_at_ms) job.lease;
  result = job.result;
}

unfoldable pub job_snapshots : Map JobRecord → List JobSnapshot
unfolding job_snapshot
job_snapshots [] = []
job_snapshots ((id, job) ∷ jobs) = job_snapshot job ∷ job_snapshots jobs

abbrev pub by_id : TotalPreorder JobSnapshot
by_id = record {
  le = λ a b. text_order.le a.id b.id;
  le_total = λ a b. text_order.le_total a.id b.id;
  le_trans = λ a b c. text_order.le_trans a.id b.id c.id;
}

unfoldable pub snapshot : Scheduler → Text → Result SchedulerError DagSnapshot
unfolding job_snapshots
snapshot s dag_id = elim (lookup dag_id s.dags) [
  | none ↦ err dag_not_found
  | some dag ↦ ok (record { id = dag_id; jobs = sort by_id (job_snapshots dag.jobs) })
]
