-- ===== src/Scheduler/Views.antt =====
-- src/scheduler.rs: what `snapshot` shows.
use mathlib.Core.List.{Perm}
use cloud_job_orchestrator.Base.{
  ◌≡◌, refl, true, Option, none, some, ok, arith, List, [], ◌∷◌, All, Option-cases, inl, inr,
}
use cloud_job_orchestrator.Base.Order.{
  TotalPreorder, text_order, IsSorted, sort, insert_sorted, sort-IsSorted, sort-perm,
}
use cloud_job_orchestrator.Base.Int.{ℤ}
use cloud_job_orchestrator.Base.Text.{Text}
use cloud_job_orchestrator.Base.Map.{Map, lookup}
use cloud_job_orchestrator.Domain.{DagSnapshot, JobSnapshot}
use cloud_job_orchestrator.Scheduler.State.{Lease, JobRecord, DagRecord, Scheduler}
use cloud_job_orchestrator.Scheduler.Lease.{snapshot, job_snapshot, job_snapshots, by_id}

-- The owner and the deadline of the lease, where there is one.
abbrev pub ShowsLease : Option Lease → Option Text → Option ℤ → Type 0
ShowsLease none owner deadline = (owner ≡ none) × (deadline ≡ none)
ShowsLease (some l) owner deadline = (owner ≡ some l.owner) × (deadline ≡ some l.expires_at_ms)

-- The snapshot of a job shows this record.
pub record ShowsJob (r : JobRecord) (v : JobSnapshot) : Type 0 where
  pub id : v.id ≡ r.spec.id
  pub state : v.state ≡ r.state
  pub attempts : v.attempts ≡ r.attempts
  pub max_attempts : v.max_attempts ≡ r.spec.max_attempts
  pub available : v.available_at_ms ≡ r.available_at_ms
  pub lease : ShowsLease r.lease v.lease_owner v.lease_expires_at_ms
  pub result : v.result ≡ r.result

-- Snapshots that show the jobs of a map, one by one.
abbrev pub ShowsJobs : Map JobRecord → List JobSnapshot → Type 0
ShowsJobs [] [] = Unit
ShowsJobs [] (v ∷ vs) = ⊥
ShowsJobs (e ∷ m) [] = ⊥
ShowsJobs (e ∷ m) (v ∷ vs) = ShowsJob e.1 v × ShowsJobs m vs

abbrev pub shown_ids : List JobSnapshot → List Text
shown_ids [] = []
shown_ids (v ∷ vs) = v.id ∷ shown_ids vs

job_snapshot-ShowsJob : (r : JobRecord) → ShowsJob r (job_snapshot r)
unfolding job_snapshot
job_snapshot-ShowsJob r = record {
  id = refl;
  state = refl;
  attempts = refl;
  max_attempts = refl;
  available = refl;
  lease = elim (Option-cases r.lease) [
    | inl e ↦ rw e (refl, refl)
    | inr (l, e) ↦ rw e (refl, refl)
  ];
  result = refl;
}

job_snapshots-ShowsJobs : (m : Map JobRecord) → ShowsJobs m (job_snapshots m)
unfolding job_snapshots
job_snapshots-ShowsJobs [] = tt
job_snapshots-ShowsJobs ((j, r) ∷ m) = (job_snapshot-ShowsJob r, job_snapshots-ShowsJobs m)

abbrev by_spec_id : TotalPreorder (Text × JobRecord)
by_spec_id = record {
  le = λ a b. text_order.le a.1.spec.id b.1.spec.id;
  le_total = λ a b. text_order.le_total a.1.spec.id b.1.spec.id;
  le_trans = λ a b c. text_order.le_trans a.1.spec.id b.1.spec.id c.1.spec.id;
}

job_snapshots-insert_sorted :
    (e : Text × JobRecord) (m : Map JobRecord)
    → insert_sorted by_id (job_snapshot e.1) (job_snapshots m)
      ≡ job_snapshots (insert_sorted by_spec_id e m)
unfolding insert_sorted job_snapshots job_snapshot
job_snapshots-insert_sorted e [] = refl
job_snapshots-insert_sorted e (x ∷ m) = ground (arith, job_snapshots-insert_sorted e m)

job_snapshots-sort :
    (m : Map JobRecord) → sort by_id (job_snapshots m) ≡ job_snapshots (sort by_spec_id m)
unfolding sort job_snapshots
job_snapshots-sort [] = refl
job_snapshots-sort ((j, r) ∷ m) =
    rw (job_snapshots-sort m) (job_snapshots-insert_sorted (j, r) (sort by_spec_id m))

shown_ids-All :
    (x : Text) (vs : List JobSnapshot)
    → All (λ (v : JobSnapshot). text_order.le x v.id ≡ true) vs
    → All (λ y. text_order.le x y ≡ true) (shown_ids vs)
shown_ids-All x [] h = tt
shown_ids-All x (v ∷ vs) h = (h.0, shown_ids-All x vs h.1)

shown_ids-IsSorted :
    (vs : List JobSnapshot) → IsSorted by_id vs → IsSorted text_order.preorder (shown_ids vs)
shown_ids-IsSorted [] h = tt
shown_ids-IsSorted (v ∷ vs) h = (shown_ids-All v.id vs h.0, shown_ids-IsSorted vs h.1)

-- The snapshot of a DAG that is there: its identifiers are in the order of their bytes, and its entries
-- show the records of the DAG's jobs, one for each and field by field: identifier, state, attempts and
-- their limit, availability, the owner and deadline of the lease if there is one, and result.
pub snapshot-ShowsJobs :
    (s : Scheduler) (d : Text) (dag : DagRecord)
    → lookup d s.dags ≡ some dag
    → (view : DagSnapshot) × (jobs : Map JobRecord) × (snapshot s d ≡ ok view)
      × (view.id ≡ d)
      × IsSorted text_order.preorder (shown_ids view.jobs)
      × Perm jobs dag.jobs
      × ShowsJobs jobs view.jobs
unfolding snapshot
snapshot-ShowsJobs s d dag f = (
  record { id = d; jobs = sort by_id (job_snapshots dag.jobs) },
  sort by_spec_id dag.jobs,
  rw (f, snapshot) refl,
  refl,
  shown_ids-IsSorted _ (sort-IsSorted by_id (job_snapshots dag.jobs)),
  sort-perm by_spec_id dag.jobs,
  rw (job_snapshots-sort dag.jobs) (job_snapshots-ShowsJobs (sort by_spec_id dag.jobs)),
)
