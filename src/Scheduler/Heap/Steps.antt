-- ===== src/Scheduler/Heap/Steps.antt =====
-- src/scheduler.rs: the heap over a history, and what `claim` picks from it.
use mathlib.Core.Option
use cloud_job_orchestrator.Base.{
  ◌≡◌, refl, true, false, Option, none, some, List, [], ◌∷◌, arith, ◌⊎◌, inl, inr, Bool-cases,
  Option-cases, Result-cases, sym, ap, ◌∙◌, ok,
}
use cloud_job_orchestrator.Base.Int.{ℤ}
use cloud_job_orchestrator.Base.Text.{Text, eq_text}
use cloud_job_orchestrator.Base.Map.{lookup}
use cloud_job_orchestrator.Scheduler.State.{
  SchedulerConfig, JobRecord, Scheduler, ReadyKey, same_state, find_job, update_job, new,
}
use cloud_job_orchestrator.Scheduler.Claim.{claim, claim_is_invalid, reap, grant}
use cloud_job_orchestrator.Scheduler.Claim.Loop.{Granted}
use cloud_job_orchestrator.Scheduler.Lease.{extended, heartbeat, cancel, cancelled_job}
use cloud_job_orchestrator.Scheduler.Cas.Heartbeat.{heartbeat_atomic}
use cloud_job_orchestrator.Scheduler.Acts.Cancel.{find_job-cancel_dag}
use cloud_job_orchestrator.Scheduler.Acts.Leases.{heartbeat_dags}
use cloud_job_orchestrator.Scheduler.Run.{
  Call, submits, claims, heartbeats, completes, fails, reaps, cancels, step, run, Inv, step-Inv,
  new-Inv, run-Inv,
}
use cloud_job_orchestrator.Scheduler.Heap.{is_waiting, key_of, Covers, HeapInv, update_job-Covers}
use cloud_job_orchestrator.Scheduler.Heap.Admits.{submit-HeapInv}
use cloud_job_orchestrator.Scheduler.Heap.Retries.{reap-HeapInv, fail-HeapInv}
use cloud_job_orchestrator.Scheduler.Heap.Releases.{complete-HeapInv}
use cloud_job_orchestrator.Scheduler.Heap.Claims.{
  claim_loop-Outcome, NoneDue, IsFirst, StoredById, OutcomeOf,
}

extended_facts :
    (deadline : ℤ) (d : Text) (r : JobRecord)
    → (is_waiting (extended deadline r) ≡ is_waiting r)
      × (key_of d (extended deadline r) ≡ key_of d r)
unfolding extended
extended_facts deadline d r = (refl, refl)

heartbeat_ready :
    (s : Scheduler) (d j owner token : Text) (now lease_ms : ℤ)
    → (heartbeat s d j owner token now lease_ms).1.ready ≡ s.ready
unfolding heartbeat
heartbeat_ready s d j owner token now lease_ms = ground arith

module _ (s : Scheduler) (d j : Text) (deadline : ℤ) (v : HeapInv s) where
  extend-Covers : Covers s.ready (update_job d j (extended deadline) s.dags)
  extend-Covers =
      update_job-Covers d j (extended deadline) s.dags s.ready
        (λ r f w.
          let (p, q) = extended_facts deadline d r in
          let i = v.covers d j r f (sym p ∙ w) in rw q i)
        s.ready v.covers (λ k i. i)

heartbeat-HeapInv :
    (s : Scheduler) (d j owner token : Text) (now lease_ms : ℤ)
    → HeapInv s
    → HeapInv (heartbeat s d j owner token now lease_ms).1
heartbeat-HeapInv s d j owner token now lease_ms v =
    elim (Result-cases (heartbeat s d j owner token now lease_ms).0) [
      | inl (deadline, h) ↦
          let (e, _) = heartbeat_dags s d j owner token now lease_ms deadline h in
          record {
            sorted = rw (heartbeat_ready s d j owner token now lease_ms) v.sorted;
            covers =
                rw (heartbeat_ready s d j owner token now lease_ms, e)
                  (extend-Covers s d j deadline v);
          }
      | inr (e, h) ↦ rw (heartbeat_atomic s d j owner token now lease_ms e h) v
    ]

cancelled_waits : (r : JobRecord) → is_waiting (cancelled_job r) ≡ true → cancelled_job r ≡ r
unfolding cancelled_job same_state
cancelled_waits r w = ground arith

map_cancelled_waits :
    (o : Option JobRecord) (r : JobRecord)
    → Option.map cancelled_job o ≡ some r
    → is_waiting r ≡ true
    → o ≡ some r
map_cancelled_waits none r h w = cc
map_cancelled_waits (some x) r h w =
    let e : cancelled_job x ≡ r = ground arith in
    let same = cancelled_waits x (rw e w) in ap some (sym same ∙ e)

cancel-HeapInv : (s : Scheduler) (d : Text) → HeapInv s → HeapInv (cancel s d).1
unfolding cancel
cancel-HeapInv s d v = elim (Option-cases (lookup d s.dags)) [
  | inl e ↦ rw (e, cancel) v
  | inr (dag, e) ↦
      rw (e, cancel)
        (record {
          sorted = v.sorted;
          covers = λ d' j r f w. elim (Bool-cases (eq_text d d')) [
            | inl hit ↦
                v.covers d' j r
                  (map_cancelled_waits (find_job d' j s.dags) r
                    (ground (arith, find_job-cancel_dag d d' j s.dags)) w)
                  w
            | inr miss ↦ v.covers d' j r (ground (arith, find_job-cancel_dag d d' j s.dags)) w
          ];
        })
]

module _ (s : Scheduler) (owner : Text) (now lease_ms : ℤ) (v : Inv s) (h : HeapInv s) where
  reap-StoredById : StoredById (reap s now).1
  unfolding step
  reap-StoredById d j r f = ((step-Inv s (reaps now) v).jobs d j r f).1

  -- What the loop of a claim makes of the heap after `reap`.
  claim-Outcome : OutcomeOf (reap s now).1 owner now lease_ms reap-StoredById (reap s now).1.ready
  claim-Outcome =
      let k = reap-HeapInv s now h in
      claim_loop-Outcome (reap s now).1 owner now lease_ms reap-StoredById (reap s now).1.ready
        k.covers k.sorted

  claim-HeapInv : HeapInv (claim s owner now lease_ms).1
  unfolding claim
  claim-HeapInv = elim (Bool-cases (claim_is_invalid s.config owner lease_ms)) [
    | inl e ↦ rw e h
    | inr e ↦ rw e claim-Outcome.0
  ]

-- Every call keeps the heap complete and sorted.
pub step-HeapInv : (s : Scheduler) (c : Call) → Inv s → HeapInv s → HeapInv (step s c)
unfolding step
step-HeapInv s (submits spec now) v h = submit-HeapInv s spec now h
step-HeapInv s (claims owner now lease_ms) v h = claim-HeapInv s owner now lease_ms v h
step-HeapInv s (heartbeats d j owner token now lease_ms) v h =
    heartbeat-HeapInv s d j owner token now lease_ms h
step-HeapInv s (completes d j owner token result now) v h =
    complete-HeapInv s d j owner token result now h
step-HeapInv s (fails d j owner token now) v h = fail-HeapInv s d j owner token now h
step-HeapInv s (reaps now) v h = reap-HeapInv s now h
step-HeapInv s (cancels d) v h = cancel-HeapInv s d h

pub run-HeapInv : (s : Scheduler) (cs : List Call) → Inv s → HeapInv s → HeapInv (run s cs)
unfolding run
run-HeapInv s [] v h = h
run-HeapInv s (c ∷ cs) v h = run-HeapInv (step s c) cs (step-Inv s c v) (step-HeapInv s c v h)

pub new-HeapInv : (c : SchedulerConfig) → HeapInv (new c)
unfolding new find_job lookup
new-HeapInv c = record { sorted = tt; covers = λ d j r f w. cc }

-- After any history of calls that starts at `new`, the heap is sorted and has an entry for every job
-- that waits to be claimed, with the job's time and rank.
pub run-new-HeapInv : (c : SchedulerConfig) (cs : List Call) → HeapInv (run (new c) cs)
run-new-HeapInv c cs = run-HeapInv (new c) cs (new-Inv c) (new-HeapInv c)

module _ (c : SchedulerConfig) (cs : List Call) (owner : Text) (now lease_ms : ℤ) where
  abbrev pub reaped_run : Scheduler
  reaped_run = (reap (run (new c) cs) now).1

  abbrev pub HandsOutFirst : Type 0
  HandsOutFirst =
      (key : ReadyKey) × (job : JobRecord) × (rest : List ReadyKey) × Granted reaped_run now key job
      × IsFirst reaped_run key
      × (claim (run (new c) cs) owner now lease_ms
          ≡ grant reaped_run key job owner now lease_ms rest)

  -- After any history of calls that starts at `new`, a claim with valid arguments first reaps. Then it
  -- either hands out no job, and no job that waits is due; or it grants a lease on a job that waits and
  -- is due, and whose entry comes before that of every job that waits.
  pub claim_picks_first :
      claim_is_invalid (run (new c) cs).config owner lease_ms ≡ false
      → ((claim (run (new c) cs) owner now lease_ms).0 ≡ ok none) × NoneDue reaped_run now
        ⊎ HandsOutFirst
  unfolding claim
  claim_picks_first e =
      rw e
        (claim-Outcome (run (new c) cs) owner now lease_ms (run-Inv (new c) cs (new-Inv c))
          (run-new-HeapInv c cs)).1
