-- ===== src/Scheduler/Heap/Retries.antt =====
-- src/scheduler.rs: the heap under `retry_or_dead_letter`, `fail` and `reap`.
use cloud_job_orchestrator.Base.{
  ◌≡◌, true, false, some, List, [], ◌∷◌, arith, inl, inr, if◌then◌else◌, Bool-cases, sym, subst,
}
use cloud_job_orchestrator.Base.Int.{ℤ}
use cloud_job_orchestrator.Base.Order.{In, IsSorted}
use cloud_job_orchestrator.Base.Text.{Text}
use cloud_job_orchestrator.Scheduler.State.{
  SchedulerConfig, JobRecord, Scheduler, same_state, find_job, ReadyKey, key_order, update_job,
  push_ready,
}
use cloud_job_orchestrator.Scheduler.Retry.{retried, is_exhausted, retry_or_dead_letter, fail}
use cloud_job_orchestrator.Scheduler.Claim.{reap, retry_all, expired}
use cloud_job_orchestrator.Scheduler.Jobs.{job_mut-cases, job_mut_of_find_job}
use cloud_job_orchestrator.Scheduler.Cas.{assert_lease-cases}
use cloud_job_orchestrator.Scheduler.Heap.{
  is_waiting, key_of, HeapInv, Within, update_job-Covers, push_ready-Within, In-push_ready,
  push_ready-IsSorted,
}

exhausted_does_not_wait :
    (c : SchedulerConfig) (j : Text) (now : ℤ) (r : JobRecord)
    → is_exhausted r ≡ true
    → is_waiting (retried c j now r) ≡ false
unfolding retried same_state
exhausted_does_not_wait c j now r e = ground arith

retried_spec :
    (c : SchedulerConfig) (j : Text) (now : ℤ) (r : JobRecord) → (retried c j now r).spec ≡ r.spec
unfolding retried
retried_spec c j now r = ground arith

module _ (s : Scheduler) (d j : Text) (now : ℤ) (r : JobRecord)
    (f : find_job d j s.dags ≡ some r) where
  abbrev after_retry : JobRecord
  after_retry = retried s.config j now r

  -- The heap that the method leaves.
  abbrev retry_heap : List ReadyKey
  retry_heap =
      if is_exhausted r then s.ready else push_ready d r.spec after_retry.available_at_ms s.ready

  retry_heap-Within : Within s.ready retry_heap
  retry_heap-Within k i = elim (Bool-cases (is_exhausted r)) [
    | inl e ↦ rw e i
    | inr e ↦ rw e (push_ready-Within d r.spec after_retry.available_at_ms s.ready k i)
  ]

  retry_heap-IsSorted : IsSorted key_order.preorder s.ready → IsSorted key_order.preorder retry_heap
  retry_heap-IsSorted o = elim (Bool-cases (is_exhausted r)) [
    | inl e ↦ rw e o
    | inr e ↦ rw e (push_ready-IsSorted d r.spec after_retry.available_at_ms s.ready o)
  ]

  In-retry_heap : is_waiting after_retry ≡ true → In (key_of d after_retry) retry_heap
  In-retry_heap w = elim (Bool-cases (is_exhausted r)) [
    | inl e ↦ let gone = exhausted_does_not_wait s.config j now r e in cc
    | inr e ↦ rw e (
        rw (retried_spec s.config j now r)
          (In-push_ready d r.spec after_retry.available_at_ms s.ready))
  ]

  In-retry_heap_at :
      (r' : JobRecord)
      → find_job d j s.dags ≡ some r'
      → is_waiting (retried s.config j now r') ≡ true
      → In (key_of d (retried s.config j now r')) retry_heap
  In-retry_heap_at r' g w =
      let same : r' ≡ r = ground arith in
      subst
        (λ (x : JobRecord).
          is_waiting (retried s.config j now x) ≡ true
          → In (key_of d (retried s.config j now x)) retry_heap)
        (sym same) In-retry_heap w

  abbrev after_heap : Scheduler
  after_heap = record s {
    dags = update_job d j (retried s.config j now) s.dags;
    ready = retry_heap;
  }

  retry-eq-after_heap : (retry_or_dead_letter s d j now).1 ≡ after_heap
  unfolding retry_or_dead_letter
  retry-eq-after_heap = ground (arith, job_mut_of_find_job s d j r f)

  retry-HeapInv_found : HeapInv s → HeapInv (retry_or_dead_letter s d j now).1
  retry-HeapInv_found v = rw retry-eq-after_heap (record {
    sorted = retry_heap-IsSorted v.sorted;
    covers =
        update_job-Covers d j (retried s.config j now) s.dags retry_heap In-retry_heap_at s.ready
          v.covers retry_heap-Within;
  })

pub retry_or_dead_letter-HeapInv :
    (s : Scheduler) (d j : Text) (now : ℤ) → HeapInv s → HeapInv (retry_or_dead_letter s d j now).1
unfolding retry_or_dead_letter
retry_or_dead_letter-HeapInv s d j now v = elim (job_mut-cases s d j) [
  | inl (r, e, f) ↦ retry-HeapInv_found s d j now r f v
  | inr (e, g, f) ↦ rw (g, retry_or_dead_letter) v
]

pub retry_all-HeapInv :
    (now : ℤ) (s : Scheduler) (l : List (Text × Text)) → HeapInv s → HeapInv (retry_all now s l)
unfolding retry_all
retry_all-HeapInv now s [] v = v
retry_all-HeapInv now s ((d, j) ∷ l) v =
    retry_all-HeapInv now (retry_or_dead_letter s d j now).1 l
      (retry_or_dead_letter-HeapInv s d j now v)

pub reap-HeapInv : (s : Scheduler) (now : ℤ) → HeapInv s → HeapInv (reap s now).1
unfolding reap
reap-HeapInv s now v = retry_all-HeapInv now s (expired now s.dags) v

pub fail-HeapInv :
    (s : Scheduler) (d j owner token : Text) (now : ℤ)
    → HeapInv s
    → HeapInv (fail s d j owner token now).1
unfolding fail
fail-HeapInv s d j owner token now v = elim (assert_lease-cases s d j owner token now) [
  | inl (o, a) ↦ rw (a, fail) (retry_or_dead_letter-HeapInv s d j now v)
  | inr (e, a) ↦ rw (a, fail) v
]
