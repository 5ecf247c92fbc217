-- ===== src/Scheduler/Heap/Releases.antt =====
-- src/scheduler.rs: the heap under `complete`.
use cloud_job_orchestrator.Base.{
  ◌≡◌, refl, Bool, true, false, some, List, [], ◌∷◌, arith, inl, inr, if◌then◌else◌, Bool-cases,
  sym, subst,
}
use cloud_job_orchestrator.Base.Int.{ℤ}
use cloud_job_orchestrator.Base.Order.{In, IsSorted}
use cloud_job_orchestrator.Base.Text.{Text}
use cloud_job_orchestrator.Scheduler.State.{
  JobRecord, Scheduler, ReadyKey, same_state, find_job, update_job, key_order, push_ready,
}
use cloud_job_orchestrator.Scheduler.Lease.{
  released, becomes_ready, release_one, release_all, finished, commit, complete,
}
use cloud_job_orchestrator.Scheduler.Jobs.{job_mut-cases}
use cloud_job_orchestrator.Scheduler.Release.{children}
use cloud_job_orchestrator.Scheduler.Cas.{assert_lease-cases}
use cloud_job_orchestrator.Scheduler.Heap.{
  is_waiting, key_of, HeapInv, Within, update_job-Covers, push_ready-Within, In-push_ready,
  push_ready-IsSorted,
}

released_waits :
    (now : ℤ) (r : JobRecord)
    → is_waiting (released now r) ≡ true
    → becomes_ready r ≡ false
    → (is_waiting r ≡ true)
      × (released now r
          ≡ record r { remaining_dependencies = (released now r).remaining_dependencies })
unfolding released
released_waits now r w b = ground arith

released_pushed :
    (now : ℤ) (r : JobRecord)
    → becomes_ready r ≡ true
    → ((released now r).spec ≡ r.spec) × ((released now r).available_at_ms ≡ now)
unfolding released
released_pushed now r b = ground arith

module _ (s : Scheduler) (d j : Text) (now : ℤ) (r : JobRecord) (f : find_job d j s.dags ≡ some r)
    (v : HeapInv s) where
  abbrev release_heap : List ReadyKey
  release_heap = if becomes_ready r then push_ready d r.spec now s.ready else s.ready

  release_heap-Within : Within s.ready release_heap
  release_heap-Within k i = elim (Bool-cases (becomes_ready r)) [
    | inl e ↦ rw e (push_ready-Within d r.spec now s.ready k i)
    | inr e ↦ rw e i
  ]

  release_heap-IsSorted : IsSorted key_order.preorder release_heap
  release_heap-IsSorted = elim (Bool-cases (becomes_ready r)) [
    | inl e ↦ rw e (push_ready-IsSorted d r.spec now s.ready v.sorted)
    | inr e ↦ rw e v.sorted
  ]

  In-release_heap : is_waiting (released now r) ≡ true → In (key_of d (released now r)) release_heap
  In-release_heap w = elim (Bool-cases (becomes_ready r)) [
    | inl e ↦
        let (p, q) = released_pushed now r e in
        rw e (rw (p, q) (In-push_ready d r.spec now s.ready))
    | inr e ↦
        let (was, same) = released_waits now r w e in
        let i = v.covers d j r f was in rw e (rw same i)
  ]

  In-release_heap_at :
      (r' : JobRecord)
      → find_job d j s.dags ≡ some r'
      → is_waiting (released now r') ≡ true
      → In (key_of d (released now r')) release_heap
  In-release_heap_at r' g w =
      let same : r' ≡ r = ground arith in
      subst
        (λ (x : JobRecord).
          is_waiting (released now x) ≡ true → In (key_of d (released now x)) release_heap)
        (sym same) In-release_heap w

  release_one-HeapInv : HeapInv (release_one s d j now r)
  unfolding release_one
  release_one-HeapInv = record {
    sorted = release_heap-IsSorted;
    covers =
        update_job-Covers d j (released now) s.dags release_heap In-release_heap_at s.ready v.covers
          release_heap-Within;
  }

release_all-HeapInv :
    (now : ℤ) (d : Text) (s : Scheduler) (js : List Text)
    → HeapInv s
    → HeapInv (release_all now d s js).1
unfolding release_all
release_all-HeapInv now d s [] v = v
release_all-HeapInv now d s (x ∷ js) v = elim (job_mut-cases s d x) [
  | inl (r, e, f) ↦
      rw (e, release_all)
        (release_all-HeapInv now d (release_one s d x now r) js
          (release_one-HeapInv s d x now r f v))
  | inr (e, g, f) ↦ rw (g, release_all) v
]

finished_does_not_wait : (result : Text) (r : JobRecord) → is_waiting (finished result r) ≡ false
unfolding finished same_state
finished_does_not_wait result r = refl

not_both : (b : Bool) → b ≡ false → b ≡ true → ⊥
not_both b h k = ground arith

finish-HeapInv :
    (s : Scheduler) (d j result : Text)
    → HeapInv s
    → HeapInv (record s { dags = update_job d j (finished result) s.dags })
finish-HeapInv s d j result v = record {
  sorted = v.sorted;
  covers =
      update_job-Covers d j (finished result) s.dags s.ready
        (λ r f w. absurd (not_both _ (finished_does_not_wait result r) w)) s.ready v.covers
        (λ k i. i);
}

commit-HeapInv :
    (s : Scheduler) (d j result : Text) (now : ℤ) → HeapInv s → HeapInv (commit s d j result now).1
unfolding commit
commit-HeapInv s d j result now v = elim (job_mut-cases s d j) [
  | inl (r, e, f) ↦
      rw (e, commit)
        (release_all-HeapInv now d _ (children d j s.dags) (finish-HeapInv s d j result v))
  | inr (e, g, f) ↦ rw (g, commit) v
]

pub complete-HeapInv :
    (s : Scheduler) (d j owner token result : Text) (now : ℤ)
    → HeapInv s
    → HeapInv (complete s d j owner token result now).1
unfolding complete
complete-HeapInv s d j owner token result now v =
    ground (arith, commit-HeapInv s d j result now v, assert_lease-cases s d j owner token now)
