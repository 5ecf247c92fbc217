-- ===== src/Scheduler/Heap.antt =====
-- src/scheduler.rs: the heap, and the jobs that wait to be claimed.
pub mod Retries
pub mod Claims
pub mod Releases
pub mod Admits
pub mod Steps
use mathlib.Core.Option
use cloud_job_orchestrator.Base.{
  ◌≡◌, refl, Bool, true, false, ◌&&◌, ◌||◌, Option, none, some, List, [], ◌∷◌, arith, ◌⊎◌, inl, inr,
  if◌then◌else◌, Bool-cases, sym, ap, ◌∙◌, subst,
}
use cloud_job_orchestrator.Base.Int.{ℤ}
use cloud_job_orchestrator.Base.Order.{In, IsSorted, insert_sorted-IsSorted, In-insert_sorted}
use cloud_job_orchestrator.Base.Text.{Text, eq_text, eq_text_iff}
use cloud_job_orchestrator.Base.Map.{Map}
use cloud_job_orchestrator.Domain.{JobSpec, ready, retry_wait}
use cloud_job_orchestrator.Scheduler.State.{
  JobRecord, DagRecord, ReadyKey, Scheduler, same_state, find_job, update_job, ready_key,
  push_ready, key_order,
}
use cloud_job_orchestrator.Scheduler.Jobs.{find_job-update_job}

-- The job waits to be claimed.
abbrev pub is_waiting : JobRecord → Bool
is_waiting r = same_state r.state ready || same_state r.state retry_wait

abbrev pub key_of : Text → JobRecord → ReadyKey
key_of d r = ready_key d r.spec r.available_at_ms

abbrev pub Covers : List ReadyKey → Map DagRecord → Type 0
Covers heap dags =
    (d j : Text) (r : JobRecord)
    → find_job d j dags ≡ some r
    → is_waiting r ≡ true
    → In (key_of d r) heap

pub record HeapInv (s : Scheduler) : Type 0 where
  pub sorted : IsSorted key_order.preorder s.ready
  pub covers : Covers s.ready s.dags

abbrev pub Within : List ReadyKey → List ReadyKey → Type 0
Within heap heap' = (k : ReadyKey) → In k heap → In k heap'

map-eq-some :
    (f : JobRecord → JobRecord) (o : Option JobRecord) (r' : JobRecord)
    → Option.map f o ≡ some r'
    → (r : JobRecord) × (o ≡ some r) × (f r ≡ r')
map-eq-some f none r' h = cc
map-eq-some f (some r) r' h = (r, refl, ground arith)

module _ (d j : Text) (f : JobRecord → JobRecord) (dags : Map DagRecord) (heap' : List ReadyKey)
    (own : (r : JobRecord)
      → find_job d j dags ≡ some r
      → is_waiting (f r) ≡ true
      → In (key_of d (f r)) heap') where
  own_key :
      (d' j' : Text) (r' : JobRecord)
      → d ≡ d'
      → j ≡ j'
      → Option.map f (find_job d' j' dags) ≡ some r'
      → is_waiting r' ≡ true
      → In (key_of d' r') heap'
  own_key d' j' r' p q h waits =
      let (r, e, same) = map-eq-some f (find_job d' j' dags) r' h in
      let found : find_job d j dags ≡ some r = rw (p, q) e in
      let inside : In (key_of d (f r)) heap' = own r found (rw same waits) in
      subst (λ (x : JobRecord). In (key_of d' x) heap') same
        (subst (λ (x : Text). In (key_of x (f r)) heap') p inside)

  -- A write to one job: the new heap has an entry for each other job that waits, and one for the
  -- job itself if it waits.
  pub update_job-Covers_but :
      ((d' j' : Text) (r : JobRecord)
        → (eq_text d d' && eq_text j j') ≡ false
        → find_job d' j' dags ≡ some r
        → is_waiting r ≡ true
        → In (key_of d' r) heap')
      → Covers heap' (update_job d j f dags)
  update_job-Covers_but others d' j' r h waits = elim (Bool-cases (eq_text d d' && eq_text j j')) [
    | inl hit ↦
        own_key d' j' r (ground (arith, eq_text_iff d d')) (ground (arith, eq_text_iff j j'))
          (ground (arith, find_job-update_job d j d' j' f dags)) waits
    | inr miss ↦ others d' j' r miss (ground (arith, find_job-update_job d j d' j' f dags)) waits
  ]

  pub update_job-Covers :
      (heap : List ReadyKey)
      → Covers heap dags
      → Within heap heap'
      → Covers heap' (update_job d j f dags)
  update_job-Covers heap c w =
      update_job-Covers_but (λ d' j' r miss g waits. w (key_of d' r) (c d' j' r g waits))

pub push_ready-Within :
    (d : Text) (x : JobSpec) (at : ℤ) (heap : List ReadyKey) → Within heap (push_ready d x at heap)
unfolding push_ready
push_ready-Within d x at heap k i =
    In-insert_sorted key_order.preorder k (ready_key d x at) heap (inr i)

pub In-push_ready :
    (d : Text) (x : JobSpec) (at : ℤ) (heap : List ReadyKey)
    → In (ready_key d x at) (push_ready d x at heap)
unfolding push_ready
In-push_ready d x at heap =
    In-insert_sorted key_order.preorder (ready_key d x at) (ready_key d x at) heap (inl refl)

pub push_ready-IsSorted :
    (d : Text) (x : JobSpec) (at : ℤ) (heap : List ReadyKey)
    → IsSorted key_order.preorder heap
    → IsSorted key_order.preorder (push_ready d x at heap)
unfolding push_ready
push_ready-IsSorted d x at heap = insert_sorted-IsSorted key_order.preorder (ready_key d x at) heap
