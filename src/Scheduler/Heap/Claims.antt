-- ===== src/Scheduler/Heap/Claims.antt =====
-- src/scheduler.rs: the heap in the loop of `claim`.
use cloud_job_orchestrator.Base.{
  ◌≡◌, refl, Bool, true, false, none, some, List, [], ◌∷◌, arith, ◌⊎◌, inl, inr, Bool-cases,
  Option-cases, sym, ap, ◌∙◌, ok,
}
use cloud_job_orchestrator.Base.Int.{ℤ, ◌<ℤ◌, ◌≤ℤ◌, ltb_ℤ, saturating_add}
use cloud_job_orchestrator.Base.Order.{In, IsSorted, All-In, le_refl}
use cloud_job_orchestrator.Base.Text.{Text, eq_text_iff}
use cloud_job_orchestrator.Scheduler.State.{
  JobRecord, Scheduler, ReadyKey, same_state, find_job, key_order, key_le, ready_key,
}
use cloud_job_orchestrator.Scheduler.Claim.{
  claim_loop, grant, is_current, leased_to, lease_token, next_sequence,
}
use cloud_job_orchestrator.Scheduler.Claim.Loop.{Granted}
use cloud_job_orchestrator.Scheduler.Heap.{
  is_waiting, key_of, Covers, HeapInv, update_job-Covers_but,
}

key_le_available : (a b : ReadyKey) → key_le a b ≡ true → a.available_at_ms ≤ℤ b.available_at_ms
unfolding key_le
key_le_available a b h = ground arith

key_of_facts :
    (d : Text) (r : JobRecord) (key : ReadyKey)
    → key_of d r ≡ key
    → (key.dag_id ≡ d) × (key.job_id ≡ r.spec.id) × (key.available_at_ms ≡ r.available_at_ms)
unfolding ready_key
key_of_facts d r key h =
    (ap (λ k. k.dag_id) (sym h), ap (λ k. k.job_id) (sym h), ap (λ k. k.available_at_ms) (sym h))

waiting_is_current :
    (key : ReadyKey) (r : JobRecord)
    → is_waiting r ≡ true
    → key.available_at_ms ≡ r.available_at_ms
    → is_current key r ≡ true
unfolding is_current
waiting_is_current key r w e = ground arith

leased_does_not_wait :
    (owner token : Text) (deadline : ℤ) (r : JobRecord)
    → is_waiting (leased_to owner token deadline r) ≡ false
unfolding leased_to same_state
leased_does_not_wait owner token deadline r = refl

not_both : (b : Bool) → b ≡ false → b ≡ true → ⊥
not_both b h k = ground arith

-- Jobs are stored under their identifiers.
abbrev pub StoredById : Scheduler → Type 0
StoredById s = (d j : Text) (r : JobRecord) → find_job d j s.dags ≡ some r → r.spec.id ≡ j

-- No job that waits is due.
abbrev pub NoneDue : Scheduler → ℤ → Type 0
NoneDue s now =
    (d j : Text) (r : JobRecord)
    → find_job d j s.dags ≡ some r
    → is_waiting r ≡ true
    → now <ℤ r.available_at_ms

-- No job that waits comes before the entry.
abbrev pub IsFirst : Scheduler → ReadyKey → Type 0
IsFirst s key =
    (d j : Text) (r : JobRecord)
    → find_job d j s.dags ≡ some r
    → is_waiting r ≡ true
    → key_le key (key_of d r) ≡ true

module _ (s : Scheduler) (owner : Text) (now lease_ms : ℤ) (ids : StoredById s) where
  -- The entry of a job that waits is current.
  entry_is_current :
      (key : ReadyKey) (d j : Text) (r : JobRecord)
      → find_job d j s.dags ≡ some r
      → is_waiting r ≡ true
      → key_of d r ≡ key
      → (find_job key.dag_id key.job_id s.dags ≡ some r) × (is_current key r ≡ true)
  entry_is_current key d j r f w e =
      let (p, q, a) = key_of_facts d r key e in
      let same : key.job_id ≡ j = q ∙ ids d j r f in (rw (p, same) f, waiting_is_current key r w a)

  abbrev pub OutcomeOf : List ReadyKey → Type 0
  OutcomeOf heap =
      HeapInv (claim_loop s owner now lease_ms heap).1
      × (((claim_loop s owner now lease_ms heap).0 ≡ ok none) × NoneDue s now
          ⊎ ((key : ReadyKey) × (r : JobRecord) × (rest : List ReadyKey) × Granted s now key r
              × IsFirst s key
              × (claim_loop s owner now lease_ms heap ≡ grant s key r owner now lease_ms rest)))

  first_is_least :
      (key : ReadyKey) (heap : List ReadyKey)
      → IsSorted key_order.preorder (key ∷ heap)
      → (k : ReadyKey) → In k (key ∷ heap)
      → key_le key k ≡ true
  first_is_least key heap o k (inl e) = rw e (le_refl key_order.preorder key)
  first_is_least key heap o k (inr i) = All-In (λ x. key_le key x ≡ true) k heap o.0 i

  early_ends :
      (key : ReadyKey) (heap : List ReadyKey)
      → ltb_ℤ now key.available_at_ms ≡ true
      → Covers (key ∷ heap) s.dags
      → IsSorted key_order.preorder (key ∷ heap)
      → OutcomeOf (key ∷ heap)
  unfolding claim_loop
  early_ends key heap early c o = rw early (
    record { sorted = o; covers = c },
    inl (
      refl,
      λ d j r f w.
          let le = first_is_least key heap o (key_of d r) (c d j r f w) in
          let av = key_le_available key (key_of d r) le in
          let (_, _, same) = key_of_facts d r (key_of d r) refl in ground arith,
    ),
  )

  -- An entry that is not current covers no job.
  drop_stale :
      (key : ReadyKey) (heap : List ReadyKey)
      → ((r : JobRecord)
          → find_job key.dag_id key.job_id s.dags ≡ some r
          → is_current key r ≡ false)
      → Covers (key ∷ heap) s.dags
      → Covers heap s.dags
  drop_stale key heap stale c d j r f w = elim (c d j r f w) [
    | inl e ↦
        let (g, current) = entry_is_current key d j r f w e in let not_current = stale r g in cc
    | inr i ↦ i
  ]

  abbrev granted_token : ReadyKey → Text
  granted_token key = lease_token key.dag_id key.job_id (next_sequence s.sequence)

  abbrev granted : ReadyKey → JobRecord → JobRecord
  granted key = leased_to owner (granted_token key) (saturating_add now lease_ms)

  grant-HeapInv :
      (key : ReadyKey) (r : JobRecord) (heap : List ReadyKey)
      → find_job key.dag_id key.job_id s.dags ≡ some r
      → Covers (key ∷ heap) s.dags
      → IsSorted key_order.preorder (key ∷ heap)
      → HeapInv (grant s key r owner now lease_ms heap).1
  unfolding grant
  grant-HeapInv key r heap f c o = record {
    sorted = o.1;
    covers =
        update_job-Covers_but key.dag_id key.job_id _ s.dags heap
          (λ r' g w. absurd (
            not_both (is_waiting (granted key r'))
              (leased_does_not_wait owner (granted_token key) (saturating_add now lease_ms) r') w))
          (λ d' j' r' miss g w. elim (c d' j' r' g w) [
            | inl e ↦
                let (p, q, _) = key_of_facts d' r' key e in
                let same = ids d' j' r' g in
                ground (arith, eq_text_iff key.dag_id d', eq_text_iff key.job_id j')
            | inr i ↦ i
          ]);
  }

  grant_ends :
      (key : ReadyKey) (r : JobRecord) (heap : List ReadyKey)
      → ltb_ℤ now key.available_at_ms ≡ false
      → find_job key.dag_id key.job_id s.dags ≡ some r
      → is_current key r ≡ true
      → Covers (key ∷ heap) s.dags
      → IsSorted key_order.preorder (key ∷ heap)
      → OutcomeOf (key ∷ heap)
  unfolding claim_loop
  grant_ends key r heap due f current c o = rw due (
      rw (f, claim_loop)
        (rw current (
          grant-HeapInv key r heap f c o,
          inr (
            key,
            r,
            heap,
            record { found = f; current = current; due = ground arith },
            (λ d j r' g w. first_is_least key heap o (key_of d r') (c d j r' g w)),
            refl,
          ),
        )))

  -- The loop keeps the heap complete. It hands out nothing only if no waiting job is due, and
  -- otherwise an entry that no waiting job comes before.
  pub claim_loop-Outcome :
      (heap : List ReadyKey)
      → Covers heap s.dags
      → IsSorted key_order.preorder heap
      → OutcomeOf heap
  unfolding claim_loop
  claim_loop-Outcome [] c o =
      (record { sorted = tt; covers = c }, inl (refl, λ d j r f w. absurd (c d j r f w)))
  claim_loop-Outcome (key ∷ heap) c o = elim (Bool-cases (ltb_ℤ now key.available_at_ms)) [
    | inl early ↦ early_ends key heap early c o
    | inr due ↦ elim (Option-cases (find_job key.dag_id key.job_id s.dags)) [
      | inl e ↦
          rw due
            (rw (e, claim_loop) (claim_loop-Outcome heap (drop_stale key heap (λ r g. cc) c) o.1))
      | inr (r, e) ↦ elim (Bool-cases (is_current key r)) [
        | inl current ↦ grant_ends key r heap due e current c o
        | inr stale ↦ rw due (
            rw (e, claim_loop)
              (rw stale (
                claim_loop-Outcome heap
                  (drop_stale key heap (λ r' g. let same : r' ≡ r = ground arith in rw same stale)
                    c)
                  o.1)))
      ]
    ]
  ]
