-- ===== src/Scheduler/Acts/Leases.antt =====
-- src/scheduler.rs: `heartbeat`, `fail` and `complete` as steps of the jobs.
use cloud_job_orchestrator.Base.{
  ◌≡◌, refl, true, false, some, arith, inl, inr, ◌∙◌, if◌then◌else◌, Bool-cases, ok, Result-cases,
}
use cloud_job_orchestrator.Base.Int.{ℤ}
use cloud_job_orchestrator.Base.Text.{Text, eq_text, eq_text_iff, count_text}
use cloud_job_orchestrator.Domain.{leased}
use cloud_job_orchestrator.Scheduler.State.{JobRecord, Scheduler, find_job, update_job}
use cloud_job_orchestrator.Scheduler.Retry.{retried, retry_or_dead_letter, fail}
use cloud_job_orchestrator.Scheduler.Lease.{
  heartbeat, extended, complete, commit, release_all, finished,
}
use cloud_job_orchestrator.Scheduler.Jobs.{update_job-DistinctJobs, job_mut-cases}
use cloud_job_orchestrator.Scheduler.Reap.{retry_or_dead_letter-config}
use cloud_job_orchestrator.Scheduler.Release.{
  children, AllPresent, children-update_job, freed, release_all-keeps, release_all-config,
  children-release_all,
}
use cloud_job_orchestrator.Scheduler.Cas.{HoldsLease, assert_lease-cases}
use cloud_job_orchestrator.Scheduler.Cas.Heartbeat.{heartbeat_iff, heartbeat_atomic}
use cloud_job_orchestrator.Scheduler.Cas.Complete.{complete_iff, complete_atomic, find_job-complete}
use cloud_job_orchestrator.Scheduler.Machine.{extend, finish, free, retry, Moves, stay, next}
use cloud_job_orchestrator.Scheduler.Acts.{
  Acts, Acts-refl, Rewrites, Rewrites-moves, Rewrites-absent, update_job-Acts,
}

retry_or_dead_letter_dags :
    (s : Scheduler) (d j : Text) (now : ℤ) (r : JobRecord)
    → find_job d j s.dags ≡ some r
    → (retry_or_dead_letter s d j now).1.dags ≡ update_job d j (retried s.config j now) s.dags
unfolding retry_or_dead_letter
retry_or_dead_letter_dags s d j now r f = ground (arith, job_mut-cases s d j)

retry_or_dead_letter-Acts :
    (s : Scheduler) (d j : Text) (now : ℤ) (r : JobRecord)
    → find_job d j s.dags ≡ some r
    → r.state ≡ leased
    → Acts true s (retry_or_dead_letter s d j now).1
retry_or_dead_letter-Acts s d j now r f g =
    update_job-Acts s d j (retried s.config j now)
      (λ r' f'. retry (ground arith) s.config j now refl) (retry_or_dead_letter s d j now).1
      (retry_or_dead_letter_dags s d j now r f) (retry_or_dead_letter-config s d j now)

pub fail-Acts :
    (s : Scheduler) (d j owner token : Text) (now : ℤ) → Acts true s (fail s d j owner token now).1
unfolding fail
fail-Acts s d j owner token now = elim (assert_lease-cases s d j owner token now) [
  | inl ((r, f, o), a) ↦ rw (a, fail) (retry_or_dead_letter-Acts s d j now r f o.is_leased)
  | inr (e, a) ↦ rw (a, fail) (Acts-refl s)
]

module _ (s : Scheduler) (d j owner token : Text) (now lease_ms : ℤ) where
  pub heartbeat_dags :
      (deadline : ℤ)
      → (heartbeat s d j owner token now lease_ms).0 ≡ ok deadline
      → ((heartbeat s d j owner token now lease_ms).1.dags
          ≡ update_job d j (extended deadline) s.dags)
        × ((heartbeat s d j owner token now lease_ms).1.config ≡ s.config)
  unfolding heartbeat
  heartbeat_dags deadline h = ground arith

  pub heartbeat-Acts : Acts true s (heartbeat s d j owner token now lease_ms).1
  heartbeat-Acts = elim (Result-cases (heartbeat s d j owner token now lease_ms).0) [
    | inl (deadline, h) ↦
        let (_, _, (r, f, o), _) = (heartbeat_iff s d j owner token now lease_ms deadline).0 h in
        let (e, c) = heartbeat_dags deadline h in
        update_job-Acts s d j (extended deadline)
          (λ r' f'. extend (let g = o.is_leased in ground arith) deadline refl) _ e c
    | inr (e, h) ↦ rw (heartbeat_atomic s d j owner token now lease_ms e h) (Acts-refl s)
  ]

module _ (s : Scheduler) (d j owner token result : Text) (now : ℤ)
    (linked : AllPresent d s.dags (children d j s.dags)) where
  abbrev after_finish : Scheduler
  after_finish = record s { dags = update_job d j (finished result) s.dags }

  abbrev after_complete : Scheduler
  after_complete = (complete s d j owner token result now).1

  complete_state :
      (complete s d j owner token result now).0 ≡ ok tt
      → (complete s d j owner token result now).1
        ≡ (release_all now d after_finish (children d j s.dags)).1
  unfolding complete commit
  complete_state h = ground arith

  abbrev completed_in : Text → Text → JobRecord → JobRecord
  completed_in d' j' r =
      if eq_text d d'
      then freed now (count_text j' (children d j s.dags))
          (if eq_text j j' then finished result r else r)
      else r

  complete-Rewrites :
      (complete s d j owner token result now).0 ≡ ok tt
      → Rewrites s (complete s d j owner token result now).1 completed_in
  complete-Rewrites h d' j' =
      ground (arith, find_job-complete s d j owner token result now linked d' j' h)

  completed_in-Moves :
      HoldsLease s d j owner token now
      → (d' j' : Text) (r : JobRecord) → find_job d' j' s.dags ≡ some r
      → Moves false r (completed_in d' j' r)
  completed_in-Moves (r0, f0, o) d' j' r f = elim (Bool-cases (eq_text d d')) [
    | inl e ↦ elim (Bool-cases (eq_text j j')) [
      | inl e' ↦
          rw (e, e')
            (next
              (next stay (
                finish refl
                  (let g = o.is_leased in ground (arith, eq_text_iff d d', eq_text_iff j j')) result
                  refl))
              (free refl now (count_text j' (children d j s.dags)) refl))
      | inr e' ↦ rw (e, e') (next stay (free refl now (count_text j' (children d j s.dags)) refl))
    ]
    | inr e ↦ rw e stay
  ]

  complete-ok-Acts :
      (complete s d j owner token result now).0 ≡ ok tt
      → Acts false s (complete s d j owner token result now).1
  complete-ok-Acts h =
      let holds = ((complete_iff s d j owner token result now linked).0 h).1 in
      record {
        moves =
            Rewrites-moves s after_complete completed_in (complete-Rewrites h)
              (completed_in-Moves holds);
        absent = Rewrites-absent s after_complete completed_in (complete-Rewrites h);
        children_same = λ d' p. rw (complete_state h) (
            children-release_all now d after_finish (children d j s.dags) d' p
            ∙ children-update_job d j d' p (finished result) s.dags);
        distinct = λ u. rw (complete_state h) (
            release_all-keeps now d after_finish (children d j s.dags)
              (update_job-DistinctJobs d j (finished result) s.dags u));
        config_same =
            rw (complete_state h) (release_all-config now d after_finish (children d j s.dags));
      }

  pub complete-Acts : Acts false s (complete s d j owner token result now).1
  complete-Acts = elim (Result-cases (complete s d j owner token result now).0) [
    | inl (tt, h) ↦ complete-ok-Acts h
    | inr (e, h) ↦ rw (complete_atomic s d j owner token result now linked e h) (Acts-refl s)
  ]
