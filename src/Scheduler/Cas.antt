-- ===== src/Scheduler/Cas.antt =====
-- src/scheduler.rs: the compare-and-set that guards `heartbeat`, `complete` and `fail`.
pub mod Heartbeat
pub mod Complete
pub mod Fail
use cloud_job_orchestrator.Base.{
  ℕ, ◌≤◌, ◌<◌, ◌≡◌, refl, Bool, true, false, ◌&&◌, ◌||◌, Option, none, some, List, if◌then◌else◌,
  arith, length, Result, ok, err, ◌⊎◌, inl, inr, ◌↔◌, ◌≢◌, ltb, Bool-cases, Option-cases, sym, ◌∙◌,
}
use cloud_job_orchestrator.Base.Int.{ℤ, pos, ◌<ℤ◌, ◌≤ℤ◌, leb_ℤ, ltb_ℤ, saturating_add}
use cloud_job_orchestrator.Base.Text.{Text, eq_text, eq_text_iff, eq_text→eq, eq_text_refl}
use cloud_job_orchestrator.Base.Map.{Map, lookup}
use cloud_job_orchestrator.Domain.{JobState, leased, retry_wait, dead_lettered, max_payload_bytes}
use cloud_job_orchestrator.Scheduler.State.{
  Lease, JobRecord, DagRecord, Scheduler, SchedulerError, dag_not_found, job_not_found,
  lease_conflict, invalid_lease, result_too_large, same_state, find_job, job_mut, update_job,
}
use cloud_job_orchestrator.Scheduler.Retry.{
  lease_matches, check_lease, assert_lease, retried, is_exhausted, retry_or_dead_letter, fail,
}
use cloud_job_orchestrator.Scheduler.Lease.{
  heartbeat, extended, complete, commit, finished, release_all,
}
use cloud_job_orchestrator.Scheduler.Jobs.{
  same_state→eq, same_state_refl, job_mut-ok, job_mut-cases, job_mut_of_find_job,
  find_job-update_job,
}
use cloud_job_orchestrator.Scheduler.Release.{
  freed, children, AllPresent, find_job-release_all, release_all-ok,
}

-- The caller owns a lease on the job that has not run out: the four conditions of the documentation.
pub record Owns (r : JobRecord) (owner token : Text) (now : ℤ) : Type 0 where
  pub lease : Lease
  pub held : r.lease ≡ some lease
  pub is_leased : r.state ≡ leased
  pub owner_matches : lease.owner ≡ owner
  pub token_matches : lease.token ≡ token
  pub in_time : now <ℤ lease.expires_at_ms

check_lease→Owns :
    (r : JobRecord) (owner token : Text) (now : ℤ)
    → check_lease r owner token now ≡ ok tt
    → Owns r owner token now
unfolding check_lease
check_lease→Owns r owner token now h = elim (Option-cases r.lease) [
  | inl e ↦ cc (rw (e, check_lease) at h)
  | inr (l, e) ↦ record {
    lease = l;
    held = e;
    is_leased = same_state→eq r.state leased (ground arith);
    owner_matches = eq_text→eq l.owner owner (ground arith);
    token_matches = eq_text→eq l.token token (ground arith);
    in_time = ground arith;
  }
]

Owns→check_lease :
    (r : JobRecord) (owner token : Text) (now : ℤ)
    → Owns r owner token now
    → check_lease r owner token now ≡ ok tt
unfolding check_lease
Owns→check_lease r owner token now o = ground (
  arith,
  same_state_refl leased,
  eq_text_iff o.lease.owner owner,
  eq_text_iff o.lease.token token,
)

check_lease_error :
    (r : JobRecord) (owner token : Text) (now : ℤ)
    → (check_lease r owner token now ≡ ok tt) ⊎ (check_lease r owner token now ≡ err lease_conflict)
unfolding check_lease
check_lease_error r owner token now = ground arith

-- The job is there and the caller owns a running lease on it.
abbrev pub HoldsLease : Scheduler → Text → Text → Text → Text → ℤ → Type 0
HoldsLease s d j owner token now =
    (r : JobRecord) × (find_job d j s.dags ≡ some r) × Owns r owner token now

pub assert_lease→HoldsLease :
    (s : Scheduler) (d j owner token : Text) (now : ℤ)
    → assert_lease s d j owner token now ≡ ok tt
    → HoldsLease s d j owner token now
unfolding assert_lease
assert_lease→HoldsLease s d j owner token now h = elim (job_mut-cases s d j) [
  | inl (r, e, f) ↦ (r, f, check_lease→Owns r owner token now (rw e at h))
  | inr (e, g, f) ↦ cc
]

pub HoldsLease→assert_lease :
    (s : Scheduler) (d j owner token : Text) (now : ℤ)
    → HoldsLease s d j owner token now
    → assert_lease s d j owner token now ≡ ok tt
unfolding assert_lease
HoldsLease→assert_lease s d j owner token now (r, f, o) =
    rw (job_mut_of_find_job s d j r f) (Owns→check_lease r owner token now o)

pub assert_lease-cases :
    (s : Scheduler) (d j owner token : Text) (now : ℤ)
    → HoldsLease s d j owner token now × (assert_lease s d j owner token now ≡ ok tt)
      ⊎ ((e : SchedulerError) × (assert_lease s d j owner token now ≡ err e))
assert_lease-cases s d j owner token now = go (assert_lease s d j owner token now) refl
  where
    go :
        (m : Result SchedulerError (Unit {0}))
        → assert_lease s d j owner token now ≡ m
        → HoldsLease s d j owner token now × (assert_lease s d j owner token now ≡ ok tt)
          ⊎ ((e : SchedulerError) × (assert_lease s d j owner token now ≡ err e))
    go (ok tt) h = inl (assert_lease→HoldsLease s d j owner token now h, h)
    go (err e) h = inr (e, h)
