-- ===== src/Store/Evolution.antt =====
-- src/store.rs: a row as a job of the reference scheduler, and its life.
use cloud_job_orchestrator.Base.{
  ℕ, ◌≤◌, ◌≡◌, refl, Bool, false, ◌&&◌, not, Option, none, some, List, arith, ◌⊎◌, inl, inr,
}
use cloud_job_orchestrator.Base.Int.{ℤ}
use cloud_job_orchestrator.Base.Text.{Text, eq_text}
use cloud_job_orchestrator.Domain.{
  JobState, pending, ready, retry_wait, leased, succeeded, dead_lettered,
}
use cloud_job_orchestrator.Scheduler.State.{Lease, JobRecord, same_state}
use cloud_job_orchestrator.Scheduler.Lease.{is_terminal}
use cloud_job_orchestrator.Scheduler.Machine.{
  released, claimed, reclaimed, completed, failed, exhausted, Lives, same, along, Evolves,
}
use cloud_job_orchestrator.Scheduler.Machine.Evolution.{cancel-Lives, Evolves-trans}
use cloud_job_orchestrator.Store.Tables.{JobRow, EdgeRow, Timestamp, count_rows, exists_row, is_job}
use cloud_job_orchestrator.Store.Lease.{
  extended_row, completed_row, released_row, retried_row, cancelled_row,
}
use cloud_job_orchestrator.Store.Claim.{leased_row, unix_millis, nanos_of}
use cloud_job_orchestrator.Store.Moves.{
  RowMove, lease_out, extend, finish, free, retry, cancel, RowMoves, stay, next,
}

-- An edge to the job from a parent that has not succeeded.
abbrev is_open_edge_to : List JobRow → JobRow → EdgeRow → Bool
is_open_edge_to jobs child e =
    eq_text e.dag_id child.dag_id
    && eq_text e.child_id child.id
    && exists_row
        (λ parent. is_job e.dag_id e.parent_id parent && not (same_state parent.state succeeded))
        jobs

module _ (uuid_text : ℕ → Text) where
  abbrev lease_of : Option Text → Option ℕ → Option Timestamp → Option Lease
  lease_of (some owner) (some token) (some t) =
      some (record {
        owner = owner;
        token = uuid_text token;
        expires_at_ms = unix_millis (nanos_of t);
      })
  lease_of _ _ _ = none

  -- The job that a row stands for. The scheduler's count of dependencies is that of the edges from
  -- parents that have not succeeded.
  abbrev pub record_of : List EdgeRow → List JobRow → JobRow → JobRecord
  record_of edges jobs row = record {
    spec = record {
      id = row.id;
      kind = row.kind;
      payload = row.payload;
      max_attempts = row.max_attempts;
      priority = row.priority;
    };
    state = row.state;
    attempts = row.attempts;
    available_at_ms = unix_millis (nanos_of row.available_at);
    remaining_dependencies = count_rows (is_open_edge_to jobs row) edges;
    lease = lease_of row.lease_owner row.lease_token row.lease_expires_at;
    result = row.result;
  }

retried_row_state :
    (now : Timestamp) (r : JobRow)
    → ((retried_row now r).state ≡ dead_lettered) ⊎ ((retried_row now r).state ≡ retry_wait)
unfolding retried_row
retried_row_state now r = ground arith

retried_row_facts :
    (now : Timestamp) (r : JobRow)
    → ((retried_row now r).id ≡ r.id)
      × ((retried_row now r).kind ≡ r.kind)
      × ((retried_row now r).payload ≡ r.payload)
      × ((retried_row now r).max_attempts ≡ r.max_attempts)
      × ((retried_row now r).priority ≡ r.priority)
      × ((retried_row now r).attempts ≡ r.attempts)
unfolding retried_row
retried_row_facts now r = ground arith

-- What a row keeps.
pub record RowEvolves (r r' : JobRow) : Type 0 where
  pub id_same : r'.id ≡ r.id
  pub kind_same : r'.kind ≡ r.kind
  pub payload_same : r'.payload ≡ r.payload
  pub budget_same : r'.max_attempts ≡ r.max_attempts
  pub priority_same : r'.priority ≡ r.priority
  pub attempts_grow : r.attempts ≤ r'.attempts
  pub lives : Lives r.state r'.state
  pub was_open : is_terminal r.state ≡ false

Lives-at : {a a' b b' : JobState} → a ≡ a' → b ≡ b' → Lives a' b' → Lives a b
Lives-at p q l = rw (p, q) l

leased_is_open : (s : JobState) → s ≡ leased → is_terminal s ≡ false
unfolding is_terminal
leased_is_open s h = rw h refl

waiting_is_open : (s : JobState) → (s ≡ ready) ⊎ (s ≡ retry_wait) → is_terminal s ≡ false
unfolding is_terminal
waiting_is_open s (inl h) = rw h refl
waiting_is_open s (inr h) = rw h refl

pending_is_open : (s : JobState) → s ≡ pending → is_terminal s ≡ false
unfolding is_terminal
pending_is_open s h = rw h refl

lease_out_Lives : (s : JobState) → (s ≡ ready) ⊎ (s ≡ retry_wait) → Lives s leased
lease_out_Lives s (inl h) = Lives-at h refl (along claimed)
lease_out_Lives s (inr h) = Lives-at h refl (along reclaimed)

retry_Lives :
    (now : Timestamp) (r : JobRow) → r.state ≡ leased → Lives r.state (retried_row now r).state
retry_Lives now r h = elim (retried_row_state now r) [
  | inl e ↦ Lives-at h e (along exhausted)
  | inr e ↦ Lives-at h e (along failed)
]

lease_out-RowEvolves :
    (r : JobRow) (owner : Text) (token : ℕ) (ms : ℤ) (now : Timestamp)
    → (r.state ≡ ready) ⊎ (r.state ≡ retry_wait)
    → RowEvolves r (leased_row owner token ms now r)
unfolding leased_row
lease_out-RowEvolves r owner token ms now g = record {
  id_same = refl;
  kind_same = refl;
  payload_same = refl;
  budget_same = refl;
  priority_same = refl;
  attempts_grow = omega arith;
  lives = lease_out_Lives r.state g;
  was_open = waiting_is_open r.state g;
}

extend-RowEvolves :
    (r : JobRow) (now : Timestamp) (ms : ℤ)
    → r.state ≡ leased
    → RowEvolves r (extended_row now ms r)
unfolding extended_row
extend-RowEvolves r now ms g = record {
  id_same = refl;
  kind_same = refl;
  payload_same = refl;
  budget_same = refl;
  priority_same = refl;
  attempts_grow = omega arith;
  lives = same;
  was_open = leased_is_open r.state g;
}

finish-RowEvolves :
    (r : JobRow) (now : Timestamp) (result : Text)
    → r.state ≡ leased
    → RowEvolves r (completed_row now result r)
unfolding completed_row
finish-RowEvolves r now result g = record {
  id_same = refl;
  kind_same = refl;
  payload_same = refl;
  budget_same = refl;
  priority_same = refl;
  attempts_grow = omega arith;
  lives = Lives-at g refl (along completed);
  was_open = leased_is_open r.state g;
}

free-RowEvolves :
    (r : JobRow) (now : Timestamp) → r.state ≡ pending → RowEvolves r (released_row now r)
unfolding released_row
free-RowEvolves r now g = record {
  id_same = refl;
  kind_same = refl;
  payload_same = refl;
  budget_same = refl;
  priority_same = refl;
  attempts_grow = omega arith;
  lives = Lives-at g refl (along released);
  was_open = pending_is_open r.state g;
}

retry-RowEvolves :
    (r : JobRow) (now : Timestamp) → r.state ≡ leased → RowEvolves r (retried_row now r)
retry-RowEvolves r now g =
    let (a, b, c, d, e, f) = retried_row_facts now r in
    record {
      id_same = a;
      kind_same = b;
      payload_same = c;
      budget_same = d;
      priority_same = e;
      attempts_grow = omega arith;
      lives = retry_Lives now r g;
      was_open = leased_is_open r.state g;
    }

cancel-RowEvolves :
    (r : JobRow) (now : Timestamp)
    → is_terminal r.state ≡ false
    → RowEvolves r (cancelled_row now r)
unfolding cancelled_row
cancel-RowEvolves r now g = record {
  id_same = refl;
  kind_same = refl;
  payload_same = refl;
  budget_same = refl;
  priority_same = refl;
  attempts_grow = omega arith;
  lives = cancel-Lives r.state g;
  was_open = g;
}

pub RowMove-RowEvolves : {r r' : JobRow} → RowMove r r' → RowEvolves r r'
RowMove-RowEvolves {r} (lease_out g owner token ms now e) =
    rw e (lease_out-RowEvolves r owner token ms now g)
RowMove-RowEvolves {r} (extend g now ms e) = rw e (extend-RowEvolves r now ms g)
RowMove-RowEvolves {r} (finish g now result e) = rw e (finish-RowEvolves r now result g)
RowMove-RowEvolves {r} (free g now e) = rw e (free-RowEvolves r now g)
RowMove-RowEvolves {r} (retry g now e) = rw e (retry-RowEvolves r now g)
RowMove-RowEvolves {r} (cancel g now e) = rw e (cancel-RowEvolves r now g)

module _ (uuid_text : ℕ → Text) where
  RowEvolves-Evolves :
      (es es' : List EdgeRow) (js js' : List JobRow) (r r' : JobRow)
      → RowEvolves r r'
      → Evolves (record_of uuid_text es js r) (record_of uuid_text es' js' r')
  RowEvolves-Evolves es es' js js' r r' v = record {
    same_spec = λ i. record {
      id = v.id_same i;
      kind = v.kind_same i;
      payload = v.payload_same i;
      max_attempts = v.budget_same i;
      priority = v.priority_same i;
    };
    attempts_grow = v.attempts_grow;
    lives = v.lives;
    final = λ t. let o = v.was_open in cc;
  }

  stay-Evolves :
      (es es' : List EdgeRow) (js js' : List JobRow) (r : JobRow)
      → Evolves (record_of uuid_text es js r) (record_of uuid_text es' js' r)
  stay-Evolves es es' js js' r = record {
    same_spec = refl;
    attempts_grow = omega arith;
    lives = same;
    final = λ t. (refl, refl, refl);
  }

  pub RowMoves-Evolves :
      {r : JobRow} (es es' : List EdgeRow) (js js' : List JobRow) {r' : JobRow}
      → RowMoves r r'
      → Evolves (record_of uuid_text es js r) (record_of uuid_text es' js' r')
  RowMoves-Evolves {r} es es' js js' stay = stay-Evolves es es' js js' r
  RowMoves-Evolves es es' js js' (next {r'} {r''} ms m) =
      Evolves-trans (RowMoves-Evolves es es js js ms)
        (RowEvolves-Evolves es es' js js' r' r'' (RowMove-RowEvolves m))
