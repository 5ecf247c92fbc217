-- ===== src/Http/Refused.antt =====
-- src/http.rs: what a refused request does to the tables.
use cloud_job_orchestrator.Base.{
  ℕ, ◌≡◌, refl, Bool, true, false, List, [], ◌∷◌, arith, inl, inr, ◌⊎◌, Result, ok, err,
  Result-cases, if◌then◌else◌, Bool-cases,
}
use cloud_job_orchestrator.Base.Int.{ℤ}
use cloud_job_orchestrator.Base.Text.{Text}
use cloud_job_orchestrator.Store.{StoreError, validate_owner_and_lease, ensure_compare_and_set}
use cloud_job_orchestrator.Store.Tables.{
  Timestamp, JobRow, Db, Postgres, Tx, committed, update_rows, count_rows, find_row,
}
use cloud_job_orchestrator.Store.Submit.{submit as store_submit, submit_tx}
use cloud_job_orchestrator.Store.Claim.{claim as store_claim, claim_tx}
use cloud_job_orchestrator.Store.Lease.{
  holds_lease, extended_row, heartbeat as store_heartbeat, complete as store_complete, complete_tx,
  fail as store_fail, fail_tx, cancel as store_cancel, cancel_tx,
}
use cloud_job_orchestrator.Store.Rows.{DistinctRows, count_rows-eq_one, holds_of}
use cloud_job_orchestrator.Store.Cas.Match.{holds_lease-Names}
use cloud_job_orchestrator.Http.{ApiError}
use cloud_job_orchestrator.Http.Handlers.{
  Answer, answered, submit, cancel, claim, heartbeat, complete, fail, router, Request, Moment,
  get_live, get_ready, get_metrics, post_dags, get_dags, get_dag, post_cancel, post_claim,
  post_heartbeat, post_complete, post_fail,
}

-- An outcome that is an error only with the tables as they were.
abbrev Undone : {X A : Type 0} → Db → Result X A × Db → Type 0
Undone {X} db outcome = (e : X) → outcome.0 ≡ err e → outcome.1 ≡ db

committed-Undone : {E A : Type 0} (db : Db) (t : Tx E A) → Undone db (committed db t)
committed-Undone db (err x) e h = refl
committed-Undone db (ok (a, db')) e h = absurd (ground arith)

answered-Undone :
    {E A : Type 0} (db : Db) (f : A → Answer) (o : Result (StoreError E) A) (db' : Db)
    → Undone db (o, db')
    → Undone db (answered {E = E} f o, db')
answered-Undone db f (err x) db' h e k = h x refl
answered-Undone db f (ok a) db' h e k = absurd (ground arith)

update_rows-unmatched :
    (p : JobRow → Bool) (f : JobRow → JobRow) (rows : List JobRow)
    → count_rows p rows ≡ 0
    → update_rows p f rows ≡ rows
unfolding update_rows count_rows
update_rows-unmatched p f [] h = refl
update_rows-unmatched p f (r ∷ rows) h = elim (Bool-cases (p r)) [
  | inl e ↦ absurd (ground arith)
  | inr e ↦ rw (e, update_rows-unmatched p f rows (ground arith)) refl
]

unless_one : (b : Bool) (n : ℕ) → n ≡ (if b then 1 else 0) → (n ≡ 1) ⊎ (n ≡ 0)
unless_one true n h = inl h
unless_one false n h = inr h

module _ (E : Type 0) (db : Db) (u : DistinctRows db.jobs) where
  heartbeat-Undone :
      (d j owner : Text) (token : ℕ) (ms : ℤ) (now : Timestamp)
      → Undone db (store_heartbeat {E = E} db d j owner token ms now)
  unfolding store_heartbeat ensure_compare_and_set
  heartbeat-Undone d j owner token ms now e h =
      let p = holds_lease d j owner token now in
      let counted = count_rows-eq_one d j p db.jobs (holds_lease-Names d j owner token now) u in
      elim (Result-cases (validate_owner_and_lease {E = E} owner ms)) [
        | inr (x, v) ↦ rw (v, store_heartbeat) refl
        | inl (t, v) ↦
            elim (unless_one (holds_of p (find_row d j db.jobs)) (count_rows p db.jobs) counted) [
              | inl one ↦ absurd (ground arith)
              | inr none_held ↦
                  rw
                    (
                      v,
                      store_heartbeat,
                      update_rows-unmatched p (extended_row now ms) db.jobs none_held,
                    )
                    refl
            ]
      ]

  -- Where each job has one row: a request that is answered with an error leaves the tables as they
  -- were.
  pub router-refused :
      (pg : Postgres E) (uuid_text : ℕ → Text) (m : Moment) (request : Request) (e : ApiError E)
      → (router pg uuid_text db m request).0 ≡ err e
      → (router pg uuid_text db m request).1 ≡ db
  unfolding router submit cancel claim heartbeat complete fail store_submit store_cancel store_claim
      store_complete store_fail
  router-refused pg uuid_text m get_live e h = refl
  router-refused pg uuid_text m get_ready e h = refl
  router-refused pg uuid_text m get_metrics e h = refl
  router-refused pg uuid_text m (post_dags spec) e h =
      answered-Undone db _ _ _ (committed-Undone db (submit_tx pg db spec m.now)) e h
  router-refused pg uuid_text m (get_dags query) e h = refl
  router-refused pg uuid_text m (get_dag dag_id) e h = refl
  router-refused pg uuid_text m (post_cancel dag_id) e h =
      answered-Undone db _ _ _ (committed-Undone db (cancel_tx {E = E} db dag_id m.now)) e h
  router-refused pg uuid_text m (post_claim request) e h =
      answered-Undone db _ _ _
        (committed-Undone db
          (claim_tx pg uuid_text db m.locked request.owner m.token request.lease_ms m.now))
        e h
  router-refused pg uuid_text m (post_heartbeat r) e h =
      answered-Undone db _ _ _
        (heartbeat-Undone r.dag_id r.job_id r.owner r.lease_token r.lease_ms m.now) e h
  router-refused pg uuid_text m (post_complete r) e h =
      answered-Undone db _ _ _
        (committed-Undone db
          (complete_tx {E = E} db r.dag_id r.job_id r.owner r.lease_token r.result m.now))
        e h
  router-refused pg uuid_text m (post_fail r) e h =
      answered-Undone db _ _ _
        (committed-Undone db (fail_tx {E = E} db r.dag_id r.job_id r.owner r.lease_token m.now)) e h
