-- ===== src/Http/Handlers.antt =====
-- src/http.rs: the requests, the routes and their handlers, each with the call of the store that it
-- makes. Reading a request and writing a response as JSON are the libraries'.
use cloud_job_orchestrator.Base.{
  ℕ, Bool, Option, none, some, List, [], ◌∷◌, Result, ok, err, if◌then◌else◌,
}
use cloud_job_orchestrator.Base.Int.{ℤ}
use cloud_job_orchestrator.Base.Text.{Text, bytes}
use cloud_job_orchestrator.Domain.{DagSpec, DagSnapshot}
use cloud_job_orchestrator.Scheduler.State.{ClaimedJob}
use cloud_job_orchestrator.Store.{StoreError}
use cloud_job_orchestrator.Store.Tables.{Timestamp, Db, Postgres}
use cloud_job_orchestrator.Store.Submit.{submit as store_submit}
use cloud_job_orchestrator.Store.Claim.{claim as store_claim}
use cloud_job_orchestrator.Store.Lease.{
  heartbeat as store_heartbeat, complete as store_complete, fail as store_fail,
  cancel as store_cancel,
}
use cloud_job_orchestrator.Store.Read.{snapshot as store_snapshot, list_dags as store_list_dags}
use cloud_job_orchestrator.Http.{ApiError, store, unavailable, state_name}

pub record ListQuery : Type 0 where
  pub after : Option Text
  pub limit : ℕ

pub record ClaimRequest : Type 0 where
  pub owner : Text
  pub lease_ms : ℤ

pub record LeaseRequest : Type 0 where
  pub dag_id : Text
  pub job_id : Text
  pub owner : Text
  pub lease_token : ℕ
  pub lease_ms : ℤ

pub record CompleteRequest : Type 0 where
  pub dag_id : Text
  pub job_id : Text
  pub owner : Text
  pub lease_token : ℕ
  pub result : Text

-- The values of the fields of a response.
pub data Field : Type 0 where
  text : Text → Field
  number : ℕ → Field
  names : List Text → Field
  cursor : Option Text → Field
  job : Option ClaimedJob → Field

pub data Content : Type 0 where
  object : List (Text × Field) → Content
  dag : DagSnapshot → Content
  plain_text : Text → Content

-- The status and the content.
abbrev pub Answer : Type 0
Answer = ℕ × Content

-- `?` and the conversion of the error, with what is made of the value.
abbrev pub answered :
    {E A : Type 0} → (A → Answer) → Result (StoreError E) A → Result (ApiError E) Answer
answered f (err e) = err (store e)
answered f (ok a) = ok (f a)

abbrev one_field : Text → Field → Content
one_field name value = object ((name, value) ∷ [])

abbrev pub last : List Text → Option Text
last [] = none
last (x ∷ []) = some x
last (x ∷ y ∷ ys) = last (y ∷ ys)

abbrev metrics_text : Text
metrics_text =
    bytes
      "# HELP orchestrator_ready Database readiness\n# TYPE orchestrator_ready gauge\norchestrator_ready 1\n"

module _ {E : Type 0} (pg : Postgres E) (uuid_text : ℕ → Text) where
  unfoldable pub live : Result (ApiError E) Answer
  live = ok (200, one_field (bytes "status") (text (bytes "live")))

  -- Whether the database answers is its own.
  unfoldable pub ready : Bool → Result (ApiError E) Answer
  ready answers =
      if answers
      then ok (200, one_field (bytes "status") (text (bytes "ready")))
      else err unavailable

  unfoldable pub metrics : Bool → Result (ApiError E) Answer
  metrics answers = if answers then ok (200, plain_text metrics_text) else err unavailable

  unfoldable pub submit : Db → DagSpec → Timestamp → Result (ApiError E) Answer × Db
  unfolding store_submit
  submit db spec now =
      let (outcome, db') = store_submit pg db spec now in
      (answered (λ _. (201, one_field (bytes "dag_id") (text spec.id))) outcome, db')

  unfoldable pub list_dags : Db → ListQuery → Result (ApiError E) Answer
  unfolding store_list_dags
  list_dags db query =
      answered
        (λ dags. (
          200,
          object ((bytes "items", names dags) ∷ (bytes "next_cursor", cursor (last dags)) ∷ []),
        ))
        (store_list_dags pg db query.after query.limit)

  unfoldable pub snapshot : Db → Db → Text → Result (ApiError E) Answer
  unfolding store_snapshot
  snapshot first second dag_id =
      answered (λ found. (200, dag found)) (store_snapshot pg first second dag_id)

  unfoldable pub cancel : Db → Text → Timestamp → Result (ApiError E) Answer × Db
  unfolding store_cancel
  cancel db dag_id now =
      let (outcome, db') = store_cancel {E = E} db dag_id now in
      (
        answered
            (λ cancelled. (
              200,
              object
                  ((bytes "dag_id", text dag_id) ∷ (bytes "cancelled_jobs", number cancelled) ∷ []),
            ))
            outcome,
        db',
      )

  unfoldable pub claim :
      Db → (Text → Text → Bool) → ClaimRequest → ℕ → Timestamp → Result (ApiError E) Answer × Db
  unfolding store_claim
  claim db locked request token now =
      let (outcome, db') =
        store_claim pg uuid_text db locked request.owner token request.lease_ms now in
      (answered (λ claimed. (200, one_field (bytes "job") (job claimed))) outcome, db')

  unfoldable pub heartbeat : Db → LeaseRequest → Timestamp → Result (ApiError E) Answer × Db
  unfolding store_heartbeat
  heartbeat db request now =
      let (outcome, db') =
        store_heartbeat {E = E} db request.dag_id request.job_id request.owner request.lease_token
          request.lease_ms now in
      (answered (λ _. (200, one_field (bytes "status") (text (bytes "extended")))) outcome, db')

  unfoldable pub complete : Db → CompleteRequest → Timestamp → Result (ApiError E) Answer × Db
  unfolding store_complete
  complete db request now =
      let (outcome, db') =
        store_complete {E = E} db request.dag_id request.job_id request.owner request.lease_token
          request.result now in
      (answered (λ _. (200, one_field (bytes "status") (text (bytes "succeeded")))) outcome, db')

  unfoldable pub fail : Db → LeaseRequest → Timestamp → Result (ApiError E) Answer × Db
  unfolding store_fail state_name
  fail db request now =
      let (outcome, db') =
        store_fail {E = E} db request.dag_id request.job_id request.owner request.lease_token now in
      (answered (λ state. (200, one_field (bytes "status") (text (state_name state)))) outcome, db')

-- A request to one of the routes of the API, with what its body or its path holds.
pub data Request : Type 0 where
  get_live get_ready get_metrics : Request
  post_dags : DagSpec → Request
  get_dags : ListQuery → Request
  get_dag post_cancel : (dag_id : Text) → Request
  post_claim : ClaimRequest → Request
  post_heartbeat : LeaseRequest → Request
  post_complete : CompleteRequest → Request
  post_fail : LeaseRequest → Request

-- What a request meets: whether the database answers, which rows are locked, the new UUID, and the time.
pub record Moment : Type 0 where
  pub answers : Bool
  pub locked : Text → Text → Bool
  pub token : ℕ
  pub now : Timestamp

module _ {E : Type 0} (pg : Postgres E) (uuid_text : ℕ → Text) where
  -- The table of the routes, with both statements of a snapshot at the same time.
  unfoldable pub router : Db → Moment → Request → Result (ApiError E) Answer × Db
  unfolding live ready metrics submit list_dags snapshot cancel claim heartbeat complete fail
  router db m get_live = (live pg uuid_text, db)
  router db m get_ready = (ready pg uuid_text m.answers, db)
  router db m get_metrics = (metrics pg uuid_text m.answers, db)
  router db m (post_dags spec) = submit pg uuid_text db spec m.now
  router db m (get_dags query) = (list_dags pg uuid_text db query, db)
  router db m (get_dag dag_id) = (snapshot pg uuid_text db db dag_id, db)
  router db m (post_cancel dag_id) = cancel pg uuid_text db dag_id m.now
  router db m (post_claim request) = claim pg uuid_text db m.locked request m.token m.now
  router db m (post_heartbeat request) = heartbeat pg uuid_text db request m.now
  router db m (post_complete request) = complete pg uuid_text db request m.now
  router db m (post_fail request) = fail pg uuid_text db request m.now
