-- ===== src/Tests/StoreRuns.antt =====
-- Runs of the store, the routes, the worker and the commands, by evaluation.
use mathlib.Core.Option
use cloud_job_orchestrator.Base.{◌≡◌, refl, true, Option, none, some, List, [], ◌∷◌, ◌++◌, ok, err}
use cloud_job_orchestrator.Base.Int.{pos}
use cloud_job_orchestrator.Base.Text.{Text, bytes, parse_digits, parse_unsigned}
use cloud_job_orchestrator.Domain.{
  JobState, pending, ready, retry_wait, leased, succeeded, cancelled, DagSpec,
}
use cloud_job_orchestrator.Domain.Validate.{validate}
use cloud_job_orchestrator.Store.{database, lease_conflict, invalid_configuration}
use cloud_job_orchestrator.Store.Tables.{Db, find_row}
use cloud_job_orchestrator.Store.Submit.{submit}
use cloud_job_orchestrator.Store.Read.{list_dags}
use cloud_job_orchestrator.Store.Run.{
  StoreCall, submits, completes, reaps, cancels, empty_db, store_run,
}
use cloud_job_orchestrator.Store.Race.{both_completed}
use cloud_job_orchestrator.Worker.{execute, output_of}
use cloud_job_orchestrator.Http.{store}
use cloud_job_orchestrator.Http.Handlers.{complete as http_complete, router, Moment, post_complete}
use cloud_job_orchestrator.Bin.Config.{
  parse_bounded, parse_i64, print_ℤ, lease_setting, poll_setting, out_of_bounds, not_a_number,
}
use cloud_job_orchestrator.Bin.Worker.{turn, report, after_claim, reported}
use cloud_job_orchestrator.Bin.Ctl.{main, read_spec, join_text, validate_file, line}
use cloud_job_orchestrator.Tests.Samples.{diamond, chain, worker_a, worker_b}
use cloud_job_orchestrator.Tests.StoreSamples.{
  pg, token_text, parse_token, unlocked, release, a, b, c, both_claimed, store_program, pending_c,
  leased_a, leased_b,
}

abbrev state_after : List StoreCall → Text → Option JobState
state_after calls j =
    Option.map (λ r. r.state) (find_row release j (store_run pg token_text empty_db calls).jobs)

abbrev pub claimed_db : Db
claimed_db = store_run pg token_text empty_db both_claimed

pub runs_claims :
    (find_row release a claimed_db.jobs ≡ some leased_a)
    × (find_row release b claimed_db.jobs ≡ some leased_b)
    × (find_row release c claimed_db.jobs ≡ some pending_c)
unfolding store_program
runs_claims = (refl, refl, refl)

-- One parent is not enough, both are.
abbrev a_done : List StoreCall
a_done = both_claimed ++ completes release a worker_a 1 (bytes "A") (pos 3) ∷ []

abbrev both_done : List StoreCall
both_done = a_done ++ completes release b worker_b 2 (bytes "B") (pos 4) ∷ []

runs_release :
    (state_after a_done c ≡ some pending)
    × (state_after both_done a ≡ some succeeded)
    × (state_after both_done c ≡ some ready)
unfolding store_program
runs_release = (refl, refl, refl)

-- At the same time, the child is left pending.
runs_race :
    Option.map
      (λ r. r.state)
      (find_row release c
        (both_completed claimed_db release
          (pos 5)
          (record { job_id = a; owner = worker_a; token = 1; result = [] })
          (record { job_id = b; owner = worker_b; token = 2; result = [] })).jobs)
    ≡ some pending
unfolding store_program both_completed
runs_race = refl

runs_expiry :
    (state_after (both_claimed ++ reaps (pos 10_000_001) ∷ []) a ≡ some retry_wait)
    × (state_after (both_claimed ++ reaps (pos 10_000_001) ∷ []) b ≡ some leased)
    × (state_after (both_claimed ++ cancels release (pos 9) ∷ []) c ≡ some cancelled)
unfolding store_program
runs_expiry = (refl, refl, refl)

-- An edge that is listed twice.
abbrev pub doubled : DagSpec
doubled = record chain { dependencies = chain.dependencies ++ chain.dependencies }

pub runs_doubled :
    (validate doubled ≡ ok (bytes "extract" ∷ bytes "publish" ∷ []))
    × ((submit pg empty_db doubled (pos 0)).0 ≡ err (database 23_505))
unfolding store_program
runs_doubled = (refl, refl)

runs_pages :
    (list_dags pg claimed_db none 25 ≡ ok (release ∷ []))
    × (list_dags pg claimed_db (some release) 25 ≡ ok [])
    × (list_dags pg claimed_db none 101 ≡ err invalid_configuration)
unfolding store_program
runs_pages = (refl, refl, refl)

abbrev pub moment : Moment
moment = record { answers = true; locked = unlocked; token = 7; now = pos 6 }

-- A completion under another worker's token.
pub runs_conflict :
    (router pg token_text claimed_db moment (
      post_complete (record {
        dag_id = release;
        job_id = a;
        owner = worker_b;
        lease_token = 2;
        result = [];
      }))).0
    ≡ err (store lease_conflict)
unfolding store_program router http_complete
runs_conflict = refl

abbrev pub dag_db : Db
dag_db = store_run pg token_text empty_db (submits diamond (pos 0) ∷ [])

-- A turn of a worker whose operation has no output that is too large.
runs_turn :
    (turn pg token_text parse_token
      (λ x. x)
      (λ x. x)
      worker_a
      dag_db
      (pos 15_000)
      (record {
        locked = unlocked;
        token = 1;
        claimed_at = pos 1;
        meanwhile = λ db. db;
        reported_at = pos 2;
      })).0
    ≡ ok reported
unfolding store_program turn report after_claim execute output_of
runs_turn = refl

runs_settings :
    (lease_setting (some (bytes "0")) ≡ err (out_of_bounds (pos 1) (pos 60_000)))
    × (lease_setting (some (bytes "60000")) ≡ ok (pos 60_000))
    × (poll_setting (some (bytes "-5")) ≡ err (out_of_bounds (pos 10) (pos 10_000)))
    × (poll_setting (some (bytes "1s")) ≡ err not_a_number)
unfolding lease_setting poll_setting parse_bounded parse_i64 print_ℤ parse_digits parse_unsigned
runs_settings = (refl, refl, refl, refl)

runs_validate :
    (main {F = Unit {0}} pg
      (λ path. ok 10)
      (λ path. ok diamond)
      empty_db
      (pos 0)
      (validate_file [])).0
    ≡ ok (line (bytes "valid DAG release: a -> b -> c"))
unfolding store_program main read_spec join_text
runs_validate = refl
