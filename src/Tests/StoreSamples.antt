-- ===== src/Tests/StoreSamples.antt =====
-- Concrete tables, with errors of the database that are numbers and the order of bytes.
use cloud_job_orchestrator.Base.{ℕ, Bool, false, Option, none, some, List, [], ◌∷◌}
use cloud_job_orchestrator.Base.Int.{pos, ◌+ℤ◌, ◌*ℤ◌}
use cloud_job_orchestrator.Base.Order.{text_order}
use cloud_job_orchestrator.Base.Text.{Text, bytes}
use cloud_job_orchestrator.Domain.{uppercase, pending, leased}
use cloud_job_orchestrator.Store.{
  validate_owner_and_lease, ensure_compare_and_set, kind_name, parse_kind, state_name, parse_state,
}
use cloud_job_orchestrator.Store.Tables.{
  Postgres, JobRow, EdgeRow, plus_millis, select_rows, exists_row, update_rows, count_rows,
  first_row, find_row,
}
use cloud_job_orchestrator.Store.Lease.{
  holds_lease, extended_row, completed_row, is_child_of, has_open_parent, is_released, released_row,
  retry_delay, retried_row, is_expired_row, is_open_in, cancelled_row, insert_event,
  reap_in_transaction, release_children, heartbeat, mark_succeeded, complete_tx, complete, fail_tx,
  fail, reap, cancel_tx, cancel,
}
use cloud_job_orchestrator.Store.Claim.{
  unix_millis, nanos_of, in_running_dag, is_claimable, leased_row, candidate, grant_row, claim_tx,
  claim,
}
use cloud_job_orchestrator.Store.Submit.{
  matches_identifier, satisfies_checks, initial_row, insert_dag, insert_job, insert_jobs,
  insert_edge, insert_edges, submit_tx, submit,
}
use cloud_job_orchestrator.Store.Read.{
  take, snapshot_row, snapshot_rows, snapshot, comes_after, list_dags,
}
use cloud_job_orchestrator.Store.Run.{StoreCall, submits, claims, store_step, store_run}
use cloud_job_orchestrator.Domain.Validate.{all_identifier_bytes}
use cloud_job_orchestrator.Tests.Runs.{program}
use cloud_job_orchestrator.Tests.Samples.{diamond, worker_a, worker_b}

abbrev pub pg : Postgres ℕ
pg = record {
  unique_violation = 23_505;
  check_violation = 23_514;
  foreign_key_violation = 23_503;
  collation = text_order;
}

-- A text for each token, and its reading.
abbrev pub token_text : ℕ → Text
token_text n = n ∷ []

abbrev pub parse_token : Text → Option ℕ
parse_token (n ∷ []) = some n
parse_token _ = none

abbrev pub unlocked : Text → Text → Bool
unlocked d j = false

abbrev pub release : Text
release = bytes "release"

abbrev pub a : Text
a = bytes "a"

abbrev pub b : Text
b = bytes "b"

abbrev pub c : Text
c = bytes "c"

-- Both parents of the diamond are claimed.
abbrev pub both_claimed : List StoreCall
both_claimed =
    submits diamond (pos 0)
    ∷ claims unlocked worker_a 1 (pos 10_000) (pos 1)
    ∷ claims unlocked worker_b 2 (pos 10_000) (pos 2)
    ∷ []

abbrev pub pending_c : JobRow
pending_c = record {
  dag_id = release;
  id = c;
  kind = uppercase;
  payload = c;
  max_attempts = 3;
  attempts = 0;
  priority = pos 0;
  state = pending;
  available_at = pos 0;
  lease_owner = none;
  lease_token = none;
  lease_expires_at = none;
  result = none;
  updated_at = pos 0;
}

abbrev pub leased_a : JobRow
leased_a = record pending_c {
  id = a;
  payload = a;
  attempts = 1;
  state = leased;
  lease_owner = some worker_a;
  lease_token = some 1;
  lease_expires_at = some (pos 10_000_001);
  updated_at = pos 1;
}

abbrev pub leased_b : JobRow
leased_b = record leased_a {
  id = b;
  payload = b;
  lease_owner = some worker_b;
  lease_token = some 2;
  lease_expires_at = some (pos 10_000_002);
  updated_at = pos 2;
}

abbrev pub edge_to_c : Text → EdgeRow
edge_to_c parent = record { dag_id = release; parent_id = parent; child_id = c }

-- Opens what a run of the store computes with.
unfoldable pub store_program : Unit {0}
unfolding program all_identifier_bytes ◌+ℤ◌ ◌*ℤ◌ validate_owner_and_lease ensure_compare_and_set
    kind_name parse_kind state_name parse_state plus_millis select_rows exists_row update_rows
    count_rows first_row find_row holds_lease extended_row completed_row is_child_of has_open_parent
    is_released released_row retry_delay retried_row is_expired_row is_open_in cancelled_row
    insert_event reap_in_transaction release_children heartbeat mark_succeeded complete_tx complete
    fail_tx fail reap cancel_tx cancel unix_millis nanos_of in_running_dag is_claimable leased_row
    candidate grant_row claim_tx claim matches_identifier satisfies_checks initial_row insert_dag
    insert_job insert_jobs insert_edge insert_edges submit_tx submit take snapshot_row snapshot_rows
    snapshot comes_after list_dags store_step store_run
store_program = tt
