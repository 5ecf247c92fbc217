-- ===== src/Store/Acts.antt =====
-- src/store.rs: the transactions that write to existing rows as steps of the rows.
use mathlib.Core.Option
use cloud_job_orchestrator.Base.{
  ℕ, ◌≡◌, refl, Bool, true, false, Option, none, some, List, arith, inl, inr, Bool-cases, ◌∙◌,
}
use cloud_job_orchestrator.Base.Int.{ℤ}
use cloud_job_orchestrator.Base.Text.{Text}
use cloud_job_orchestrator.Domain.{pending, leased}
use cloud_job_orchestrator.Scheduler.State.{same_state}
use cloud_job_orchestrator.Scheduler.Jobs.{same_state→eq}
use cloud_job_orchestrator.Scheduler.Lease.{is_terminal}
use cloud_job_orchestrator.Store.Tables.{Timestamp, JobRow, EdgeRow, Db, find_row, update_rows}
use cloud_job_orchestrator.Store.Lease.{
  holds_lease, extended_row, completed_row, released_row, retried_row, cancelled_row, is_released,
  is_expired_row, is_open_in, insert_event, reap_in_transaction, release_children,
}
use cloud_job_orchestrator.Store.Rows.{
  KeepsKey, changed, find_row-update_rows, DistinctRows, update_rows-DistinctRows,
}
use cloud_job_orchestrator.Store.Moves.{RowMove, free, retry, RowMoves, stay, next, RowMoves-trans}

-- What becomes of a row.
abbrev pub Becomes : Option JobRow → Option JobRow → Type 0
Becomes none o = o ≡ none
Becomes (some r) o = (r' : JobRow) × (o ≡ some r') × RowMoves r r'

pub record StoreActs (db db' : Db) : Type 0 where
  pub moves : (d j : Text) → Becomes (find_row d j db.jobs) (find_row d j db'.jobs)
  pub distinct : DistinctRows db.jobs → DistinctRows db'.jobs
  pub edges_same : db'.edges ≡ db.edges

pub Becomes-refl : (o : Option JobRow) → Becomes o o
Becomes-refl none = refl
Becomes-refl (some r) = (r, refl, stay)

Becomes-trans : (a b c : Option JobRow) → Becomes a b → Becomes b c → Becomes a c
Becomes-trans none b c h k = let e : b ≡ none = h in rw e at k
Becomes-trans (some r) none c (r', e, m) k = cc
Becomes-trans (some r) (some x) c (r', e, m) (r'', f, n) =
    let same : x ≡ r' = ground arith in (r'', f, RowMoves-trans m (rw same at n))

pub StoreActs-refl : (db : Db) → StoreActs db db
StoreActs-refl db = record {
  moves = λ d j. Becomes-refl (find_row d j db.jobs);
  distinct = λ h. h;
  edges_same = refl;
}

pub StoreActs-trans : (a b c : Db) → StoreActs a b → StoreActs b c → StoreActs a c
StoreActs-trans a b c x y = record {
  moves = λ d j.
      Becomes-trans (find_row d j a.jobs) (find_row d j b.jobs) (find_row d j c.jobs) (x.moves d j)
        (y.moves d j);
  distinct = λ h. y.distinct (x.distinct h);
  edges_same = y.edges_same ∙ x.edges_same;
}

-- One UPDATE.
module _ (p : JobRow → Bool) (f : JobRow → JobRow) (keeps : KeepsKey f) (db db' : Db)
    (writes : db'.jobs ≡ update_rows p f db.jobs) (edges : db'.edges ≡ db.edges) where
  Becomes-changed :
      (o : Option JobRow)
      → ((r : JobRow) → o ≡ some r → p r ≡ true → RowMove r (f r))
      → Becomes o (Option.map (changed p f) o)
  Becomes-changed none h = refl
  Becomes-changed (some r) h = elim (Bool-cases (p r)) [
    | inl e ↦ (changed p f r, refl, rw e (next stay (h r refl e)))
    | inr e ↦ (changed p f r, refl, rw e stay)
  ]

  pub update-StoreActs_at :
      ((d j : Text) (r : JobRow) → find_row d j db.jobs ≡ some r → p r ≡ true → RowMove r (f r))
      → StoreActs db db'
  update-StoreActs_at moves = record {
    moves = λ d j.
        rw (writes, find_row-update_rows p f keeps d j db.jobs)
          (Becomes-changed (find_row d j db.jobs) (moves d j));
    distinct = λ h. rw writes (update_rows-DistinctRows p f db.jobs keeps h);
    edges_same = edges;
  }

pub update-StoreActs :
    (p : JobRow → Bool) (f : JobRow → JobRow)
    → KeepsKey f
    → ((r : JobRow) → p r ≡ true → RowMove r (f r))
    → (db db' : Db) → db'.jobs ≡ update_rows p f db.jobs
    → db'.edges ≡ db.edges
    → StoreActs db db'
update-StoreActs p f keeps moves db db' writes edges =
    update-StoreActs_at p f keeps db db' writes edges (λ d j r found h. moves r h)

pub holds_lease_state :
    (d j owner : Text) (token : ℕ) (now : Timestamp) (r : JobRow)
    → holds_lease d j owner token now r ≡ true
    → r.state ≡ leased
unfolding holds_lease
holds_lease_state d j owner token now r h = same_state→eq r.state leased (ground arith)

pub extended_row-KeepsKey : (now : Timestamp) (ms : ℤ) → KeepsKey (extended_row now ms)
unfolding extended_row
extended_row-KeepsKey now ms r = (refl, refl)

pub completed_row-KeepsKey : (now : Timestamp) (result : Text) → KeepsKey (completed_row now result)
unfolding completed_row
completed_row-KeepsKey now result r = (refl, refl)

pub released_row-KeepsKey : (now : Timestamp) → KeepsKey (released_row now)
unfolding released_row
released_row-KeepsKey now r = (refl, refl)

pub retried_row-KeepsKey : (now : Timestamp) → KeepsKey (retried_row now)
unfolding retried_row
retried_row-KeepsKey now r = (ground arith, ground arith)

pub cancelled_row-KeepsKey : (now : Timestamp) → KeepsKey (cancelled_row now)
unfolding cancelled_row
cancelled_row-KeepsKey now r = (refl, refl)

is_expired_row_state :
    (now : Timestamp) (r : JobRow) → is_expired_row now r ≡ true → r.state ≡ leased
unfolding is_expired_row
is_expired_row_state now r h = same_state→eq r.state leased (ground arith)

is_released_state :
    (es : List EdgeRow) (js : List JobRow) (d j : Text) (r : JobRow)
    → is_released es js d j r ≡ true
    → r.state ≡ pending
unfolding is_released
is_released_state es js d j r h = same_state→eq r.state pending (ground arith)

pub is_open_in_state : (d : Text) (r : JobRow) → is_open_in d r ≡ true → is_terminal r.state ≡ false
unfolding is_open_in is_terminal same_state
is_open_in_state d r h = ground arith

pub insert_event-StoreActs :
    (db : Db) (d j kind owner : Text) (now : Timestamp)
    → StoreActs db (insert_event db d j kind owner now)
unfolding insert_event
insert_event-StoreActs db d j kind owner now = record {
  moves = λ d j. Becomes-refl (find_row d j db.jobs);
  distinct = λ h. h;
  edges_same = refl;
}

pub reap_in_transaction-StoreActs :
    (db : Db) (now : Timestamp) → StoreActs db (reap_in_transaction db now).1
unfolding reap_in_transaction
reap_in_transaction-StoreActs db now =
    update-StoreActs (is_expired_row now) (retried_row now) (retried_row-KeepsKey now)
      (λ r h. retry (is_expired_row_state now r h) now refl) db _ refl refl

pub release_children-StoreActs :
    (db : Db) (d j : Text) (now : Timestamp) → StoreActs db (release_children db d j now)
unfolding release_children
release_children-StoreActs db d j now =
    update-StoreActs (is_released db.edges db.jobs d j) (released_row now)
      (released_row-KeepsKey now)
      (λ r h. free (is_released_state db.edges db.jobs d j r h) now refl) db _ refl refl
