-- ===== src/Store/Tables.antt =====
-- src/store.rs and migrations: the tables, and the forms of SQL statement that the store uses.
use cloud_job_orchestrator.Base.{
  ℕ, ◌+◌, ◌==◌, Bool, false, ◌&&◌, ◌||◌, Option, none, some, List, [], ◌∷◌, if◌then◌else◌, Result,
  ok, err,
}
use cloud_job_orchestrator.Base.Int.{ℤ, pos, ◌+ℤ◌, ◌*ℤ◌, ltb_ℤ, leb_ℤ}
use cloud_job_orchestrator.Base.Order.{TotalOrder}
use cloud_job_orchestrator.Base.Text.{Text, eq_text}
use cloud_job_orchestrator.Domain.{JobKind, JobState}
use cloud_job_orchestrator.Store.{StoreError}

-- A TIMESTAMPTZ, in microseconds since 1970.
abbrev pub Timestamp : Type 0
Timestamp = ℤ

-- `t + ms * interval '1 millisecond'`.
unfoldable pub plus_millis : Timestamp → ℤ → Timestamp
unfolding ◌+ℤ◌ ◌*ℤ◌
plus_millis t ms = t +ℤ ms *ℤ pos 1_000

-- The state is 'running' or 'cancelled'.
pub record DagRow : Type 0 where
  pub id : Text
  pub running : Bool
  pub created_at : Timestamp
  pub updated_at : Timestamp

-- The constraints of the columns leave the names of the kinds and of the states only, and numbers of
-- attempts that are not negative. A UUID is the number that it stands for.
pub record JobRow : Type 0 where
  pub dag_id : Text
  pub id : Text
  pub kind : JobKind
  pub payload : Text
  pub max_attempts : ℕ
  pub attempts : ℕ
  pub priority : ℤ
  pub state : JobState
  pub available_at : Timestamp
  pub lease_owner : Option Text
  pub lease_token : Option ℕ
  pub lease_expires_at : Option Timestamp
  pub result : Option Text
  pub updated_at : Timestamp

pub record EdgeRow : Type 0 where
  pub dag_id : Text
  pub parent_id : Text
  pub child_id : Text

-- The owner stands in `detail`; the sequence is the place in the table.
pub record EventRow : Type 0 where
  pub dag_id : Text
  pub job_id : Text
  pub event_type : Text
  pub attempt : ℕ
  pub owner : Text
  pub occurred_at : Timestamp

pub record Db : Type 0 where
  pub dags : List DagRow
  pub jobs : List JobRow
  pub edges : List EdgeRow
  pub events : List EventRow

-- What is PostgreSQL's: its errors, and the order of its text, which depends on the collation.
pub record Postgres (E : Type 0) : Type 0 where
  pub unique_violation : E
  pub check_violation : E
  pub foreign_key_violation : E
  pub collation : TotalOrder Text

-- What a transaction returns, and the tables that it leaves if it is committed.
abbrev pub Tx : Type 0 → Type 0 → Type 0
Tx E A = Result (StoreError E) (A × Db)

-- A transaction that returns early is rolled back.
abbrev pub committed : {E A : Type 0} → Db → Tx E A → Result (StoreError E) A × Db
committed db (err e) = (err e, db)
committed db (ok (a, db')) = (ok a, db')

module _ {R : Type 0} where
  -- `SELECT … WHERE p`.
  unfoldable pub select_rows : (R → Bool) → List R → List R
  select_rows p [] = []
  select_rows p (r ∷ rows) = let rest = select_rows p rows in if p r then r ∷ rest else rest

  -- `EXISTS (SELECT 1 … WHERE p)`.
  unfoldable pub exists_row : (R → Bool) → List R → Bool
  exists_row p [] = false
  exists_row p (r ∷ rows) = p r || exists_row p rows

  -- `UPDATE … SET f WHERE p`, and the number of rows that it affects.
  unfoldable pub update_rows : (R → Bool) → (R → R) → List R → List R
  update_rows p f [] = []
  update_rows p f (r ∷ rows) = (if p r then f r else r) ∷ update_rows p f rows

  unfoldable pub count_rows : (R → Bool) → List R → ℕ
  count_rows p [] = 0
  count_rows p (r ∷ rows) = (if p r then 1 else 0) + count_rows p rows

  -- `fetch_optional`.
  unfoldable pub first_row : (R → Bool) → List R → Option R
  first_row p [] = none
  first_row p (r ∷ rows) = if p r then some r else first_row p rows

-- Comparisons with a column that may be NULL are not true if it is.
abbrev pub text_is : Option Text → Text → Bool
text_is none value = false
text_is (some column) value = eq_text column value

abbrev pub uuid_is : Option ℕ → ℕ → Bool
uuid_is none value = false
uuid_is (some column) value = column == value

abbrev pub is_after : Option Timestamp → Timestamp → Bool
is_after none t = false
is_after (some column) t = ltb_ℤ t column

abbrev pub is_not_after : Option Timestamp → Timestamp → Bool
is_not_after none t = false
is_not_after (some column) t = leb_ℤ column t

-- `dag_id = $1 AND id = $2`.
abbrev pub is_job : Text → Text → JobRow → Bool
is_job dag_id job_id row = eq_text row.dag_id dag_id && eq_text row.id job_id

unfoldable pub find_row : Text → Text → List JobRow → Option JobRow
find_row dag_id job_id = first_row (is_job dag_id job_id)
