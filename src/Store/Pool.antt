-- ===== src/Store/Pool.antt =====
-- src/store.rs: `connect`, `migrate` and `ready`, around what the library answers.
use cloud_job_orchestrator.Base.{
  ℕ, ◌&&◌, not, leb, Bool, true, false, Result, ok, err, ◌>>◌, fail_if,
}
use cloud_job_orchestrator.Store.{StoreError, database, migration, invalid_configuration}

-- `?` on the library's answer.
abbrev answered_by : {E A : Type 0} → (E → StoreError E) → Result E A → Result (StoreError E) A
answered_by wrap (err e) = err (wrap e)
answered_by wrap (ok a) = ok a

-- The library opens a pool of that size, or fails.
unfoldable pub connect : {E Pool : Type 0} → (ℕ → Result E Pool) → ℕ → Result (StoreError E) Pool
connect open_pool max_connections = do
  fail_if (not (leb 1 max_connections && leb max_connections 100)) invalid_configuration
  answered_by database (open_pool max_connections)

unfoldable pub migrate :
    {E Pool : Type 0} → (Pool → Result E (Unit {0})) → Pool → Result (StoreError E) (Unit {0})
migrate run_migrations pool = answered_by migration (run_migrations pool)

-- `is_ok` of the answer to `SELECT 1`.
unfoldable pub ready : {E Pool : Type 0} → (Pool → Result E ℕ) → Pool → Bool
ready select_one pool = elim (select_one pool) [ ok n ↦ true | err e ↦ false ]
