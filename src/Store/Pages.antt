-- ===== src/Store/Pages.antt =====
-- src/store.rs: the pages of `list_dags`.
use cloud_job_orchestrator.Base.{ℕ, ◌≤◌, ◌≡◌, true, Option, List, ◌⊎◌, All, length}
use cloud_job_orchestrator.Base.Order.{In, IsSorted, sort}
use cloud_job_orchestrator.Base.Text.{Text}
use cloud_job_orchestrator.Store.Tables.{DagRow, Db, Postgres, select_rows}
use cloud_job_orchestrator.Store.Read.{take, dag_ids, comes_after}

module _ {E : Type 0} (pg : Postgres E) (db : Db) (after : Option Text) (limit : ℕ)
    (page : List Text) where
  -- What a page is.
  pub record IsPage : Type 0 where
    pub in_bounds : length page ≤ limit
    pub sorted : IsSorted pg.collation.preorder page
    pub stored :
        All (λ id. (d : DagRow) × In d db.dags × (d.id ≡ id) × (comes_after pg after d ≡ true)) page
    pub complete :
        (d : DagRow)
        → In d db.dags
        → comes_after pg after d ≡ true
        → In d.id page ⊎ (length page ≡ limit) × All (λ id. pg.collation.le id d.id ≡ true) page

module _ {E : Type 0} (pg : Postgres E) (db : Db) (after : Option Text) (limit : ℕ) where
  abbrev page_of : List Text
  page_of =
      take limit (sort pg.collation.preorder (dag_ids (select_rows (comes_after pg after) db.dags)))
