-- ===== src/Store/History.antt =====
-- src/store.rs: histories of transactions on the tables.
use cloud_job_orchestrator.Base.{
  ℕ, ◌≡◌, refl, Option, none, some, List, [], ◌∷◌, arith, inl, inr, Option-cases, sym,
}
use cloud_job_orchestrator.Base.Text.{Text}
use cloud_job_orchestrator.Scheduler.State.{JobRecord}
use cloud_job_orchestrator.Scheduler.Machine.{Evolves}
use cloud_job_orchestrator.Store.Tables.{JobRow, Db, Postgres, find_row, first_row}
use cloud_job_orchestrator.Store.Rows.{DistinctRows}
use cloud_job_orchestrator.Store.Run.{
  StoreCall, submits, claims, heartbeats, completes, fails, reaps, cancels, empty_db, store_step,
  store_run,
}
use cloud_job_orchestrator.Store.Moves.{RowMoves, stay, RowMoves-trans, RowInv, RowMoves-RowInv}
use cloud_job_orchestrator.Store.Acts.{StoreActs, Becomes}
use cloud_job_orchestrator.Store.Transactions.{
  heartbeat-StoreActs, complete-StoreActs, fail-StoreActs, reap-StoreActs, cancel-StoreActs,
}
use cloud_job_orchestrator.Store.Grants.{claim-StoreActs}
use cloud_job_orchestrator.Store.Inserts.{RowsGrow, submit-RowsGrow}
use cloud_job_orchestrator.Store.Evolution.{record_of, RowMoves-Evolves}

-- What becomes of the rows over a history.
pub record StoreGrows (rows rows' : List JobRow) : Type 0 where
  pub moved :
      (d j : Text) (r : JobRow)
      → find_row d j rows ≡ some r
      → (r' : JobRow) × (find_row d j rows' ≡ some r') × RowMoves r r'
  pub distinct : DistinctRows rows'
  pub fresh :
      (d j : Text) (r : JobRow) → find_row d j rows ≡ none → find_row d j rows' ≡ some r → RowInv r

StoreGrows-refl : (rows : List JobRow) → DistinctRows rows → StoreGrows rows rows
StoreGrows-refl rows u = record {
  moved = λ d j r h. (r, h, stay);
  distinct = u;
  fresh = λ d j r h k. cc;
}

StoreGrows-trans : (a b c : List JobRow) → StoreGrows a b → StoreGrows b c → StoreGrows a c
StoreGrows-trans a b c x y = record {
  moved = λ d j r h.
      let (r', e, ms) = x.moved d j r h in
      let (r'', f, ns) = y.moved d j r' e in (r'', f, RowMoves-trans ms ns);
  distinct = y.distinct;
  fresh = λ d j r h k. elim (Option-cases (find_row d j b)) [
    | inl e ↦ y.fresh d j r e k
    | inr (z, e) ↦
        let (z', f, ms) = y.moved d j z e in
        let same : z' ≡ r = ground arith in rw (sym same) (RowMoves-RowInv ms (x.fresh d j z h e))
  ];
}

Becomes-some :
    (o o' : Option JobRow) (r : JobRow)
    → o ≡ some r
    → Becomes o o'
    → (r' : JobRow) × (o' ≡ some r') × RowMoves r r'
Becomes-some none o' r h b = cc
Becomes-some (some x) o' r h (r', e, ms) = let same : r ≡ x = ground arith in (r', e, rw same ms)

Becomes-none : (o o' : Option JobRow) → o ≡ none → Becomes o o' → o' ≡ none
Becomes-none none o' h b = b
Becomes-none (some x) o' h b = cc

acts-StoreGrows :
    (db db' : Db) → DistinctRows db.jobs → StoreActs db db' → StoreGrows db.jobs db'.jobs
acts-StoreGrows db db' u acts = record {
  moved =
      λ d j r h. Becomes-some (find_row d j db.jobs) (find_row d j db'.jobs) r h (acts.moves d j);
  distinct = acts.distinct u;
  fresh = λ d j r h k.
      let gone = Becomes-none (find_row d j db.jobs) (find_row d j db'.jobs) h (acts.moves d j) in
      cc;
}

grow-StoreGrows :
    (rows rows' : List JobRow) → DistinctRows rows → RowsGrow rows rows' → StoreGrows rows rows'
grow-StoreGrows rows rows' u g = record {
  moved = λ d j r h. (r, g.kept d j r h, stay);
  distinct = g.distinct u;
  fresh = g.fresh;
}

module _ {E : Type 0} (pg : Postgres E) (uuid_text : ℕ → Text) where
  store_step-StoreGrows :
      (db : Db) (c : StoreCall)
      → DistinctRows db.jobs
      → StoreGrows db.jobs (store_step pg uuid_text db c).jobs
  unfolding store_step
  store_step-StoreGrows db (submits spec now) u =
      grow-StoreGrows db.jobs _ u (submit-RowsGrow pg db spec now)
  store_step-StoreGrows db (claims locked owner token ms now) u =
      acts-StoreGrows db _ u (claim-StoreActs pg uuid_text db locked owner token ms now u)
  store_step-StoreGrows db (heartbeats d j owner token ms now) u =
      acts-StoreGrows db _ u (heartbeat-StoreActs E db d j owner token ms now)
  store_step-StoreGrows db (completes d j owner token result now) u =
      acts-StoreGrows db _ u (complete-StoreActs E db d j owner token result now)
  store_step-StoreGrows db (fails d j owner token now) u =
      acts-StoreGrows db _ u (fail-StoreActs E db d j owner token now)
  store_step-StoreGrows db (reaps now) u = acts-StoreGrows db _ u (reap-StoreActs E db now)
  store_step-StoreGrows db (cancels d now) u = acts-StoreGrows db _ u (cancel-StoreActs E db d now)

  pub store_run-StoreGrows :
      (db : Db) (cs : List StoreCall)
      → DistinctRows db.jobs
      → StoreGrows db.jobs (store_run pg uuid_text db cs).jobs
  unfolding store_run
  store_run-StoreGrows db [] u = StoreGrows-refl db.jobs u
  store_run-StoreGrows db (c ∷ cs) u =
      let first = store_step-StoreGrows db c u in
      StoreGrows-trans db.jobs (store_step pg uuid_text db c).jobs _ first
        (store_run-StoreGrows (store_step pg uuid_text db c) cs first.distinct)

  -- After any history of transactions from empty tables, no two rows have the same key.
  pub store_run-DistinctRows :
      (cs : List StoreCall) → DistinctRows (store_run pg uuid_text empty_db cs).jobs
  store_run-DistinctRows cs = (store_run-StoreGrows empty_db cs tt).distinct

  -- After any history of transactions from empty tables, every job that is found has a budget of one
  -- to twenty attempts that it keeps to, has an owner, a token and a deadline exactly if it is
  -- leased, has a result exactly if it has succeeded, and has the number of attempts that its state
  -- allows.
  pub store_run-RowInv :
      (cs : List StoreCall) (d j : Text) (r : JobRow)
      → find_row d j (store_run pg uuid_text empty_db cs).jobs ≡ some r
      → RowInv r
  unfolding find_row first_row
  store_run-RowInv cs d j r h = (store_run-StoreGrows empty_db cs tt).fresh d j r refl h

  -- A row of the tables as a job of the reference scheduler.
  abbrev pub stored_job : Db → JobRow → JobRecord
  stored_job db r = record_of uuid_text db.edges db.jobs r

  pub store_run-moved :
      (before after : List StoreCall) (d j : Text) (r : JobRow)
      → find_row d j (store_run pg uuid_text empty_db before).jobs ≡ some r
      → (r' : JobRow) × (find_row d j
            (store_run pg uuid_text (store_run pg uuid_text empty_db before) after).jobs
          ≡ some r')
        × RowMoves r r'
  store_run-moved before after d j r h =
      (store_run-StoreGrows (store_run pg uuid_text empty_db before) after
          (store_run-DistinctRows before)).moved
        d j r h

  -- The tables refine the reference scheduler's life of a job: take a job that is in the tables after
  -- some history of transactions from empty ones. Any further transactions leave the job in the
  -- tables, and its row, read as a job of the reference scheduler, evolves as the jobs of that
  -- scheduler do.
  pub store_run-Evolves :
      (before after : List StoreCall) (d j : Text) (r : JobRow)
      → find_row d j (store_run pg uuid_text empty_db before).jobs ≡ some r
      → (r' : JobRow) × (find_row d j
            (store_run pg uuid_text (store_run pg uuid_text empty_db before) after).jobs
          ≡ some r')
        × Evolves
            (stored_job (store_run pg uuid_text empty_db before) r)
            (stored_job (store_run pg uuid_text (store_run pg uuid_text empty_db before) after) r')
  store_run-Evolves before after d j r h =
      let (r', e, ms) = store_run-moved before after d j r h in
      (r', e, RowMoves-Evolves uuid_text _ _ _ _ ms)
