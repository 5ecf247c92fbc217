-- ===== src/Store/Picks.antt =====
-- src/store.rs: which row `claim` picks, and what it writes.
use cloud_job_orchestrator.Base.{
  ℕ, ◌≡◌, refl, Bool, true, false, none, some, List, [], ◌∷◌, arith, inl, inr, Bool-cases, sym,
  subst, All, All-map,
}
use cloud_job_orchestrator.Base.Order.{
  In, All-In, IsSorted, TotalPreorder, sort, sort-All, sort-IsSorted, In-sort, le_refl,
}
use cloud_job_orchestrator.Base.Text.{Text}
use cloud_job_orchestrator.Store.Tables.{Timestamp, JobRow, Db, Postgres, select_rows}
use cloud_job_orchestrator.Store.Claim.{is_claimable, claim_order, first_unlocked, candidate}

In-select_rows :
    (p : JobRow → Bool) (x : JobRow) (rows : List JobRow)
    → In x rows
    → p x ≡ true
    → In x (select_rows p rows)
unfolding select_rows
In-select_rows p x [] i h = elim i [ ]
In-select_rows p x (r ∷ rows) (inl e) h = rw (sym e, h) (inl refl)
In-select_rows p x (r ∷ rows) (inr i) h = elim (Bool-cases (p r)) [
  | inl e ↦ rw e (inr (In-select_rows p x rows i h))
  | inr e ↦ rw e (In-select_rows p x rows i h)
]

select_rows-All :
    (p : JobRow → Bool) (rows : List JobRow)
    → All (λ x. (p x ≡ true) × In x rows) (select_rows p rows)
unfolding select_rows
select_rows-All p [] = tt
select_rows-All p (r ∷ rows) =
    let rest =
      All-map (λ x (h : (p x ≡ true) × In x rows). (h.0, inr h.1)) (select_rows p rows)
        (select_rows-All p rows) in
    elim (Bool-cases (p r)) [ inl e ↦ rw e ((e, inl refl), rest) | inr e ↦ rw e rest ]

module _ (o : TotalPreorder JobRow) where
  module _ (locked : Text → Text → Bool) where
    first_unlocked-none :
        (xs : List JobRow) (x : JobRow)
        → first_unlocked locked xs ≡ none
        → In x xs
        → locked x.dag_id x.id ≡ true
    first_unlocked-none [] x h i = elim i [ ]
    first_unlocked-none (y ∷ ys) x h i = elim (Bool-cases (locked y.dag_id y.id)) [
      | inl e ↦ elim i [
        | inl same ↦ rw same e
        | inr rest ↦ first_unlocked-none ys x (ground arith) rest
      ]
      | inr e ↦ ground arith
    ]

    pub record IsPick (xs : List JobRow) (row : JobRow) : Type 0 where
      pub inside : In row xs
      pub unlocked : locked row.dag_id row.id ≡ false
      pub first : (x : JobRow) → In x xs → locked x.dag_id x.id ≡ false → o.le row x ≡ true

    head_first :
        (y : JobRow) (ys : List JobRow) (x : JobRow)
        → IsSorted o (y ∷ ys)
        → In x (y ∷ ys)
        → o.le y x ≡ true
    head_first y ys x s (inl e) = rw e (le_refl o y)
    head_first y ys x s (inr i) = All-In (λ z. o.le y z ≡ true) x ys s.0 i

    first_unlocked-IsPick :
        (xs : List JobRow) (row : JobRow)
        → IsSorted o xs
        → first_unlocked locked xs ≡ some row
        → IsPick xs row
    first_unlocked-IsPick [] row s h = cc
    first_unlocked-IsPick (y ∷ ys) row s h = elim (Bool-cases (locked y.dag_id y.id)) [
      | inl e ↦
          let p = first_unlocked-IsPick ys row s.1 (ground arith) in
          record {
            inside = inr p.inside;
            unlocked = p.unlocked;
            first = λ x i u. elim i [
              | inl same ↦ let l : locked x.dag_id x.id ≡ true = rw same e in cc
              | inr rest ↦ p.first x rest u
            ];
          }
      | inr e ↦
          let same : y ≡ row = ground arith in
          subst (λ (z : JobRow). IsPick (y ∷ ys) z) same
            (record { inside = inl refl; unlocked = e; first = λ x i u. head_first y ys x s i })
    ]

module _ {E : Type 0} (pg : Postgres E) (uuid_text : ℕ → Text) (db : Db)
    (locked : Text → Text → Bool) (now : Timestamp) where
  -- The row that is picked: it can be claimed, nobody has locked it, and no other such row comes
  -- before it.
  pub record IsPicked (row : JobRow) : Type 0 where
    pub stored : In row db.jobs
    pub claimable : is_claimable db now row ≡ true
    pub unlocked : locked row.dag_id row.id ≡ false
    pub first :
        (x : JobRow)
        → In x db.jobs
        → is_claimable db now x ≡ true
        → locked x.dag_id x.id ≡ false
        → (claim_order pg.collation).le row x ≡ true

  abbrev pub AllTaken : Type 0
  AllTaken =
      (x : JobRow) → In x db.jobs → is_claimable db now x ≡ true → locked x.dag_id x.id ≡ true

  abbrev sorted_claimable : List JobRow
  sorted_claimable = sort (claim_order pg.collation) (select_rows (is_claimable db now) db.jobs)

  pub candidate-none : candidate pg uuid_text db locked now ≡ none → AllTaken
  unfolding candidate
  candidate-none h x i c =
      first_unlocked-none (claim_order pg.collation) locked sorted_claimable x h (
        In-sort (claim_order pg.collation) x (select_rows (is_claimable db now) db.jobs)
          (In-select_rows (is_claimable db now) x db.jobs i c))

  pub candidate-IsPicked :
      (row : JobRow) → candidate pg uuid_text db locked now ≡ some row → IsPicked row
  unfolding candidate
  candidate-IsPicked row h =
      let o = claim_order pg.collation in
      let p =
        first_unlocked-IsPick o locked sorted_claimable row
          (sort-IsSorted o (select_rows (is_claimable db now) db.jobs)) h in
      let (c, i) =
        All-In (λ x. (is_claimable db now x ≡ true) × In x db.jobs) row sorted_claimable
          (sort-All o (λ x. (is_claimable db now x ≡ true) × In x db.jobs)
            (select_rows (is_claimable db now) db.jobs)
            (select_rows-All (is_claimable db now) db.jobs))
          p.inside in
      record {
        stored = i;
        claimable = c;
        unlocked = p.unlocked;
        first = λ x k d u.
            p.first x
              (In-sort o x (select_rows (is_claimable db now) db.jobs)
                (In-select_rows (is_claimable db now) x db.jobs k d))
              u;
      }
