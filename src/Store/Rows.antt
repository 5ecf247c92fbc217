-- ===== src/Store/Rows.antt =====
-- src/store.rs: looking a row up after each form of statement.
use mathlib.Core.Option
use cloud_job_orchestrator.Base.{
  ◌≡◌, refl, Bool, true, false, Option, none, some, List, [], ◌∷◌, ◌++◌, arith, inl, inr, ap,
  if◌then◌else◌, All, Bool-cases, ◌∙◌, sym, subst,
}
use cloud_job_orchestrator.Base.Order.{In}
use cloud_job_orchestrator.Base.Text.{Text, eq_text_iff}
use cloud_job_orchestrator.Store.Tables.{
  JobRow, is_job, find_row, first_row, update_rows, count_rows,
}

-- An UPDATE that leaves the key alone.
abbrev pub KeepsKey : (JobRow → JobRow) → Type 0
KeepsKey f = (r : JobRow) → ((f r).dag_id ≡ r.dag_id) × ((f r).id ≡ r.id)

abbrev pub changed : (JobRow → Bool) → (JobRow → JobRow) → JobRow → JobRow
changed p f r = if p r then f r else r

module _ (p : JobRow → Bool) (f : JobRow → JobRow) (keeps : KeepsKey f) where
  pub find_row-update_rows :
      (d j : Text) (rows : List JobRow)
      → find_row d j (update_rows p f rows) ≡ Option.map (changed p f) (find_row d j rows)
  unfolding find_row first_row update_rows
  find_row-update_rows d j [] = refl
  find_row-update_rows d j (r ∷ rows) = ground (arith, find_row-update_rows d j rows, keeps r)

  pub find_row-update_rows-some :
      (d j : Text) (rows : List JobRow) (r : JobRow)
      → find_row d j rows ≡ some r
      → find_row d j (update_rows p f rows) ≡ some (changed p f r)
  find_row-update_rows-some d j rows r h = ground (arith, find_row-update_rows d j rows)

pub find_row-append :
    (d j : Text) (rows more : List JobRow) (r : JobRow)
    → find_row d j rows ≡ some r
    → find_row d j (rows ++ more) ≡ some r
unfolding find_row first_row
find_row-append d j [] more r h = cc
find_row-append d j (x ∷ rows) more r h = ground (arith, find_row-append d j rows more r)

pub find_row-append_none :
    (d j : Text) (rows more : List JobRow)
    → find_row d j rows ≡ none
    → find_row d j (rows ++ more) ≡ find_row d j more
unfolding find_row first_row
find_row-append_none d j [] more h = refl
find_row-append_none d j (x ∷ rows) more h = ground (arith, find_row-append_none d j rows more)

pub find_row-key :
    (d j : Text) (rows : List JobRow) (r : JobRow)
    → find_row d j rows ≡ some r
    → (r.dag_id ≡ d) × (r.id ≡ j) × In r rows
unfolding find_row first_row
find_row-key d j [] r h = cc
find_row-key d j (x ∷ rows) r h = elim (Bool-cases (is_job d j x)) [
  | inl hit ↦
      let same : x ≡ r = ground arith in
      subst (λ (y : JobRow). (y.dag_id ≡ d) × (y.id ≡ j) × In y (x ∷ rows)) same
        (ground (arith, eq_text_iff x.dag_id d), ground (arith, eq_text_iff x.id j), inl refl)
  | inr miss ↦ let (p, q, i) = find_row-key d j rows r (ground arith) in (p, q, inr i)
]

-- The primary key.
abbrev pub DistinctRows : List JobRow → Type 0
DistinctRows [] = Unit
DistinctRows (r ∷ rows) = (find_row r.dag_id r.id rows ≡ none) × DistinctRows rows

map-eq-none : (f : JobRow → JobRow) (o : Option JobRow) → o ≡ none → Option.map f o ≡ none
map-eq-none f o h = rw h refl

pub update_rows-DistinctRows :
    (p : JobRow → Bool) (f : JobRow → JobRow) (rows : List JobRow)
    → KeepsKey f
    → DistinctRows rows
    → DistinctRows (update_rows p f rows)
unfolding update_rows
update_rows-DistinctRows p f [] keeps h = tt
update_rows-DistinctRows p f (r ∷ rows) keeps h = elim (Bool-cases (p r)) [
  | inl e ↦
      let (a, b) = keeps r in
      rw e (
        rw (a, b) (find_row-update_rows p f keeps r.dag_id r.id rows ∙ map-eq-none _ _ h.0),
        update_rows-DistinctRows p f rows keeps h.1,
      )
  | inr e ↦ rw e (
    find_row-update_rows p f keeps r.dag_id r.id rows ∙ map-eq-none _ _ h.0,
    update_rows-DistinctRows p f rows keeps h.1,
  )
]

-- A condition that names one job affects the row of that job only.
abbrev pub holds_of : (JobRow → Bool) → Option JobRow → Bool
holds_of p none = false
holds_of p (some r) = p r

abbrev pub Names : Text → Text → (JobRow → Bool) → Type 0
Names d j p = (r : JobRow) → p r ≡ true → is_job d j r ≡ true

pub count_rows-none :
    (d j : Text) (p : JobRow → Bool) (rows : List JobRow)
    → Names d j p
    → find_row d j rows ≡ none
    → count_rows p rows ≡ 0
unfolding count_rows find_row first_row
count_rows-none d j p [] names h = refl
count_rows-none d j p (r ∷ rows) names h = ground (arith, count_rows-none d j p rows names, names r)

same_key :
    (d j : Text) (r : JobRow) (rows : List JobRow)
    → is_job d j r ≡ true
    → find_row r.dag_id r.id rows ≡ none
    → find_row d j rows ≡ none
same_key d j r rows h n =
    let p : r.dag_id ≡ d = ground (arith, eq_text_iff r.dag_id d) in
    let q : r.id ≡ j = ground (arith, eq_text_iff r.id j) in rw (p, q) at n

pub count_rows-eq_one :
    (d j : Text) (p : JobRow → Bool) (rows : List JobRow)
    → Names d j p
    → DistinctRows rows
    → count_rows p rows ≡ (if holds_of p (find_row d j rows) then 1 else 0)
unfolding count_rows find_row first_row
count_rows-eq_one d j p [] names u = refl
count_rows-eq_one d j p (r ∷ rows) names u = elim (Bool-cases (is_job d j r)) [
  | inl hit ↦
      let absent = same_key d j r rows hit u.0 in ground (arith, count_rows-none d j p rows names)
  | inr miss ↦ ground (arith, count_rows-eq_one d j p rows names u.1, names r)
]

pub first_row-eq :
    (d j : Text) (p : JobRow → Bool) (rows : List JobRow)
    → Names d j p
    → DistinctRows rows
    → first_row p rows ≡ (if holds_of p (find_row d j rows) then find_row d j rows else none)
unfolding find_row first_row
first_row-eq d j p [] names u = refl
first_row-eq d j p (r ∷ rows) names u = elim (Bool-cases (is_job d j r)) [
  | inl hit ↦
      let absent = same_key d j r rows hit u.0 in ground (arith, first_row-eq d j p rows names u.1)
  | inr miss ↦ ground (arith, first_row-eq d j p rows names u.1, names r)
]

pub All-update_rows :
    (P : JobRow → Type 0) (p : JobRow → Bool) (f : JobRow → JobRow) (rows : List JobRow)
    → ((r : JobRow) → p r ≡ true → P r → P (f r))
    → All P rows
    → All P (update_rows p f rows)
unfolding update_rows
All-update_rows P p f [] k h = tt
All-update_rows P p f (r ∷ rows) k h = elim (Bool-cases (p r)) [
  | inl e ↦ rw e (k r e h.0, All-update_rows P p f rows k h.1)
  | inr e ↦ rw e (h.0, All-update_rows P p f rows k h.1)
]

pub In-find_row :
    (r : JobRow) (rows : List JobRow)
    → DistinctRows rows
    → In r rows
    → find_row r.dag_id r.id rows ≡ some r
unfolding find_row first_row
In-find_row r [] u i = elim i [ ]
In-find_row r (x ∷ rows) u (inl e) =
    subst (λ (y : JobRow). find_row r.dag_id r.id (y ∷ rows) ≡ some y) e
      (ground (arith, eq_text_iff r.dag_id r.dag_id, eq_text_iff r.id r.id))
    ∙ ap some (sym e)
In-find_row r (x ∷ rows) u (inr i) = elim (Bool-cases (is_job r.dag_id r.id x)) [
  | inl hit ↦
      let absent = same_key r.dag_id r.id x rows hit u.0 in
      let found = In-find_row r rows u.1 i in cc
  | inr miss ↦ ground (arith, In-find_row r rows u.1 i)
]

pub find_row-unmatched :
    (p : JobRow → Bool) (f : JobRow → JobRow) (rows : List JobRow) (d j : Text) (r : JobRow)
    → KeepsKey f
    → find_row d j rows ≡ some r
    → p r ≡ false
    → find_row d j (update_rows p f rows) ≡ some r
find_row-unmatched p f rows d j r keeps found h =
    find_row-update_rows-some p f keeps d j rows r found ∙ ap some (rw h refl)

pub find_row-matched :
    (p : JobRow → Bool) (f : JobRow → JobRow) (rows : List JobRow) (d j : Text) (r : JobRow)
    → KeepsKey f
    → find_row d j rows ≡ some r
    → p r ≡ true
    → find_row d j (update_rows p f rows) ≡ some (f r)
find_row-matched p f rows d j r keeps found h =
    find_row-update_rows-some p f keeps d j rows r found ∙ ap some (rw h refl)
