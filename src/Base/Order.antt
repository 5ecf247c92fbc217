-- ===== src/Base/Order.antt =====
-- Total orders with a Boolean test, as `derive(Ord)` makes them, and sorting by one.
use mathlib.Core.List.Perm
use mathlib.Core.List.{Perm}
use Prim.Native.Nat.{ℕ}
use mathlib.Core.Path.{◌≡◌, refl}
use mathlib.Core.Logic.{◌⊎◌, inl, inr}
use mathlib.Core.Bool.{Bool, true, false}
use mathlib.Core.List.{List, [], ◌∷◌}
use native.Mathlib.Omega.{arith}
use cloud_job_orchestrator.Base.Tests.{ltb, ◌==◌, if◌then◌else◌, Bool-cases}
use cloud_job_orchestrator.Base.Lists.{All, All-map}
use cloud_job_orchestrator.Base.Int.{ℤ, leb_ℤ, eq_ℤ_iff}

pub record TotalPreorder (A : Type 0) : Type 0 where
  pub le : A → A → Bool
  pub le_total : (a b : A) → le a b ≡ false → le b a ≡ true
  pub le_trans : (a b c : A) → le a b ≡ true → le b c ≡ true → le a c ≡ true

pub record TotalOrder (A : Type 0) : Type 0 where
  pub preorder : TotalPreorder A
  pub open preorder use *
  pub le_antisymm : (a b : A) → le a b ≡ true → le b a ≡ true → a ≡ b

pub ℤ-le_antisymm : (a b : ℤ) → leb_ℤ a b ≡ true → leb_ℤ b a ≡ true → a ≡ b
ℤ-le_antisymm a b h k = (eq_ℤ_iff a b).0 (ground arith)

pub ℤ-le_trans : (a b c : ℤ) → leb_ℤ a b ≡ true → leb_ℤ b c ≡ true → leb_ℤ a c ≡ true
ℤ-le_trans a b c h k = ground arith

pub ℤ-le_total : (a b : ℤ) → leb_ℤ a b ≡ false → leb_ℤ b a ≡ true
ℤ-le_total a b h = ground arith

abbrev pub ℤ_order : TotalOrder ℤ
ℤ_order = record {
  preorder = record { le = leb_ℤ; le_total = ℤ-le_total; le_trans = ℤ-le_trans };
  le_antisymm = ℤ-le_antisymm;
}

-- `DESC`.
module _ {A : Type 0} (o : TotalOrder A) where
  abbrev pub descending : TotalOrder A
  descending = record {
    preorder = record {
      le = λ a b. o.le b a;
      le_total = λ a b h. o.le_total b a h;
      le_trans = λ a b c h k. o.le_trans c b a k h;
    };
    le_antisymm = λ a b h k. o.le_antisymm a b k h;
  }

-- `str::cmp`: bytes in lexicographic order.
abbrev pub text_le : List ℕ → List ℕ → Bool
text_le [] ys = true
text_le (x ∷ xs) [] = false
text_le (x ∷ xs) (y ∷ ys) = if ltb x y then true else if x == y then text_le xs ys else false

pub text-le_total : (a b : List ℕ) → text_le a b ≡ false → text_le b a ≡ true
text-le_total [] b h = cc
text-le_total (x ∷ xs) [] h = refl
text-le_total (x ∷ xs) (y ∷ ys) h = ground (arith, text-le_total xs ys)

pub text-le_trans : (a b c : List ℕ) → text_le a b ≡ true → text_le b c ≡ true → text_le a c ≡ true
text-le_trans [] b c h k = refl
text-le_trans (x ∷ xs) [] c h k = cc
text-le_trans (x ∷ xs) (y ∷ ys) [] h k = cc
text-le_trans (x ∷ xs) (y ∷ ys) (z ∷ zs) h k = ground (arith, text-le_trans xs ys zs)

pub text-le_antisymm : (a b : List ℕ) → text_le a b ≡ true → text_le b a ≡ true → a ≡ b
text-le_antisymm [] [] h k = refl
text-le_antisymm [] (y ∷ ys) h k = cc
text-le_antisymm (x ∷ xs) [] h k = cc
text-le_antisymm (x ∷ xs) (y ∷ ys) h k = ground (arith, text-le_antisymm xs ys)

abbrev pub text_order : TotalOrder (List ℕ)
text_order = record {
  preorder = record { le = text_le; le_total = text-le_total; le_trans = text-le_trans };
  le_antisymm = text-le_antisymm;
}

module _ {A B : Type 0} (o : TotalOrder A) (p : TotalOrder B) where
  abbrev pub lex_le : A × B → A × B → Bool
  lex_le (a, b) (c, d) = if o.le a c then (if o.le c a then p.le b d else true) else false

  pub lex-le_total : (x y : A × B) → lex_le x y ≡ false → lex_le y x ≡ true
  lex-le_total (a, b) (c, d) h = ground (arith, o.le_total a c, o.le_total c a, p.le_total b d)

  pub lex-le_trans : (x y z : A × B) → lex_le x y ≡ true → lex_le y z ≡ true → lex_le x z ≡ true
  lex-le_trans (a, b) (c, d) (e, f) h k =
      ground (arith, o.le_trans a c e, o.le_trans c e a, o.le_trans e a c, p.le_trans b d f)

  pub lex-le_antisymm : (x y : A × B) → lex_le x y ≡ true → lex_le y x ≡ true → x ≡ y
  lex-le_antisymm (a, b) (c, d) h k = ground (arith, o.le_antisymm a c, p.le_antisymm b d)

  -- Fields compared one after the other.
  abbrev pub lex_order : TotalOrder (A × B)
  lex_order = record {
    preorder = record { le = lex_le; le_total = lex-le_total; le_trans = lex-le_trans };
    le_antisymm = lex-le_antisymm;
  }

-- An item of a list.
abbrev pub In : {A : Type 0} → A → List A → Type 0
In x [] = ⊥
In x (y ∷ ys) = (x ≡ y) ⊎ In x ys

pub All-In {κ} : {A : Type 0} (P : A → Type κ) (x : A) (xs : List A) → All P xs → In x xs → P x
All-In P x [] h i = elim i [ ]
All-In P x (y ∷ ys) h (inl e) = rw e h.0
All-In P x (y ∷ ys) h (inr i) = All-In P x ys h.1 i

module _ {A : Type 0} (o : TotalPreorder A) where
  pub le_refl : (a : A) → o.le a a ≡ true
  le_refl a = elim (Bool-cases (o.le a a)) [ inl h ↦ h | inr h ↦ o.le_total a a h ]

  unfoldable pub insert_sorted : A → List A → List A
  insert_sorted x [] = x ∷ []
  insert_sorted x (y ∷ ys) = if o.le x y then x ∷ y ∷ ys else y ∷ insert_sorted x ys

  -- `sort_unstable`, and the stable `sort_by`: equal items keep their order.
  unfoldable pub sort : List A → List A
  sort [] = []
  sort (x ∷ xs) = insert_sorted x (sort xs)

  abbrev pub IsSorted : List A → Type 0
  IsSorted [] = Unit
  IsSorted (x ∷ xs) = All (λ y. o.le x y ≡ true) xs × IsSorted xs

  insert_sorted-All :
      (P : A → Type 0) (x : A) (ys : List A) → P x → All P ys → All P (insert_sorted x ys)
  unfolding insert_sorted
  insert_sorted-All P x [] h hs = (h, tt)
  insert_sorted-All P x (y ∷ ys) h hs = elim (Bool-cases (o.le x y)) [
    | inl e ↦ rw e (h, hs)
    | inr e ↦ rw e (hs.0, insert_sorted-All P x ys h hs.1)
  ]

  pub insert_sorted-IsSorted : (x : A) (ys : List A) → IsSorted ys → IsSorted (insert_sorted x ys)
  unfolding insert_sorted
  insert_sorted-IsSorted x [] s = (tt, tt)
  insert_sorted-IsSorted x (y ∷ ys) s = elim (Bool-cases (o.le x y)) [
    | inl e ↦ rw e ((e, All-map (λ z. o.le_trans x y z e) ys s.0), s)
    | inr e ↦ rw e (
      insert_sorted-All (λ z. o.le y z ≡ true) x ys (o.le_total x y e) s.0,
      insert_sorted-IsSorted x ys s.1,
    )
  ]

  pub insert_sorted-perm : (x : A) (ys : List A) → Perm (insert_sorted x ys) (x ∷ ys)
  unfolding insert_sorted
  insert_sorted-perm x [] = Perm.refl (x ∷ [])
  insert_sorted-perm x (y ∷ ys) = elim (Bool-cases (o.le x y)) [
    | inl e ↦ rw e (Perm.refl _)
    | inr e ↦ rw e (Perm.trans (Perm.cons y (insert_sorted-perm x ys)) (Perm.swap x y ys))
  ]

  pub sort-IsSorted : (xs : List A) → IsSorted (sort xs)
  unfolding sort
  sort-IsSorted [] = tt
  sort-IsSorted (x ∷ xs) = insert_sorted-IsSorted x (sort xs) (sort-IsSorted xs)

  pub sort-perm : (xs : List A) → Perm (sort xs) xs
  unfolding sort
  sort-perm [] = Perm.refl []
  sort-perm (x ∷ xs) = Perm.trans (insert_sorted-perm x (sort xs)) (Perm.cons x (sort-perm xs))

  pub In-insert_sorted : (z x : A) (ys : List A) → (z ≡ x) ⊎ In z ys → In z (insert_sorted x ys)
  unfolding insert_sorted
  In-insert_sorted z x [] h = h
  In-insert_sorted z x (y ∷ ys) h = ground (arith, In-insert_sorted z x ys)

  pub In-sort : (x : A) (xs : List A) → In x xs → In x (sort xs)
  unfolding sort
  In-sort x [] i = elim i [ ]
  In-sort x (y ∷ ys) (inl e) = In-insert_sorted x y (sort ys) (inl e)
  In-sort x (y ∷ ys) (inr i) = In-insert_sorted x y (sort ys) (inr (In-sort x ys i))

  pub sort-All : (P : A → Type 0) (xs : List A) → All P xs → All P (sort xs)
  unfolding sort
  sort-All P [] h = tt
  sort-All P (x ∷ xs) h = insert_sorted-All P x (sort xs) h.0 (sort-All P xs h.1)
