-- ===== src/Topology/Counts.antt =====
-- Lists of identifiers by how often each of them occurs.
use cloud_job_orchestrator.Base.{
  suc, ◌+◌, ◌≤◌, ◌≡◌, refl, ◌||◌, List, [], ◌∷◌, ◌++◌, leb, length, if◌then◌else◌, arith,
}
use cloud_job_orchestrator.Base.Text.{
  Text, eq_text, eq_text_iff, eq_text_refl, count_text, mem_text,
}

pub mem_text-eq-count : (j : Text) (xs : List Text) → mem_text j xs ≡ leb 1 (count_text j xs)
unfolding mem_text count_text
mem_text-eq-count j [] = refl
mem_text-eq-count j (x ∷ xs) = ground (arith, mem_text-eq-count j xs)

pub mem_text-snoc :
    (j x : Text) (xs : List Text) → mem_text j (xs ++ x ∷ []) ≡ (eq_text x j || mem_text j xs)
unfolding mem_text
mem_text-snoc j x [] = refl
mem_text-snoc j x (y ∷ xs) = ground (arith, mem_text-snoc j x xs)

-- Without the first occurrence.
abbrev remove : Text → List Text → List Text
remove x [] = []
remove x (y ∷ ys) = if eq_text y x then ys else y ∷ remove x ys

count_text-remove :
    (k x : Text) (ys : List Text)
    → 1 ≤ count_text x ys
    → count_text k (remove x ys) + (if eq_text x k then 1 else 0) ≡ count_text k ys
unfolding count_text
count_text-remove k x [] h = ground arith
count_text-remove k x (y ∷ ys) h =
    ground (arith, count_text-remove k x ys, eq_text_iff y x, eq_text_iff x k, eq_text_iff y k)

length-remove :
    (x : Text) (ys : List Text) → 1 ≤ count_text x ys → suc (length (remove x ys)) ≡ length ys
unfolding count_text
length-remove x [] h = ground arith
length-remove x (y ∷ ys) h = ground (arith, length-remove x ys)

abbrev pub Fewer : List Text → List Text → Type 0
Fewer xs ys = (k : Text) → count_text k xs ≤ count_text k ys

first_occurs : (x : Text) (xs ys : List Text) → Fewer (x ∷ xs) ys → 1 ≤ count_text x ys
unfolding count_text
first_occurs x xs ys h = ground (arith, h x, eq_text_refl x)

Fewer-remove : (x : Text) (xs ys : List Text) → Fewer (x ∷ xs) ys → Fewer xs (remove x ys)
unfolding count_text
Fewer-remove x xs ys h k =
    let some_x = first_occurs x xs ys h in ground (arith, h k, count_text-remove k x ys some_x)

-- The pigeonhole principle.
pub Fewer-length : (xs ys : List Text) → Fewer xs ys → length xs ≤ length ys
Fewer-length [] ys h = omega arith
Fewer-length (x ∷ xs) ys h =
    let some_x = first_occurs x xs ys h in
    omega (arith, Fewer-length xs (remove x ys) (Fewer-remove x xs ys h), length-remove x ys some_x)

pub Fewer-full :
    (xs ys : List Text)
    → Fewer xs ys
    → length xs ≡ length ys
    → (k : Text) → count_text k xs ≡ count_text k ys
unfolding count_text
Fewer-full [] [] h e k = refl
Fewer-full [] (y ∷ ys) h e k = ground arith
Fewer-full (x ∷ xs) ys h e k =
    let some_x = first_occurs x xs ys h in
    let shorter = length-remove x ys some_x in
    let same = Fewer-full xs (remove x ys) (Fewer-remove x xs ys h) (omega arith) k in
    ground (arith, count_text-remove k x ys some_x)
