-- ===== src/Topology/Relax.antt =====
-- src/domain.rs: what the loop over the children of a job does to the counts and to the queue.
use cloud_job_orchestrator.Base.{
  ℕ, true, false, ◌+◌, ◌-◌, ◌^◌, ◌≤◌, ◌<◌, ◌≡◌, refl, Option, none, some, List, [], ◌∷◌, ◌==◌,
  if◌then◌else◌, arith, inl, inr, Bool-cases,
}
use cloud_job_orchestrator.Base.Text.{Text, eq_text, eq_text_iff, count_text}
use cloud_job_orchestrator.Base.Map.{Map, lookup, adjust, lookup-adjust, Distinct}
use cloud_job_orchestrator.Domain.Validate.{relax, decrement, zero_keys, push_if_zero}
use cloud_job_orchestrator.Scheduler.Admission.Edges.{count_text-append}

abbrev pub zero_count : Option ℕ → ℕ
zero_count none = 0
zero_count (some n) = if n == 0 then 1 else 0

-- A count that is positive does not wrap.
decrement_pos : (n : ℕ) → 1 ≤ n → n < 2 ^ 64 → decrement n ≡ n - 1
unfolding decrement
decrement_pos n h k = omega arith

count_text-push_if_zero :
    (k child : Text) (o : Option ℕ) (newly : List Text)
    → count_text k (push_if_zero o child newly)
      ≡ count_text k newly + (if eq_text child k then zero_count o else 0)
unfolding count_text
count_text-push_if_zero k child none newly = ground arith
count_text-push_if_zero k child (some n) newly =
    ground (arith, count_text-append k newly (child ∷ []))

module _ (k child : Text) (m : Map ℕ) where
  adjusted_none : lookup k m ≡ none → lookup k (adjust child decrement m) ≡ none
  adjusted_none h = ground (arith, lookup-adjust child k decrement m)

  adjusted_other :
      (n : ℕ)
      → eq_text child k ≡ false
      → lookup k m ≡ some n
      → lookup k (adjust child decrement m) ≡ some n
  adjusted_other n e h = ground (arith, lookup-adjust child k decrement m)

  adjusted_same :
      (n : ℕ)
      → eq_text child k ≡ true
      → lookup k m ≡ some n
      → 1 ≤ n
      → n < 2 ^ 64
      → lookup k (adjust child decrement m) ≡ some (n - 1)
  adjusted_same n e h p b = ground (arith, lookup-adjust child k decrement m, decrement_pos n)

-- Each child's count falls by the number of times that it is listed.
pub lookup-relax-none :
    (k : Text) (m : Map ℕ) (newly cs : List Text)
    → lookup k m ≡ none
    → (lookup k (relax m newly cs).0 ≡ none)
      × (count_text k (relax m newly cs).1 ≡ count_text k newly)
unfolding relax
lookup-relax-none k m newly [] h = (h, refl)
lookup-relax-none k m newly (child ∷ cs) h =
    let m' = adjust child decrement m in
    let newly' = push_if_zero (lookup child m') child newly in
    let (same, pushed) = lookup-relax-none k m' newly' cs (adjusted_none k child m h) in
    (
      same,
      ground (
        arith,
        count_text-push_if_zero k child (lookup child m') newly,
        adjusted_none k child m h,
        eq_text_iff child k,
      ),
    )

pub lookup-relax-some :
    (k : Text) (m : Map ℕ) (newly cs : List Text) (n : ℕ)
    → lookup k m ≡ some n
    → count_text k cs ≤ n
    → n < 2 ^ 64
    → (lookup k (relax m newly cs).0 ≡ some (n - count_text k cs))
      × (count_text k (relax m newly cs).1 + zero_count (some n)
          ≡ count_text k newly + zero_count (some (n - count_text k cs)))
unfolding relax count_text
lookup-relax-some k m newly [] n h c b = (ground arith, ground arith)
lookup-relax-some k m newly (child ∷ cs) n h c b = elim (Bool-cases (eq_text child k)) [
  | inl e ↦
      let m' = adjust child decrement m in
      let newly' = push_if_zero (lookup child m') child newly in
      let now = adjusted_same k child m n e h (ground arith) b in
      let (same, pushed) =
        lookup-relax-some k m' newly' cs (n - 1) now (ground arith) (omega arith) in
      (
        ground arith,
        ground
            (arith, count_text-push_if_zero k child (lookup child m') newly, eq_text_iff child k),
      )
  | inr e ↦
      let m' = adjust child decrement m in
      let newly' = push_if_zero (lookup child m') child newly in
      let now = adjusted_other k child m n e h in
      let (same, pushed) = lookup-relax-some k m' newly' cs n now (ground arith) b in
      (ground arith, ground (arith, count_text-push_if_zero k child (lookup child m') newly))
]

-- The first queue holds each job whose count is zero, once.
pub count_text-zero_keys :
    (k : Text) (m : Map ℕ) → Distinct m → count_text k (zero_keys m) ≡ zero_count (lookup k m)
unfolding zero_keys count_text lookup
count_text-zero_keys k [] d = refl
count_text-zero_keys k ((j, n) ∷ m) d = ground (arith, count_text-zero_keys k m, eq_text_iff j k)
