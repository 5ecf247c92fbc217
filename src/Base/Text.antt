-- ===== src/Base/Text.antt =====
-- Strings as their UTF-8 bytes: equality, decimal numbers, literals.
use Prim.Native.Nat.{ℕ, suc, zero, ◌+◌, ◌-◌, ◌*◌, ◌/◌, ◌%◌, ◌^◌}
use Prim.Native.Char.{code}
use Prim.Native.String.{String}
use mathlib.Core.Path.{◌≡◌, refl}
use mathlib.Core.Logic.{◌↔◌}
use mathlib.Core.Bool.{Bool, true, false, ◌&&◌, ◌||◌}
use mathlib.Core.Option.{Option, none, some}
use mathlib.Core.List.{List, [], ◌∷◌, ◌++◌}
use native.Mathlib.Omega.{arith}
use cloud_job_orchestrator.Base.Tests.{ltb, leb, ◌==◌, if◌then◌else◌}

abbrev pub Text : Type 0
Text = List ℕ

-- An ASCII literal.
abbrev pub bytes : String → Text
bytes String.[] = []
bytes (String.◌∷◌ c s) = code c ∷ bytes s

abbrev pub eq_text : Text → Text → Bool
eq_text [] [] = true
eq_text [] (y ∷ ys) = false
eq_text (x ∷ xs) [] = false
eq_text (x ∷ xs) (y ∷ ys) = x == y && eq_text xs ys

pub eq_text→eq : (a b : Text) → eq_text a b ≡ true → a ≡ b
eq_text→eq [] [] h = refl
eq_text→eq [] (y ∷ ys) h = cc
eq_text→eq (x ∷ xs) [] h = cc
eq_text→eq (x ∷ xs) (y ∷ ys) h = ground (arith, eq_text→eq xs ys)

pub eq_text_refl : (a : Text) → eq_text a a ≡ true
eq_text_refl [] = refl
eq_text_refl (x ∷ xs) = ground (arith, eq_text_refl xs)

pub eq_text_iff : (a b : Text) → (eq_text a b ≡ true) ↔ (a ≡ b)
eq_text_iff a b = (eq_text→eq a b, λ e. rw e (eq_text_refl b))

abbrev pub is_empty : Text → Bool
is_empty [] = true
is_empty (x ∷ xs) = false

-- The digits of `str::parse`, after any that make the value `n` so far.
unfoldable pub parse_digits : ℕ → Text → Option ℕ
parse_digits n [] = some n
parse_digits n (c ∷ cs) =
    if leb b'0' c && leb c b'9' then parse_digits (n * 10 + (c - b'0')) cs else none

-- `str::parse::<u64>`: an optional plus sign, then digits, at least one; too large is an error.
unfoldable pub parse_unsigned : Text → Option ℕ
unfolding parse_digits
parse_unsigned [] = none
parse_unsigned (c ∷ cs) =
    if is_empty cs && c == b'+' then none else parse_digits 0 (if c == b'+' then cs else c ∷ cs)

unfoldable pub parse_u64 : Text → Option ℕ
unfolding parse_unsigned
parse_u64 s = elim (parse_unsigned s) [
  | none ↦ none
  | some n ↦ if ltb n (2 ^ 64) then some n else none
]

-- `to_string` of an unsigned number, by its digits; the fuel is one more than the number.
unfoldable pub print_fuel : ℕ → ℕ → Text
print_fuel zero n = []
print_fuel (suc f) n =
    let high = print_fuel f (n / 10) in
    if ltb n 10 then (b'0' + n) ∷ [] else high ++ (b'0' + n % 10) ∷ []

unfoldable pub print_ℕ : ℕ → Text
unfolding print_fuel
print_ℕ n = print_fuel (suc n) n

unfoldable pub count_text : Text → List Text → ℕ
count_text j [] = 0
count_text j (x ∷ xs) = (if eq_text x j then 1 else 0) + count_text j xs

unfoldable pub mem_text : Text → List Text → Bool
mem_text j [] = false
mem_text j (x ∷ xs) = eq_text x j || mem_text j xs

-- No text stands twice.
abbrev pub DistinctTexts : List Text → Type 0
DistinctTexts [] = Unit
DistinctTexts (x ∷ xs) = (mem_text x xs ≡ false) × DistinctTexts xs
