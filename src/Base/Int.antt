-- ===== src/Base/Int.antt =====
-- Signed integers over the native numbers, and the saturating 64-bit and 16-bit operations.
use Prim.Native.Nat.{ℕ, suc, ◌+◌, ◌-◌, ◌*◌, ◌/◌, ◌^◌, ◌≤◌, ◌<◌}
use mathlib.Core.Path.{◌≡◌}
use mathlib.Core.Logic.{◌↔◌}
use mathlib.Core.Bool.{Bool, true}
use native.Mathlib.Omega.{arith}
use cloud_job_orchestrator.Base.Tests.{ltb, leb, ◌==◌, if◌then◌else◌}

-- `negsuc n` is -(n + 1).
pub data ℤ : Type 0 where
  pos : ℕ → ℤ
  negsuc : ℕ → ℤ

abbrev pub pos_part : ℤ → ℕ
pos_part (pos n) = n
pos_part (negsuc n) = 0

abbrev pub neg_part : ℤ → ℕ
neg_part (pos n) = 0
neg_part (negsuc n) = suc n

-- a - b, as an integer.
abbrev pub sub_ℕ : ℕ → ℕ → ℤ
sub_ℕ a b = if leb b a then pos (a - b) else negsuc (b - a - 1)

infixl 65 ◌+ℤ◌ ◌-ℤ◌
infixl 70 ◌*ℤ◌
infix 50 ◌≤ℤ◌ ◌<ℤ◌
unfoldable pub ◌+ℤ◌ : ℤ → ℤ → ℤ
a +ℤ b = sub_ℕ (pos_part a + pos_part b) (neg_part a + neg_part b)

unfoldable pub ◌-ℤ◌ : ℤ → ℤ → ℤ
a -ℤ b = sub_ℕ (pos_part a + neg_part b) (neg_part a + pos_part b)

unfoldable pub ◌*ℤ◌ : ℤ → ℤ → ℤ
a *ℤ b =
    sub_ℕ (pos_part a * pos_part b + neg_part a * neg_part b)
      (pos_part a * neg_part b + neg_part a * pos_part b)

abbrev pub ◌≤ℤ◌ : ℤ → ℤ → Type 0
a ≤ℤ b = pos_part a + neg_part b ≤ pos_part b + neg_part a

abbrev pub ◌<ℤ◌ : ℤ → ℤ → Type 0
a <ℤ b = pos_part a + neg_part b < pos_part b + neg_part a

abbrev pub ltb_ℤ : ℤ → ℤ → Bool
ltb_ℤ a b = ltb (pos_part a + neg_part b) (pos_part b + neg_part a)

abbrev pub leb_ℤ : ℤ → ℤ → Bool
leb_ℤ a b = leb (pos_part a + neg_part b) (pos_part b + neg_part a)

abbrev pub eq_ℤ : ℤ → ℤ → Bool
eq_ℤ a b = pos_part a + neg_part b == pos_part b + neg_part a

pub eq_ℤ_iff : (a b : ℤ) → (eq_ℤ a b ≡ true) ↔ (a ≡ b)
eq_ℤ_iff (pos m) (pos n) = ground arith
eq_ℤ_iff (pos m) (negsuc n) = ground arith
eq_ℤ_iff (negsuc m) (pos n) = ground arith
eq_ℤ_iff (negsuc m) (negsuc n) = ground arith

abbrev pub min_ℤ : ℤ → ℤ → ℤ
min_ℤ a b = if leb_ℤ a b then a else b

-- Division of a signed integer by 5, which rounds towards zero.
unfoldable pub div5 : ℤ → ℤ
div5 (pos n) = pos (n / 5)
div5 (negsuc n) = sub_ℕ 0 (suc n / 5)

-- The bounds of the w-bit signed integers, at w - 1.
abbrev pub int_max : ℕ → ℤ
int_max w = pos (2 ^ w - 1)

abbrev pub int_min : ℕ → ℤ
int_min w = negsuc (2 ^ w - 1)

abbrev pub saturate : ℕ → ℤ → ℤ
saturate w x =
    if ltb_ℤ (int_max w) x then int_max w else if ltb_ℤ x (int_min w) then int_min w else x

-- i64::saturating_add, i64::saturating_mul and i16::saturating_sub.
unfoldable pub saturating_add : ℤ → ℤ → ℤ
unfolding ◌+ℤ◌
saturating_add a b = saturate 63 (a +ℤ b)

unfoldable pub saturating_mul : ℤ → ℤ → ℤ
unfolding ◌*ℤ◌
saturating_mul a b = saturate 63 (a *ℤ b)

unfoldable pub saturating_sub16 : ℤ → ℤ → ℤ
unfolding ◌-ℤ◌
saturating_sub16 a b = saturate 15 (a -ℤ b)

-- Adding what is not negative to a 64-bit integer does not go below it.
pub saturating_add-ge : (a b : ℤ) → a ≤ℤ int_max 63 → pos 0 ≤ℤ b → a ≤ℤ saturating_add a b
unfolding saturating_add
saturating_add-ge a b ha hb = ground arith

pub saturating_add-le :
    (a b c : ℤ) → a ≤ℤ c → int_min 63 ≤ℤ c → pos 0 ≤ℤ b → saturating_add a b ≤ℤ c +ℤ b
unfolding saturating_add
saturating_add-le a b c ha hc hb = ground arith
