-- ===== src/Bin/Config.antt =====
-- src/bin/orchestrator_worker.rs: `parse_bounded` and the numbers that `main` reads with it.
use cloud_job_orchestrator.Base.{
  ℕ, suc, ◌^◌, ◌≡◌, refl, true, ◌&&◌, Option, none, some, [], ◌∷◌, ltb, leb, ◌==◌, if◌then◌else◌,
  arith, ◌↔◌, inl, inr, Result, ok, err, Option-cases,
}
use cloud_job_orchestrator.Base.Int.{ℤ, pos, negsuc, leb_ℤ, sub_ℕ}
use cloud_job_orchestrator.Base.Text.{Text, parse_digits, parse_unsigned, print_ℕ, is_empty}

-- `str::parse::<i64>`: a minus sign and digits, at least one, or what is read without a sign.
abbrev negated : Option ℕ → Option ℤ
negated none = none
negated (some n) = if leb n (2 ^ 63) then some (sub_ℕ 0 n) else none

abbrev unnegated : Option ℕ → Option ℤ
unnegated none = none
unnegated (some n) = if ltb n (2 ^ 63) then some (pos n) else none

unfoldable pub parse_i64 : Text → Option ℤ
unfolding parse_digits parse_unsigned
parse_i64 [] = none
parse_i64 (c ∷ cs) =
    if c == b'-'
    then if is_empty cs then none else negated (parse_digits 0 cs)
    else unnegated (parse_unsigned (c ∷ cs))

-- `to_string` of an i64.
unfoldable pub print_ℤ : ℤ → Text
unfolding print_ℕ
print_ℤ (pos n) = print_ℕ n
print_ℤ (negsuc n) = b'-' ∷ print_ℕ (suc n)

pub data ConfigError : Type 0 where
  not_a_number : ConfigError
  out_of_bounds : (minimum maximum : ℤ) → ConfigError

abbrev value_or_default : Option Text → ℤ → Text
value_or_default none default = print_ℤ default
value_or_default (some value) default = value

abbrev within : ℤ → ℤ → Option ℤ → Result ConfigError ℤ
within minimum maximum none = err not_a_number
within minimum maximum (some value) =
    if leb_ℤ minimum value && leb_ℤ value maximum
    then ok value
    else err (out_of_bounds minimum maximum)

-- The variable of the environment is an argument, with what `env::var` makes of an unset one.
unfoldable pub parse_bounded : Option Text → ℤ → ℤ → ℤ → Result ConfigError ℤ
unfolding parse_i64 print_ℤ
parse_bounded variable default minimum maximum =
    within minimum maximum (parse_i64 (value_or_default variable default))

unfoldable pub lease_setting : Option Text → Result ConfigError ℤ
unfolding parse_bounded
lease_setting variable = parse_bounded variable (pos 15_000) (pos 1) (pos 60_000)

unfoldable pub poll_setting : Option Text → Result ConfigError ℤ
unfolding parse_bounded
poll_setting variable = parse_bounded variable (pos 500) (pos 10) (pos 10_000)

-- `parse_bounded` returns the number that the text stands for, exactly if that is within the bounds.
pub parse_bounded_iff :
    (text : Text) (default minimum maximum value : ℤ)
    → (parse_bounded (some text) default minimum maximum ≡ ok value) ↔ (
        (parse_i64 text ≡ some value) × (leb_ℤ minimum value ≡ true) × (leb_ℤ value maximum ≡ true))
unfolding parse_bounded
parse_bounded_iff text default minimum maximum value = elim (Option-cases (parse_i64 text)) [
  | inl e ↦ (λ h. absurd (ground arith), λ h. absurd (ground arith))
  | inr (x, e) ↦ (λ h. (ground arith, ground arith, ground arith), λ (p, q, r). ground arith)
]

defaults : (lease_setting none ≡ ok (pos 15_000)) × (poll_setting none ≡ ok (pos 500))
unfolding lease_setting poll_setting
defaults = (refl, refl)
