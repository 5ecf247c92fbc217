-- ===== src/Scheduler/Backoff.antt =====
-- src/scheduler.rs: the bounds on the backoff and on its jitter.
use cloud_job_orchestrator.Base.{ℕ, ◌-◌, ◌^◌, min, arith}
use cloud_job_orchestrator.Base.Int.{
  ℤ, pos, negsuc, ◌≤ℤ◌, ◌+ℤ◌, int_max, int_min, div5, saturating_add, saturating_mul,
  saturating_add-ge, saturating_add-le,
}
use cloud_job_orchestrator.Base.Text.{Text}
use cloud_job_orchestrator.Scheduler.State.{SchedulerConfig}
use cloud_job_orchestrator.Scheduler.Retry.{deterministic_jitter, bounded_delay, retry_at}

-- The jitter is not negative and below its ceiling, or zero if the ceiling is not positive.
pub deterministic_jitter-bounds :
    (j : Text) (n : ℕ)
    → (pos 0 ≤ℤ deterministic_jitter j (pos n)) × (deterministic_jitter j (pos n) ≤ℤ pos n)
unfolding deterministic_jitter
deterministic_jitter-bounds j n = ground arith

saturating_mul-nonneg : (a : ℤ) (n : ℕ) → pos 0 ≤ℤ a → pos 0 ≤ℤ saturating_mul a (pos n)
unfolding saturating_mul
saturating_mul-nonneg a n h = ground arith

bounded_delay-bounds :
    (c : SchedulerConfig) (attempts : ℕ)
    → pos 0 ≤ℤ c.base_retry_ms
    → pos 0 ≤ℤ c.max_retry_ms
    → (pos 0 ≤ℤ bounded_delay c attempts) × (bounded_delay c attempts ≤ℤ c.max_retry_ms)
unfolding bounded_delay
bounded_delay-bounds c attempts h k =
    let m = saturating_mul-nonneg c.base_retry_ms (2 ^ min (attempts - 1) 16) h in
    (ground arith, ground arith)

saturating_add_le_max : (a b : ℤ) → saturating_add a b ≤ℤ int_max 63
unfolding saturating_add
saturating_add_le_max a b = ground arith

sum_mono : (a b x y : ℤ) → a ≤ℤ b → x ≤ℤ y → a +ℤ x ≤ℤ b +ℤ y
unfolding ◌+ℤ◌
sum_mono a b x y h k = ground arith

sum_ge : (a b : ℤ) → pos 0 ≤ℤ b → a ≤ℤ a +ℤ b
unfolding ◌+ℤ◌
sum_ge a b h = ground arith

≤ℤ_trans : (a b c : ℤ) → a ≤ℤ b → b ≤ℤ c → a ≤ℤ c
≤ℤ_trans a b c h k = omega arith

jitter_bounds :
    (j : Text) (bounded limit : ℤ)
    → pos 0 ≤ℤ bounded
    → bounded ≤ℤ limit
    → (pos 0 ≤ℤ deterministic_jitter j (div5 bounded))
      × (deterministic_jitter j (div5 bounded) ≤ℤ div5 limit)
unfolding div5 deterministic_jitter
jitter_bounds j (pos n) (pos m) h k = ground arith
jitter_bounds j (pos n) (negsuc m) h k = absurd (ground arith)
jitter_bounds j (negsuc n) limit h k = absurd (ground arith)

-- A retry is never due before the failure, and at most the longest delay and a fifth of it later, for
-- a configuration without negative delays and a 64-bit clock.
pub retry_at-bounds :
    (c : SchedulerConfig) (j : Text) (attempts : ℕ) (now : ℤ)
    → pos 0 ≤ℤ c.base_retry_ms
    → pos 0 ≤ℤ c.max_retry_ms
    → int_min 63 ≤ℤ now
    → now ≤ℤ int_max 63
    → (now ≤ℤ retry_at c j attempts now)
      × (retry_at c j attempts now ≤ℤ (now +ℤ c.max_retry_ms) +ℤ div5 c.max_retry_ms)
unfolding retry_at
retry_at-bounds c j attempts now base limit low high =
    let delay = bounded_delay c attempts in
    let first = saturating_add now delay in
    let (d0, d1) = bounded_delay-bounds c attempts base limit in
    let (j0, j1) = jitter_bounds j delay c.max_retry_ms d0 d1 in
    let jitter = deterministic_jitter j (div5 delay) in
    let up = saturating_add-ge now delay high d0 in
    let up' = saturating_add-ge first jitter (saturating_add_le_max now delay) j0 in
    let down = saturating_add-le now delay now (omega arith) low d0 in
    let mid = now +ℤ delay in
    let low' = ≤ℤ_trans (int_min 63) now mid low (sum_ge now delay d0) in
    let down' = saturating_add-le first jitter mid down low' j0 in
    (
      ≤ℤ_trans now first _ up up',
      ≤ℤ_trans _ (mid +ℤ jitter) _ down' (
          sum_mono mid (now +ℤ c.max_retry_ms) jitter (div5 c.max_retry_ms)
            (sum_mono now now delay c.max_retry_ms (omega arith) d1) j1),
    )
