-- ===== src/Subscriptions/Backoff.antt =====
-- When a failed delivery is tried again.
use durable_streams_rust.Prelude.{
  ℕ, suc, ◌≡◌, ◌≤◌, ◌<◌, ◌+◌, ◌-◌, ◌*◌, ◌/◌, refl, true, some, arith, ltb, u32_mod, Bool-cases, inl,
  inr,
}
use Prim.Native.Nat.{min, zero}
use durable_streams_rust.Subscriptions.Api.{ok}
use durable_streams_rust.Subscriptions.Model.{Subscription}
use durable_streams_rust.Subscriptions.Tokens.{jitter_above}
use durable_streams_rust.Subscriptions.Outcome.{retry_delay, retry_at, retry_later, next_attempts}

mul_mono : (a b c : ℕ) → b ≤ c → a * b ≤ a * c
mul_mono zero b c h = omega arith
mul_mono (suc a) b c h = omega (arith, mul_mono a b c h)

-- The jitter is at most a fifth of the delay, either way.
retry_at_bounds :
    (now delay above : ℕ)
    → above ≤ 400
    → (now + delay ≤ retry_at now delay above + delay / 5)
      × (retry_at now delay above ≤ now + delay + delay / 5)
unfolding retry_at
retry_at_bounds now delay above h =
    let up = mul_mono delay (above - 200) 200 (omega arith) in
    let down = mul_mono delay (200 - above) 200 (omega arith) in
    (ground (arith, up, down), ground (arith, up, down))

jitter_bound : (raw : ℕ) → raw < 65536 → jitter_above raw ≤ 400
unfolding jitter_above
jitter_bound raw h = omega (arith, h)

-- The delays in order; the last stands for all later attempts.
retry_delay_late : (n : ℕ) → retry_delay (suc (suc (suc (suc (suc (suc n)))))) ≡ 60000
unfolding retry_delay
retry_delay_late n =
    let six : min (suc (suc (suc (suc (suc (suc n)))))) 6 ≡ 6 = omega arith in rw six refl

retry_delay_early :
    (retry_delay 0 ≡ 1000)
    × (retry_delay 1 ≡ 2000)
    × (retry_delay 2 ≡ 4000)
    × (retry_delay 3 ≡ 8000)
    × (retry_delay 4 ≡ 16000)
    × (retry_delay 5 ≡ 32000)
unfolding retry_delay
retry_delay_early = (refl, refl, refl, refl, refl, refl)

-- The delay doubles with every failure until it reaches a minute.
retry_delay_doubles :
    (attempts : ℕ) → retry_delay (suc attempts) ≡ min (2 * retry_delay attempts) 60000
retry_delay_doubles zero = omega (arith, retry_delay_early)
retry_delay_doubles (suc zero) = omega (arith, retry_delay_early)
retry_delay_doubles (suc (suc zero)) = omega (arith, retry_delay_early)
retry_delay_doubles (suc (suc (suc zero))) = omega (arith, retry_delay_early)
retry_delay_doubles (suc (suc (suc (suc zero)))) = omega (arith, retry_delay_early)
retry_delay_doubles (suc (suc (suc (suc (suc zero))))) =
    omega (arith, retry_delay_early, retry_delay_late 0)
retry_delay_doubles (suc (suc (suc (suc (suc (suc n)))))) =
    omega (arith, retry_delay_late n, retry_delay_late (suc n))

delay_bounds : (attempts : ℕ) → (1000 ≤ retry_delay attempts) × (retry_delay attempts ≤ 60000)
delay_bounds zero = (omega (arith, retry_delay_early), omega (arith, retry_delay_early))
delay_bounds (suc attempts) =
    let before = delay_bounds attempts in
    let e = retry_delay_doubles attempts in (omega (arith, before, e), omega (arith, before, e))

retry_delay_last : (attempts : ℕ) → 6 ≤ attempts → retry_delay attempts ≡ 60000
unfolding retry_delay
retry_delay_last attempts h = let six : min attempts 6 ≡ 6 = omega (arith, h) in rw six refl

-- The counter stops at the last 32-bit number, where the delay has long been a minute.
retry_delay-next_attempts :
    (attempts : ℕ) → retry_delay (next_attempts attempts) ≡ min (2 * retry_delay attempts) 60000
unfolding next_attempts
retry_delay-next_attempts attempts = elim (Bool-cases (ltb attempts (u32_mod - 1))) [
  | inl below ↦
      let same : min (suc attempts) (u32_mod - 1) ≡ suc attempts = ground arith in
      rw same (retry_delay_doubles attempts)
  | inr above ↦
      let last : min (suc attempts) (u32_mod - 1) ≡ u32_mod - 1 = ground arith in
      let now : retry_delay attempts ≡ 60000 = retry_delay_last attempts (ground arith) in
      let at_last : retry_delay (u32_mod - 1) ≡ 60000 =
        retry_delay_last (u32_mod - 1) (omega arith) in
      rw last (omega (arith, now, at_last))
]

-- A failed delivery is recorded as one and counted as one more attempt, up to the last 32-bit number,
-- and tried again after the delay of the attempts before it, give or take a fifth: between 0.8 and 72
-- seconds later. The delay of the new count, which the next failure waits for, is twice that delay, up
-- to a minute. The random number has two bytes.
pub retry_later_bounds :
    (sub : Subscription) (raw now : ℕ)
    → raw < 65536
    → (new : Subscription) × (retry_later sub (some raw) now ≡ ok new)
      × (new.failed ≡ true)
      × (new.attempts ≡ min (suc sub.attempts) (u32_mod - 1))
      × (retry_delay new.attempts ≡ min (2 * retry_delay sub.attempts) 60000)
      × (now + retry_delay sub.attempts ≤ new.next_attempt_at + retry_delay sub.attempts / 5)
      × (new.next_attempt_at ≤ now + retry_delay sub.attempts + retry_delay sub.attempts / 5)
      × (now + 800 ≤ new.next_attempt_at)
      × (new.next_attempt_at ≤ now + 72000)
unfolding retry_later next_attempts
retry_later_bounds sub raw now h =
    let delay = retry_delay sub.attempts in
    let d = delay_bounds sub.attempts in
    let b = retry_at_bounds now delay (jitter_above raw) (jitter_bound raw h) in
    (
      _,
      refl,
      refl,
      refl,
      retry_delay-next_attempts sub.attempts,
      b.0,
      b.1,
      omega (arith, b, d),
      omega (arith, b, d),
    )
