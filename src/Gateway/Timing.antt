-- ===== src/Gateway/Timing.antt =====
-- room/inference_gateway.py: the timeout of a request and the pause before a retry. `float` stands for
-- Python's `float(text)`, `none` for its `ValueError`. A time is a fraction, and a sum is exact.
use kata_tee_runner.Prelude.{
  ℕ, ◌+◌, ◌-◌, ◌*◌, ◌^◌, ◌≤◌, arith, String, true, false, Option, none, some, ltb, if◌then◌else◌,
  ◌==◌, string_eq,
}
use native.Mathlib.Nat.{mul-le-mul_right, mul_assoc}
use kata_tee_runner.Prelude.Floats.{is_positive}
use kata_tee_runner.Prelude.Text.{strip}
use kata_tee_runner.Prelude.Value.{Float, finite, infinite, nan}

abbrev pub default_timeout : Float
default_timeout = finite false 180 0

module _ (float : String → Option Float) where
  -- `resolve_timeout()`, of the environment variable's value
  unfoldable pub resolve_timeout : Option String → Float
  resolve_timeout none = default_timeout
  resolve_timeout (some raw) =
      if strip raw == "" then default_timeout else elim (float (strip raw)) [
        | none ↦ default_timeout
        | some timeout ↦ if is_positive timeout then timeout else default_timeout
      ]

  -- `os.environ.get(RETRY_BASE_SECONDS_ENV, "0.5") or "0.5"`
  unfoldable pub retry_text : Option String → String
  retry_text none = "0.5"
  retry_text (some raw) = if raw == "" then "0.5" else raw

  -- The base of `_retry_backoff_seconds`
  unfoldable pub retry_base : Option String → Float
  unfolding retry_text
  retry_base raw = elim (float (retry_text raw)) [ none ↦ finite false 1 1 | some base ↦ base ]

-- Numerator and denominator.
abbrev pub Fraction : Type 0
Fraction = ℕ × ℕ

-- `max(0.0, base)`, where `none` is infinite; nan is not above 0.0
abbrev pub at_least_zero : Float → Option Fraction
at_least_zero (finite true m k) = some (0, 1)
at_least_zero (finite false m k) = some (m, 2 ^ k)
at_least_zero (infinite true) = some (0, 1)
at_least_zero (infinite false) = none
at_least_zero nan = some (0, 1)

-- `min(5.0, base * factor)`
abbrev pub at_most_five : ℕ → Option Fraction → Fraction
at_most_five factor none = (5, 1)
at_most_five factor (some (m, d)) = if ltb (m * factor) (5 * d) then (m * factor, d) else (5, 1)

-- `delay + random.uniform(0.0, delay * 0.25)`, where `jitter` is what `uniform` returns
unfoldable pub retry_backoff : Float → ℕ → (Fraction → Fraction) → Fraction
retry_backoff base attempt jitter =
    let delay = at_most_five (2 ^ (attempt - 1)) (at_least_zero base) in
    let extra = jitter delay in (delay.0 * extra.1 + extra.0 * delay.1, delay.1 * extra.1)

at_most_five-le :
    (factor : ℕ) (x : Option Fraction) → (at_most_five factor x).0 ≤ 5 * (at_most_five factor x).1
at_most_five-le factor none = omega arith
at_most_five-le factor (some (m, d)) = ground arith

sum-le : (m d n e : ℕ) → m ≤ 5 * d → 4 * (n * d) ≤ m * e → 4 * (m * e + n * d) ≤ 25 * (d * e)
sum-le m d n e h k = omega (arith, mul-le-mul_right e h, mul_assoc 5 d e)

-- Where the jitter is at most a quarter of the delay, the pause is at most 6.25 seconds.
retry_backoff-bounded :
    (base : Float) (attempt : ℕ) (jitter : Fraction → Fraction)
    → ((d : Fraction) → 4 * ((jitter d).0 * d.1) ≤ d.0 * (jitter d).1)
    → 4 * (retry_backoff base attempt jitter).0 ≤ 25 * (retry_backoff base attempt jitter).1
unfolding retry_backoff
retry_backoff-bounded base attempt jitter small =
    let delay = at_most_five (2 ^ (attempt - 1)) (at_least_zero base) in
    sum-le delay.0 delay.1 (jitter delay).0 (jitter delay).1
      (at_most_five-le (2 ^ (attempt - 1)) (at_least_zero base)) (small delay)
