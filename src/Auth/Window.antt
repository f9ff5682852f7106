-- ===== src/Auth/Window.antt =====
-- The requests whose time window is accepted.
use kata_tee_runner.Prelude.{◌≡◌, ◌↔◌, refl, ap, String, none, arith, Result, ok, raise}
use kata_tee_runner.Prelude.Dict.{Dict}
use kata_tee_runner.Prelude.Int.{ℤ, pos, ◌+ℤ◌, ◌≤ℤ◌, ◌<ℤ◌, +ℤ_parts, -ℤ_parts}
use kata_tee_runner.Prelude.Value.{Value}
use kata_tee_runner.Prelude.Numbers.{IntError}
use kata_tee_runner.Auth.{Policy, claim, check_window, validate_request_window}

-- Issued no later than the clock says, up to the skew; expiring after that, within the lifetime; and
-- not expired, up to the skew.
pub record IsTimely (p : Policy) (current issued_at expires_at : ℤ) : Type 0 where
  pub issued : issued_at ≤ℤ current +ℤ pos p.skew
  pub ordered : issued_at <ℤ expires_at
  pub short : expires_at ≤ℤ issued_at +ℤ pos p.lifetime
  pub unexpired : current ≤ℤ expires_at +ℤ pos p.skew

check_window-IsTimely :
    (p : Policy) (current i e : ℤ) → check_window p current i e ≡ none → IsTimely p current i e
unfolding check_window
check_window-IsTimely p current i e h = record {
  issued = ground (arith, +ℤ_parts current (pos p.skew));
  ordered = ground arith;
  short = ground (arith, -ℤ_parts e i, +ℤ_parts i (pos p.lifetime));
  unexpired = ground (arith, -ℤ_parts current (pos p.skew), +ℤ_parts e (pos p.skew));
}

pub none_of_IsTimely :
    (p : Policy) (current i e : ℤ) → IsTimely p current i e → check_window p current i e ≡ none
unfolding check_window
none_of_IsTimely p current i e t = ground (
  arith,
  +ℤ_parts current (pos p.skew),
  -ℤ_parts e i,
  +ℤ_parts i (pos p.lifetime),
  -ℤ_parts current (pos p.skew),
  +ℤ_parts e (pos p.skew),
)

abbrev pub HasWindow : Policy → Dict String Value → ℤ → Type 0
HasWindow p payload current =
    (i : ℤ) × (e : ℤ) × (claim payload "issued_at" ≡ ok i)
    × (claim payload "expires_at" ≡ ok e)
    × IsTimely p current i e

-- `validate_request_window` passes a payload exactly where `issued_at` and `expires_at` are read as
-- integers, the first is at most the skew ahead of the clock, the second is after the first by at
-- most the lifetime, and the clock is at most the skew past the second.
pub validate_request_window_iff :
    (p : Policy) (payload : Dict String Value) (current : ℤ)
    → (validate_request_window p payload current ≡ ok none) ↔ HasWindow p payload current
unfolding validate_request_window
validate_request_window_iff p payload current = (
  λ h. split (claim payload "issued_at") (claim payload "expires_at") refl refl h,
  λ (i, e, ci, ce, t). rw (ci, ce) (ap ok (none_of_IsTimely p current i e t)),
)
  where
    split :
        (ci ce : Result IntError ℤ)
        → claim payload "issued_at" ≡ ci
        → claim payload "expires_at" ≡ ce
        → validate_request_window p payload current ≡ ok none
        → HasWindow p payload current
    split (ok i) (ok e) p₁ p₂ h = (i, e, p₁, p₂, check_window-IsTimely p current i e (ground arith))
    split (ok i) (raise x) p₁ p₂ h = absurd (ground arith)
    split (raise x) ce p₁ p₂ h = absurd (ground arith)
