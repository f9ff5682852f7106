-- ===== src/Profile/Timeout.antt =====
-- room/profile.py: the time that a profile grants an agent. `float` stands for Python's `float(text)`,
-- `none` for its `ValueError`.
use kata_tee_runner.Prelude.{
  ◌≡◌, ◌≢◌, ◌⊎◌, ◌↔◌, inl, inr, refl, arith, String, true, false, Option, none, some, if◌then◌else◌,
  ◌==◌, string_eq, Bool-cases, Option-cases,
}
use kata_tee_runner.Prelude.Floats.{is_positive, is_at_most_zero}
use kata_tee_runner.Prelude.Text.{strip}
use kata_tee_runner.Prelude.Value.{Float, finite, infinite, nan}

abbrev pub default_agent_timeout : Float
default_agent_timeout = finite false 840 0

-- `raw = os.environ.get(..., "").strip()`
abbrev pub stripped : Option String → String
stripped none = ""
stripped (some raw) = strip raw

-- `resolve_agent_execution_timeout_seconds()`; `none` is its `RuntimeError`
unfoldable pub resolve_agent_execution_timeout_seconds :
    (String → Option Float) → Option String → Option Float
resolve_agent_execution_timeout_seconds float env =
    if stripped env == "" then some default_agent_timeout else elim (float (stripped env)) [
      | none ↦ none
      | some timeout ↦ if is_at_most_zero timeout then none else some timeout
    ]

-- What the function returns where it returns.
abbrev pub IsGranted : (String → Option Float) → Option String → Float → Type 0
IsGranted float env timeout =
    ((stripped env ≡ "") × (timeout ≡ default_agent_timeout))
    ⊎ ((stripped env ≢ "")
        × (float (stripped env) ≡ some timeout)
        × ((is_positive timeout ≡ true) ⊎ (timeout ≡ nan)))

positive_or_nan : (x : Float) → is_at_most_zero x ≡ false → (is_positive x ≡ true) ⊎ (x ≡ nan)
positive_or_nan (finite true m k) h = cc
positive_or_nan (finite false m k) h = inl (ground arith)
positive_or_nan (infinite true) h = cc
positive_or_nan (infinite false) h = inl refl
positive_or_nan nan h = inr refl

not_at_most_zero : (x : Float) → (is_positive x ≡ true) ⊎ (x ≡ nan) → is_at_most_zero x ≡ false
not_at_most_zero (finite true m k) (inl h) = cc
not_at_most_zero (finite false m k) (inl h) = ground arith
not_at_most_zero (infinite true) (inl h) = cc
not_at_most_zero (infinite false) (inl h) = refl
not_at_most_zero nan (inl h) = cc
not_at_most_zero x (inr e) = rw e refl

module _ (float : String → Option Float) (env : Option String) (timeout : Float) where
  -- The time granted is the default where none is configured, or what the text reads as, where that is
  -- positive or nan.
  resolve_agent_execution_timeout_seconds_iff :
      (resolve_agent_execution_timeout_seconds float env ≡ some timeout)
      ↔ IsGranted float env timeout
  unfolding resolve_agent_execution_timeout_seconds
  resolve_agent_execution_timeout_seconds_iff = (granted, grants)
    where
      granted :
          resolve_agent_execution_timeout_seconds float env ≡ some timeout
          → IsGranted float env timeout
      granted h = elim (Bool-cases (stripped env == "")) [
        | inl empty ↦ inl (ground arith, ground arith)
        | inr given ↦ elim (Option-cases (float (stripped env))) [
          | inl malformed ↦ absurd (ground arith)
          | inr (x, read) ↦ elim (Bool-cases (is_at_most_zero x)) [
            | inl low ↦ absurd (ground arith)
            | inr high ↦
                let same : x ≡ timeout = ground arith in
                inr (ground arith, rw (← same) read, rw (← same) (positive_or_nan x high))
          ]
        ]
      ]

      grants :
          IsGranted float env timeout
          → resolve_agent_execution_timeout_seconds float env ≡ some timeout
      grants (inl (empty, same)) = ground arith
      grants (inr (given, read, good)) = ground (arith, not_at_most_zero timeout good)
