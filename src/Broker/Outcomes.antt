-- ===== src/Broker/Outcomes.antt =====
-- room/broker.py: what a handler's outcome demands, said apart from `_classify` and `dispatch`.
use kata_tee_runner.Prelude.{
  ◌≡◌, ◌≢◌, ◌⊎◌, inl, inr, refl, arith, String, Bool, true, false, none, some, ◌==◌, ◌&&◌, ◌||◌,
  nat_eq, string_eq, Result, ok, raise, Bool-cases, Option-cases,
}
use kata_tee_runner.Prelude.Int.{ℤ, pos, int_eq, leb_ℤ, ltb_ℤ}
use kata_tee_runner.Prelude.Value.{Value, as_dict}
use kata_tee_runner.Broker.Spec.{BrokerError, Outcome, returned, refused, failed, denied}
use kata_tee_runner.Broker.Dispatch.{classify, status_of, answer, deny}

abbrev IsWithin : ℤ → ℤ → ℤ → Type 0
IsWithin low high z = (leb_ℤ low z ≡ true) × (ltb_ℤ z high ≡ true)

-- The codes of 402, 401 with 403, and 429 have a status of their own.
abbrev named : ℤ → Bool
named z = z == pos 402 || (z == pos 401 || z == pos 403) || z == pos 429

-- The status of an exception with the code z
abbrev pub HasCode : ℤ → String → Type 0
HasCode z status =
    (IsWithin (pos 200) (pos 300) z × (status ≡ "ok"))
    ⊎ ((z ≡ pos 402) × (status ≡ "payment_required"))
    ⊎ (((z ≡ pos 401) ⊎ (z ≡ pos 403)) × (status ≡ "unauthorized"))
    ⊎ ((z ≡ pos 429) × (status ≡ "rate_limited"))
    ⊎ (IsWithin (pos 400) (pos 500) z × (named z ≡ false) × (status ≡ "bad_request"))
    ⊎ ((leb_ℤ (pos 200) z && ltb_ℤ z (pos 300) ≡ false)
        × (leb_ℤ (pos 400) z && ltb_ℤ z (pos 500) ≡ false)
        × (status ≡ "provider_error"))

classify-HasCode : (z : ℤ) → HasCode z (classify (some z))
unfolding classify
classify-HasCode z = elim (Bool-cases (leb_ℤ (pos 200) z && ltb_ℤ z (pos 300))) [
  | inl fine ↦ inl ((ground (arith, fine), ground (arith, fine)), ground (arith, fine))
  | inr rest₁ ↦ elim (Bool-cases (z == pos 402)) [
    | inl unpaid ↦ inr (inl (ground (arith, unpaid), ground (arith, rest₁, unpaid)))
    | inr rest₂ ↦ elim (Bool-cases (z == pos 401 || z == pos 403)) [
      | inl closed ↦ inr (inr (inl (ground (arith, closed), ground (arith, rest₁, rest₂, closed))))
      | inr rest₃ ↦ elim (Bool-cases (z == pos 429)) [
        | inl many ↦
            inr (inr (inr (inl (ground (arith, many), ground (arith, rest₁, rest₂, rest₃, many)))))
        | inr rest₄ ↦ elim (Bool-cases (leb_ℤ (pos 400) z && ltb_ℤ z (pos 500))) [
          | inl bad ↦ inr (
              inr (
                inr (
                  inr (
                    inl (
                      (ground (arith, bad), ground (arith, bad)),
                      ground (arith, rest₂, rest₃, rest₄),
                      ground (arith, rest₁, rest₂, rest₃, rest₄, bad),
                    )))))
          | inr rest₅ ↦ inr (
              inr
                (inr (inr (inr (rest₁, rest₅, ground (arith, rest₁, rest₂, rest₃, rest₄, rest₅))))))
        ]
      ]
    ]
  ]
]

-- The status under which an outcome is recorded.
abbrev pub HasStatus : Outcome → String → Type 0
HasStatus (returned v) status = status ≡ "ok"
HasStatus (refused message) status = status ≡ "denied"
HasStatus (failed none) status = status ≡ "unreachable"
HasStatus (failed (some z)) status = HasCode z status

-- What a caller gets for an outcome.
abbrev pub IsAnswer : Outcome → Result BrokerError Value → Type 0
IsAnswer (returned v) result =
    ((as_dict v ≢ none) × (result ≡ ok v)) ⊎ ((as_dict v ≡ none) × (result ≡ raise deny))
IsAnswer (refused message) result = result ≡ raise (denied message)
IsAnswer (failed code) result = result ≡ raise deny

pub status_of-HasStatus : (o : Outcome) → HasStatus o (status_of o)
unfolding status_of classify
status_of-HasStatus (returned v) = refl
status_of-HasStatus (refused message) = refl
status_of-HasStatus (failed none) = refl
status_of-HasStatus (failed (some z)) = classify-HasCode z

pub answer-IsAnswer : (o : Outcome) → IsAnswer o (answer o)
unfolding answer
answer-IsAnswer (refused message) = refl
answer-IsAnswer (failed code) = refl
answer-IsAnswer (returned v) = elim (Option-cases (as_dict v)) [
  | inl other ↦ inr (other, ground (arith, other))
  | inr (fields, is) ↦ inl (ground (arith, is), ground (arith, is))
]
