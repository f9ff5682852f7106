-- ===== src/Gateway/Usage.antt =====
-- room/inference_gateway.py: the tokens that a provider reports for one call.
use kata_tee_runner.Prelude.{
  Result, ok, raise, ℕ, ◌+◌, ◌≤◌, ◌≡◌, arith, min, String, Option, none, some, List, [], ◌∷◌, leb,
  if◌then◌else◌, string_eq,
}
use kata_tee_runner.Prelude.Dict.{Dict, lookup}
use kata_tee_runner.Prelude.Int.{pos}
use kata_tee_runner.Prelude.Value.{Value, int, as_dict}

abbrev pub max_tokens : ℕ
max_tokens = 1000000000

abbrev as_count : Value → Option ℕ
as_count (int (pos n)) = if leb n max_tokens then some n else none
as_count _ = none

-- `counter(name)`, where a bool is no int
unfoldable pub counter : Dict String Value → String → Option ℕ
counter usage name = elim (lookup name usage) [ none ↦ none | some v ↦ as_count v ]

abbrev dict_at : String → Dict String Value → Option (Dict String Value)
dict_at name d = elim (lookup name d) [ none ↦ none | some v ↦ as_dict v ]

unfoldable pub first_total : Dict String Value → List String → Option ℕ
first_total usage [] = none
first_total usage (name ∷ names) = elim (counter usage name) [
  | none ↦ first_total usage names
  | some n ↦ some n
]

unfoldable pub first_sum : Dict String Value → List (String × String) → ℕ
first_sum usage [] = 0
first_sum usage ((left, right) ∷ names) = elim (counter usage left) [
  | none ↦ first_sum usage names
  | some a ↦ elim (counter usage right) [
    | none ↦ first_sum usage names
    | some b ↦ min max_tokens (a + b)
  ]
]

unfoldable pub reported : Dict String Value → ℕ
unfolding first_total first_sum
reported usage =
    elim (first_total usage ("total_tokens" ∷ "totalTokens" ∷ "totalTokenCount" ∷ [])) [
      | some n ↦ n
      | none ↦ first_sum usage (
          ("input_tokens", "output_tokens")
          ∷ ("prompt_tokens", "completion_tokens")
          ∷ ("promptTokenCount", "candidatesTokenCount")
          ∷ [])
    ]

-- What `json.loads` raises: an error of decoding, or another exception, as for a number of too many digits
-- or a nesting that is too deep.
pub data LoadError : Type 0 where
  malformed unhandled : LoadError

-- The tokens that a decoded body reports.
unfoldable pub payload_tokens : Value → ℕ
unfolding reported
payload_tokens v = elim (as_dict v) [
  | none ↦ 0
  | some payload ↦ elim (dict_at "usage" payload) [
    | some usage ↦ reported usage
    | none ↦ elim (dict_at "usageMetadata" payload) [ some usage ↦ reported usage | none ↦ 0 ]
  ]
]

-- `_extract_reported_tokens`, of what `json.loads` makes of the body; `none` is an exception
unfoldable pub extract_reported_tokens : Result LoadError Value → Option ℕ
unfolding payload_tokens
extract_reported_tokens (raise malformed) = some 0
extract_reported_tokens (raise unhandled) = none
extract_reported_tokens (ok v) = some (payload_tokens v)

first_total-bounded :
    (usage : Dict String Value) (names : List String) (n : ℕ)
    → first_total usage names ≡ some n
    → n ≤ max_tokens
unfolding first_total counter
first_total-bounded usage [] n h = absurd (ground arith)
first_total-bounded usage (name ∷ names) n h = ground (arith, first_total-bounded usage names n)

first_sum-bounded :
    (usage : Dict String Value) (names : List (String × String))
    → first_sum usage names ≤ max_tokens
unfolding first_sum
first_sum-bounded usage [] = ground arith
first_sum-bounded usage ((left, right) ∷ names) = ground (arith, first_sum-bounded usage names)

reported-bounded : (usage : Dict String Value) → reported usage ≤ max_tokens
unfolding reported
reported-bounded usage = grind (
  arith,
  first_total-bounded usage ("total_tokens" ∷ "totalTokens" ∷ "totalTokenCount" ∷ []),
  first_sum-bounded usage (
      ("input_tokens", "output_tokens")
      ∷ ("prompt_tokens", "completion_tokens")
      ∷ ("promptTokenCount", "candidatesTokenCount")
      ∷ []),
)

payload_tokens-bounded : (v : Value) → payload_tokens v ≤ max_tokens
unfolding payload_tokens
payload_tokens-bounded v = grind (arith, reported-bounded)

-- The number of tokens that is taken from a response is at most 1,000,000,000, whatever the
-- provider reports, also where it is the sum of two counters.
pub extract_reported_tokens-bounded :
    (body : Result LoadError Value) (n : ℕ) → extract_reported_tokens body ≡ some n → n ≤ max_tokens
unfolding extract_reported_tokens payload_tokens
extract_reported_tokens-bounded (raise malformed) n h = ground arith
extract_reported_tokens-bounded (raise unhandled) n h = absurd (ground arith)
extract_reported_tokens-bounded (ok v) n h =
    let same : payload_tokens v ≡ n = ground (arith, h) in rw (← same) (payload_tokens-bounded v)
