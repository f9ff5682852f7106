-- ===== src/Gateway/Forward/Attempts.antt =====
-- The attempts that one request of an agent makes at its provider, and how they end.
use kata_tee_runner.Prelude.{
  ℕ, zero, suc, ◌+◌, ◌≤◌, ◌<◌, ◌≡◌, ◌⊎◌, inl, inr, refl, ap, ◌∙◌, arith, String, ◌<>◌, Bool, true,
  false, List, [], ◌∷◌, ◌++◌, ltb, ltb→lt, Bool-cases, Option-cases, Option, none, some, nat_eq,
  string_eq,
}
use native.Mathlib.Numerals.{unary_clauses}
use kata_tee_runner.Prelude.Dict.{Dict}
use kata_tee_runner.Prelude.Text.{decimal}
use kata_tee_runner.Gateway.Headers.{ProviderRequest}
use kata_tee_runner.Gateway.Usage.{extract_reported_tokens}
use kata_tee_runner.Gateway.Forward.{
  Outcome, responded, http_error, unreachable, interrupted, Event, requested, waited, recorded,
  answered, crashed, World, resolve_max_attempts, error_payload, relay_response, is_retryable,
  range, settle, retry,
}

-- An outcome that is worth another attempt.
abbrev pub is_transient : Outcome → Bool
is_transient (http_error code items body) = is_retryable code
is_transient (unreachable reason) = true
is_transient _ = false

-- A request and, for each retry, the pause that follows the attempt and the request again.
abbrev pub rounds : ProviderRequest → ℕ → ℕ → List Event
rounds request first zero = requested request ∷ []
rounds request first (suc retries) =
    requested request ∷ waited first ∷ rounds request (suc first) retries

module _ (w : World) (job_id : String) (request : ProviderRequest) (attempts : ℕ) where
  abbrev pub counted : ℕ → Dict String String → List ℕ → Option ℕ → List Event
  counted status items body none = crashed ∷ []
  counted status items body (some tokens) =
      recorded job_id status tokens ∷ relay_response status items body ∷ []

  -- What ends the handling of a request: one record and one response that tell the outcome, or an
  -- exception, which comes before the record where the tokens of a response cannot be read, and after it
  -- where the body of an error cannot.
  abbrev pub ending : Outcome → List Event
  ending (responded status items body) =
      counted status items body (extract_reported_tokens (w.loads_bytes body))
  ending (http_error code items none) = recorded job_id code 0 ∷ crashed ∷ []
  ending (http_error code items (some body)) =
      recorded job_id code 0 ∷ relay_response code items body ∷ []
  ending (unreachable reason) =
      recorded job_id 0 0
      ∷ answered 502 (
          error_payload (
            "gateway could not reach provider after "
            <> decimal attempts
            <> " attempt(s): "
            <> reason))
      ∷ []
  ending interrupted = crashed ∷ []

  settle-cases :
      (attempt : ℕ) (rest : List Event) (o : Outcome)
      → ((is_transient o ≡ true)
          × (attempt < attempts)
          × (settle w job_id attempts attempt rest o ≡ waited attempt ∷ rest))
        ⊎ (((attempts ≤ attempt) ⊎ (is_transient o ≡ false))
            × (settle w job_id attempts attempt rest o ≡ ending o))
  unfolding settle
  settle-cases attempt rest (responded status items body) =
      elim (Option-cases (extract_reported_tokens (w.loads_bytes body))) [
        | inl odd ↦ inr (inr refl, ground (arith, odd))
        | inr (tokens, told) ↦ inr (inr refl, ground (arith, told))
      ]
  settle-cases attempt rest (http_error code items none) = ground arith
  settle-cases attempt rest (http_error code items (some body)) = ground arith
  settle-cases attempt rest (unreachable reason) = ground arith
  settle-cases attempt rest interrupted = inr (inr refl, refl)

  earlier :
      (first retries : ℕ)
      → is_transient (w.upstream request first) ≡ true
      → ((k : ℕ) → k < retries → is_transient (w.upstream request (suc first + k)) ≡ true)
      → (k : ℕ) → k < suc retries
      → is_transient (w.upstream request (first + k)) ≡ true
  earlier first retries now later zero h = simp unary_clauses now
  earlier first retries now later (suc k) h =
      let shift : suc first + k ≡ first + suc k = omega arith in
      rw (← shift) (later k (omega arith))

  -- The first of the attempts that is not worth another, or the last one.
  record IsSettled (first count : ℕ) : Type 0 where
    retries : ℕ
    within : retries < count
    transient : (k : ℕ) → k < retries → is_transient (w.upstream request (first + k)) ≡ true
    settled : (count ≡ suc retries) ⊎ (is_transient (w.upstream request (first + retries)) ≡ false)
    trace :
        retry w job_id request attempts (range first count)
        ≡ rounds request first retries ++ ending (w.upstream request (first + retries))

  retry-IsSettled :
      (first count : ℕ) → first + count ≡ suc attempts → 1 ≤ count → IsSettled first count
  unfolding retry
  retry-IsSettled first zero total some_left = absurd (omega arith)
  retry-IsSettled first (suc count) total some_left =
      elim (settle-cases first (retry w job_id request attempts (range (suc first) count))
        (w.upstream request first)) [
          | inl (again, before, goes_on) ↦
              let next = retry-IsSettled (suc first) count (omega arith) (omega arith) in
              let shift : suc first + next.retries ≡ first + suc next.retries = omega arith in
              record {
                retries = suc next.retries;
                within = omega (arith, next.within);
                transient = earlier first next.retries again (λ k h. next.transient k h);
                settled = elim next.settled [
                  | inl last ↦ inl (omega (arith, last))
                  | inr firm ↦ inr (rw (← shift) firm)
                ];
                trace = rw (← shift) (
                    ap (λ es. requested request ∷ es)
                      (goes_on ∙ ap (λ es. waited first ∷ es) next.trace));
              }
          | inr (why, ends) ↦ record {
            retries = 0;
            within = omega arith;
            transient = λ k h. absurd (omega arith);
            settled = elim why [
              | inl last ↦ inl (omega arith)
              | inr firm ↦ inr (simp unary_clauses firm)
            ];
            trace = simp unary_clauses (ap (λ es. requested request ∷ es) ends);
          }
        ]

  -- Where at least one attempt is allowed, the attempts go on until the first one that brings a
  -- response, an error other than 502, 503 and 504, or another exception, or to the last one that
  -- is allowed; each of the earlier ones brought one of these errors or no connection, and was
  -- followed by a pause, and the last one alone decides what is recorded and what the agent gets.
  pub retry-settles :
      1 ≤ attempts
      → (retries : ℕ) × (retries < attempts)
        × ((k : ℕ) → (retries ≤ k) ⊎ (is_transient (w.upstream request (suc k)) ≡ true))
        × ((attempts ≡ suc retries) ⊎ (is_transient (w.upstream request (suc retries)) ≡ false))
        × (retry w job_id request attempts (range 1 attempts)
            ≡ rounds request 1 retries ++ ending (w.upstream request (suc retries)))
  retry-settles allowed =
      let all_tried = retry-IsSettled 1 attempts (omega arith) allowed in
      let one : (k : ℕ) → 1 + k ≡ suc k = λ k. omega arith in
      (
        all_tried.retries,
        all_tried.within,
        λ k. elim (Bool-cases (ltb k all_tried.retries)) [
          | inl before ↦
              inr (rw (← one k) (all_tried.transient k (ltb→lt k all_tried.retries before)))
          | inr after ↦ inl (ground (arith, after))
        ],
        elim all_tried.settled [
          | inl last ↦ inl last
          | inr firm ↦ inr (rw (← one all_tried.retries) firm)
        ],
        rw (← one all_tried.retries) all_tried.trace,
      )

pub resolve_max_attempts-bounded :
    (raw : String) → (1 ≤ resolve_max_attempts raw) × (resolve_max_attempts raw ≤ 4)
unfolding resolve_max_attempts
resolve_max_attempts-bounded raw = ground arith
