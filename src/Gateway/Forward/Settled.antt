-- ===== src/Gateway/Forward/Settled.antt =====
-- How often the gateway asks, records and answers in one POST.
use kata_tee_runner.Prelude.{
  ℕ, zero, suc, ◌+◌, ◌≤◌, ◌≡◌, ◌⊎◌, inl, inr, refl, arith, Option, none, some, String, List, [],
  ◌∷◌, ◌++◌,
}
use kata_tee_runner.Prelude.Dict.{Dict}
use kata_tee_runner.Gateway.Headers.{ProviderRequest}
use kata_tee_runner.Gateway.Usage.{
  max_tokens, extract_reported_tokens, extract_reported_tokens-bounded,
}
use kata_tee_runner.Gateway.Forward.{
  Outcome, responded, http_error, unreachable, interrupted, Event, requested, recorded, relayed,
  answered, crashed, Request, World, relay_response, do_post,
}
use kata_tee_runner.Gateway.Forward.Attempts.{rounds, ending, counted}
use kata_tee_runner.Gateway.Forward.Replies.{do_post-IsForwarded, IsForwarded}

abbrev pub replies : List Event → ℕ
replies [] = 0
replies (relayed status items body ∷ es) = suc (replies es)
replies (answered status payload ∷ es) = suc (replies es)
replies (_ ∷ es) = replies es

abbrev pub crashes : List Event → ℕ
crashes [] = 0
crashes (crashed ∷ es) = suc (crashes es)
crashes (_ ∷ es) = crashes es

abbrev pub requests : List Event → ℕ
requests [] = 0
requests (requested request ∷ es) = suc (requests es)
requests (_ ∷ es) = requests es

abbrev pub records : List Event → ℕ
records [] = 0
records (recorded job_id status tokens ∷ es) = suc (records es)
records (_ ∷ es) = records es

abbrev pub recorded_tokens : List Event → ℕ
recorded_tokens [] = 0
recorded_tokens (recorded job_id status tokens ∷ es) = tokens + recorded_tokens es
recorded_tokens (_ ∷ es) = recorded_tokens es

-- One response or one exception; and one record, unless an exception leaves the handler or nothing was sent.
abbrev pub IsOnce : List Event → Type 0
IsOnce es =
    (replies es + crashes es ≡ 1)
    × (requests es ≤ 4)
    × (records es ≤ 1)
    × ((requests es ≡ 0) ⊎ (crashes es ≡ 1) ⊎ (records es ≡ 1))
    × (recorded_tokens es ≤ max_tokens)

module _ (w : World) where
  abbrev end_of : String → ProviderRequest → ℕ → Outcome → List Event
  end_of job_id request attempts o = ending w job_id request attempts o

  -- What the end of a request adds.
  abbrev IsEnd : List Event → Type 0
  IsEnd es =
      (replies es + crashes es ≡ 1)
      × (requests es ≡ 0)
      × (records es ≤ 1)
      × ((crashes es ≡ 1) ⊎ (records es ≡ 1))
      × (recorded_tokens es ≤ max_tokens)

  counted-IsEnd :
      (job_id : String) (request : ProviderRequest) (attempts status : ℕ)
      (items : Dict String String) (body : List ℕ) (told : Option ℕ)
      → ((n : ℕ) → told ≡ some n → n ≤ max_tokens)
      → IsEnd (counted w job_id request attempts status items body told)
  unfolding relay_response
  counted-IsEnd job_id request attempts status items body none few =
      (refl, refl, omega arith, inl refl, omega arith)
  counted-IsEnd job_id request attempts status items body (some n) few =
      (refl, refl, omega arith, inr refl, omega (arith, few n refl))

  ending-IsEnd :
      (job_id : String) (request : ProviderRequest) (attempts : ℕ) (o : Outcome)
      → IsEnd (end_of job_id request attempts o)
  unfolding relay_response
  ending-IsEnd job_id request attempts (responded status items body) =
      counted-IsEnd job_id request attempts status items body
        (extract_reported_tokens (w.loads_bytes body))
        (extract_reported_tokens-bounded (w.loads_bytes body))
  ending-IsEnd job_id request attempts (http_error status items none) =
      (refl, refl, omega arith, inl refl, omega arith)
  ending-IsEnd job_id request attempts (http_error status items (some body)) =
      (refl, refl, omega arith, inr refl, omega arith)
  ending-IsEnd job_id request attempts (unreachable reason) =
      (refl, refl, omega arith, inr refl, omega arith)
  ending-IsEnd job_id request attempts interrupted =
      (refl, refl, omega arith, inl refl, omega arith)

  -- The rounds before it add requests only.
  rounds-IsOnce :
      (request : ProviderRequest) (first retries : ℕ) (es : List Event)
      → (replies (rounds request first retries ++ es) ≡ replies es)
        × (crashes (rounds request first retries ++ es) ≡ crashes es)
        × (requests (rounds request first retries ++ es) ≡ suc retries + requests es)
        × (records (rounds request first retries ++ es) ≡ records es)
        × (recorded_tokens (rounds request first retries ++ es) ≡ recorded_tokens es)
  rounds-IsOnce request first zero es = (refl, refl, omega arith, refl, refl)
  rounds-IsOnce request first (suc retries) es =
      let (a, b, c, d, e) = rounds-IsOnce request (suc first) retries es in
      (a, b, omega (arith, c), d, e)

  forwarded-IsOnce :
      (r : Request) (job_id provider : String) (es : List Event)
      → IsForwarded w r job_id provider es
      → IsOnce es
  forwarded-IsOnce r job_id provider es (inl (status, payload, p)) =
      rw (p) (refl, omega arith, omega arith, inl refl, omega arith)
  forwarded-IsOnce r job_id provider es (inr (request, _, attempts, few, retries, within, _, p)) =
      let last = end_of job_id request attempts (w.upstream request (suc retries)) in
      let (one, none_asked, once, told, few_tokens) =
        ending-IsEnd job_id request attempts (w.upstream request (suc retries)) in
      let (a, b, c, d, e) = rounds-IsOnce request 1 retries last in
      rw (p, a, b, c, d, e)
        (one, omega (arith, none_asked, within, few), once, inr told, few_tokens)

  -- Every POST to the gateway gets just one response, or leaves the handler by an exception without
  -- one; it asks a provider at most four times and records at most one outcome, and just one where
  -- it has asked a provider and no exception has left the handler; the tokens that it records are
  -- at most 1,000,000,000.
  pub do_post-IsOnce : (r : Request) → IsOnce (do_post w r)
  do_post-IsOnce r = elim (do_post-IsForwarded w r) [
    | inl crash ↦ rw (crash) (refl, omega arith, omega arith, inl refl, omega arith)
    | inr (inl (status, payload, _, p)) ↦
        rw (p) (refl, omega arith, omega arith, inl refl, omega arith)
    | inr (inr (path, job_id, provider, _, _, served)) ↦
        forwarded-IsOnce r job_id provider (do_post w r) served
  ]
