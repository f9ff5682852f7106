-- ===== src/Gateway/Forward/Replies.antt =====
-- What a POST to the gateway comes to.
use kata_tee_runner.Prelude.{
  ℕ, suc, ◌≤◌, ◌<◌, ◌≡◌, ◌⊎◌, inl, inr, refl, arith, String, false, Option, none, some, List, [],
  ◌∷◌, ◌++◌, ◌==◌, string_eq, nat_eq, Result, ok, raise, >>=-eq-ok, or_raise, or_raise-eq-ok,
  Option-cases, Bool-cases,
}
use kata_tee_runner.Prelude.Dict.{Dict, lookup}
use kata_tee_runner.Prelude.Text.{strip}
use kata_tee_runner.Prelude.Value.{Value}
use kata_tee_runner.Gateway.Route.{
  RouteError, unauthorized, invalid_job_id, not_configured, invalid_provider, type_error,
  provider_from_route,
}
use kata_tee_runner.Gateway.Providers.{
  ConfigError, configuration, unhandled, ProviderRoute, resolve_provider_routes,
}
use kata_tee_runner.Gateway.Providers.Approved.{IsApproved, resolve_provider_routes-IsApproved}
use kata_tee_runner.Gateway.Headers.{ProviderRequest, build_provider_request, safe_request_headers}
use kata_tee_runner.Gateway.Forward.{
  Event, recorded, answered, crashed, Request, World, resolve_max_attempts, header_or_empty,
  read_body, error_payload, provider_request, send, forward, post_body, post_route, do_post,
}
use kata_tee_runner.Gateway.Forward.Attempts.{
  is_transient, rounds, ending, retry-settles, resolve_max_attempts-bounded,
}

module _ (w : World) where
  -- A request is one that the approved route of this provider yields, with the key of the headers.
  pub record IsProviderRequest (r : Request) (provider : String) (request : ProviderRequest)
      : Type 0 where
    pub body : List ℕ
    pub route : ProviderRoute
    pub is_body : read_body r ≡ some body
    pub is_configured :
        (routes : Dict String ProviderRoute) × (resolve_provider_routes w.loads w.urlsplit
            w.routes_json
          ≡ ok routes)
        × (lookup provider routes ≡ some route)
    pub is_approved : IsApproved w.urlsplit route
    pub with_key : (strip (header_or_empty "x-inference-api-key" r.headers) == "") ≡ false
    pub is_built :
        build_provider_request w.format
          (strip (header_or_empty "x-inference-api-key" r.headers))
          body
          route
          (safe_request_headers r.headers)
        ≡ ok request

  -- What follows a provider's signed route: a refusal of the gateway's own that is recorded, or attempts at that provider.
  abbrev pub IsForwarded : Request → String → String → List Event → Type 0
  IsForwarded r job_id provider events =
      ((status : ℕ) × (payload : Value) × (events
          ≡ recorded job_id status 0 ∷ answered status payload ∷ []))
      ⊎ ((request : ProviderRequest) × IsProviderRequest r provider request
          × (attempts : ℕ) × (attempts ≤ 4)
          × (retries : ℕ) × (retries < attempts)
          × ((attempts ≡ suc retries) ⊎ (is_transient (w.upstream request (suc retries)) ≡ false))
          × (events
              ≡ rounds request 1 retries
                ++ ending w job_id request attempts (w.upstream request (suc retries))))

  provider_request-IsProviderRequest :
      (r : Request) (provider : String) (body : List ℕ) (request : ProviderRequest)
      → read_body r ≡ some body
      → (strip (header_or_empty "x-inference-api-key" r.headers) == "") ≡ false
      → provider_request w provider (strip (header_or_empty "x-inference-api-key" r.headers)) r body
        ≡ ok request
      → IsProviderRequest r provider request
  unfolding provider_request
  provider_request-IsProviderRequest r provider body request read key h =
      let (routes, configured, h₁) =
        >>=-eq-ok (resolve_provider_routes w.loads w.urlsplit w.routes_json) _ h in
      let (route, found, h₂) = >>=-eq-ok (or_raise (lookup provider routes) _) _ h₁ in
      let at = or_raise-eq-ok (lookup provider routes) _ route found in
      record {
        body = body;
        route = route;
        is_body = read;
        is_configured = (routes, configured, at);
        is_approved =
            (resolve_provider_routes-IsApproved w.loads w.urlsplit w.routes_json routes provider
              route configured at).1;
        with_key = key;
        is_built = h₂;
      }

  send-cases :
      (r : Request) (job_id provider : String) (built : Result ConfigError ProviderRequest)
      → ((request : ProviderRequest) → built ≡ ok request → IsProviderRequest r provider request)
      → (send w job_id built ≡ crashed ∷ []) ⊎ IsForwarded r job_id provider (send w job_id built)
  send-cases r job_id provider (raise unhandled) is = inl refl
  send-cases r job_id provider (raise (configuration detail)) is =
      inr (inl (502, error_payload detail, refl))
  send-cases r job_id provider (ok request) is =
      let attempts = resolve_max_attempts w.max_attempts in
      let (some_left, few) = resolve_max_attempts-bounded w.max_attempts in
      let (retries, within, _, settled, trace) =
        retry-settles w job_id request attempts some_left in
      inr (inr (request, is request refl, attempts, few, retries, within, settled, trace))

  forward-cases :
      (r : Request) (job_id provider : String) (body : List ℕ)
      → read_body r ≡ some body
      → (forward w job_id provider r body ≡ crashed ∷ [])
        ⊎ IsForwarded r job_id provider (forward w job_id provider r body)
  unfolding forward
  forward-cases r job_id provider body read =
      elim (Bool-cases (strip (header_or_empty "x-inference-api-key" r.headers) == "")) [
        | inl missing ↦ inr (
            inl (
              401,
              error_payload "A miner inference API key is required.",
              ground (arith, missing),
            ))
        | inr key ↦
            let cases =
              send-cases r job_id provider
                (provider_request w provider
                  (strip (header_or_empty "x-inference-api-key" r.headers)) r body)
                (λ request. provider_request-IsProviderRequest r provider body request read key) in
            rw (forward, key) cases
      ]

  abbrev pub IsRefused : List Event → Type 0
  IsRefused events =
      (status : ℕ) × (payload : Value) × ((status ≡ 403) ⊎ (status ≡ 413))
      × (events ≡ answered status payload ∷ [])

  post_body-cases :
      (r : Request) (job_id provider : String) (read : Option (List ℕ))
      → read_body r ≡ read
      → (post_body w job_id provider r read ≡ crashed ∷ [])
        ⊎ IsRefused (post_body w job_id provider r read)
        ⊎ IsForwarded r job_id provider (post_body w job_id provider r read)
  post_body-cases r job_id provider none p =
      inr
        (inl (413, error_payload "Inference request exceeds the transport limit.", inr refl, refl))
  post_body-cases r job_id provider (some body) p = elim (forward-cases r job_id provider body p) [
    | inl crash ↦ inl crash
    | inr served ↦ inr (inr served)
  ]

  post_route-cases :
      (r : Request) (found : Result RouteError (String × String))
      → (post_route w r found ≡ crashed ∷ [])
        ⊎ IsRefused (post_route w r found)
        ⊎ ((job_id : String) × (provider : String) × (found ≡ ok (job_id, provider))
            × IsForwarded r job_id provider (post_route w r found))
  post_route-cases r (raise unauthorized) =
      inr
        (inl (403, error_payload "a valid signed job inference route is required", inl refl, refl))
  post_route-cases r (raise invalid_job_id) = inl refl
  post_route-cases r (raise not_configured) = inl refl
  post_route-cases r (raise invalid_provider) = inl refl
  post_route-cases r (raise type_error) = inl refl
  post_route-cases r (ok (job_id, provider)) =
      elim (post_body-cases r job_id provider (read_body r) refl) [
        | inl crash ↦ inl crash
        | inr (inl refusal) ↦ inr (inl refusal)
        | inr (inr served) ↦ inr (inr (job_id, provider, refl, served))
      ]

  do_post-pathless : (r : Request) → r.path ≡ none → do_post w r ≡ crashed ∷ []
  unfolding do_post
  do_post-pathless r p = ground (arith, p)

  do_post-path :
      (r : Request) (path : String)
      → r.path ≡ some path
      → do_post w r ≡ post_route w r (provider_from_route w.hmac w.auth_secret path)
  unfolding do_post
  do_post-path r path p = ground (arith, p)

  -- A POST to the gateway leaves the handler by an exception before anything is sent, or it is
  -- refused with 403 or 413, or its path is a route that the room has signed for a job and a
  -- provider, and then it is refused with one record for this job, or it makes at most four
  -- attempts with one request that the approved route of this provider yields, the last of which
  -- alone decides what is recorded and answered.
  pub do_post-IsForwarded :
      (r : Request)
      → (do_post w r ≡ crashed ∷ [])
        ⊎ IsRefused (do_post w r)
        ⊎ ((path : String) × (job_id : String) × (provider : String) × (r.path ≡ some path)
            × (provider_from_route w.hmac w.auth_secret path ≡ ok (job_id, provider))
            × IsForwarded r job_id provider (do_post w r))
  do_post-IsForwarded r = elim (Option-cases r.path) [
    | inl unread ↦ inl (do_post-pathless r unread)
    | inr (path, p) ↦
        rw (do_post-path r path p)
          (elim (post_route-cases r (provider_from_route w.hmac w.auth_secret path)) [
            | inl crash ↦ inl crash
            | inr (inl refusal) ↦ inr (inl refusal)
            | inr (inr (job_id, provider, found, served)) ↦
                inr (inr (path, job_id, provider, p, found, served))
          ])
  ]
