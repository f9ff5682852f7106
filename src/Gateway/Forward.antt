-- ===== src/Gateway/Forward.antt =====
-- room/inference_gateway.py, `MinerInferenceGatewayHandler`: what it does on a request, as the
-- sequence of its effects. The pause before a retry is given by the attempt that it follows, whose
-- length is in Gateway/Timing.antt. The log is left out, and a response is taken to be sent.
pub mod Attempts
pub mod Replies
pub mod Settled
use kata_tee_runner.Prelude.{
  ℕ, zero, suc, ◌*◌, String, ◌<>◌, Bool, true, false, not, ◌&&◌, Option, none, some, List, [], ◌∷◌,
  ◌++◌, length, take, contains, leb, ltb, if◌then◌else◌, ◌==◌, string_eq, list_eq, nat_eq, Result,
  ok, raise, ◌>>=◌, or_raise,
}
use kata_tee_runner.Prelude.Dict.{Dict, lookup}
use kata_tee_runner.Prelude.Int.{pos, negsuc}
use kata_tee_runner.Prelude.Numbers.{int_of}
use kata_tee_runner.Prelude.Text.{Codes, codes, strip, decimal}
use kata_tee_runner.Prelude.Value.{Value, str, obj, end, field}
use kata_tee_runner.Gateway.Route.{RouteError, unauthorized, provider_from_route}
use kata_tee_runner.Gateway.Providers.{
  ConfigError, configuration, unhandled, Url, ProviderRoute, resolve_provider_routes,
}
use kata_tee_runner.Gateway.Headers.{
  lower, skip_response_headers, safe_request_headers, Formatted, ProviderRequest,
  build_provider_request,
}
use kata_tee_runner.Gateway.Usage.{LoadError, extract_reported_tokens}

-- What becomes of one call of `urlopen` with the reading of the response: a response, an
-- `HTTPError`, whose body is `none` where reading it raises, a `URLError` with its reason, or another
-- exception.
pub data Outcome : Type 0 where
  responded : ℕ → Dict String String → List ℕ → Outcome
  http_error : ℕ → Dict String String → Option (List ℕ) → Outcome
  unreachable : String → Outcome
  interrupted : Outcome

-- The effects in the order in which they happen: a request to the provider, a pause after an attempt,
-- a line in the job's record, a response of the provider that is passed on, a response of the
-- gateway's own, and an exception that leaves the handler.
pub data Event : Type 0 where
  requested : ProviderRequest → Event
  waited : ℕ → Event
  recorded : String → ℕ → ℕ → Event
  relayed : ℕ → Dict String String → List ℕ → Event
  answered : ℕ → Value → Event
  crashed : Event

-- The request as the server reads it; `path` is `none` where `urlsplit` raises.
pub record Request : Type 0 where
  pub path : Option String
  pub headers : Dict String String
  pub body : List ℕ

-- What the handler calls elsewhere and takes from the environment, whose variables are stripped.
pub record World : Type 0 where
  pub hmac : String → List ℕ → String
  pub auth_secret : Option String
  pub routes_json : String
  pub max_attempts : String
  pub loads : String → Option Value
  pub loads_bytes : List ℕ → Result LoadError Value
  pub urlsplit : String → Option Url
  pub format : String → String → Formatted
  pub upstream : ProviderRequest → ℕ → Outcome

unfoldable pub resolve_max_attempts : String → ℕ
resolve_max_attempts raw =
    if raw == ""
    then 2
    else elim (int_of raw) [ some (pos n) ↦ if leb 1 n && leb n 4 then n else 2 | _ ↦ 2 ]

-- The values of a header in `self.headers`, whose names have no case.
unfoldable pub values_of : String → Dict String String → List String
values_of name [] = []
values_of name ((key, value) ∷ items) =
    let rest = values_of name items in if lower key == lower name then value ∷ rest else rest

abbrev pub header_or_empty : String → Dict String String → String
header_or_empty name items = elim (values_of name items) [ [] ↦ "" | value ∷ _ ↦ value ]

abbrev pub max_request_bytes : ℕ
max_request_bytes = 1024 * 1024

-- `_read_body()`
unfoldable pub read_body : Request → Option (List ℕ)
read_body r =
    if not (header_or_empty "Transfer-Encoding" r.headers == "")
    then none
    else elim (values_of "Content-Length" r.headers) [
      | [] ↦ some []
      | first ∷ [] ↦ elim (int_of first) [
        | some (pos n) ↦ if ltb max_request_bytes n then none else some (take n r.body)
        | _ ↦ none
      ]
      | _ ↦ none
    ]

abbrev pub error_payload : String → Value
error_payload detail = obj (field "status" (str "error") (field "detail" (str detail) end))

unfoldable pub kept_response_headers : Dict String String → Dict String String
kept_response_headers [] = []
kept_response_headers ((key, value) ∷ items) =
    let rest = kept_response_headers items in
    if contains skip_response_headers (lower key) then rest else (key, value) ∷ rest

-- `_relay_response`
unfoldable pub relay_response : ℕ → Dict String String → List ℕ → Event
unfolding kept_response_headers
relay_response status items body =
    relayed status
      (kept_response_headers items
        ++ ("Connection", "close") ∷ ("Content-Length", decimal (length body)) ∷ [])
      body

-- `_RETRYABLE_UPSTREAM_STATUS`
abbrev pub is_retryable : ℕ → Bool
is_retryable = contains (502 ∷ 503 ∷ 504 ∷ [])

-- `range(first, first + count)`
abbrev pub range : ℕ → ℕ → List ℕ
range first zero = []
range first (suc count) = first ∷ range (suc first) count

-- A response of the provider, once its tokens are counted
abbrev pub respond : String → ℕ → Dict String String → List ℕ → Option ℕ → List Event
respond job_id status items body none = crashed ∷ []
respond job_id status items body (some tokens) =
    recorded job_id status tokens ∷ relay_response status items body ∷ []

-- An error of the provider: it is recorded, and then its body is read.
abbrev pub relay_error : String → ℕ → Dict String String → Option (List ℕ) → List Event
relay_error job_id code items none = recorded job_id code 0 ∷ crashed ∷ []
relay_error job_id code items (some body) =
    recorded job_id code 0 ∷ relay_response code items body ∷ []

module _ (w : World) where
  -- The body of the loop of `_forward` past `urlopen`; `rest` is what the later attempts do.
  unfoldable pub settle : String → ℕ → ℕ → List Event → Outcome → List Event
  settle job_id attempts attempt rest (responded status items body) =
      respond job_id status items body (extract_reported_tokens (w.loads_bytes body))
  settle job_id attempts attempt rest (http_error code items body) =
      if is_retryable code && ltb attempt attempts
      then waited attempt ∷ rest
      else relay_error job_id code items body
  settle job_id attempts attempt rest (unreachable reason) =
      if ltb attempt attempts
      then waited attempt ∷ rest
      else recorded job_id 0 0
        ∷ answered 502 (
            error_payload (
              "gateway could not reach provider after "
              <> decimal attempts
              <> " attempt(s): "
              <> reason))
        ∷ []
  settle job_id attempts attempt rest interrupted = crashed ∷ []

  unfoldable pub retry : String → ProviderRequest → ℕ → List ℕ → List Event
  unfolding settle
  retry job_id request attempts [] = []
  retry job_id request attempts (attempt ∷ later) =
      let rest = retry job_id request attempts later in
      requested request ∷ settle job_id attempts attempt rest (w.upstream request attempt)

  -- The `try` of `_forward` around the route and the request.
  unfoldable pub provider_request :
      String → String → Request → List ℕ → Result ConfigError ProviderRequest
  provider_request provider api_key r body = do
    routes ← resolve_provider_routes w.loads w.urlsplit w.routes_json
    route ←
        or_raise (lookup provider routes)
          (configuration "the sealed credential provider is not enabled")
    build_provider_request w.format api_key body route (safe_request_headers r.headers)

  abbrev send : String → Result ConfigError ProviderRequest → List Event
  send job_id (raise unhandled) = crashed ∷ []
  send job_id (raise (configuration detail)) =
      recorded job_id 502 0 ∷ answered 502 (error_payload detail) ∷ []
  send job_id (ok request) =
      let attempts = resolve_max_attempts w.max_attempts in
      retry job_id request attempts (range 1 attempts)

  unfoldable pub forward : String → String → Request → List ℕ → List Event
  unfolding retry provider_request
  forward job_id provider r body =
      let api_key = strip (header_or_empty "x-inference-api-key" r.headers) in
      if api_key == ""
      then recorded job_id 401 0
        ∷ answered 401 (error_payload "A miner inference API key is required.")
        ∷ []
      else send job_id (provider_request provider api_key r body)

  -- `do_POST` past `_read_body`.
  abbrev pub post_body : String → String → Request → Option (List ℕ) → List Event
  post_body job_id provider r none =
      answered 413 (error_payload "Inference request exceeds the transport limit.") ∷ []
  post_body job_id provider r (some body) = forward job_id provider r body

  -- `do_POST` past `_provider_from_route`.
  abbrev pub post_route : Request → Result RouteError (String × String) → List Event
  post_route r (raise unauthorized) =
      answered 403 (error_payload "a valid signed job inference route is required") ∷ []
  post_route r (raise _) = crashed ∷ []
  post_route r (ok (job_id, provider)) = post_body job_id provider r (read_body r)

  unfoldable pub do_post : Request → List Event
  do_post r = elim r.path [
    | none ↦ crashed ∷ []
    | some path ↦ post_route r (provider_from_route w.hmac w.auth_secret path)
  ]

-- `do_GET`
unfoldable pub do_get : Request → List Event
do_get r = elim r.path [
  | none ↦ crashed ∷ []
  | some path ↦
      if path == "/healthz"
      then answered 200
          (obj (field "status" (str "ok") (field "service" (str "miner-inference-gateway") end)))
        ∷ []
      else answered 404 (error_payload "Only gateway health is available.") ∷ []
]
