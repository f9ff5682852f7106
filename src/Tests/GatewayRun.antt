-- ===== src/Tests/GatewayRun.antt =====
-- room/inference_gateway.py: one provider, which answers on the second attempt.
use kata_tee_runner.Prelude.{
  length, ◌*◌, ℕ, suc, ◌≡◌, ◌⊎◌, ◌↔◌, ◌≤◌, ◌<◌, inl, refl, arith, String, ◌<>◌, true, false, none,
  some, List, [], ◌∷◌, ◌++◌, if◌then◌else◌, ◌==◌, ok, string_eq, nat_eq, list_eq,
}
use native.Mathlib.Decide.{ℕ_discrete}
use kata_tee_runner.Prelude.Dict.{lookup, insert}
use kata_tee_runner.Prelude.Int.{pos, int_eq}
use kata_tee_runner.Prelude.Text.{strip, after_prefix, is_hex_text}
use kata_tee_runner.Prelude.Value.{Value, int, str, obj, end, field}
use kata_tee_runner.Prelude.Cut.{cut}
use kata_tee_runner.Auth.{is_configured, compare_digest}
use kata_tee_runner.Sealing.{is_provider_id}
use kata_tee_runner.Gateway.Route.{
  make_job_route_token, provider_from_route, match_route, sign, route_payload,
}
use kata_tee_runner.Gateway.Route.Signed.{provider_from_route_iff}
use kata_tee_runner.Gateway.Providers.{
  Url, ProviderRoute, resolve_provider_routes, provider_routes, provider_route,
  require_provider_id as require_route_id, validate_header, validate_headers, validate_upstream,
  occurs, is_header_name, is_one_line,
}
use kata_tee_runner.Gateway.Providers.Approved.{IsApproved, resolve_provider_routes-IsApproved}
use kata_tee_runner.Gateway.Headers.{
  lower, rendered, ProviderRequest, skip_request_headers, protected_headers, safe_request_headers,
  build_provider_request, without, set_all, set_default, render_auth_value,
}
use kata_tee_runner.Gateway.Headers.Outgoing.{IsOutgoing, build_provider_request-IsOutgoing}
use kata_tee_runner.Gateway.Forward.{
  Outcome, responded, http_error, Request, World, Event, range, retry, do_post,
}
use kata_tee_runner.Gateway.Forward.Attempts.{is_transient, rounds, ending, retry-settles}
use kata_tee_runner.Gateway.Forward.Replies.{IsRefused, IsForwarded, do_post-IsForwarded}
use kata_tee_runner.Gateway.Forward.Settled.{IsOnce, do_post-IsOnce}
use kata_tee_runner.Gateway.Usage.{
  counter, payload_tokens, extract_reported_tokens, first_sum, first_total, reported,
}
use kata_tee_runner.Prelude.Numbers.{int_of, digits_from, signed}
use kata_tee_runner.Prelude.Text.{decimal, decimal_from, digit, lstrip, rstrip}
use kata_tee_runner.Gateway.Forward.{
  forward, provider_request, kept_response_headers, relay_response, resolve_max_attempts, settle,
  read_body, values_of,
}
use kata_tee_runner.Gateway.Headers.{skip_response_headers}
use kata_tee_runner.Auth.{secret}
use kata_tee_runner.Gateway.Recorded.Counted.{IsRemoved, summarize_job_inference-post_all}
use kata_tee_runner.Gateway.Recorded.{Post, outcomes_of, post_all, all_outcomes, routed}
use kata_tee_runner.Gateway.Usage.{max_tokens}
use kata_tee_runner.Gateway.Status.{summary_value, summarize_job_inference}
use kata_tee_runner.Gateway.Status.Counts.{tally, total, buckets}

abbrev signature : String
signature = "0123456789abcdef0123456789abcdef0123456789abcdef0123456789abcdef"

abbrev job : String
job = "00112233445566778899aabbccddeeff"

abbrev hmac : String → List ℕ → String
hmac key message = signature

abbrev path : String
path =
    "/j/00112233445566778899aabbccddeeff~openrouter~0123456789abcdef0123456789abcdef0123456789abcdef0123456789abcdef/inference"

abbrev config : Value
config = obj (field "openrouter" (obj (field "upstream" (str "https://upstream") end)) end)

abbrev url : Url
url = record { scheme = "https"; netloc = "upstream"; username = none; password = none }

abbrev route : ProviderRoute
route = record {
  upstream = "https://upstream";
  auth_header = "Authorization";
  auth_value_template = "Bearer {api_key}";
  headers = [];
}

abbrev answers : ProviderRequest → ℕ → Outcome
answers request attempt =
    if attempt == 1 then http_error 503 [] (some []) else responded 200 [] (1 ∷ [])

abbrev pub world : World
world = record {
  hmac = hmac;
  auth_secret = some "secret";
  routes_json = "{}";
  max_attempts = "3";
  loads = λ s. some config;
  loads_bytes = λ b. ok (obj (field "usage" (obj (field "total_tokens" (int (pos 7)) end)) end));
  urlsplit = λ s. some url;
  format = λ template key. rendered "Bearer sk-1";
  upstream = answers;
}

abbrev pub request : Request
request = record {
  path = some path;
  headers = ("x-inference-api-key", "sk-1") ∷ ("Accept", "*/*") ∷ ("Content-Length", "1") ∷ [];
  body = 1 ∷ [];
}

abbrev sent : ProviderRequest
sent = record {
  url = "https://upstream";
  body = 1 ∷ [];
  headers =
      ("Accept", "*/*")
      ∷ ("Content-Type", "application/json")
      ∷ ("Authorization", "Bearer sk-1")
      ∷ [];
}

served : provider_from_route hmac (some "secret") path ≡ ok (job, "openrouter")
unfolding provider_from_route match_route sign route_payload cut after_prefix is_provider_id
    is_configured compare_digest string_eq nat_eq ℕ_discrete strip
served = refl

provider_from_route_iff_example :
    (provider_from_route hmac (some "secret") path ≡ ok (job, "openrouter")) ↔ (
      (token : String) × (make_job_route_token hmac (some "secret") job "openrouter" ≡ ok token)
      × (path ≡ "/j/" <> (token <> "/inference")))
provider_from_route_iff_example =
    provider_from_route_iff hmac (some "secret") path job "openrouter" (λ key message. refl)

resolve_provider_routes-IsApproved_example :
    (is_provider_id "openrouter" ≡ true) × IsApproved (λ s. some url) route
unfolding resolve_provider_routes provider_routes provider_route require_route_id is_provider_id
    validate_header validate_headers validate_upstream occurs is_header_name insert lookup strip
    string_eq nat_eq ℕ_discrete
resolve_provider_routes-IsApproved_example =
    resolve_provider_routes-IsApproved (λ s. some config) (λ s. some url) "{}"
      (("openrouter", route) ∷ []) "openrouter" route refl refl

build_provider_request-IsOutgoing_example :
    (sent.url ≡ "https://upstream")
    × (sent.body ≡ 1 ∷ [])
    × (auth : String) × (rendered "Bearer sk-1" ≡ rendered auth)
    × (is_one_line auth ≡ true)
    × (lookup "Authorization" sent.headers ≡ some auth)
    × IsOutgoing route auth request.headers "Accept" "*/*"
unfolding build_provider_request safe_request_headers without protected_headers skip_request_headers
    set_all set_default render_auth_value lower lookup insert string_eq nat_eq list_eq ℕ_discrete
build_provider_request-IsOutgoing_example =
    build_provider_request-IsOutgoing (λ template key. rendered "Bearer sk-1") "sk-1" (1 ∷ []) route
      request.headers sent "Accept" "*/*" (inl (refl, refl)) refl

retry-settles_example :
    (retries : ℕ) × (retries < 3)
    × ((k : ℕ) → (retries ≤ k) ⊎ (is_transient (answers sent (suc k)) ≡ true))
    × ((3 ≡ suc retries) ⊎ (is_transient (answers sent (suc retries)) ≡ false))
    × (retry world job sent 3 (range 1 3)
        ≡ rounds sent 1 retries ++ ending world job sent 3 (answers sent (suc retries)))
retry-settles_example = retry-settles world job sent 3 (omega arith)

do_post-IsForwarded_example :
    (do_post world request ≡ Event.crashed ∷ [])
    ⊎ IsRefused world (do_post world request)
    ⊎ ((p : String) × (job_id : String) × (provider : String) × (some path ≡ some p)
        × (provider_from_route hmac (some "secret") p ≡ ok (job_id, provider))
        × IsForwarded world request job_id provider (do_post world request))
do_post-IsForwarded_example = do_post-IsForwarded world request

do_post-IsOnce_example : IsOnce (do_post world request)
do_post-IsOnce_example = do_post-IsOnce world request

-- Two POSTs of the job, whose provider fails once in each. The line of the second is lost.
abbrev posts : List Post
posts = (world, request, true) ∷ (world, request, false) ∷ []

summarize_job_inference-post_all_example :
    ((summarize_job_inference true false job (post_all posts [])).0
      ≡ some (summary_value (tally (all_outcomes job posts))))
    × (buckets (tally (all_outcomes job posts)) ≡ length (all_outcomes job posts))
    × (length (all_outcomes job posts) ≤ routed job posts)
    × (total (all_outcomes job posts) ≤ max_tokens * length (all_outcomes job posts))
    × IsRemoved false job
        (post_all posts [])
        (summarize_job_inference true false job (post_all posts [])).1
unfolding lookup is_hex_text
summarize_job_inference-post_all_example =
    summarize_job_inference-post_all true false job posts [] refl refl

records_call : outcomes_of job (do_post world request) ≡ (200, 7) ∷ []
unfolding do_post provider_from_route match_route after_prefix nat_eq cut string_eq is_provider_id
    is_configured strip compare_digest sign read_body values_of list_eq lower int_of forward secret
    kept_response_headers provider_request relay_response resolve_max_attempts retry settle
    build_provider_request protected_headers render_auth_value safe_request_headers set_all
    set_default skip_request_headers skip_response_headers without is_header_name occurs
    provider_route provider_routes require_route_id resolve_provider_routes validate_header
    validate_headers validate_upstream route_payload counter extract_reported_tokens payload_tokens
    first_sum first_total reported insert lookup digits_from signed decimal decimal_from digit
    lstrip rstrip ℕ_discrete
records_call = refl
