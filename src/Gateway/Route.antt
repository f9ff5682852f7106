-- ===== src/Gateway/Route.antt =====
-- room/inference_gateway.py: the signed route of a job, as it is minted and as a request is read.
-- `hmac` stands for HMAC-SHA256 with a hexadecimal digest, under the secret's text.
pub mod Shape
pub mod Signed
use kata_tee_runner.Prelude.{
  if◌then◌else◌, ℕ, String, ◌<>◌, Bool, true, false, not, ◌&&◌, Option, none, some, List, ◌==◌,
  string_eq, Result, ok, raise, ◌>>=◌, ◌>>◌, raise_if, or_raise,
}
use kata_tee_runner.Prelude.Text.{codes, after_prefix, is_hex_text}
use kata_tee_runner.Prelude.Cut.{cut}
use kata_tee_runner.Auth.{is_configured, secret, compare_digest}
use kata_tee_runner.Sealing.{is_provider_id}

-- The exceptions: the `ValueError` and the `RuntimeError` of `make_job_route_token`, the two errors
-- of the gateway, and the `TypeError` of `compare_digest`.
pub data RouteError : Type 0 where
  invalid_job_id not_configured invalid_provider unauthorized type_error : RouteError

-- `_require_provider_id` of a text
unfoldable pub require_provider_id : String → Result RouteError String
require_provider_id value = do raise_if (not (is_provider_id value)) invalid_provider; ok value

unfoldable pub route_payload : String → String → String
route_payload job_id provider = "kata-inference-route-v1:" <> (job_id <> (":" <> provider))

-- The groups of `_JOB_ROUTE_PATTERN`.
pub record RouteMatch : Type 0 where
  pub job_id : String
  pub provider : String
  pub signature : String

-- `_JOB_ROUTE_PATTERN.fullmatch(path)`, and the refusal where it is `None`. No group can hold the
-- character that follows it.
unfoldable pub match_route : String → Result RouteError RouteMatch
match_route path = do
  route ← or_raise (after_prefix "/j/" path) unauthorized
  job ← or_raise (cut b'~' route) unauthorized
  provider ← or_raise (cut b'~' job.1) unauthorized
  signature ← or_raise (cut b'/' provider.1) unauthorized
  raise_if (not (signature.1 == "inference")) unauthorized
  raise_if (not (is_hex_text 16 64 job.0)) unauthorized
  raise_if (not (is_provider_id provider.0)) unauthorized
  raise_if (not (is_hex_text 64 64 signature.0)) unauthorized
  ok (record { job_id = job.0; provider = provider.0; signature = signature.0 })

module _ (hmac : String → List ℕ → String) (env : Option String) where
  -- `auth.sign(payload)`
  unfoldable pub sign : String → String
  sign payload = hmac (secret env) (codes payload)

  unfoldable pub make_job_route_token : String → String → Result RouteError String
  unfolding require_provider_id
  make_job_route_token job_id provider = do
    raise_if (not (is_hex_text 16 64 job_id)) invalid_job_id
    provider_id ← require_provider_id provider
    raise_if (not (is_configured env)) not_configured
    ok (job_id <> ("~" <> (provider_id <> ("~" <> sign (route_payload job_id provider_id)))))

  unfoldable pub provider_from_route : String → Result RouteError (String × String)
  provider_from_route path = do
    found ← match_route path
    raise_if (not (is_configured env)) unauthorized
    same ←
        or_raise (compare_digest found.signature (sign (route_payload found.job_id found.provider)))
          type_error
    raise_if (not same) unauthorized
    ok (found.job_id, found.provider)
