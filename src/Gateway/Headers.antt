-- ===== src/Gateway/Headers.antt =====
-- room/inference_gateway.py: the request that goes to a provider. `format` stands for
-- `template.format(api_key=api_key)`. The names of headers are ASCII: the server reads no other, and
-- `_validate_header` lets no other pass.
pub mod Outgoing
use kata_tee_runner.Prelude.{
  ℕ, ◌+◌, String, Bool, true, false, not, ◌&&◌, Option, none, some, List, [], ◌∷◌, map, contains,
  leb, if◌then◌else◌, ◌==◌, string_eq, list_eq, nat_eq, Result, ok, raise, ◌>>=◌, ◌>>◌, raise_if,
  or_raise,
}
use kata_tee_runner.Prelude.Dict.{Dict, keys, lookup, insert}
use kata_tee_runner.Prelude.Text.{Codes, codes}
use kata_tee_runner.Gateway.Providers.{
  ConfigError, configuration, unhandled, ProviderRoute, is_one_line,
}

-- `name.lower()`, as code points
unfoldable pub lower : String → Codes
lower name = map (λ c. if leb b'A' c && leb c b'Z' then c + 32 else c) (codes name)

unfoldable pub skip_request_headers : List Codes
skip_request_headers = map codes (
    "connection" ∷ "keep-alive" ∷ "proxy-authenticate" ∷ "proxy-authorization" ∷ "te" ∷ "trailers"
    ∷ "transfer-encoding" ∷ "upgrade" ∷ "host" ∷ "content-length" ∷ "authorization"
    ∷ "x-inference-api-key" ∷ "x-inference-provider" ∷ [])

unfoldable pub skip_response_headers : List Codes
skip_response_headers = map codes (
    "connection" ∷ "keep-alive" ∷ "proxy-authenticate" ∷ "proxy-authorization" ∷ "te" ∷ "trailers"
    ∷ "transfer-encoding" ∷ "upgrade" ∷ "content-length" ∷ [])

-- `{key: value for key, value in items if key.lower() not in names}`, onto the entries so far
unfoldable pub without : List Codes → Dict String String → Dict String String → Dict String String
without names found [] = found
without names found ((key, value) ∷ items) =
    without names (if contains names (lower key) then found else insert key value found) items

-- `_safe_request_headers()`, of `self.headers.items()`
unfoldable pub safe_request_headers : Dict String String → Dict String String
safe_request_headers items = without skip_request_headers [] items

-- What `template.format(api_key=api_key)` returns or raises: an `IndexError`, `KeyError` or
-- `ValueError`, or another exception.
pub data Formatted : Type 0 where
  rendered : String → Formatted
  rejected failed : Formatted

unfoldable pub render_auth_value : Formatted → Result ConfigError String
render_auth_value rejected = raise (configuration "provider auth_value_template must use {api_key}")
render_auth_value failed = raise unhandled
render_auth_value (rendered value) = do
  raise_if (not (is_one_line value))
      (configuration "provider auth_value_template produced an invalid value")
  ok value

-- The `Request` of urllib; its method is POST.
pub record ProviderRequest : Type 0 where
  pub url : String
  pub body : List ℕ
  pub headers : Dict String String

unfoldable pub protected_headers : ProviderRoute → List Codes
protected_headers route = lower route.auth_header ∷ map lower (keys route.headers)

unfoldable pub set_default : String → String → Dict String String → Dict String String
set_default key value d = elim (lookup key d) [ none ↦ insert key value d | some _ ↦ d ]

unfoldable pub set_all : Dict String String → Dict String String → Dict String String
set_all [] d = d
set_all ((key, value) ∷ rest) d = set_all rest (insert key value d)

-- `_build_provider_request`
unfoldable pub build_provider_request :
    (String → String → Formatted)
    → String
    → List ℕ
    → ProviderRoute
    → Dict String String
    → Result ConfigError ProviderRequest
build_provider_request format api_key body route request_headers = do
  let kept = without (protected_headers route) [] request_headers
  let configured = set_all route.headers (set_default "Content-Type" "application/json" kept)
  value ← render_auth_value (format route.auth_value_template api_key)
  ok (record {
    url = route.upstream;
    body = body;
    headers = insert route.auth_header value configured;
  })
