-- ===== src/Gateway/Providers.antt =====
-- room/inference_gateway.py: the provider routes that the deployment configures. `loads` stands for
-- `json.loads` of a text, and is `none` where that raises; `urlsplit` is `none` where that raises.
pub mod Approved
use kata_tee_runner.Prelude.{
  ℕ, String, ◌<>◌, Bool, true, false, not, ◌&&◌, ◌||◌, Option, none, some, List, [], ◌∷◌, length,
  all, contains, leb, if◌then◌else◌, ◌==◌, string_eq, nat_eq, Result, ok, raise, ◌>>=◌, ◌>>◌,
  raise_if, or_raise,
}
use kata_tee_runner.Prelude.Dict.{Dict, keys, lookup, insert}
use kata_tee_runner.Prelude.Text.{Codes, codes, is_lower, is_digit, strip, strip_prefix}
use kata_tee_runner.Prelude.Value.{Value, Fields, str, obj, end, as_str, as_dict}
use kata_tee_runner.Sealing.{is_provider_id}

-- A `GatewayConfigurationError` with its message; `unhandled` is any other exception.
pub data ConfigError : Type 0 where
  configuration : String → ConfigError
  unhandled : ConfigError

pub record Url : Type 0 where
  pub scheme : String
  pub netloc : String
  pub username : Option String
  pub password : Option String

pub record ProviderRoute : Type 0 where
  pub upstream : String
  pub auth_header : String
  pub auth_value_template : String
  pub headers : Dict String String

-- `_PROVIDER_PATTERN` of a key of the configuration
unfoldable pub require_provider_id : String → Result ConfigError String
require_provider_id value = do
  raise_if (not (is_provider_id value))
      (configuration "provider route names must use lowercase letters, digits, _ or -")
  ok value

-- The class of `_HEADER_NAME_PATTERN`.
abbrev pub is_token_code : ℕ → Bool
is_token_code c =
    (leb b'A' c && leb c b'Z') || is_lower c || is_digit c || contains (codes "!#$%&'*+.^_`|~-") c

unfoldable pub is_header_name : String → Bool
is_header_name name = leb 1 (length (codes name)) && all is_token_code (codes name)

abbrev pub is_one_line : String → Bool
is_one_line value = all (λ c. not (c == 13) && not (c == 10)) (codes value)

unfoldable pub validate_header : Value → Value → Result ConfigError (String × String)
validate_header name value = do
  n ← or_raise (as_str name) (configuration "provider route has an invalid header name")
  raise_if (not (is_header_name n)) (configuration "provider route has an invalid header name")
  v ← or_raise (as_str value) (configuration "provider route has an invalid header value")
  raise_if (not (is_one_line v)) (configuration "provider route has an invalid header value")
  ok (n, v)

unfoldable pub validate_headers : Dict String Value → Result ConfigError (Dict String String)
validate_headers [] = ok []
validate_headers ((name, value) ∷ rest) = do
  first ← validate_header (str name) value
  others ← validate_headers rest
  ok (first ∷ others)

-- `template.find("{api_key}") != -1`
unfoldable pub occurs : Codes → Codes → Bool
occurs sought [] = elim (strip_prefix sought []) [ none ↦ false | some _ ↦ true ]
occurs sought (c ∷ cs) = elim (strip_prefix sought (c ∷ cs)) [
  | none ↦ occurs sought cs
  | some _ ↦ true
]

abbrev is_given : Option String → Bool
is_given none = false
is_given (some s) = not (s == "")

abbrev pub is_upstream : Url → Bool
is_upstream url =
    (url.scheme == "http" || url.scheme == "https")
    && not (url.netloc == "")
    && not (is_given url.username)
    && not (is_given url.password)

-- `d.get(k, default)`
abbrev pub get : String → Value → Dict String Value → Value
get k default d = elim (lookup k d) [ none ↦ default | some v ↦ v ]

abbrev pub route_fields : List String
route_fields = "upstream" ∷ "auth_header" ∷ "auth_value_template" ∷ "headers" ∷ []

-- `f"provider route {provider_id!r} ..."`
abbrev about_route : String → String → ConfigError
about_route provider_id what = configuration ("provider route '" <> (provider_id <> ("' " <> what)))

abbrev pub config_name : String
config_name = "KATA_INFERENCE_GATEWAY_PROVIDER_ROUTES_JSON"

module _ (loads : String → Option Value) (urlsplit : String → Option Url) where
  unfoldable pub validate_upstream : Option Value → Result ConfigError String
  validate_upstream value = do
    given ← or_raise value (configuration "provider route requires an upstream URL")
    text ← or_raise (as_str given) (configuration "provider route requires an upstream URL")
    raise_if (strip text == "") (configuration "provider route requires an upstream URL")
    url ← or_raise (urlsplit (strip text)) unhandled
    raise_if (not (is_upstream url))
        (configuration "provider route upstream must be an absolute HTTP(S) URL")
    ok (strip text)

  -- The body of the loop of `resolve_provider_routes`, past `_require_provider_id`.
  unfoldable pub provider_route : String → Value → Result ConfigError ProviderRoute
  unfolding occurs
  provider_route provider_id value = do
    route ← or_raise (as_dict value) (about_route provider_id "must be an object")
    raise_if (not (all (contains route_fields) (keys route)))
        (about_route provider_id "has unsupported fields")
    auth ← validate_header (get "auth_header" (str "Authorization") route) (str "")
    template ←
        or_raise (as_str (get "auth_value_template" (str "Bearer {api_key}") route))
          (about_route provider_id "auth_value_template must contain {api_key}")
    raise_if (not (occurs (codes "{api_key}") (codes template)))
        (about_route provider_id "auth_value_template must contain {api_key}")
    raw_headers ←
        or_raise (as_dict (get "headers" (obj end) route))
          (about_route provider_id "headers must be an object")
    headers ← validate_headers raw_headers
    upstream ← validate_upstream (lookup "upstream" route)
    ok (record {
      upstream = upstream;
      auth_header = auth.0;
      auth_value_template = template;
      headers = headers;
    })

  unfoldable pub provider_routes :
      Dict String ProviderRoute → Dict String Value → Result ConfigError (Dict String ProviderRoute)
  provider_routes routes [] = ok routes
  provider_routes routes ((provider, value) ∷ rest) = do
    provider_id ← require_provider_id provider
    route ← provider_route provider_id value
    provider_routes (insert provider_id route routes) rest

  -- `resolve_provider_routes()`, where `raw` is the stripped variable, "" where it is not set
  unfoldable pub resolve_provider_routes : String → Result ConfigError (Dict String ProviderRoute)
  resolve_provider_routes raw = do
    raise_if (raw == "") (configuration (config_name <> " must configure at least one provider"))
    parsed ← or_raise (loads raw) (configuration (config_name <> " must be a JSON object"))
    configured ←
        or_raise (as_dict parsed)
          (configuration (config_name <> " must be a non-empty JSON object"))
    raise_if (length configured == 0)
        (configuration (config_name <> " must be a non-empty JSON object"))
    provider_routes [] configured
