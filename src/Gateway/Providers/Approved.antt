-- ===== src/Gateway/Providers/Approved.antt =====
-- What the gateway's configuration must look like for a route to come out of it.
use kata_tee_runner.Prelude.{
  ◌≡◌, arith, String, Bool, true, not, ◌&&◌, Option, some, [], ◌∷◌, all, contains, length, ◌==◌,
  string_eq, nat_eq, ok, >>=-eq-ok, >>-eq-ok, or_raise, or_raise-eq-ok,
}
use kata_tee_runner.Prelude.Dict.{Dict, keys, lookup, insert, lookup-nil, lookup-insert}
use kata_tee_runner.Prelude.Text.{codes, strip}
use kata_tee_runner.Prelude.Value.{Value, str, as_str, as_dict}
use kata_tee_runner.Sealing.{is_provider_id}
use kata_tee_runner.Gateway.Providers.{
  unhandled, Url, ProviderRoute, require_provider_id, is_header_name, is_one_line, validate_header,
  validate_headers, occurs, is_upstream, get, validate_upstream, provider_route, provider_routes,
  resolve_provider_routes, route_fields,
}

abbrev is_header : String × String → Bool
is_header (name, value) = is_header_name name && is_one_line value

-- What the gateway relies on in a route.
pub record IsApproved (urlsplit : String → Option Url) (route : ProviderRoute) : Type 0 where
  pub auth_header : is_header_name route.auth_header ≡ true
  pub template : occurs (codes "{api_key}") (codes route.auth_value_template) ≡ true
  pub headers : all is_header route.headers ≡ true
  pub upstream : (url : Url) × (urlsplit route.upstream ≡ some url) × (is_upstream url ≡ true)

validate_header-eq-ok :
    (name value : Value) (h : String × String)
    → validate_header name value ≡ ok h
    → is_header h ≡ true
unfolding validate_header
validate_header-eq-ok name value h e = ground arith

validate_headers-eq-ok :
    (given : Dict String Value) (hs : Dict String String)
    → validate_headers given ≡ ok hs
    → all is_header hs ≡ true
unfolding validate_headers
validate_headers-eq-ok [] hs e = ground arith
validate_headers-eq-ok ((name, value) ∷ rest) hs e =
    let (first, p, e₁) = >>=-eq-ok (validate_header (str name) value) _ e in
    let (others, q, e₂) = >>=-eq-ok (validate_headers rest) _ e₁ in
    ground
      (arith, validate_header-eq-ok (str name) value first p, validate_headers-eq-ok rest others q)

module _ (loads : String → Option Value) (urlsplit : String → Option Url) where
  validate_upstream-eq-ok :
      (value : Option Value) (upstream : String)
      → validate_upstream loads urlsplit value ≡ ok upstream
      → (url : Url) × (urlsplit upstream ≡ some url) × (is_upstream url ≡ true)
  unfolding validate_upstream
  validate_upstream-eq-ok value upstream e =
      let (given, g, e₁) = >>=-eq-ok (or_raise value _) _ e in
      let (text, t, e₂) = >>=-eq-ok (or_raise (as_str given) _) _ e₁ in
      let (full, e₃) = >>-eq-ok (strip text == "") _ _ e₂ in
      let (url, u, e₄) = >>=-eq-ok (or_raise (urlsplit (strip text)) unhandled) _ e₃ in
      let (good, e₅) = >>-eq-ok (not (is_upstream url)) _ _ e₄ in
      let same : strip text ≡ upstream = ground (arith, e₅) in
      rw (← same) (url, or_raise-eq-ok _ unhandled url u, ground (arith, good))

  provider_route-IsApproved :
      (provider_id : String) (value : Value) (route : ProviderRoute)
      → provider_route loads urlsplit provider_id value ≡ ok route
      → IsApproved urlsplit route
  unfolding provider_route
  provider_route-IsApproved provider_id value route e =
      let (fields, f, e₁) = >>=-eq-ok (or_raise (as_dict value) _) _ e in
      let (known, e₂) = >>-eq-ok (not (all (contains route_fields) (keys fields))) _ _ e₁ in
      let (auth, a, e₃) = >>=-eq-ok (validate_header _ (str "")) _ e₂ in
      let (template, t, e₄) =
        >>=-eq-ok (or_raise (as_str (get "auth_value_template" _ fields)) _) _ e₃ in
      let (placed, e₅) = >>-eq-ok (not (occurs (codes "{api_key}") (codes template))) _ _ e₄ in
      let (raw, r, e₆) = >>=-eq-ok (or_raise (as_dict (get "headers" _ fields)) _) _ e₅ in
      let (headers, h, e₇) = >>=-eq-ok (validate_headers raw) _ e₆ in
      let (upstream, u, e₈) =
        >>=-eq-ok (validate_upstream loads urlsplit (lookup "upstream" fields)) _ e₇ in
      let result : record {
        upstream = upstream;
        auth_header = auth.0;
        auth_value_template = template;
        headers = headers;
      }
          ≡ route =
        ground (arith, e₈) in
      rw (← result) (record {
        auth_header = ground (arith, validate_header-eq-ok _ _ auth a);
        template = ground (arith, placed);
        headers = validate_headers-eq-ok raw headers h;
        upstream = validate_upstream-eq-ok _ upstream u;
      })

  abbrev IsServed : Dict String ProviderRoute → Type 0
  IsServed routes =
      (id : String) (route : ProviderRoute)
      → lookup id routes ≡ some route
      → (is_provider_id id ≡ true) × IsApproved urlsplit route

  insert-IsServed :
      (routes : Dict String ProviderRoute) (id : String) (route : ProviderRoute)
      → IsServed routes
      → is_provider_id id ≡ true
      → IsApproved urlsplit route
      → IsServed (insert id route routes)
  insert-IsServed routes id route served valid approved other r h =
      let at = lookup-insert other id route routes in
      elim (string_eq.dec other id) [
        | yes same ↦ let is : route ≡ r = ground (arith, at, h) in rw (same, ← is) (valid, approved)
        | no differ ↦ served other r (ground (arith, at, h))
      ]

  provider_routes-IsServed :
      (given : Dict String Value) (routes found : Dict String ProviderRoute)
      → IsServed routes
      → provider_routes loads urlsplit routes given ≡ ok found
      → IsServed found
  unfolding provider_routes require_provider_id
  provider_routes-IsServed [] routes found served e =
      let same : routes ≡ found = ground (arith, e) in rw (← same) served
  provider_routes-IsServed ((provider, value) ∷ rest) routes found served e =
      let (id, p, e₁) = >>=-eq-ok (require_provider_id provider) _ e in
      let (route, q, e₂) = >>=-eq-ok (provider_route loads urlsplit id value) _ e₁ in
      provider_routes-IsServed rest (insert id route routes) found
        (insert-IsServed routes id route served (ground (arith, p))
          (provider_route-IsApproved id value route q))
        e₂

  -- Every route that `resolve_provider_routes` returns stands under a provider id, has an
  -- authorization header with a valid name, a template that contains the key's placeholder, further
  -- headers with valid names and values of one line, and an upstream that is an absolute HTTP(S)
  -- URL without credentials.
  pub resolve_provider_routes-IsApproved :
      (raw : String) (routes : Dict String ProviderRoute) (id : String) (route : ProviderRoute)
      → resolve_provider_routes loads urlsplit raw ≡ ok routes
      → lookup id routes ≡ some route
      → (is_provider_id id ≡ true) × IsApproved urlsplit route
  unfolding resolve_provider_routes
  resolve_provider_routes-IsApproved raw routes id route e found =
      let (given, e₁) = >>-eq-ok (raw == "") _ _ e in
      let (parsed, p, e₂) = >>=-eq-ok (or_raise (loads raw) _) _ e₁ in
      let (configured, c, e₃) = >>=-eq-ok (or_raise (as_dict parsed) _) _ e₂ in
      let (some_route, e₄) = >>-eq-ok (length configured == 0) _ _ e₃ in
      provider_routes-IsServed configured [] routes nothing e₄ id route found
    where
      nothing : IsServed []
      nothing other r h = absurd (ground (arith, lookup-nil {V = ProviderRoute} other, h))
