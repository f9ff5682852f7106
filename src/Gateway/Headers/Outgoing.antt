-- ===== src/Gateway/Headers/Outgoing.antt =====
-- Whose headers a provider's request carries.
use kata_tee_runner.Prelude.{
  ℕ, ◌≡◌, ◌⊎◌, inl, inr, refl, sym, ◌∙◌, arith, String, true, false, some, List, [], ◌∷◌, contains,
  string_eq, list_eq, nat_eq, ok, Option-cases, Bool-cases, >>=-eq-ok,
}
use mathlib.Core.Path.{subst}
use kata_tee_runner.Prelude.Dict.{Dict, lookup, insert, lookup-insert_self}
use kata_tee_runner.Prelude.Text.{Codes}
use kata_tee_runner.Gateway.Providers.{ProviderRoute, is_one_line}
use kata_tee_runner.Gateway.Headers.{
  lower, skip_request_headers, without, safe_request_headers, Formatted, rendered, rejected, failed,
  render_auth_value, ProviderRequest, protected_headers, set_default, set_all,
  build_provider_request,
}

-- The entry stands in the list.
abbrev pub IsAmong : String → String → Dict String String → Type 0
IsAmong name value [] = ⊥
IsAmong name value ((k, v) ∷ rest) = ((name ≡ k) × (value ≡ v)) ⊎ IsAmong name value rest

insert-cases :
    (k v name value : String) (d : Dict String String)
    → IsAmong name value (insert k v d)
    → ((name ≡ k) × (value ≡ v)) ⊎ IsAmong name value d
unfolding insert
insert-cases k v name value [] h = h
insert-cases k v name value ((j, w) ∷ d) h = elim (string_eq.dec k j) [
  | yes same ↦
      let kept : IsAmong name value ((j, v) ∷ d) = ground (arith, same, h) in
      elim kept [ inl (n, is) ↦ inl (n ∙ sym same, is) | inr old ↦ inr (inr old) ]
  | no differ ↦
      let kept : IsAmong name value ((j, w) ∷ insert k v d) = ground (arith, differ, h) in
      elim kept [
        | inl first ↦ inr (inl first)
        | inr later ↦ elim (insert-cases k v name value d later) [
          | inl new ↦ inl new
          | inr old ↦ inr (inr old)
        ]
      ]
]

without-cases :
    (names : List Codes) (found items : Dict String String) (name value : String)
    → IsAmong name value (without names found items)
    → IsAmong name value found ⊎ (IsAmong name value items × (contains names (lower name) ≡ false))
unfolding without
without-cases names found [] name value h = inl h
without-cases names found ((k, v) ∷ items) name value h =
    elim (Bool-cases (contains names (lower k))) [
      | inl skipped ↦
          elim (without-cases names found items name value (ground (arith, skipped, h))) [
            | inl old ↦ inl old
            | inr (among, free) ↦ inr (inr among, free)
          ]
      | inr passes ↦
          elim (without-cases names (insert k v found) items name value
            (ground (arith, passes, h))) [
              | inl new ↦ elim (insert-cases k v name value found new) [
                | inl (same, is) ↦ inr (inl (same, is), rw (same) passes)
                | inr old ↦ inl old
              ]
              | inr (among, free) ↦ inr (inr among, free)
            ]
    ]

set_all-cases :
    (more d : Dict String String) (name value : String)
    → IsAmong name value (set_all more d)
    → IsAmong name value more ⊎ IsAmong name value d
unfolding set_all
set_all-cases [] d name value h = inr h
set_all-cases ((k, v) ∷ more) d name value h =
    elim (set_all-cases more (insert k v d) name value h) [
      | inl among ↦ inl (inr among)
      | inr new ↦ elim (insert-cases k v name value d new) [
        | inl same ↦ inl (inl same)
        | inr old ↦ inr old
      ]
    ]

set_default-cases :
    (k v name value : String) (d : Dict String String)
    → IsAmong name value (set_default k v d)
    → ((name ≡ k) × (value ≡ v)) ⊎ IsAmong name value d
unfolding set_default
set_default-cases k v name value d h = elim (Option-cases (lookup k d)) [
  | inl new ↦ insert-cases k v name value d (ground (arith, new, h))
  | inr (old, at) ↦ inr (ground (arith, at, h))
]

-- Where a header of a provider's request may come from: the key, the route, the default, or the agent's own request, under a name that is neither withheld nor the route's in any spelling.
abbrev pub IsOutgoing : ProviderRoute → String → Dict String String → String → String → Type 0
IsOutgoing route auth items name value =
    ((name ≡ route.auth_header) × (value ≡ auth))
    ⊎ IsAmong name value route.headers
    ⊎ ((name ≡ "Content-Type") × (value ≡ "application/json"))
    ⊎ (IsAmong name value items
        × (contains skip_request_headers (lower name) ≡ false)
        × (contains (protected_headers route) (lower name) ≡ false))

render_auth_value-eq-ok :
    (f : Formatted) (auth : String)
    → render_auth_value f ≡ ok auth
    → (f ≡ rendered auth) × (is_one_line auth ≡ true)
unfolding render_auth_value
render_auth_value-eq-ok (rendered value) auth h = (ground arith, ground arith)
render_auth_value-eq-ok rejected auth h = absurd (ground arith)
render_auth_value-eq-ok failed auth h = absurd (ground arith)

kept-cases :
    (route : ProviderRoute) (items : Dict String String) (name value : String)
    → IsAmong name value (without (protected_headers route) [] (safe_request_headers items))
    → IsAmong name value items
      × (contains skip_request_headers (lower name) ≡ false)
      × (contains (protected_headers route) (lower name) ≡ false)
unfolding safe_request_headers
kept-cases route items name value h =
    elim (without-cases (protected_headers route) [] (safe_request_headers items) name value h) [
      | inl none_yet ↦ absurd none_yet
      | inr (safe, own) ↦ elim (without-cases skip_request_headers [] items name value safe) [
        | inl none_yet ↦ absurd none_yet
        | inr (given, passes) ↦ (given, passes, own)
      ]
    ]

-- The request that is built for a route goes to the route's upstream with the body as it came; its
-- authorization header is the template with the key put in, on one line; and each of its headers is
-- this one, one of the route, the default content type, or one of the agent's, whose name, in any
-- spelling, is neither withheld nor one that the route sets.
pub build_provider_request-IsOutgoing :
    (format : String → String → Formatted) (api_key : String) (body : List ℕ)
    (route : ProviderRoute) (items : Dict String String) (request : ProviderRequest)
    (name value : String)
    → IsAmong name value request.headers
    → build_provider_request format api_key body route (safe_request_headers items) ≡ ok request
    → (request.url ≡ route.upstream)
      × (request.body ≡ body)
      × (auth : String) × (format route.auth_value_template api_key ≡ rendered auth)
      × (is_one_line auth ≡ true)
      × (lookup route.auth_header request.headers ≡ some auth)
      × IsOutgoing route auth items name value
unfolding build_provider_request
build_provider_request-IsOutgoing format api_key body route items request name value among h =
    let kept = without (protected_headers route) [] (safe_request_headers items) in
    let configured = set_all route.headers (set_default "Content-Type" "application/json" kept) in
    let (auth, shown, h₁) =
      >>=-eq-ok (render_auth_value (format route.auth_value_template api_key)) _ h in
    let (formatted, one_line) = render_auth_value-eq-ok _ auth shown in
    let result : record {
      url = route.upstream;
      body = body;
      headers = insert route.auth_header auth configured;
    }
        ≡ request =
      ground (arith, h₁) in
    let own : IsAmong name value (insert route.auth_header auth configured) =
      subst (λ r. IsAmong name value r.headers) (sym result) among in
    let source = sources auth name value own in
    rw (← result) (
      refl,
      refl,
      auth,
      formatted,
      one_line,
      lookup-insert_self route.auth_header auth configured,
      source,
    )
  where
    sources :
        (auth name value : String)
        → IsAmong name value (
            insert route.auth_header auth (
              set_all route.headers (
                set_default "Content-Type" "application/json"
                  (without (protected_headers route) [] (safe_request_headers items)))))
        → IsOutgoing route auth items name value
    sources auth name value among = elim (insert-cases route.auth_header auth name value _ among) [
      | inl key ↦ inl key
      | inr old ↦ elim (set_all-cases route.headers _ name value old) [
        | inl own ↦ inr (inl own)
        | inr more ↦ elim (set_default-cases "Content-Type" "application/json" name value _ more) [
          | inl default ↦ inr (inr (inl default))
          | inr given ↦ inr (inr (inr (kept-cases route items name value given)))
        ]
      ]
    ]
