-- ===== src/Gateway/Route/Signed.antt =====
-- The gateway serves just the routes that the room mints.
use kata_tee_runner.Prelude.{
  ℕ, ◌≡◌, ◌↔◌, sym, ap, ◌∙◌, arith, String, ◌<>◌, true, Option, List, string_eq, nat_eq, ok,
  >>=-eq-ok,
}
use text.Mathlib.TextLemmas.{append_assoc}
use kata_tee_runner.Prelude.Text.{codes, is_hex_text}
use kata_tee_runner.Auth.{is_configured, secret, compare_digest}
use kata_tee_runner.Sealing.{is_provider_id}
use kata_tee_runner.Server.Guarded.{compare_digest-eq-true}
use kata_tee_runner.Gateway.Route.{
  RouteMatch, route_payload, match_route, sign, make_job_route_token, provider_from_route,
}
use kata_tee_runner.Gateway.Route.Shape.{
  match_route-eq-ok, match_route-path_of, agreed, compare_digest_self,
}

module _ (hmac : String → List ℕ → String) (env : Option String) where
  -- The digest is 64 lowercase hexadecimal characters.
  abbrev pub IsHexDigest : Type 0
  IsHexDigest = (key : String) (message : List ℕ) → is_hex_text 64 64 (hmac key message) ≡ true

  abbrev route_of : String → String → RouteMatch
  route_of job_id provider = record {
    job_id = job_id;
    provider = provider;
    signature = sign hmac env (route_payload job_id provider);
  }

  -- What `make_job_route_token` has checked, and its result.
  make_job_route_token-eq-ok :
      (job_id provider token : String)
      → make_job_route_token hmac env job_id provider ≡ ok token
      → (is_hex_text 16 64 job_id ≡ true)
        × (is_provider_id provider ≡ true)
        × (is_configured env ≡ true)
        × (job_id <> ("~" <> (provider <> ("~" <> sign hmac env (route_payload job_id provider))))
            ≡ token)
  unfolding make_job_route_token
  make_job_route_token-eq-ok job_id provider token h =
      (ground arith, ground arith, ground arith, ground arith)

  make_job_route_token-ok :
      (job_id provider : String)
      → is_hex_text 16 64 job_id ≡ true
      → is_provider_id provider ≡ true
      → is_configured env ≡ true
      → make_job_route_token hmac env job_id provider
        ≡ ok (
            job_id <> ("~" <> (provider <> ("~" <> sign hmac env (route_payload job_id provider)))))
  unfolding make_job_route_token
  make_job_route_token-ok job_id provider j p c = ground (arith, j, p, c)

  whole :
      (a b c : String)
      → "/j/" <> ((a <> ("~" <> (b <> ("~" <> c)))) <> "/inference")
        ≡ "/j/" <> (a <> ("~" <> (b <> ("~" <> (c <> "/inference")))))
  whole a b c =
      ap (λ x. "/j/" <> x)
        (append_assoc a _ _
          ∙ ap (λ x. a <> x)
              (append_assoc "~" _ _
                ∙ ap (λ x. "~" <> x)
                    (append_assoc b _ _ ∙ ap (λ x. b <> x) (append_assoc "~" c "/inference"))))

  served_of_minted :
      (path job_id provider token : String)
      → IsHexDigest
      → make_job_route_token hmac env job_id provider ≡ ok token
      → path ≡ "/j/" <> (token <> "/inference")
      → provider_from_route hmac env path ≡ ok (job_id, provider)
  unfolding provider_from_route
  served_of_minted path job_id provider token digest minted same =
      let (j, p, configured, token_is) = make_job_route_token-eq-ok job_id provider token minted in
      let signature = sign hmac env (route_payload job_id provider) in
      let shape = digest (secret env) (codes (route_payload job_id provider)) in
      let matched : match_route path ≡ ok (route_of job_id provider) =
        rw (same, ← token_is, whole job_id provider signature)
          (match_route-path_of (route_of job_id provider)
            (record { job = j; provider = p; signature = unfold sign in shape })) in
      rw (provider_from_route, matched)
        (ground (
          arith,
          configured,
          compare_digest_self (sign hmac env (route_payload job_id provider))
              (unfold sign in shape),
        ))

  minted_of_served :
      (path job_id provider : String)
      → provider_from_route hmac env path ≡ ok (job_id, provider)
      → (token : String) × (make_job_route_token hmac env job_id provider ≡ ok token)
        × (path ≡ "/j/" <> (token <> "/inference"))
  unfolding provider_from_route
  minted_of_served path job_id provider h =
      let (m, matched, h₁) = >>=-eq-ok (match_route path) _ h in
      let (shown, route) = match_route-eq-ok path m matched in
      let expected = sign hmac env (route_payload m.job_id m.provider) in
      let (configured, compared, result) =
        agreed (is_configured env) (compare_digest m.signature expected) (m.job_id, m.provider)
          (job_id, provider) h₁ in
      let signed : m.signature ≡ expected = compare_digest-eq-true m.signature expected compared in
      let job : m.job_id ≡ job_id = ap (λ r. r.0) result in
      let prov : m.provider ≡ provider = ap (λ r. r.1) result in
      (
        m.job_id <> ("~" <> (m.provider <> ("~" <> expected))),
        rw (← job, ← prov)
            (make_job_route_token-ok m.job_id m.provider route.job route.provider configured),
        shown ∙ sym (rw (signed) (whole m.job_id m.provider expected)),
      )

  -- A path is served, for a job and its provider, exactly where the room mints that route: the job
  -- id and the provider are well formed, a secret is configured, and the path is `/j/`, the minted
  -- token, and `/inference`. It takes that every digest is 64 lowercase hexadecimal characters.
  pub provider_from_route_iff :
      (path job_id provider : String)
      → IsHexDigest
      → (provider_from_route hmac env path ≡ ok (job_id, provider)) ↔ (
          (token : String) × (make_job_route_token hmac env job_id provider ≡ ok token)
          × (path ≡ "/j/" <> (token <> "/inference")))
  provider_from_route_iff path job_id provider digest = (
    minted_of_served path job_id provider,
    λ (token, minted, same). served_of_minted path job_id provider token digest minted same,
  )
