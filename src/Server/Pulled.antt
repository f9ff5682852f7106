-- ===== src/Server/Pulled.antt =====
-- What a request for a pull can make docker do.
use kata_tee_runner.Prelude.{
  ◌≡◌, ◌⊎◌, inl, inr, refl, arith, String, Bool, not, true, false, Option, some, [], ◌∷◌, ◌++◌,
  Bool-cases, Option-cases, if◌then◌else◌, Result, ok, raise, ap, sym, ◌∙◌, ◌||◌, ◌==◌, string_eq,
}
use kata_tee_runner.Prelude.Dict.{Dict}
use kata_tee_runner.Prelude.Value.{Value, str, obj, end, as_dict}
use kata_tee_runner.Auth.{is_configured, verify}
use kata_tee_runner.Attest.{Bytes}
use kata_tee_runner.Network.Docker.{
  no_credentials, login_failed, Process, Args, Calls, Failure, succeeded, fail_if, noted,
}
use kata_tee_runner.Network.Chains.{docker, log_in, ghcr_login}
use kata_tee_runner.Network.Added.{
  Are, Are-append, append_assoc, Adds, return-Adds, >>=-Adds, if-Adds, docker-Adds,
}
use kata_tee_runner.Server.Interface.{field_or, truthy, is_nil}
use kata_tee_runner.Server.Endpoints.{
  Page, Diagnostics, is_enabled, pull_args, digest_args, digest_page, no_image_page, settled,
  show_digest, show_pulled, pull_image, after_login, pull, pull_body, pull_test,
}

module _ (d : Diagnostics) (key : Value) where
  -- The commands of a pull: the login, and the two on the image of the project.
  pub data IsPull : Args → Type 0 where
    logs_in : IsPull ("login" ∷ "ghcr.io" ∷ "-u" ∷ d.user ∷ "--password-stdin" ∷ [])
    pulls : (image : String) → d.image key ≡ some image → IsPull (pull_args image)
    inspects : (image : String) → d.image key ≡ some image → IsPull (digest_args image)

  show_digest-Adds : (image : String) → d.image key ≡ some image → Adds IsPull (show_digest d image)
  unfolding show_digest
  show_digest-Adds image named =
      >>=-Adds IsPull (docker d.answer d.host (digest_args image)) _
        (docker-Adds IsPull d.answer d.host (digest_args image) (inspects image named))
        (λ p. return-Adds IsPull (digest_page image p))

  show_pulled-Adds :
      (image : String) (p : Process)
      → d.image key ≡ some image
      → Adds IsPull (show_pulled d image p)
  unfolding show_pulled
  show_pulled-Adds image p named =
      if-Adds IsPull (not (succeeded p)) _ (show_digest d image)
        (λ failed. return-Adds IsPull (no_image_page image p)) (show_digest-Adds image named)

  pull_image-Adds : (image : String) → d.image key ≡ some image → Adds IsPull (pull_image d image)
  unfolding pull_image
  pull_image-Adds image named =
      >>=-Adds IsPull (docker d.answer d.host (pull_args image)) (show_pulled d image)
        (docker-Adds IsPull d.answer d.host (pull_args image) (pulls image named))
        (λ p. show_pulled-Adds image p named)

  fail_if-Adds : (b : Bool) (failure : Failure) → Adds IsPull (fail_if b failure)
  fail_if-Adds true failure calls = ([], refl, tt)
  fail_if-Adds false failure calls = ([], refl, tt)

  log_in-Adds : Adds IsPull (log_in d.answer d.host d.user d.token)
  unfolding log_in
  log_in-Adds =
      let args = "login" ∷ "ghcr.io" ∷ "-u" ∷ d.user ∷ "--password-stdin" ∷ [] in
      >>=-Adds IsPull (fail_if (d.user == "" || d.token == "") no_credentials) _
        (fail_if-Adds (d.user == "" || d.token == "") no_credentials)
        (λ done.
          >>=-Adds IsPull (docker d.answer d.host args) _
            (docker-Adds IsPull d.answer d.host args logs_in)
            (λ p. fail_if-Adds (not (succeeded p)) login_failed))

  -- What the login leaves of the calls is what `log_in` leaves of them, or the calls themselves.
  ghcr_login-Adds :
      (logged_in : Bool) (calls : Calls)
      → (added : Calls) × ((ghcr_login d.answer d.host d.user d.token logged_in calls).0.1
          ≡ added ++ calls)
        × Are IsPull added
  unfolding ghcr_login
  ghcr_login-Adds true calls = ([], refl, tt)
  ghcr_login-Adds false calls =
      let (added, same, are) = log_in-Adds calls in (added, noted_calls _ ∙ same, are)
    where
      noted_calls : (r : Result Failure (Unit {0}) × Calls) → (noted r).0.1 ≡ r.1
      noted_calls (ok done, calls) = refl
      noted_calls (raise failure, calls) = refl

  settled_calls : (r : Result Failure Page × Calls) → (settled r).1 ≡ r.1
  settled_calls (ok p, calls) = refl
  settled_calls (raise failure, calls) = refl

  after_login-Adds :
      (r : Result Failure (Unit {0})) (before calls added : Calls)
      → before ≡ added ++ calls
      → Are IsPull added
      → (more : Calls) × ((after_login d key (r, before)).1 ≡ more ++ calls) × Are IsPull more
  after_login-Adds (raise failure) before calls added same are = (added, same, are)
  after_login-Adds (ok done) before calls added same are = elim (Option-cases (d.image key)) [
    | inl none' ↦ (added, rw (after_login, none') same, are)
    | inr (image, named) ↦
        let (more, q, good) = pull_image-Adds image named before in
        (
          more ++ added,
          rw (after_login, named)
              (settled_calls (pull_image d image before)
                ∙ (q ∙ (ap (λ c. more ++ c) same ∙ sym (append_assoc more added calls)))),
          Are-append IsPull more added good are,
        )
  ]

  pull-Adds :
      (logged_in : Bool) (calls : Calls)
      → (added : Calls) × ((pull d key logged_in calls).0.1 ≡ added ++ calls) × Are IsPull added
  unfolding pull
  pull-Adds logged_in calls =
      let (added, same, are) = ghcr_login-Adds logged_in calls in
      after_login-Adds _ _ calls added same are

module _ (d : Diagnostics) (raw : Bytes) (signature : Option String) (logged_in : Bool)
    (calls : Calls) where
  -- A request for a pull that has come through, and the commands that it has added.
  pub record IsGuarded (after : Calls) : Type 0 where
    pub parsed : Value
    pub body : Dict String Value
    pub added : Calls
    pub enabled : is_enabled d.enabled ≡ true
    pub configured : is_configured d.auth_secret ≡ true
    pub signed : verify d.hmac d.auth_secret raw signature ≡ some true
    pub is_parsed : (if is_nil raw then some (obj end) else d.loads_bytes raw) ≡ some parsed
    pub is_dict : as_dict parsed ≡ some body
    pub named : truthy (field_or body "project_key" (str "")) ≡ true
    pub only : after ≡ added ++ calls
    pub pulling : Are (IsPull d (field_or body "project_key" (str ""))) added

  -- A request to `/pull-test` leaves docker's commands and the flag of the login as they were, or
  -- diagnostics are enabled, a secret is configured, the body is signed under it and is a dict with
  -- a project key that is not empty, and all the commands that it adds are the login to the
  -- registry, and the pull and the inspection of the image that the profile has for that key.
  pub pull_test-IsGuarded :
      (((pull_test d raw signature logged_in calls).0.1 ≡ calls)
        × ((pull_test d raw signature logged_in calls).1 ≡ logged_in))
      ⊎ IsGuarded (pull_test d raw signature logged_in calls).0.1
  unfolding pull_test pull_body
  pull_test-IsGuarded = elim (Bool-cases (is_enabled d.enabled)) [
    | inr off ↦ inl (ground arith, ground arith)
    | inl on ↦ elim (Bool-cases (is_configured d.auth_secret)) [
      | inr bare ↦ inl (ground arith, ground arith)
      | inl configured ↦ elim (Option-cases (verify d.hmac d.auth_secret raw signature)) [
        | inl odd ↦ inl (ground arith, ground arith)
        | inr (false, refused) ↦ inl (ground arith, ground arith)
        | inr (true, signed) ↦
            elim (Option-cases (if is_nil raw then some (obj end) else d.loads_bytes raw)) [
              | inl odd ↦ inl (ground arith, ground arith)
              | inr (v, parsed) ↦ elim (Option-cases (as_dict v)) [
                | inl odd ↦ inl (ground arith, ground arith)
                | inr (body, is_dict) ↦
                    elim (Bool-cases (truthy (field_or body "project_key" (str "")))) [
                      | inr lacking ↦ inl (ground arith, ground arith)
                      | inl named ↦
                          let (added, only, pulling) =
                            pull-Adds d (field_or body "project_key" (str "")) logged_in calls in
                          inr (record {
                            parsed = v;
                            body = body;
                            added = added;
                            enabled = on;
                            configured = configured;
                            signed = signed;
                            is_parsed = parsed;
                            is_dict = is_dict;
                            named = named;
                            only = ground (arith, only);
                            pulling = pulling;
                          })
                    ]
              ]
            ]
      ]
    ]
  ]
