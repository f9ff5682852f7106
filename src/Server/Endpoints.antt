-- ===== src/Server/Endpoints.antt =====
-- room/server.py: the endpoints beside `/run`, which are `health`, `pubkey` and `pull_test`, and the
-- profile's name in `load_profile`. `failed` is a 500 with the text of an exception, `unhandled` an
-- exception outside the `try`.
use kata_tee_runner.Prelude.{
  ℕ, zero, suc, String, Bool, true, false, not, Option, none, some, List, [], ◌∷◌, ◌++◌, contains,
  if◌then◌else◌, string_eq, list_eq, nat_eq, map, Result, ok, raise,
}
use kata_tee_runner.Prelude.Cut.{cut}
use kata_tee_runner.Prelude.Render.{text_of}
use kata_tee_runner.Prelude.Text.{codes, strip}
use kata_tee_runner.Prelude.Value.{Value, Fields, bool, str, obj, end, field, as_dict}
use kata_tee_runner.Auth.{is_configured, verify}
use kata_tee_runner.Attest.{Bytes, Quote}
use kata_tee_runner.Attest.Hex.{hex, unhexlify}
use kata_tee_runner.Gateway.Headers.{lower}
use kata_tee_runner.Network.Docker.{Process, Args, Calls, Failure, Run, ◌>>=◌, return, succeeded}
use kata_tee_runner.Network.Chains.{docker, ghcr_login}
use kata_tee_runner.Server.Interface.{field_or, truthy, is_nil}

pub data Page : Type 0 where
  page : ℕ → Fields → Page
  failed unhandled : Page

abbrev pub health : Page
health = page 200 (field "ok" (bool true) end)

abbrev pub error_page : ℕ → String → Page
error_page status error = page status (field "error" (str error) end)

-- `load_profile()` up to the import: the module and the class
unfoldable pub profile_name : Option String → Option (String × String)
profile_name none = none
profile_name (some raw) = cut b':' (strip raw)

-- The client of the confidential VM, where `none` is an exception, and `PublicKey.from_secret(sk)` with its
-- compressed form.
pub record Keys : Type 0 where
  pub sealing_privkey : Option Bytes
  pub public_key : Bytes → Bytes
  pub sha256 : Bytes → Bytes
  pub get_quote : Bytes → Option Quote

module _ (k : Keys) where
  abbrev pub published : String → Option Quote → Page
  published pk none = failed
  published pk (some q) = page 200 (
      field "pubkey" (str pk)
        (field "quote" (str q.quote) (field "event_log" (str q.event_log) end)))

  -- `bytes.fromhex(pk)` undoes `hex`.
  abbrev pub quoted : String → Option Bytes → Page
  quoted pk none = failed
  quoted pk (some key) = published pk (k.get_quote (k.sha256 (codes "kata-sealing-pubkey:" ++ key)))

  abbrev pub shown : Option Bytes → Page
  shown none = failed
  shown (some secret) =
      let pk = text_of (hex (k.public_key secret)) in quoted pk (unhexlify (codes pk))

  -- `pubkey()`
  unfoldable pub pubkey : Page
  pubkey = shown k.sealing_privkey

-- `text[:n]`
unfoldable pub prefix : ℕ → String → String
prefix zero s = ""
prefix (suc n) String.[] = ""
prefix (suc n) (String.◌∷◌ c s) = String.◌∷◌ c (prefix n s)

-- `image` is `PROFILE.image`, `none` where it raises.
pub record Diagnostics : Type 0 where
  pub enabled : Option String
  pub auth_secret : Option String
  pub hmac : String → List ℕ → String
  pub loads_bytes : Bytes → Option Value
  pub image : Value → Option String
  pub user : String
  pub token : String
  pub answer : Calls → Args → Option Process
  pub host : String

abbrev pub is_enabled : Option String → Bool
is_enabled none = false
is_enabled (some raw) = contains (map codes ("1" ∷ "true" ∷ "yes" ∷ [])) (lower raw)

abbrev pub pull_args : String → Args
pull_args image = "pull" ∷ image ∷ []

abbrev pub digest_args : String → Args
digest_args image = "inspect" ∷ "--format" ∷ "{{index .RepoDigests 0}}" ∷ image ∷ []

abbrev pub digest_page : String → Process → Page
digest_page image p =
    page 200 (
      field "ok" (bool true)
        (field "image" (str image) (field "digest" (str (strip p.stdout)) end)))

abbrev pub no_image_page : String → Process → Page
no_image_page image p = page 502 (
    field "ok" (bool false)
      (field "image" (str image) (field "error" (str (prefix 600 p.stderr)) end)))

abbrev pub settled : Result Failure Page × Calls → Page × Calls
settled (raise failure, calls) = (failed, calls)
settled (ok p, calls) = (p, calls)

module _ (d : Diagnostics) where
  unfoldable pub show_digest : String → Run Page
  show_digest image =
      docker d.answer d.host (digest_args image) >>= λ p. return (digest_page image p)

  unfoldable pub show_pulled : String → Process → Run Page
  unfolding show_digest
  show_pulled image p =
      if not (succeeded p) then return (no_image_page image p) else show_digest image

  unfoldable pub pull_image : String → Run Page
  unfolding show_pulled
  pull_image image = docker d.answer d.host (pull_args image) >>= show_pulled image

  abbrev pub after_login : Value → Result Failure (Unit {0}) × Calls → Page × Calls
  after_login key (raise failure, calls) = (failed, calls)
  after_login key (ok done, calls) = elim (d.image key) [
    | none ↦ (failed, calls)
    | some image ↦ settled (pull_image image calls)
  ]

  -- The `try` of `pull_test`, from the project key on, with the flag of the login
  unfoldable pub pull : Value → Bool → Calls → (Page × Calls) × Bool
  pull key logged_in calls =
      let (r, now_logged_in) = ghcr_login d.answer d.host d.user d.token logged_in calls in
      (after_login key r, now_logged_in)

  unfoldable pub pull_body : Bytes → Bool → Calls → (Page × Calls) × Bool
  pull_body raw logged_in calls = elim (if is_nil raw then some (obj end) else d.loads_bytes raw) [
    | none ↦ ((failed, calls), logged_in)
    | some parsed ↦ elim (as_dict parsed) [
      | none ↦ ((failed, calls), logged_in)
      | some body ↦
          let key = field_or body "project_key" (str "") in
          if not (truthy key)
          then ((error_page 400 "body must contain project_key", calls), logged_in)
          else pull key logged_in calls
    ]
  ]

  -- `pull_test()`, of the raw body and the signature header
  unfoldable pub pull_test : Bytes → Option String → Bool → Calls → (Page × Calls) × Bool
  unfolding pull_body
  pull_test raw signature logged_in calls =
      if not (is_enabled d.enabled)
      then ((error_page 404 "diagnostics are disabled", calls), logged_in)
      else if not (is_configured d.auth_secret)
      then (
        (error_page 503 "room auth is not configured (set KATA_ROOM_AUTH_SECRET)", calls),
        logged_in,
      )
      else elim (verify d.hmac d.auth_secret raw signature) [
        | none ↦ ((unhandled, calls), logged_in)
        | some false ↦ ((error_page 401 "unauthorized", calls), logged_in)
        | some true ↦ pull_body raw logged_in calls
      ]
