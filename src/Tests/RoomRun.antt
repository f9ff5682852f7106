-- ===== src/Tests/RoomRun.antt =====
-- room/server.py with room/attest.py and verify_run.py: a signed request for the fixture project, and
-- one with a credential and a bundle.
use kata_tee_runner.Prelude.{
  ◌≡◌, ◌⊎◌, refl, String, true, false, some, [], ◌∷◌, ok, string_eq, nat_eq, list_eq,
}
use native.Mathlib.Decide.{ℕ_discrete}
use kata_tee_runner.Prelude.Dict.{lookup, insert}
use kata_tee_runner.Prelude.Int.{pos, int_eq, ◌+ℤ◌, ◌-ℤ◌}
use kata_tee_runner.Prelude.Text.{codes, strip}
use kata_tee_runner.Prelude.Numbers.{int_value}
use kata_tee_runner.Prelude.Value.{Value, int, str, null, obj, end, field, as_str, equals_int}
use kata_tee_runner.Profile.{http_error}
use kata_tee_runner.Auth.{
  ReplayGuard, secret, is_configured, verify, compare_digest, check_window, validate_request_window,
  claim, reserve, purge, trim,
}
use kata_tee_runner.Sealing.{
  Credential, single, resolve_sealed_credential, parse_credential, same_keys, is_provider_id,
  is_sha256, is_single_key,
}
use kata_tee_runner.Attest.{Bytes, Hashing, Response, bind_and_quote, verify_run}
use kata_tee_runner.Attest.Hex.{hex, unhexlify}
use kata_tee_runner.Attest.Verified.{Collision, IsDigesting, payload_of, verified_runs_agree}
use kata_tee_runner.Server.Interface.{answered, Job, World, Request, truthy, set_field}
use kata_tee_runner.Server.{
  answer, reply_with, check_fields, timely_body, check_body, resolve, check_bundle, prepare,
  execute, run, run_checked,
}
use kata_tee_runner.Server.Guarded.{IsFunded, prepare-IsFunded}
use kata_tee_runner.Server.Answers.{IsAuthorized, run-IsAuthorized, run-verifies}

abbrev zeros : Bytes
zeros =
    0 ∷ 0 ∷ 0 ∷ 0 ∷ 0 ∷ 0 ∷ 0 ∷ 0 ∷ 0 ∷ 0 ∷ 0 ∷ 0 ∷ 0 ∷ 0 ∷ 0 ∷ 0 ∷ 0 ∷ 0 ∷ 0 ∷ 0 ∷ 0 ∷ 0 ∷ 0 ∷ 0
    ∷ 0 ∷ 0 ∷ 0 ∷ 0 ∷ 0 ∷ 0 ∷ 0 ∷ 0 ∷ []

abbrev pub hashing : Hashing
hashing = record { sha256 = λ x. zeros; canonical = λ v. []; encode = λ s. [] }

abbrev digest : String
digest = "0123456789abcdef0123456789abcdef0123456789abcdef0123456789abcdef"

abbrev body : Value
body = obj (
    field "issued_at" (int (pos 1000)) (
      field "expires_at" (int (pos 1600))
        (field "nonce" (str "0102030405060708") (field "bundle_sha256" (str digest) end))))

abbrev payload : Value
payload = obj (
    field "version" (int (pos 1)) (
      field "provider" (str "openrouter")
        (field "api_key" (str "sk-1") (field "bundle_binding" (str digest) end))))

abbrev pub world : World
world = record {
  hashing = hashing;
  hmac = λ secret raw. "5eed";
  get_quote = λ data'. record { quote = "quote"; event_log = "log" };
  loads_bytes = λ raw. some body;
  loads = λ text. some payload;
  decrypt = λ sealed. some "plain";
  extract = λ bundle. ok ("/tmp/bundle", digest);
  run_profile = λ job. some (record { report = str "done"; provenance = obj end });
  summary = λ job_id. some null;
  auth_secret = some "secret";
  policy = record { lifetime = 1200; skew = 30 };
  fixture_project = "fixture";
  spec = record {
    version = pos 1;
    required_providers = [];
    credential_profile = "";
    failure_mode = http_error;
  };
}

abbrev pub guard : ReplayGuard
guard = record { max_entries = 4; seen = [] }

abbrev pub kept : ReplayGuard
kept = record { max_entries = 4; seen = ("0102030405060708", pos 1600) ∷ [] }

abbrev pub request : Request
request = record {
  nonce_hex = "0102030405060708";
  nonce = 1 ∷ 2 ∷ 3 ∷ 4 ∷ 5 ∷ 6 ∷ 7 ∷ 8 ∷ [];
  project_key = str "fixture";
  sealed_key = str "";
  bundle_b64 = str "";
  bundle_sha256 = digest;
  expires_at = pos 1600;
}

abbrev response : Response
response = answer world request "fixture" (str "done") (obj (field "inference_summary" null end))

checks : check_body world (pos 1010) (123 ∷ []) ≡ ok request
unfolding check_body timely_body check_fields validate_request_window claim check_window int_value
    lookup unhexlify is_sha256 string_eq ◌+ℤ◌ ◌-ℤ◌
checks = refl

executes : execute world request (prepare world request) ≡ answered response
unfolding execute prepare resolve check_bundle truthy resolve_sealed_credential strip reply_with
    set_field string_eq
executes = refl

pub verifies : verify world.hmac world.auth_secret (123 ∷ []) (some "5eed") ≡ some true
unfolding verify secret is_configured compare_digest strip string_eq nat_eq
verifies = refl

pub configured : is_configured world.auth_secret ≡ true
unfolding is_configured secret strip string_eq nat_eq
configured = refl

pub reserves : reserve guard "0102030405060708" (pos 1600) (pos 1011) ≡ (kept, true)
unfolding reserve purge trim insert string_eq
reserves = refl

runs_checked : run_checked world guard (pos 1010) (pos 1011) (123 ∷ []) ≡ (kept, answered response)
unfolding run_checked
runs_checked = rw (run_checked, checks, reserves, executes) refl

runs : run world guard (pos 1010) (pos 1011) (123 ∷ []) (some "5eed") ≡ (kept, answered response)
unfolding run
runs = rw (run, configured, verifies, runs_checked) refl

run-IsAuthorized_example :
    (is_configured world.auth_secret ≡ true)
    × IsAuthorized world guard (pos 1010) (pos 1011) (123 ∷ []) (some "5eed") kept response
run-IsAuthorized_example =
    run-IsAuthorized world guard (pos 1010) (pos 1011) (123 ∷ []) (some "5eed") kept response runs

run-verifies_example : verify_run hashing response response.nonce ≡ some true
run-verifies_example =
    run-verifies world guard (pos 1010) (pos 1011) (123 ∷ []) (some "5eed") kept response runs

pub digests : IsDigesting hashing
digests x = (refl, refl)

nonce_bytes : unhexlify (codes "0102030405060708") ≡ some request.nonce
unfolding unhexlify
nonce_bytes = refl

response_verifies : verify_run hashing response "0102030405060708" ≡ some true
unfolding answer bind_and_quote verify_run unhexlify hex nat_eq list_eq
response_verifies = refl

verified_runs_agree_example :
    ((hashing.encode response.project_key ≡ hashing.encode response.project_key)
      × (payload_of hashing response ≡ payload_of hashing response))
    ⊎ Collision hashing
verified_runs_agree_example =
    verified_runs_agree hashing response response "0102030405060708" request.nonce digests
      nonce_bytes response_verifies response_verifies refl

abbrev funded : Request
funded = record request { sealed_key = str "c0ffee"; bundle_b64 = str "H4sI" }

abbrev credential : Credential
credential = single (record { provider = "openrouter"; api_key = "sk-1"; bundle_binding = digest })

abbrev job : Job
job = record {
  project_key = str "fixture";
  credential = some credential;
  bundle_root = some "/tmp/bundle";
  job_id = "0102030405060708";
  bundle_sha256 = digest;
}

prepares : prepare world funded ≡ ok job
unfolding prepare resolve check_bundle truthy resolve_sealed_credential parse_credential same_keys
    is_provider_id is_sha256 is_single_key equals_int lookup strip compare_digest string_eq int_eq
    nat_eq ℕ_discrete
prepares = refl

prepare-IsFunded_example :
    ((sealed : String) × (as_str funded.sealed_key ≡ some sealed)
      × (resolve_sealed_credential world.decrypt world.loads sealed world.spec false
          ≡ ok job.credential))
    × IsFunded world funded job.credential job.bundle_root
    × (job.job_id ≡ funded.nonce_hex)
    × (job.bundle_sha256 ≡ funded.bundle_sha256)
    × (job.project_key ≡ funded.project_key)
prepare-IsFunded_example = prepare-IsFunded world funded job prepares
