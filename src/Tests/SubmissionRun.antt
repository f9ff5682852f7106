-- ===== src/Tests/SubmissionRun.antt =====
-- room/server.py with room/bundle.py: a credential for a bundle of one file, and the same file with a
-- cache beside it.
use kata_tee_runner.Prelude.{
  ◌≡◌, ◌⊎◌, refl, String, true, none, some, List, [], ◌∷◌, ok, string_eq, nat_eq, list_eq,
  if◌then◌else◌, ◌==◌,
}
use native.Mathlib.Decide.{ℕ_discrete, dec_lt}
use kata_tee_runner.Prelude.Dict.{lookup}
use kata_tee_runner.Prelude.Int.{pos, int_eq}
use kata_tee_runner.Prelude.Render.{text_of}
use kata_tee_runner.Prelude.Text.{codes, strip}
use kata_tee_runner.Prelude.Value.{Value, int, str, null, obj, end, field, equals_int}
use kata_tee_runner.Profile.{http_error}
use kata_tee_runner.Auth.{compare_digest}
use kata_tee_runner.Sealing.{
  Credential, single, resolve_sealed_credential, parse_credential, same_keys, is_provider_id,
  is_sha256, is_single_key,
}
use kata_tee_runner.Attest.{Bytes, Hashing}
use kata_tee_runner.Attest.Hex.{hex}
use kata_tee_runner.Attest.Verified.{Collision, IsDigesting}
use kata_tee_runner.Bundle.{
  Entry, regular, frame, frames, excluded, parts, last_part, suffix, from_last_dot, any_transient,
  credential_bundle_binding,
}
use kata_tee_runner.Bundle.Binding.{included}
use kata_tee_runner.Bundle.Extraction.{
  done, Archives, Limits, extract_submission_bundle, regular_members, total_size,
}
use kata_tee_runner.Server.Interface.{Job, World, Request, truthy}
use kata_tee_runner.Server.{resolve, check_bundle, prepare}
use kata_tee_runner.Server.Submission.{extract_and_bind, with_bundles}
use kata_tee_runner.Server.Submitted.{IsSubmitted, prepare-IsSubmitted, one_bundle_per_binding}

abbrev zeros : Bytes
zeros =
    0 ∷ 0 ∷ 0 ∷ 0 ∷ 0 ∷ 0 ∷ 0 ∷ 0 ∷ 0 ∷ 0 ∷ 0 ∷ 0 ∷ 0 ∷ 0 ∷ 0 ∷ 0 ∷ 0 ∷ 0 ∷ 0 ∷ 0 ∷ 0 ∷ 0 ∷ 0 ∷ 0
    ∷ 0 ∷ 0 ∷ 0 ∷ 0 ∷ 0 ∷ 0 ∷ 0 ∷ 0 ∷ []

abbrev hashing : Hashing
hashing = record { sha256 = λ x. zeros; canonical = λ v. []; encode = codes }

abbrev digest : String
digest = "0000000000000000000000000000000000000000000000000000000000000000"

abbrev archives : Archives
archives = record {
  b64decode = λ s. some (1 ∷ 2 ∷ 3 ∷ []);
  getmembers = λ b. done (record { name = "agent.py"; is_file = true; size = 2 } ∷ []);
  extractall = λ ms. done tt;
}

abbrev small : Limits
small = record { max_compressed = 64; max_extracted = 64; max_files = 2 }

abbrev listing : String → List Entry
listing bundle_b64 =
    if bundle_b64 == "AQID"
    then regular "agent.py" (1 ∷ 2 ∷ []) ∷ []
    else regular "agent.py" (1 ∷ 2 ∷ []) ∷ regular "x.pyc" (7 ∷ []) ∷ []

abbrev payload : Value
payload = obj (
    field "version" (int (pos 1)) (
      field "provider" (str "openrouter")
        (field "api_key" (str "sk-1") (field "bundle_binding" (str digest) end))))

abbrev surroundings : World
surroundings = record {
  hashing = hashing;
  hmac = λ secret raw. "5eed";
  get_quote = λ data'. record { quote = "quote"; event_log = "log" };
  loads_bytes = λ raw. none;
  loads = λ text. some payload;
  decrypt = λ sealed. some "plain";
  extract = λ bundle. ok ("", "");
  run_profile = λ job. none;
  summary = λ job_id. some null;
  auth_secret = some "secret";
  policy = record { lifetime = 1200; skew = 30 };
  fixture_project = "fixture";
  spec = record {
    version = pos 1;
    required_providers = [];
    credential_profile = "";
    failure_mode = http_error;
  };
}

abbrev world : World
world = with_bundles archives small "/tmp/b" listing surroundings

abbrev request : Request
request = record {
  nonce_hex = "0102030405060708";
  nonce = 1 ∷ 2 ∷ 3 ∷ 4 ∷ 5 ∷ 6 ∷ 7 ∷ 8 ∷ [];
  project_key = str "fixture";
  sealed_key = str "c0ffee";
  bundle_b64 = str "AQID";
  bundle_sha256 = digest;
  expires_at = pos 1600;
}

abbrev again : Request
again = record request { bundle_b64 = str "AQIE" }

abbrev credential : Credential
credential = single (record { provider = "openrouter"; api_key = "sk-1"; bundle_binding = digest })

abbrev job : Job
job = record {
  project_key = str "fixture";
  credential = some credential;
  bundle_root = some "/tmp/b";
  job_id = "0102030405060708";
  bundle_sha256 = digest;
}

prepares : prepare world request ≡ ok job
unfolding with_bundles extract_and_bind extract_submission_bundle regular_members total_size
    credential_bundle_binding frames frame excluded parts last_part suffix from_last_dot
    any_transient text_of hex dec_lt prepare resolve check_bundle truthy resolve_sealed_credential
    parse_credential same_keys is_provider_id is_sha256 is_single_key equals_int lookup strip
    compare_digest string_eq int_eq nat_eq list_eq ℕ_discrete
prepares = refl

prepares_again : prepare world again ≡ ok job
unfolding with_bundles extract_and_bind extract_submission_bundle regular_members total_size
    credential_bundle_binding frames frame excluded parts last_part suffix from_last_dot
    any_transient text_of hex dec_lt prepare resolve check_bundle truthy resolve_sealed_credential
    parse_credential same_keys is_provider_id is_sha256 is_single_key equals_int lookup strip
    compare_digest string_eq int_eq nat_eq list_eq ℕ_discrete
prepares_again = refl

digests : IsDigesting hashing
digests x = (refl, refl)

prepare-IsSubmitted_example :
    IsSubmitted archives small "/tmp/b" listing surroundings (str "AQID") digest
    × (◌≡◌ {A = String} "/tmp/b" "/tmp/b")
prepare-IsSubmitted_example =
    prepare-IsSubmitted archives small "/tmp/b" listing surroundings request job "/tmp/b" digests
      prepares refl

one_bundle_per_binding_example :
    (s : String) × (s' : String) × (str "AQID" ≡ str s)
    × (str "AQIE" ≡ str s')
    × ((included hashing (listing s) ≡ included hashing (listing s')) ⊎ Collision hashing)
one_bundle_per_binding_example =
    one_bundle_per_binding archives small "/tmp/b" listing surroundings request again job job
      credential credential digests prepares prepares_again refl refl refl
