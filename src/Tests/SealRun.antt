-- ===== src/Tests/SealRun.antt =====
-- kata_seal.py: a key for each mode, sealed to a room whose quote is in order.
use kata_tee_runner.Prelude.{
  ◌≡◌, refl, arith, String, true, false, Option, none, some, List, [], ◌∷◌, if◌then◌else◌, ◌==◌, ok,
  raise, string_eq, nat_eq, list_eq,
}
use native.Mathlib.Decide.{ℕ_discrete}
use kata_tee_runner.Prelude.Cut.{cut}
use kata_tee_runner.Prelude.Dict.{Dict, keys, lookup, insert}
use kata_tee_runner.Prelude.Int.{pos, int_eq}
use kata_tee_runner.Prelude.Text.{strip}
use kata_tee_runner.Prelude.Value.{Value, int, str, obj, end, field}
use kata_tee_runner.Attest.{Bytes}
use kata_tee_runner.Attest.Hex.{hex, unhexlify}
use kata_tee_runner.Profile.{repeats}
use kata_tee_runner.Sealing.{
  multiple, is_provider_id, is_sha256, is_single_key, parse_credential, resolve_sealed_credential,
}
use kata_tee_runner.KataSeal.Keys.{
  Sources, parse_providers, split_commas, stripped, parse_key_source, collect_keys, load_keys,
  key_of, load_api_key, not_empty, check_key, any_control,
}
use kata_tee_runner.KataSeal.Room.{
  World, fetch_pubkey, rstrip_slashes, verify_room, expected_binding,
}
use kata_tee_runner.KataSeal.Main.{
  Args, Encoding, single_payload, set_payload, single_mode, set_mode, single_key_source,
  parse_sources, seal, main,
}
use kata_tee_runner.KataSeal.Found.{AreLoaded}
use kata_tee_runner.KataSeal.Accepted.{set_spec}
use kata_tee_runner.KataSeal.Opened.{Opens, main-resolves, single_mode-parses}

abbrev digest : String
digest = "0123456789abcdef0123456789abcdef0123456789abcdef0123456789abcdef"

abbrev pub zeros : Bytes
zeros =
    0 ∷ 0 ∷ 0 ∷ 0 ∷ 0 ∷ 0 ∷ 0 ∷ 0 ∷ 0 ∷ 0 ∷ 0 ∷ 0 ∷ 0 ∷ 0 ∷ 0 ∷ 0 ∷ 0 ∷ 0 ∷ 0 ∷ 0 ∷ 0 ∷ 0 ∷ 0 ∷ 0
    ∷ 0 ∷ 0 ∷ 0 ∷ 0 ∷ 0 ∷ 0 ∷ 0 ∷ 0 ∷ []

abbrev pubkey : String
pubkey = "020000000000000000000000000000000000000000000000000000000000000000"

abbrev document : Value
document = obj (field "pubkey" (str pubkey) (field "quote" (str "04") end))

abbrev pub world : World
world = record {
  urlparse = λ s. some (record {
    scheme = "https";
    netloc = "room";
    username = none;
    password = none;
    query = "";
    fragment = "";
  });
  http_get = λ s. some [];
  loads_bytes = λ b. some document;
  fromhex = λ s. some (4 ∷ []);
  parse_quote = λ b. some (record { is_tdx = true; mr_config_id = 1 ∷ zeros; report_data = zeros });
  tcb_status = λ b. some "UpToDate";
  sha256 = λ b. zeros;
}

abbrev pub from : Sources
from = record {
  environ = λ name. some "sk-0123456789abcdef";
  lstat = λ path. none;
  getpass = λ who. "";
}

abbrev pub set_args : Args
set_args = record {
  room = "https://room/";
  provider = "";
  providers = "openai, chutes";
  credential_profile = "sn22";
  key_env = "openai=OPENAI" ∷ "chutes=CHUTES" ∷ [];
  key_file = [];
  is_dir = true;
  binding = some digest;
  measurement = "0000000000000000000000000000000000000000000000000000000000000000";
  no_verify = false;
}

abbrev single_args : Args
single_args = record set_args {
  provider = "openai";
  providers = "";
  credential_profile = "";
  key_env = "OPENAI" ∷ [];
}

abbrev set_value : Value
set_value = obj (
    field "version" (int (pos 2)) (
      field "credential_profile" (str "sn22") (
        field "credentials"
          (obj (
            field "openai" (obj (field "api_key" (str "sk-0123456789abcdef") end))
              (field "chutes" (obj (field "api_key" (str "sk-0123456789abcdef") end)) end)))
          (field "bundle_binding" (str digest) end))))

-- There is one payload here, and one text that is encrypted.
abbrev pub encoding : Encoding
encoding = record {
  dumps = λ v. "text";
  encrypt = λ key text. if text == "text" then some "5ea1" else none;
}

pub sealed : main world encoding from set_args ≡ ok "5ea1"
unfolding main seal set_mode fetch_pubkey rstrip_slashes verify_room expected_binding
    parse_providers split_commas stripped repeats is_provider_id is_sha256 parse_sources
    parse_key_source cut collect_keys load_keys key_of load_api_key not_empty check_key any_control
    set_payload lookup insert hex unhexlify strip string_eq nat_eq list_eq ℕ_discrete
sealed = refl

built : set_mode from set_args ≡ ok set_value
unfolding set_mode parse_providers split_commas stripped repeats is_provider_id parse_sources
    parse_key_source cut collect_keys load_keys key_of load_api_key not_empty check_key any_control
    set_payload lookup insert strip string_eq nat_eq ℕ_discrete
built = refl

abbrev decrypt : String → Option String
decrypt text = some "text"

abbrev loads : String → Option Value
loads text = some set_value

not_empty_text : ◌==◌ {A = String} "5ea1" "" ≡ false
unfolding string_eq
not_empty_text = refl

opens : Opens world encoding from decrypt loads set_args
opens = record {
  decrypts = λ info key text s fetched is encrypted. ground (arith, encrypted);
  is_hexadecimal =
      λ key text s encrypted. let same : "5ea1" ≡ s = ground (arith, encrypted) in rw (← same) refl;
  is_text = λ key text s encrypted.
      let same : "5ea1" ≡ s = ground (arith, encrypted) in rw (← same) not_empty_text;
  loads-dumps = λ v h. ground (arith, built, h);
}

digest_IsSha256 : (b : String) → some digest ≡ some b → is_sha256 b ≡ true
unfolding is_sha256
digest_IsSha256 b h = let same : digest ≡ b = ground (arith, h) in rw (← same) refl

main-resolves_example :
    (providers : List String) × (envs : Dict String String) × (files : Dict String String)
    × (found : Dict String String) × (binding : String) × (parse_providers "openai, chutes"
        ≡ ok providers)
    × (parse_sources [] set_args.key_env ≡ ok envs)
    × (parse_sources [] set_args.key_file ≡ ok files)
    × (some digest ≡ some binding)
    × (keys found ≡ providers)
    × AreLoaded from envs files found
    × (resolve_sealed_credential decrypt loads "5ea1"
          (set_spec providers (strip "sn22") "attested_zero")
          false
        ≡ ok (
            some (
              multiple (record {
                credentials = found;
                bundle_binding = binding;
                credential_profile = strip "sn22";
              }))))
main-resolves_example =
    main-resolves world encoding from set_args "5ea1" "attested_zero" decrypt loads digest_IsSha256
      opens refl sealed

abbrev single_value : Value
single_value = obj (
    field "version" (int (pos 1)) (
      field "provider" (str "openai")
        (field "api_key" (str "sk-0123456789abcdef") (field "bundle_binding" (str digest) end))))

single_built : single_mode from single_args ≡ ok single_value
unfolding single_mode single_key_source single_payload load_api_key not_empty is_provider_id cut
    strip string_eq nat_eq ℕ_discrete
single_built = refl

single_mode-parses_example :
    (key_env : String) × (key_file : String) × (key : String) × (binding : String) × (load_api_key
        from key_env key_file
      ≡ ok key)
    × (some digest ≡ some binding)
    × (parse_credential (some single_value) ≡ (
        if is_single_key key
        then ok (record { provider = "openai"; api_key = key; bundle_binding = binding })
        else raise "sealed miner credential has an invalid API key"))
single_mode-parses_example =
    single_mode-parses from single_args single_value digest_IsSha256 single_built
