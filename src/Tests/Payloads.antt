-- ===== src/Tests/Payloads.antt =====
-- room/auth.py, room/profile.py and room/sealing.py at concrete requests, profiles and payloads.
use kata_tee_runner.Prelude.{
  ◌≡◌, ◌↔◌, refl, String, true, false, Option, none, some, [], ◌∷◌, arith, ok, string_eq, nat_eq,
  contains, ◌==◌, if◌then◌else◌,
}
use native.Mathlib.Decide.{ℕ_discrete}
use kata_tee_runner.Prelude.Dict.{Dict, lookup}
use kata_tee_runner.Prelude.Int.{pos, int_eq, ◌+ℤ◌, ◌-ℤ◌}
use kata_tee_runner.Prelude.Text.{strip}
use kata_tee_runner.Prelude.Numbers.{int_value}
use kata_tee_runner.Prelude.Value.{Value, int, str, obj, end, field, equals_int}
use kata_tee_runner.Auth.{
  Policy, ReplayGuard, check_window, validate_request_window, claim, reserve, purge,
}
use kata_tee_runner.Auth.Window.{HasWindow, validate_request_window_iff}
use kata_tee_runner.Auth.Replay.{Call, reserve_all, reserve_once}
use kata_tee_runner.Auth.Gap.{replay_in_skew}
use kata_tee_runner.Profile.{
  Attributes, CredentialSpec, credential_spec_for, repeats, http_error, attested_zero,
}
use kata_tee_runner.Profile.Contract.{IsContract, IsDeclared, credential_spec_for-IsContract}
use kata_tee_runner.Sealing.{
  KeySet, multiple, parse_credential_set, resolve_sealed_credential, same_keys, is_provider_id,
  is_sha256, lacking, entry_key, collect_keys,
}
use kata_tee_runner.Sealing.Parsing.{
  FitsProfile, plaintext_value, resolve_sealed_credential-FitsProfile,
}

abbrev policy : Policy
policy = record { lifetime = 1200; skew = 30 }

abbrev claims : Dict String Value
claims = ("issued_at", int (pos 1000)) ∷ ("expires_at", int (pos 1600)) ∷ []

accepts : validate_request_window policy claims (pos 1010) ≡ ok none
unfolding validate_request_window claim check_window int_value lookup string_eq ◌+ℤ◌ ◌-ℤ◌
accepts = refl

validate_request_window_iff_example :
    (validate_request_window policy claims (pos 1010) ≡ ok none)
    ↔ HasWindow policy claims (pos 1010)
validate_request_window_iff_example = validate_request_window_iff policy claims (pos 1010)

abbrev store : ReplayGuard
store = record { max_entries = 4; seen = [] }

abbrev other_call : Call
other_call = record { nonce = "bb"; expires_at = pos 1700; now = pos 1020 }

reserves : (reserve store "aa" (pos 1600) (pos 1010)).1 ≡ true
unfolding reserve purge string_eq
reserves = refl

reserve_once_example :
    (reserve
      (reserve_all (reserve store "aa" (pos 1600) (pos 1010)).0 (other_call ∷ []))
      "aa"
      (pos 1600)
      (pos 1500)).1
    ≡ false
reserve_once_example =
    reserve_once store "aa" (pos 1600) (pos 1010) (other_call ∷ []) (pos 1600) (pos 1500) reserves
      (omega arith, tt) (omega arith) (omega arith)

replay_in_skew_example :
    (check_window policy (pos 1010) (pos 1000) (pos 1600) ≡ none)
    × ((reserve store "aa" (pos 1600) (pos 1010)).1 ≡ true)
    × (check_window policy (pos 1610) (pos 1000) (pos 1600) ≡ none)
    × ((reserve (reserve store "aa" (pos 1600) (pos 1010)).0 "aa" (pos 1600) (pos 1610)).1 ≡ true)
replay_in_skew_example =
    replay_in_skew policy store "aa" (pos 1000) (pos 1600) (pos 1010) (pos 1610) (omega arith) tt
      (record {
        issued = unfold ◌+ℤ◌ in omega arith;
        ordered = omega arith;
        short = unfold ◌+ℤ◌ in omega arith;
        unexpired = unfold ◌+ℤ◌ in omega arith;
      })
      (omega arith) (omega arith) (unfold ◌+ℤ◌ in omega arith)

abbrev attributes : Attributes
attributes = record {
  credential_version = some (pos 2);
  required_providers = "openrouter" ∷ "exa" ∷ [];
  credential_profile = some "lane";
  credential_failure_mode = none;
}

abbrev contract : CredentialSpec
contract = record {
  version = pos 2;
  required_providers = "openrouter" ∷ "exa" ∷ [];
  credential_profile = "lane";
  failure_mode = attested_zero;
}

declares : credential_spec_for attributes ≡ ok contract
unfolding credential_spec_for repeats string_eq int_eq ℕ_discrete
declares = refl

credential_spec_for-IsContract_example :
    IsContract attributes contract
    × IsDeclared attributes.credential_version (pos 1) contract.version
    × IsDeclared attributes.credential_failure_mode
        (if contract.version == pos 2 then attested_zero else http_error)
        contract.failure_mode
    × (contains (http_error ∷ attested_zero ∷ []) contract.failure_mode ≡ true)
credential_spec_for-IsContract_example = credential_spec_for-IsContract attributes contract declares

abbrev digest : String
digest = "0123456789abcdef0123456789abcdef0123456789abcdef0123456789abcdef"

abbrev entry : String → Value
entry key = obj (field "api_key" (str key) end)

abbrev set_payload : Value
set_payload = obj (
    field "version" (int (pos 2)) (
      field "credential_profile" (str "lane") (
        field "credentials"
          (obj (
            field "exa" (entry "exa-0123456789ab")
              (field "openrouter" (entry "sk-0123456789abc") end)))
          (field "bundle_binding" (str digest) end))))

abbrev set_credential : KeySet
set_credential = record {
  credentials = ("openrouter", "sk-0123456789abc") ∷ ("exa", "exa-0123456789ab") ∷ [];
  bundle_binding = digest;
  credential_profile = "lane";
}

parses : parse_credential_set (some set_payload) contract ≡ ok set_credential
unfolding parse_credential_set collect_keys entry_key lacking same_keys is_sha256 is_provider_id
    lookup equals_int string_eq int_eq nat_eq
parses = refl

abbrev decrypt : String → Option String
decrypt sealed = some "plain"

abbrev loads : String → Option Value
loads text = some set_payload

resolves :
    resolve_sealed_credential decrypt loads " c0ffee " contract false
    ≡ ok (some (multiple set_credential))
unfolding resolve_sealed_credential parse_credential_set collect_keys entry_key lacking same_keys
    is_sha256 is_provider_id lookup equals_int strip string_eq int_eq nat_eq
resolves = refl

resolve_sealed_credential-FitsProfile_example :
    FitsProfile decrypt loads contract
      (plaintext_value decrypt loads " c0ffee ")
      (some (multiple set_credential))
resolve_sealed_credential-FitsProfile_example =
    resolve_sealed_credential-FitsProfile decrypt loads " c0ffee " contract false
      (some (multiple set_credential)) resolves
