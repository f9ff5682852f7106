-- ===== src/Profile.antt =====
-- room/profile.py: the credential contract that a subnet's profile declares, and `CredentialSpec`.
-- An attribute that the profile lacks is `none`; one that is `None` there is "".
pub mod Contract
pub mod Timeout
use kata_tee_runner.Prelude.{
  ℕ, String, Bool, true, false, not, ◌||◌, Option, none, some, List, [], ◌∷◌, contains,
  if◌then◌else◌, ◌==◌, string_eq, Result, ok, raise, ◌>>=◌, ◌>>◌, raise_if,
}
use kata_tee_runner.Prelude.Int.{ℤ, pos, int_eq}

abbrev pub http_error : String
http_error = "http_error"

abbrev pub attested_zero : String
attested_zero = "attested_zero"

abbrev pub failure_modes : List String
failure_modes = http_error ∷ attested_zero ∷ []

pub record Attributes : Type 0 where
  pub credential_version : Option ℤ
  pub required_providers : List String
  pub credential_profile : Option String
  pub credential_failure_mode : Option String

pub record CredentialSpec : Type 0 where
  pub version : ℤ
  pub required_providers : List String
  pub credential_profile : String
  pub failure_mode : String

-- The `RuntimeError`s of `credential_spec_for`.
pub data ContractFault : Type 0 where
  unsupported_mode : String → ContractFault
  unsupported_version : ℤ → ContractFault
  no_providers duplicate_provider no_credential_profile : ContractFault

abbrev pub or_else {ℓ} : {A : Type ℓ} → Option A → A → A
or_else none d = d
or_else (some a) d = a

-- `len(set(providers)) != len(providers)`
unfoldable pub repeats : List String → Bool
repeats [] = false
repeats (x ∷ xs) = contains xs x || repeats xs

is_empty : List String → Bool
is_empty [] = true
is_empty (x ∷ xs) = false

abbrev pub default_mode : ℤ → String
default_mode version = if version == pos 2 then attested_zero else http_error

-- `CredentialSpec(version=version, credential_failure_mode=failure_mode)`
abbrev single_key_spec : ℤ → String → CredentialSpec
single_key_spec version mode = record {
  version = version;
  required_providers = [];
  credential_profile = "";
  failure_mode = mode;
}

-- The part of `credential_spec_for` after the single-key return.
unfoldable pub multi_key_spec : ℤ → String → Attributes → Result ContractFault CredentialSpec
unfolding is_empty
multi_key_spec version mode a = do
  raise_if (not (version == pos 2)) (unsupported_version version)
  raise_if (is_empty a.required_providers) no_providers
  raise_if (repeats a.required_providers) duplicate_provider
  let credential_profile = or_else a.credential_profile ""
  raise_if (credential_profile == "") no_credential_profile
  ok (record {
    version = version;
    required_providers = a.required_providers;
    credential_profile = credential_profile;
    failure_mode = mode;
  })

-- `credential_spec_for(profile)`
unfoldable pub credential_spec_for : Attributes → Result ContractFault CredentialSpec
unfolding multi_key_spec
credential_spec_for a = do
  let version = or_else a.credential_version (pos 1)
  let mode = or_else a.credential_failure_mode (default_mode version)
  raise_if (not (contains failure_modes mode)) (unsupported_mode mode)
  if version == pos 1 then ok (single_key_spec version mode) else multi_key_spec version mode a
