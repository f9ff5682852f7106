-- ===== src/Sealing.antt =====
-- room/sealing.py: what the room makes of a sealed credential. `decrypt` stands for `_decrypt`, and
-- is `none` where that raises; `loads` stands for `json.loads` of a text, and is `none` where that
-- raises a `ValueError`. A `RuntimeError` is its message.
pub mod Parsing
use kata_tee_runner.Prelude.{
  ℕ, String, ◌<>◌, Bool, true, false, not, ◌&&◌, ◌||◌, Option, none, some, List, [], ◌∷◌, length,
  all, contains, leb, ltb, if◌then◌else◌, ◌==◌, string_eq, nat_eq, Result, ok, raise, ◌>>=◌, ◌>>◌,
  raise_if, or_raise,
}
use kata_tee_runner.Prelude.Dict.{Dict, keys, lookup}
use kata_tee_runner.Prelude.Int.{ℤ, pos, int_eq}
use kata_tee_runner.Prelude.Text.{Codes, codes, is_lower, is_digit, is_hex_text, strip, join, sort}
use kata_tee_runner.Prelude.Value.{Value, as_str, as_dict, equals_int}
use kata_tee_runner.Profile.{CredentialSpec}

-- `MinerInferenceCredential`
pub record SingleKey : Type 0 where
  pub provider : String
  pub api_key : String
  pub bundle_binding : String

-- `MinerCredentialSet`
pub record KeySet : Type 0 where
  pub credentials : Dict String String
  pub bundle_binding : String
  pub credential_profile : String

-- `MinerCredentialSet.key(provider)`; `none` is its `RuntimeError`
unfoldable pub key : KeySet → String → Option String
key c provider = lookup provider c.credentials

-- `MinerCredentialSet.providers`
unfoldable pub providers : KeySet → List String
providers c = sort (keys c.credentials)

pub data Credential : Type 0 where
  single : SingleKey → Credential
  multiple : KeySet → Credential

-- `PROVIDER_ID_REGEX` of room/ids.py, `[a-z][a-z0-9_-]{0,63}`
abbrev pub provider_codes : Codes → Bool
provider_codes [] = false
provider_codes (c ∷ cs) =
    is_lower c
    && leb (length cs) 63
    && all (λ d. is_lower d || is_digit d || d == b'_' || d == b'-') cs

unfoldable pub is_provider_id : String → Bool
is_provider_id s = provider_codes (codes s)

unfoldable pub is_sha256 : String → Bool
is_sha256 = is_hex_text 64 64

-- `set(payload) == fields`
unfoldable pub same_keys : List String → List String → Bool
same_keys ks fields = all (contains fields) ks && all (contains ks) fields

abbrev pub single_fields : List String
single_fields = "version" ∷ "provider" ∷ "api_key" ∷ "bundle_binding" ∷ []

abbrev pub set_fields : List String
set_fields = "version" ∷ "credential_profile" ∷ "credentials" ∷ "bundle_binding" ∷ []

-- `d.get(k)` where only a text will do
abbrev pub text_at : String → Dict String Value → Option String
text_at k d = elim (lookup k d) [ none ↦ none | some v ↦ as_str v ]

abbrev pub is_version : ℕ → Dict String Value → Bool
is_version n d = elim (lookup "version" d) [ none ↦ false | some v ↦ equals_int v n ]

abbrev invalid : String → String
invalid what = "sealed miner credential has an invalid " <> what

-- The tests of `_parse_credential` on the API key.
unfoldable pub is_single_key : String → Bool
is_single_key key =
    let cs = codes key in leb 1 (length cs) && leb (length cs) 8192 && all (λ c. leb 32 c) cs

-- `_parse_credential`, of what `json.loads` has made of the plaintext
unfoldable pub parse_credential : Option Value → Result String SingleKey
parse_credential parsed = do
  v ← or_raise parsed (invalid "format")
  payload ← or_raise (as_dict v) (invalid "format")
  raise_if (not (same_keys (keys payload) single_fields)) (invalid "format")
  raise_if (not (is_version 1 payload)) "sealed miner credential uses an unsupported version"
  provider ← or_raise (text_at "provider" payload) (invalid "provider")
  raise_if (not (is_provider_id provider)) (invalid "provider")
  api_key ← or_raise (text_at "api_key" payload) (invalid "API key")
  raise_if (not (is_single_key api_key)) (invalid "API key")
  bundle_binding ← or_raise (text_at "bundle_binding" payload) (invalid "bundle binding")
  raise_if (not (is_sha256 bundle_binding)) (invalid "bundle binding")
  ok (record { provider = provider; api_key = api_key; bundle_binding = bundle_binding })

-- The members of one list that the other lacks.
unfoldable pub lacking : List String → List String → List String
lacking [] ys = []
lacking (x ∷ xs) ys = let rest = lacking xs ys in if contains ys x then rest else x ∷ rest

abbrev pub min_key_chars : ℕ
min_key_chars = 16

abbrev pub max_key_chars : ℕ
max_key_chars = 8192

abbrev pub is_clean : String → Bool
is_clean key = all (λ c. leb 32 c && not (c == 127)) (codes key)

-- The tests of the loop of `_parse_credential_set` on one entry.
unfoldable pub entry_key : String → Dict String Value → Result String String
entry_key provider credentials = do
  raise_if (not (is_provider_id provider)) "profile declares an invalid provider id"
  let entry = "sealed credential for " <> provider <> " has an invalid "
  v ← or_raise (lookup provider credentials) (entry <> "format")
  fields ← or_raise (as_dict v) (entry <> "format")
  raise_if (not (same_keys (keys fields) ("api_key" ∷ []))) (entry <> "format")
  key ← or_raise (text_at "api_key" fields) (entry <> "API key")
  let n = length (codes key)
  raise_if (not (leb min_key_chars n && leb n max_key_chars)) (entry <> "API key length")
  raise_if (not (is_clean key)) (entry <> "API key")
  ok key

unfoldable pub collect_keys : List String → Dict String Value → Result String (Dict String String)
collect_keys [] credentials = ok []
collect_keys (provider ∷ rest) credentials = do
  key ← entry_key provider credentials
  others ← collect_keys rest credentials
  ok ((provider, key) ∷ others)

-- `if names: raise RuntimeError(...)`, the names sorted
abbrev raise_listing : String → List String → Result String (Unit {0})
raise_listing message [] = ok tt
raise_listing message (x ∷ xs) = raise (message <> join ", " (sort (x ∷ xs)))

-- `_parse_credential_set`
unfoldable pub parse_credential_set : Option Value → CredentialSpec → Result String KeySet
parse_credential_set parsed spec = do
  v ← or_raise parsed (invalid "format")
  payload ← or_raise (as_dict v) (invalid "format")
  raise_if (not (is_version 2 payload))
      "sealed miner credential uses an unsupported version; this room requires a multi-credential payload"
  raise_if (not (same_keys (keys payload) set_fields)) (invalid "format")
  profile ←
      or_raise (text_at "credential_profile" payload)
        "sealed miner credential is not for this room's credential profile"
  raise_if (not (profile == spec.credential_profile))
      "sealed miner credential is not for this room's credential profile"
  bundle_binding ← or_raise (text_at "bundle_binding" payload) (invalid "bundle binding")
  raise_if (not (is_sha256 bundle_binding)) (invalid "bundle binding")
  c ← or_raise (lookup "credentials" payload) (invalid "credential map")
  credentials ← or_raise (as_dict c) (invalid "credential map")
  raise_listing "sealed miner credential is missing required provider(s): "
      (lacking spec.required_providers (keys credentials))
  raise_listing "sealed miner credential has unexpected provider(s): "
      (lacking (keys credentials) spec.required_providers)
  found ← collect_keys spec.required_providers credentials
  ok (record {
    credentials = found;
    bundle_binding = bundle_binding;
    credential_profile = spec.credential_profile;
  })

module _ (decrypt : String → Option String) (loads : String → Option Value) where
  -- The texts that both `resolve_miner_credential` and its multi-key sister begin with; `none` is
  -- a submission without a credential.
  unfoldable pub opened : String → Bool → Result String (Option String)
  opened sealed required =
      if strip sealed == ""
      then (if required
          then raise "no sealed miner credential for this run (there is no plaintext fallback)"
          else ok none)
      else elim (decrypt (strip sealed)) [
        | none ↦ raise "sealed miner credential could not be decrypted"
        | some plaintext ↦ ok (some plaintext)
      ]

  abbrev parse_with : CredentialSpec → Option String → Result String (Option Credential)
  parse_with spec none = ok none
  parse_with spec (some plaintext) =
      if spec.version == pos 2
      then (do c ← parse_credential_set (loads plaintext) spec; ok (some (multiple c)))
      else (do c ← parse_credential (loads plaintext); ok (some (single c)))

  -- `resolve_sealed_credential(sealed_param, spec=spec, required=required)`
  unfoldable pub resolve_sealed_credential :
      String → CredentialSpec → Bool → Result String (Option Credential)
  unfolding opened
  resolve_sealed_credential sealed spec required = do
    plaintext ← opened sealed required
    parse_with spec plaintext
