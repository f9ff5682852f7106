-- ===== src/KataSeal/Main.antt =====
-- kata_seal.py, `main`: from the arguments to the sealed text that is written.
use kata_tee_runner.Prelude.{
  String, Bool, not, ◌&&◌, Option, none, some, List, [], ◌∷◌, if◌then◌else◌, ◌==◌, string_eq,
  Result, ok, raise, ◌>>=◌, ◌>>◌, raise_if, or_raise,
}
use kata_tee_runner.Prelude.Cut.{cut}
use kata_tee_runner.Prelude.Dict.{Dict, insert}
use kata_tee_runner.Prelude.Int.{pos}
use kata_tee_runner.Prelude.Text.{strip}
use kata_tee_runner.Prelude.Value.{Value, Fields, str, int, obj, end, field}
use kata_tee_runner.Sealing.{is_provider_id, is_sha256, text_at}
use kata_tee_runner.KataSeal.{
  SealError, repeated_source, both_sources, multi_key_form, bad_measurement, not_directory,
  profile_in_single_mode, empty_profile, unbound_bundle, missing_pubkey, invalid_provider,
  unhandled,
}
use kata_tee_runner.KataSeal.Keys.{
  Sources, parse_providers, parse_key_source, load_api_key, collect_keys,
}
use kata_tee_runner.KataSeal.Room.{World, fetch_pubkey, verify_room}

-- The parsed arguments. `is_dir` and `binding` tell of the resolved bundle path: whether it is a
-- directory, and `credential_bundle_binding` of it, `none` where that raises.
pub record Args : Type 0 where
  pub room : String
  pub provider : String
  pub providers : String
  pub credential_profile : String
  pub key_env : List String
  pub key_file : List String
  pub is_dir : Bool
  pub binding : Option String
  pub measurement : String
  pub no_verify : Bool

-- The encodings: `json.dumps`, and `encrypt(pubkey, plaintext)` in hexadecimal.
pub record Encoding : Type 0 where
  pub dumps : Value → String
  pub encrypt : String → String → Option String

-- `_single_key_source` of the values of one flag
unfoldable pub single_key_source : List String → Result SealError String
single_key_source [] = ok ""
single_key_source (value ∷ _ ∷ _) = raise repeated_source
single_key_source (value ∷ []) = elim (cut b'=' value) [
  | none ↦ ok value
  | some (head, _) ↦ if is_provider_id (strip head) then raise multi_key_form else ok value
]

-- `dict(parse_key_source(item) for item in items)`, onto the entries so far
unfoldable pub parse_sources :
    Dict String String → List String → Result SealError (Dict String String)
parse_sources found [] = ok found
parse_sources found (item ∷ items) = do
  source ← parse_key_source item
  parse_sources (insert source.0 source.1 found) items

unfoldable pub single_payload : String → String → String → Value
single_payload provider api_key bundle_binding = obj (
    field "version" (int (pos 1)) (
      field "provider" (str provider)
        (field "api_key" (str api_key) (field "bundle_binding" (str bundle_binding) end))))

-- The entries of `{provider: {"api_key": keys[provider]} for provider in providers}`.
abbrev pub key_fields : Dict String String → Fields
key_fields [] = end
key_fields ((provider, key) ∷ rest) =
    field provider (obj (field "api_key" (str key) end)) (key_fields rest)

unfoldable pub set_payload : String → Dict String String → String → Value
set_payload credential_profile keys bundle_binding = obj (
    field "version" (int (pos 2)) (
      field "credential_profile" (str credential_profile) (
        field "credentials" (obj (key_fields keys))
          (field "bundle_binding" (str bundle_binding) end))))

module _ (from : Sources) where
  -- The part of `main` for `--provider`: what is sealed.
  unfoldable pub single_mode : Args → Result SealError Value
  unfolding single_key_source single_payload
  single_mode args = do
    raise_if (not (strip args.credential_profile == "")) profile_in_single_mode
    raise_if (not (is_provider_id args.provider)) invalid_provider
    key_env ← single_key_source args.key_env
    key_file ← single_key_source args.key_file
    raise_if (not (key_env == "") && not (key_file == "")) both_sources
    api_key ← load_api_key from key_env key_file
    bundle_binding ← or_raise args.binding unbound_bundle
    ok (single_payload args.provider api_key bundle_binding)

  -- The part of `main` for `--providers`.
  unfoldable pub set_mode : Args → Result SealError Value
  unfolding parse_sources set_payload
  set_mode args = do
    providers ← parse_providers args.providers
    raise_if (strip args.credential_profile == "") empty_profile
    key_envs ← parse_sources [] args.key_env
    key_files ← parse_sources [] args.key_file
    keys ← collect_keys from providers key_envs key_files
    bundle_binding ← or_raise args.binding unbound_bundle
    ok (set_payload (strip args.credential_profile) keys bundle_binding)

module _ (w : World) (e : Encoding) (from : Sources) where
  -- `_seal`, up to the writing of the sealed text, which is the result
  unfoldable pub seal : Args → Value → Result SealError String
  seal args payload = do
    info ← fetch_pubkey w args.room
    pubkey ← or_raise (text_at "pubkey" info) missing_pubkey
    quote ← or_raise (text_at "quote" info) missing_pubkey
    verified ← if args.no_verify then ok ([], "") else verify_room w quote pubkey args.measurement
    or_raise (e.encrypt pubkey (e.dumps payload)) unhandled

  unfoldable pub main : Args → Result SealError String
  unfolding seal single_mode set_mode
  main args = do
    raise_if (not args.no_verify && not (is_sha256 args.measurement)) bad_measurement
    raise_if (not args.is_dir) not_directory
    payload ← if not (args.provider == "") then single_mode from args else set_mode from args
    seal args payload
