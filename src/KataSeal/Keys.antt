-- ===== src/KataSeal/Keys.antt =====
-- kata_seal.py: the providers that are named, and their keys.
use kata_tee_runner.Prelude.{
  ℕ, ◌%◌, String, Bool, false, not, ◌&&◌, ◌||◌, Option, none, some, List, [], ◌∷◌, length, contains,
  all, leb, ltb, if◌then◌else◌, ◌==◌, nat_eq, string_eq, Result, ok, ◌>>=◌, ◌>>◌, raise_if,
  or_raise,
}
use Prim.Native.Char.{code}
use kata_tee_runner.Prelude.Cut.{cut}
use kata_tee_runner.Prelude.Dict.{Dict, keys, lookup}
use kata_tee_runner.Prelude.Text.{Codes, codes, strip}
use kata_tee_runner.Profile.{repeats}
use kata_tee_runner.Sealing.{is_provider_id, min_key_chars, max_key_chars}
use kata_tee_runner.Gateway.Status.{push}
use kata_tee_runner.KataSeal.{
  SealError, unreadable_key_file, not_regular_file, open_key_file, empty_key, unknown_source,
  both_sources, key_length, control_character, no_providers, repeated_provider, invalid_provider,
  malformed_source,
}

-- What `lstat` tells of a key file, and its text, `none` where an `OSError` is raised.
pub record FileInfo : Type 0 where
  pub is_symlink : Bool
  pub is_file : Bool
  pub mode : ℕ
  pub text : Option String

-- Where a key may come from: the environment, a file, and a hidden prompt.
pub record Sources : Type 0 where
  pub environ : String → Option String
  pub lstat : String → Option FileInfo
  pub getpass : String → String

-- `raw.split(",")`
unfoldable pub split_commas : String → List String
split_commas String.[] = "" ∷ []
split_commas (String.◌∷◌ c s) =
    let rest = split_commas s in if code c == b',' then "" ∷ rest else push c rest

-- `part.strip()` of each part that is not blank
unfoldable pub stripped : List String → List String
stripped [] = []
stripped (part ∷ parts) =
    let rest = stripped parts in if strip part == "" then rest else strip part ∷ rest

unfoldable pub parse_providers : String → Result SealError (List String)
unfolding split_commas stripped
parse_providers raw = do
  let providers = stripped (split_commas raw)
  raise_if (length providers == 0) no_providers
  raise_if (repeats providers) repeated_provider
  raise_if (not (all is_provider_id providers)) invalid_provider
  ok providers

unfoldable pub parse_key_source : String → Result SealError (String × String)
parse_key_source argument = do
  parts ← or_raise (cut b'=' argument) malformed_source
  raise_if (strip parts.0 == "" || strip parts.1 == "") malformed_source
  ok (strip parts.0, strip parts.1)

-- `load_api_key`, past the choice of the source
unfoldable pub not_empty : String → Result SealError String
not_empty value = do raise_if (strip value == "") empty_key; ok (strip value)

abbrev or_empty : Option String → String
or_empty none = ""
or_empty (some s) = s

-- `path` has been expanded: `Path(key_file).expanduser()`
unfoldable pub read_key_file : Sources → String → Result SealError String
read_key_file from path = do
  info ← or_raise (from.lstat path) unreadable_key_file
  raise_if (info.is_symlink || not info.is_file) not_regular_file
  raise_if (not (info.mode % 64 == 0)) open_key_file
  or_raise info.text unreadable_key_file

unfoldable pub load_api_key : Sources → String → String → Result SealError String
unfolding not_empty
load_api_key from key_env key_file =
    if not (key_env == "")
    then not_empty (or_empty (from.environ key_env))
    else if not (key_file == "")
    then (do value ← read_key_file from key_file; not_empty value)
    else not_empty (from.getpass "")

-- The key of one provider; a prompt is known by its provider.
unfoldable pub key_of :
    Sources → Dict String String → Dict String String → String → Result SealError String
unfolding load_api_key
key_of from key_envs key_files provider = elim (lookup provider key_envs) [
  | some key_env ↦ load_api_key from key_env ""
  | none ↦ elim (lookup provider key_files) [
    | some key_file ↦ load_api_key from "" key_file
    | none ↦ ok (strip (from.getpass provider))
  ]
]

abbrev pub is_control : ℕ → Bool
is_control c = ltb c 32 || c == 127

unfoldable pub any_control : Codes → Bool
any_control [] = false
any_control (c ∷ cs) = is_control c || any_control cs

-- The checks of the loop of `collect_keys` on one key.
unfoldable pub check_key : String → Result SealError String
unfolding any_control
check_key value = do
  raise_if (value == "") empty_key
  raise_if
      (not (leb min_key_chars (length (codes value)) && leb (length (codes value)) max_key_chars))
      key_length
  raise_if (any_control (codes value)) control_character
  ok value

-- `keys[provider] = value` for each of the providers, of which none is repeated
unfoldable pub load_keys :
    Sources
    → Dict String String
    → Dict String String
    → List String
    → Result SealError (Dict String String)
load_keys from key_envs key_files [] = ok []
load_keys from key_envs key_files (provider ∷ rest) = do
  given ← key_of from key_envs key_files provider
  value ← check_key given
  others ← load_keys from key_envs key_files rest
  ok ((provider, value) ∷ others)

abbrev pub shared : List String → List String → Bool
shared [] ys = false
shared (x ∷ xs) ys = contains ys x || shared xs ys

unfoldable pub collect_keys :
    Sources
    → List String
    → Dict String String
    → Dict String String
    → Result SealError (Dict String String)
collect_keys from providers key_envs key_files = do
  raise_if
      (not (all (contains providers) (keys key_envs))
        || not (all (contains providers) (keys key_files)))
      unknown_source
  raise_if (shared (keys key_envs) (keys key_files)) both_sources
  load_keys from key_envs key_files providers
