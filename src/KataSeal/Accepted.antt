-- ===== src/KataSeal/Accepted.antt =====
-- What the tool seals, as the room of room/sealing.py opens it.
use kata_tee_runner.Prelude.{
  ◌≡◌, refl, arith, String, true, false, not, ◌||◌, some, List, [], contains, all, length, ◌==◌,
  nat_eq, string_eq, eq_self, ok, >>=-eq-ok, >>-eq-ok, or_raise, or_raise-eq-ok,
}
use mathlib.Core.Path.{subst}
use kata_tee_runner.Prelude.Dict.{Dict, keys, lookup}
use kata_tee_runner.Prelude.Int.{pos, int_eq}
use kata_tee_runner.Prelude.Text.{strip}
use kata_tee_runner.Prelude.Value.{Value, entries, equals_int}
use kata_tee_runner.Profile.{CredentialSpec, repeats}
use kata_tee_runner.Sealing.{is_provider_id, is_sha256, same_keys, parse_credential_set}
use kata_tee_runner.KataSeal.{unbound_bundle}
use kata_tee_runner.KataSeal.Keys.{
  Sources, shared, collect_keys, parse_providers, stripped, split_commas,
}
use kata_tee_runner.KataSeal.Main.{Args, key_fields, set_payload, parse_sources, set_mode}
use kata_tee_runner.KataSeal.Found.{
  AreKeys, AreLoaded, load_keys-AreKeys, key_fields-AreFound, keys-key_fields,
  collect_keys-AreFound, lacking_self, contains-all,
}

-- The spec of a profile that requires a set of keys.
abbrev pub set_spec : List String → String → String → CredentialSpec
set_spec providers profile mode = record {
  version = pos 2;
  required_providers = providers;
  credential_profile = profile;
  failure_mode = mode;
}

parse_credential_set-set_payload :
    (found : Dict String String) (profile binding mode : String)
    → repeats (keys found) ≡ false
    → all is_provider_id (keys found) ≡ true
    → AreKeys found
    → is_sha256 binding ≡ true
    → parse_credential_set
        (some (set_payload profile found binding))
        (set_spec (keys found) profile mode)
      ≡ ok (record { credentials = found; bundle_binding = binding; credential_profile = profile })
unfolding parse_credential_set set_payload same_keys lookup string_eq equals_int
parse_credential_set-set_payload found profile binding mode distinct valid good sha =
    let complete = lacking_self (keys found) (keys found) (contains-all (keys found)) in
    let collected =
      collect_keys-AreFound found (entries (key_fields found)) valid
        (key_fields-AreFound found distinct) good in
    rw (eq_self (pos 2), eq_self profile, sha, keys-key_fields found, complete, collected) refl

parse_providers-valid :
    (raw : String) (providers : List String)
    → parse_providers raw ≡ ok providers
    → (repeats providers ≡ false) × (all is_provider_id providers ≡ true)
unfolding parse_providers
parse_providers-valid raw providers h =
    let named = stripped (split_commas raw) in
    let (_, h₁) = >>-eq-ok (length named == 0) _ _ h in
    let (distinct, h₂) = >>-eq-ok (repeats named) _ _ h₁ in
    let (valid, h₃) = >>-eq-ok (not (all is_provider_id named)) _ _ h₂ in
    let same : named ≡ providers = ground (arith, h₃) in
    rw (← same) (distinct, ground (arith, valid))

-- What the room makes of what the tool seals for a set of providers: the keys that are loaded from the
-- sources of the arguments.
abbrev pub IsAccepted : Sources → Args → Value → String → Type 0
IsAccepted from args payload mode =
    (providers : List String) × (envs : Dict String String) × (files : Dict String String)
    × (found : Dict String String) × (binding : String) × (parse_providers args.providers
        ≡ ok providers)
    × (parse_sources [] args.key_env ≡ ok envs)
    × (parse_sources [] args.key_file ≡ ok files)
    × (args.binding ≡ some binding)
    × (keys found ≡ providers)
    × AreLoaded from envs files found
    × (parse_credential_set (some payload) (set_spec providers (strip args.credential_profile) mode)
        ≡ ok (record {
          credentials = found;
          bundle_binding = binding;
          credential_profile = strip args.credential_profile;
        }))

-- The binding of a bundle is a SHA-256 in hexadecimal.
abbrev pub HasDigest : Args → Type 0
HasDigest args = (b : String) → args.binding ≡ some b → is_sha256 b ≡ true

assembled :
    (args : Args) (payload : Value) (mode : String) (providers : List String)
    (found : Dict String String) (binding : String)
    → parse_providers args.providers ≡ ok providers
    → is_sha256 binding ≡ true
    → keys found ≡ providers
    → AreKeys found
    → set_payload (strip args.credential_profile) found binding ≡ payload
    → parse_credential_set (some payload) (set_spec providers (strip args.credential_profile) mode)
      ≡ ok (record {
        credentials = found;
        bundle_binding = binding;
        credential_profile = strip args.credential_profile;
      })
assembled args payload mode providers found binding p sha named good same =
    let (distinct, valid) = parse_providers-valid args.providers providers p in
    let distinct_keys : repeats (keys found) ≡ false = rw (named) distinct in
    let valid_keys : all is_provider_id (keys found) ≡ true = rw (named) valid in
    let parsed =
      parse_credential_set-set_payload found (strip args.credential_profile) binding mode
        distinct_keys valid_keys good sha in
    subst
      (λ ps.
        parse_credential_set (some payload) (set_spec ps (strip args.credential_profile) mode)
        ≡ ok (record {
          credentials = found;
          bundle_binding = binding;
          credential_profile = strip args.credential_profile;
        }))
      named (rw (← same) parsed)

module _ (from : Sources) where
  collect_keys-AreKeys :
      (providers : List String) (envs files found : Dict String String)
      → collect_keys from providers envs files ≡ ok found
      → (keys found ≡ providers) × AreKeys found × AreLoaded from envs files found
  unfolding collect_keys
  collect_keys-AreKeys providers envs files found h =
      let (_, h₁) =
        >>-eq-ok
          (not (all (contains providers) (keys envs))
            || not (all (contains providers) (keys files)))
          _ _ h in
      let (_, h₂) = >>-eq-ok (shared (keys envs) (keys files)) _ _ h₁ in
      load_keys-AreKeys from envs files providers found h₂

  pub set_mode-IsAccepted :
      (args : Args) (payload : Value) (mode : String)
      → HasDigest args
      → set_mode from args ≡ ok payload
      → IsAccepted from args payload mode
  unfolding set_mode
  set_mode-IsAccepted args payload mode digest h =
      let (providers, p, h₁) = >>=-eq-ok (parse_providers args.providers) _ h in
      let (_, h₂) = >>-eq-ok (strip args.credential_profile == "") _ _ h₁ in
      let (envs, e, h₃) = >>=-eq-ok (parse_sources [] args.key_env) _ h₂ in
      let (files, f, h₄) = >>=-eq-ok (parse_sources [] args.key_file) _ h₃ in
      let (found, c, h₅) = >>=-eq-ok (collect_keys from providers envs files) _ h₄ in
      let (binding, b, h₆) = >>=-eq-ok (or_raise args.binding unbound_bundle) _ h₅ in
      let is_binding = or_raise-eq-ok args.binding unbound_bundle binding b in
      let (named, good, loaded) = collect_keys-AreKeys providers envs files found c in
      (
        providers,
        envs,
        files,
        found,
        binding,
        p,
        e,
        f,
        is_binding,
        named,
        loaded,
        assembled args payload mode providers found binding p (digest binding is_binding) named good
            (ground (arith, h₆)),
      )
