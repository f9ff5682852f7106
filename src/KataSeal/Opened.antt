-- ===== src/KataSeal/Opened.antt =====
-- A sealed text on its way from the miner's tool into the room.
use kata_tee_runner.Prelude.{
  ◌≡◌, inl, inr, refl, sym, ap, ◌∙◌, arith, String, true, false, not, ◌&&◌, Option, some, List, [],
  ◌∷◌, if◌then◌else◌, ◌==◌, all, string_eq, eq_self, nat_eq, ok, raise, >>=-eq-ok, >>-eq-ok,
  or_raise, or_raise-eq-ok, Bool-cases,
}
use kata_tee_runner.Prelude.Decimal.{strip-solid}
use kata_tee_runner.Prelude.Dict.{Dict, keys, lookup}
use kata_tee_runner.Prelude.Int.{pos, int_eq}
use kata_tee_runner.Prelude.Text.{Codes, codes, strip, is_hex, is_space}
use kata_tee_runner.Prelude.Value.{Value, equals_int}
use kata_tee_runner.Sealing.{
  KeySet, multiple, text_at, resolve_sealed_credential, opened, parse_credential_set,
  parse_credential, is_single_key, is_provider_id, is_sha256, same_keys,
}
use kata_tee_runner.KataSeal.{unbound_bundle}
use kata_tee_runner.KataSeal.Keys.{Sources, parse_providers, load_api_key}
use kata_tee_runner.KataSeal.Room.{World, fetch_pubkey}
use kata_tee_runner.KataSeal.Main.{
  Args, Encoding, single_payload, single_mode, set_mode, main, single_key_source, parse_sources,
}
use kata_tee_runner.KataSeal.Found.{AreLoaded}
use kata_tee_runner.KataSeal.Accepted.{HasDigest, set_spec, set_mode-IsAccepted}
use kata_tee_runner.KataSeal.Verified.{main-IsSealed}

-- What the room of these arguments can do: it opens what is encrypted under the key that it publishes,
-- the sealed text is hexadecimal and not empty, and `json.loads` reads the payload from what
-- `json.dumps` has written.
pub record Opens (w : World) (e : Encoding) (from : Sources) (decrypt : String → Option String)
    (loads : String → Option Value) (args : Args) : Type 0 where
  pub decrypts :
      (info : Dict String Value) (pubkey text sealed : String)
      → fetch_pubkey w args.room ≡ ok info
      → text_at "pubkey" info ≡ some pubkey
      → e.encrypt pubkey text ≡ some sealed
      → decrypt sealed ≡ some text
  pub is_hexadecimal :
      (pubkey text sealed : String)
      → e.encrypt pubkey text ≡ some sealed
      → all is_hex (codes sealed) ≡ true
  pub is_text :
      (pubkey text sealed : String) → e.encrypt pubkey text ≡ some sealed → (sealed == "") ≡ false
  pub loads-dumps : (v : Value) → set_mode from args ≡ ok v → loads (e.dumps v) ≡ some v

hex_IsSolid : (cs : Codes) → all is_hex cs ≡ true → all (λ c. not (is_space c)) cs ≡ true
hex_IsSolid [] h = refl
hex_IsSolid (c ∷ cs) h = ground (arith, hex_IsSolid cs (ground arith))

resolve_sealed_credential-set :
    (decrypt : String → Option String) (loads : String → Option Value)
    (sealed text profile mode : String) (payload : Value) (providers : List String) (c : KeySet)
    → strip sealed ≡ sealed
    → (sealed == "") ≡ false
    → decrypt sealed ≡ some text
    → loads text ≡ some payload
    → parse_credential_set (some payload) (set_spec providers profile mode) ≡ ok c
    → resolve_sealed_credential decrypt loads sealed (set_spec providers profile mode) false
      ≡ ok (some (multiple c))
unfolding resolve_sealed_credential opened
resolve_sealed_credential-set decrypt loads sealed text profile mode payload providers c s n d l p =
    rw (s, n, d, eq_self (pos 2), l, p) refl

parse_credential-single_payload :
    (provider key binding : String)
    → is_provider_id provider ≡ true
    → is_sha256 binding ≡ true
    → parse_credential (some (single_payload provider key binding)) ≡ (
        if is_single_key key
        then ok (record { provider = provider; api_key = key; bundle_binding = binding })
        else raise "sealed miner credential has an invalid API key")
unfolding parse_credential single_payload same_keys lookup string_eq equals_int
parse_credential-single_payload provider key binding valid sha =
    elim (Bool-cases (is_single_key key)) [
      | inl good ↦ rw (eq_self (pos 1), valid, good, sha) refl
      | inr bad ↦ rw (eq_self (pos 1), valid, bad) refl
    ]

module _ (w : World) (e : Encoding) (from : Sources) where
  -- The text that the sealing tool writes for a set of providers is one that the room resolves,
  -- under a profile that requires these providers in this order and has this credential profile, to
  -- the keys that the tool has loaded, one for each of the providers, with the binding of the
  -- miner's bundle. The key of a provider is that of its variable, else of its file, else of the
  -- prompt for it, as the arguments name them. It takes that the binding is a SHA-256 in
  -- hexadecimal, that the room decrypts what is encrypted under the key that it publishes, that a
  -- sealed text is hexadecimal and not empty, and that the payload is read back from its JSON.
  pub main-resolves :
      (args : Args) (sealed mode : String) (decrypt : String → Option String)
      (loads : String → Option Value)
      → HasDigest args
      → Opens w e from decrypt loads args
      → args.provider ≡ ""
      → main w e from args ≡ ok sealed
      → (providers : List String) × (envs : Dict String String) × (files : Dict String String)
        × (found : Dict String String) × (binding : String) × (parse_providers args.providers
            ≡ ok providers)
        × (parse_sources [] args.key_env ≡ ok envs)
        × (parse_sources [] args.key_file ≡ ok files)
        × (args.binding ≡ some binding)
        × (keys found ≡ providers)
        × AreLoaded from envs files found
        × (resolve_sealed_credential decrypt loads sealed
              (set_spec providers (strip args.credential_profile) mode)
              false
            ≡ ok (
                some (
                  multiple (record {
                    credentials = found;
                    bundle_binding = binding;
                    credential_profile = strip args.credential_profile;
                  }))))
  main-resolves args sealed mode decrypt loads digest room set h =
      let s = main-IsSealed w e from args sealed h in
      let built : set_mode from args ≡ ok s.payload =
        ground (arith, s.is_built, set, eq_self {A = String} "") in
      let (
        providers, envs, files, found, binding, p, from_env, from_file, b, named, loaded, parsed,
      ) =
        set_mode-IsAccepted from args s.payload mode digest built in
      (
        providers,
        envs,
        files,
        found,
        binding,
        p,
        from_env,
        from_file,
        b,
        named,
        loaded,
        resolve_sealed_credential-set decrypt loads sealed (e.dumps s.payload)
            (strip args.credential_profile) mode s.payload providers _
            (strip-solid sealed
              (hex_IsSolid (codes sealed) (room.is_hexadecimal s.pubkey _ sealed s.is_encrypted)))
            (room.is_text s.pubkey _ sealed s.is_encrypted)
            (room.decrypts s.info s.pubkey _ sealed s.is_fetched s.is_pubkey s.is_encrypted)
            (room.loads-dumps s.payload built) parsed,
      )

-- What the parser of the room makes of the payload for a single key: the tool does not check the key.
module _ (from : Sources) where
  -- A payload that the sealing tool builds for one provider is parsed by the room to the key that
  -- the tool has loaded, if that is of 1 to 8192 characters and none of them is below the space;
  -- else the room refuses it for its key, which the tool has let pass. It takes that the binding is
  -- a SHA-256 in hexadecimal.
  pub single_mode-parses :
      (args : Args) (payload : Value)
      → HasDigest args
      → single_mode from args ≡ ok payload
      → (key_env : String) × (key_file : String) × (key : String) × (binding : String)
        × (load_api_key from key_env key_file ≡ ok key)
        × (args.binding ≡ some binding)
        × (parse_credential (some payload) ≡ (
            if is_single_key key
            then ok (record { provider = args.provider; api_key = key; bundle_binding = binding })
            else raise "sealed miner credential has an invalid API key"))
  unfolding single_mode
  single_mode-parses args payload digest h =
      let (_, h₁) = >>-eq-ok (not (strip args.credential_profile == "")) _ _ h in
      let (valid, h₂) = >>-eq-ok (not (is_provider_id args.provider)) _ _ h₁ in
      let (key_env, _, h₃) = >>=-eq-ok (single_key_source args.key_env) _ h₂ in
      let (key_file, _, h₄) = >>=-eq-ok (single_key_source args.key_file) _ h₃ in
      let (_, h₅) = >>-eq-ok (not (key_env == "") && not (key_file == "")) _ _ h₄ in
      let (key, k, h₆) = >>=-eq-ok (load_api_key from key_env key_file) _ h₅ in
      let (binding, b, h₇) = >>=-eq-ok (or_raise args.binding unbound_bundle) _ h₆ in
      let is_binding = or_raise-eq-ok args.binding unbound_bundle binding b in
      let same : single_payload args.provider key binding ≡ payload = ground (arith, h₇) in
      (
        key_env,
        key_file,
        key,
        binding,
        k,
        is_binding,
        ap (λ p. parse_credential (some p)) (sym same)
            ∙ parse_credential-single_payload args.provider key binding (ground (arith, valid))
                (digest binding is_binding),
      )
