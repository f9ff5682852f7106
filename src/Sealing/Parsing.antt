-- ===== src/Sealing/Parsing.antt =====
-- The payloads that the room accepts, and what it takes from them.
use kata_tee_runner.Prelude.{
  ◌≡◌, ◌≢◌, ◌↔◌, inl, inr, refl, String, Bool, true, false, Option, none, some, List, [], ◌∷◌,
  arith, length, string_eq, nat_eq, ok, raise, Option-cases, >>=-eq-ok, ◌≤◌,
}
use kata_tee_runner.Prelude.Dict.{Dict, keys, lookup}
use kata_tee_runner.Prelude.Int.{pos, int_eq}
use kata_tee_runner.Prelude.Text.{codes, strip}
use kata_tee_runner.Prelude.Value.{Value, Fields, obj, entries}
use kata_tee_runner.Profile.{CredentialSpec}
use kata_tee_runner.Sealing.{
  SingleKey, KeySet, Credential, single, multiple, is_provider_id, is_sha256, same_keys,
  single_fields, set_fields, text_at, is_version, is_single_key, parse_credential, lacking,
  min_key_chars, max_key_chars, is_clean, entry_key, collect_keys, parse_credential_set,
  resolve_sealed_credential,
}

-- A dict of just the four fields, at version 1, with a text of the right form in each.
pub record IsSingleKey (parsed : Option Value) (c : SingleKey) : Type 0 where
  pub payload : Fields
  pub is_dict : parsed ≡ some (obj payload)
  pub fields : same_keys (keys (entries payload)) single_fields ≡ true
  pub version : is_version 1 (entries payload) ≡ true
  pub provider : text_at "provider" (entries payload) ≡ some c.provider
  pub provider_id : is_provider_id c.provider ≡ true
  pub api_key : text_at "api_key" (entries payload) ≡ some c.api_key
  pub key_form : is_single_key c.api_key ≡ true
  pub binding : text_at "bundle_binding" (entries payload) ≡ some c.bundle_binding
  pub sha256 : is_sha256 c.bundle_binding ≡ true

parse_credential-IsSingleKey :
    (parsed : Option Value) (c : SingleKey) → parse_credential parsed ≡ ok c → IsSingleKey parsed c
unfolding parse_credential
parse_credential-IsSingleKey (some (obj fs)) c h = record {
  payload = fs;
  is_dict = refl;
  fields = ground arith;
  version = ground arith;
  provider = ground arith;
  provider_id = ground arith;
  api_key = ground arith;
  key_form = ground arith;
  binding = ground arith;
  sha256 = ground arith;
}
parse_credential-IsSingleKey _ c h = absurd (ground arith)

ok_of_IsSingleKey :
    (parsed : Option Value) (c : SingleKey) → IsSingleKey parsed c → parse_credential parsed ≡ ok c
unfolding parse_credential
ok_of_IsSingleKey parsed c s = rw s.is_dict (ground arith)

-- `_parse_credential` returns a given credential exactly where the payload is a dict of just the
-- four fields, at version 1, with a provider id, an API key of 1 to 8192 characters none of which
-- is below the space, and a bundle binding that is a SHA-256 in hexadecimal, and these three texts
-- are the credential.
parse_credential_iff :
    (parsed : Option Value) (c : SingleKey)
    → (parse_credential parsed ≡ ok c) ↔ IsSingleKey parsed c
parse_credential_iff parsed c = (parse_credential-IsSingleKey parsed c, ok_of_IsSingleKey parsed c)

-- A key that the set parser takes: 16 to 8192 characters, no control character.
abbrev pub IsUsableKey : String → Type 0
IsUsableKey key =
    (min_key_chars ≤ length (codes key))
    × (length (codes key) ≤ max_key_chars)
    × (is_clean key ≡ true)

-- The entry `{"api_key": key}` stands under the provider.
pub record IsEntry (credentials : Dict String Value) (provider key : String) : Type 0 where
  pub provider_id : is_provider_id provider ≡ true
  pub fields : Fields
  pub at : lookup provider credentials ≡ some (obj fields)
  pub alone : same_keys (keys (entries fields)) ("api_key" ∷ []) ≡ true
  pub key_is : text_at "api_key" (entries fields) ≡ some key
  pub usable : IsUsableKey key

entry_key-IsEntry :
    (credentials : Dict String Value) (provider key : String)
    → entry_key provider credentials ≡ ok key
    → IsEntry credentials provider key
unfolding entry_key
entry_key-IsEntry credentials provider key h = elim (Option-cases (lookup provider credentials)) [
  | inl absent ↦ absurd (ground arith)
  | inr (v, at) ↦ go v at
]
  where
    go : (v : Value) → lookup provider credentials ≡ some v → IsEntry credentials provider key
    go (obj fs) at = record {
      provider_id = ground arith;
      fields = fs;
      at = at;
      alone = ground arith;
      key_is = ground arith;
      usable = ground arith;
    }
    go _ at = absurd (ground arith)

-- One entry for each provider, in order.
abbrev pub AreEntries : Dict String Value → List String → Dict String String → Type 0
AreEntries credentials [] [] = Unit
AreEntries credentials [] (_ ∷ _) = ⊥
AreEntries credentials (p ∷ ps) [] = ⊥
AreEntries credentials (p ∷ ps) ((q, key) ∷ found) =
    (q ≡ p) × IsEntry credentials p key × AreEntries credentials ps found

collect_keys-AreEntries :
    (ps : List String) (credentials : Dict String Value) (found : Dict String String)
    → collect_keys ps credentials ≡ ok found
    → AreEntries credentials ps found
unfolding collect_keys
collect_keys-AreEntries [] credentials [] h = tt
collect_keys-AreEntries [] credentials (_ ∷ _) h = absurd (ground arith)
collect_keys-AreEntries (p ∷ ps) credentials found h =
    let (key, first, more) = >>=-eq-ok (entry_key p credentials) _ h in
    let (others, rest, last) = >>=-eq-ok (collect_keys ps credentials) _ more in
    let same : found ≡ (p, key) ∷ others = ground (arith, last) in
    rw same (
      refl,
      entry_key-IsEntry credentials p key first,
      collect_keys-AreEntries ps credentials others rest,
    )

-- A dict of just the four fields, at version 2, sealed for the room's own profile and with one
-- entry for each of the profile's providers and no other.
pub record IsKeySet (parsed : Option Value) (spec : CredentialSpec) (c : KeySet) : Type 0 where
  pub payload : Fields
  pub credentials : Fields
  pub is_dict : parsed ≡ some (obj payload)
  pub version : is_version 2 (entries payload) ≡ true
  pub fields : same_keys (keys (entries payload)) set_fields ≡ true
  pub for_room : text_at "credential_profile" (entries payload) ≡ some spec.credential_profile
  pub profile : c.credential_profile ≡ spec.credential_profile
  pub binding : text_at "bundle_binding" (entries payload) ≡ some c.bundle_binding
  pub sha256 : is_sha256 c.bundle_binding ≡ true
  pub map_at : lookup "credentials" (entries payload) ≡ some (obj credentials)
  pub complete : lacking spec.required_providers (keys (entries credentials)) ≡ []
  pub exact : lacking (keys (entries credentials)) spec.required_providers ≡ []
  pub found : AreEntries (entries credentials) spec.required_providers c.credentials

-- A payload that `_parse_credential_set` accepts is a dict of just the four fields, at version 2,
-- sealed for the room's credential profile, with a bundle binding that is a SHA-256 in hexadecimal,
-- and with one entry for each of the profile's required providers and no other; each entry holds
-- just an API key of 16 to 8192 characters without control characters, and the result has these
-- keys in the order of the providers.
parse_credential_set-IsKeySet :
    (parsed : Option Value) (spec : CredentialSpec) (c : KeySet)
    → parse_credential_set parsed spec ≡ ok c
    → IsKeySet parsed spec c
unfolding parse_credential_set
parse_credential_set-IsKeySet (some (obj fs)) spec c h =
    elim (Option-cases (lookup "credentials" (entries fs))) [
      | inl absent ↦ absurd (ground arith)
      | inr (v, at) ↦ go v at
    ]
  where
    go : (v : Value) → lookup "credentials" (entries fs) ≡ some v → IsKeySet (some (obj fs)) spec c
    go (obj cs) at = record {
      payload = fs;
      credentials = cs;
      is_dict = refl;
      version = ground arith;
      fields = ground arith;
      for_room = ground arith;
      profile = ground arith;
      binding = ground arith;
      sha256 = ground arith;
      map_at = at;
      complete = ground arith;
      exact = ground arith;
      found =
          collect_keys-AreEntries spec.required_providers (entries cs) c.credentials (ground arith);
    }
    go _ at = absurd (ground arith)
parse_credential_set-IsKeySet _ spec c h = absurd (ground arith)

module _ (decrypt : String → Option String) (loads : String → Option Value) where
  -- Which shape can come out is decided by the profile alone, whatever was sealed.
  abbrev pub FitsProfile : CredentialSpec → Option Value → Option Credential → Type 0
  FitsProfile spec parsed none = Unit
  FitsProfile spec parsed (some (single c)) = (spec.version ≢ pos 2) × IsSingleKey parsed c
  FitsProfile spec parsed (some (multiple c)) = (spec.version ≡ pos 2) × IsKeySet parsed spec c

  abbrev pub plaintext_value : String → Option Value
  plaintext_value sealed = elim (decrypt (strip sealed)) [ none ↦ none | some t ↦ loads t ]

  -- The credential that `resolve_sealed_credential` returns, if it returns one, is a set of keys
  -- where the profile declares version 2 and a single key where it declares another version,
  -- whatever was sealed, and in each case what the decrypted payload must look like for its parser
  -- to accept it.
  pub resolve_sealed_credential-FitsProfile :
      (sealed : String) (spec : CredentialSpec) (required : Bool) (c : Option Credential)
      → resolve_sealed_credential decrypt loads sealed spec required ≡ ok c
      → FitsProfile spec (plaintext_value sealed) c
  unfolding resolve_sealed_credential
  resolve_sealed_credential-FitsProfile sealed spec required none h = tt
  resolve_sealed_credential-FitsProfile sealed spec required (some (single c)) h =
      elim (Option-cases (decrypt (strip sealed))) [
        | inl failed ↦ absurd (ground arith)
        | inr (t, opened) ↦
            rw (opened, plaintext_value)
              (ground arith, (parse_credential_iff (loads t) c).0 (ground arith))
      ]
  resolve_sealed_credential-FitsProfile sealed spec required (some (multiple c)) h =
      elim (Option-cases (decrypt (strip sealed))) [
        | inl failed ↦ absurd (ground arith)
        | inr (t, opened) ↦
            rw (opened, plaintext_value)
              (ground arith, parse_credential_set-IsKeySet (loads t) spec c (ground arith))
      ]

  -- Without a ciphertext there is no credential, and where one is required the room refuses: no
  -- other key takes its place.
  pub resolve_sealed_credential_absent :
      (sealed : String) (spec : CredentialSpec)
      → strip sealed ≡ ""
      → (resolve_sealed_credential decrypt loads sealed spec false ≡ ok none)
        × (resolve_sealed_credential decrypt loads sealed spec true
            ≡ raise "no sealed miner credential for this run (there is no plaintext fallback)")
  unfolding resolve_sealed_credential
  resolve_sealed_credential_absent sealed spec empty = (ground arith, ground arith)
