-- ===== src/KataSeal/Found.antt =====
-- The keys that the tool loads, as the parser of room/sealing.py finds them.
use kata_tee_runner.Prelude.{
  both, ◌≡◌, refl, ap, arith, String, true, false, not, ◌&&◌, none, some, ◌⊎◌, inl, inr,
  Option-cases, List, [], ◌∷◌, contains, all, length, leb, ◌==◌, nat_eq, string_eq, eq_self, ok,
  >>=-eq-ok, >>-eq-ok,
}
use kata_tee_runner.Prelude.Dict.{Dict, keys, lookup}
use kata_tee_runner.Prelude.Int.{int_eq}
use kata_tee_runner.Prelude.Text.{Codes, codes, strip}
use kata_tee_runner.Prelude.Value.{Value, str, obj, end, field, entries}
use kata_tee_runner.Profile.{repeats}
use kata_tee_runner.Sealing.{
  SingleKey, KeySet, is_provider_id, is_sha256, is_single_key, same_keys, text_at, is_clean,
  min_key_chars, max_key_chars, lacking, entry_key, parse_credential, parse_credential_set,
}
use kata_tee_runner.Sealing as Sealing
use kata_tee_runner.KataSeal.Keys.{Sources, load_api_key, any_control, check_key, key_of, load_keys}
use kata_tee_runner.KataSeal.Main.{key_fields}

-- An API key that both sides let pass.
abbrev IsKey : String → Type 0
IsKey key =
    (leb min_key_chars (length (codes key)) && leb (length (codes key)) max_key_chars ≡ true)
    × (is_clean key ≡ true)

any_control-eq-false :
    (cs : Codes) → any_control cs ≡ false → all (λ c. leb 32 c && not (c == 127)) cs ≡ true
unfolding any_control
any_control-eq-false [] h = refl
any_control-eq-false (c ∷ cs) h = ground (arith, any_control-eq-false cs (ground arith))

check_key-IsKey : (value key : String) → check_key value ≡ ok key → IsKey key
unfolding check_key
check_key-IsKey value key h =
    let (_, h₁) = >>-eq-ok (value == "") _ _ h in
    let (fits, h₂) =
      >>-eq-ok
        (not (leb min_key_chars (length (codes value)) && leb (length (codes value)) max_key_chars))
        _ _ h₁ in
    let (clean, h₃) = >>-eq-ok (any_control (codes value)) _ _ h₂ in
    let same : value ≡ key = ground (arith, h₃) in
    rw (← same) (ground (arith, fits), any_control-eq-false (codes value) clean)

abbrev pub AreKeys : Dict String String → Type 0
AreKeys [] = Unit
AreKeys ((provider, key) ∷ rest) = IsKey key × AreKeys rest

module _ (from : Sources) (envs files : Dict String String) where
  -- A key is that of the provider's variable, else of its file, else of a prompt for it.
  abbrev pub IsLoaded : String → String → Type 0
  IsLoaded provider key =
      ((key_env : String) × (lookup provider envs ≡ some key_env)
        × (load_api_key from key_env "" ≡ ok key))
      ⊎ ((key_file : String) × (lookup provider envs ≡ none)
          × (lookup provider files ≡ some key_file)
          × (load_api_key from "" key_file ≡ ok key))
      ⊎ ((lookup provider envs ≡ none)
          × (lookup provider files ≡ none)
          × (strip (from.getpass provider) ≡ key))

  abbrev pub AreLoaded : Dict String String → Type 0
  AreLoaded [] = Unit
  AreLoaded ((provider, key) ∷ rest) = IsLoaded provider key × AreLoaded rest

  key_of-IsLoaded :
      (provider key : String) → key_of from envs files provider ≡ ok key → IsLoaded provider key
  unfolding key_of
  key_of-IsLoaded provider key h = elim (Option-cases (lookup provider envs)) [
    | inr (key_env, e) ↦ inl (key_env, e, ground (arith, h))
    | inl no_env ↦ elim (Option-cases (lookup provider files)) [
      | inr (key_file, f) ↦ inr (inl (key_file, no_env, f, ground (arith, h)))
      | inl no_file ↦ inr (inr (no_env, no_file, ground (arith, h)))
    ]
  ]

  check_key-same : (value key : String) → check_key value ≡ ok key → value ≡ key
  unfolding check_key
  check_key-same value key h = ground (arith, h)

  pub load_keys-AreKeys :
      (providers : List String) (found : Dict String String)
      → load_keys from envs files providers ≡ ok found
      → (keys found ≡ providers) × AreKeys found × AreLoaded found
  unfolding load_keys
  load_keys-AreKeys [] [] h = (refl, tt, tt)
  load_keys-AreKeys [] (k ∷ ks) h = absurd (ground arith)
  load_keys-AreKeys (provider ∷ rest) found h =
      let (given, read, h₁) = >>=-eq-ok (key_of from envs files provider) _ h in
      let (value, c, h₂) = >>=-eq-ok (check_key given) _ h₁ in
      let (others, o, h₃) = >>=-eq-ok (load_keys from envs files rest) _ h₂ in
      let (named, good, loaded) = load_keys-AreKeys rest others o in
      let same : (provider, value) ∷ others ≡ found = ground (arith, h₃) in
      let kept : given ≡ value = check_key-same given value c in
      rw (← same) (
        ap (◌∷◌ provider) named,
        (check_key-IsKey given value c, good),
        (rw (← kept) (key_of-IsLoaded provider given read), loaded),
      )

-- The room finds each of the keys under its provider.
abbrev AreFound : Dict String Value → Dict String String → Type 0
AreFound credentials [] = Unit
AreFound credentials ((provider, key) ∷ rest) =
    (lookup provider credentials ≡ some (obj (field "api_key" (str key) end)))
    × AreFound credentials rest

AreFound-cons :
    (p : String) (v : Value) (credentials : Dict String Value) (found : Dict String String)
    → contains (keys found) p ≡ false
    → AreFound credentials found
    → AreFound ((p, v) ∷ credentials) found
unfolding lookup
AreFound-cons p v credentials [] h found = tt
AreFound-cons p v credentials ((q, key) ∷ rest) h (at, more) =
    (ground (arith, h, at), AreFound-cons p v credentials rest (ground arith) more)

pub key_fields-AreFound :
    (found : Dict String String)
    → repeats (keys found) ≡ false
    → AreFound (entries (key_fields found)) found
unfolding repeats lookup
key_fields-AreFound [] h = tt
key_fields-AreFound ((p, key) ∷ rest) h = (
  ground arith,
  AreFound-cons p _ (entries (key_fields rest)) rest (ground arith)
      (key_fields-AreFound rest (ground arith)),
)

pub keys-key_fields : (found : Dict String String) → keys (entries (key_fields found)) ≡ keys found
keys-key_fields [] = refl
keys-key_fields ((p, key) ∷ rest) = ap (◌∷◌ p) (keys-key_fields rest)

entry_key-field :
    (p key : String) (credentials : Dict String Value)
    → is_provider_id p ≡ true
    → lookup p credentials ≡ some (obj (field "api_key" (str key) end))
    → IsKey key
    → entry_key p credentials ≡ ok key
unfolding entry_key same_keys lookup string_eq
entry_key-field p key credentials valid at (fits, clean) = rw (valid, at, fits, clean) refl

pub collect_keys-AreFound :
    (found : Dict String String) (credentials : Dict String Value)
    → all is_provider_id (keys found) ≡ true
    → AreFound credentials found
    → AreKeys found
    → Sealing.collect_keys (keys found) credentials ≡ ok found
unfolding Sealing.collect_keys
collect_keys-AreFound [] credentials valid _ _ = refl
collect_keys-AreFound ((p, key) ∷ rest) credentials valid (at, more) (good, others) =
    let (now, later) = both (is_provider_id p) (all is_provider_id (keys rest)) valid in
    rw
      (
        entry_key-field p key credentials now at good,
        collect_keys-AreFound rest credentials later more others,
      )
      refl

pub lacking_self : (xs ys : List String) → all (contains ys) xs ≡ true → lacking xs ys ≡ []
unfolding lacking
lacking_self [] ys h = refl
lacking_self (x ∷ xs) ys h = ground (arith, lacking_self xs ys (ground arith))

contains-cons :
    (x : String) (xs ys : List String)
    → all (contains ys) xs ≡ true
    → all (contains (x ∷ ys)) xs ≡ true
contains-cons x [] ys h = refl
contains-cons x (z ∷ zs) ys h = ground (arith, contains-cons x zs ys (ground arith))

pub contains-all : (xs : List String) → all (contains xs) xs ≡ true
contains-all [] = refl
contains-all (x ∷ xs) = ground (arith, eq_self x, contains-cons x xs xs (contains-all xs))
