-- ===== src/Profile/Contract.antt =====
-- The contracts that the room can be started with.
use kata_tee_runner.Prelude.{
  ◌≡◌, ◌≢◌, ◌⊎◌, inl, inr, true, false, Option, none, some, [], ◌∷◌, refl, arith, contains, ◌==◌,
  string_eq, if◌then◌else◌, ok, Bool-cases,
}
use kata_tee_runner.Prelude.Int.{pos, int_eq}
use kata_tee_runner.Profile.{
  Attributes, CredentialSpec, credential_spec_for, repeats, http_error, attested_zero,
  failure_modes, or_else, default_mode,
}

-- One key, with no set to enforce; or the set of distinct providers that the profile declares, under the
-- policy that it names.
pub data IsContract (a : Attributes) (spec : CredentialSpec) : Type 0 where
  single :
      spec.version ≡ pos 1
      → spec.required_providers ≡ []
      → spec.credential_profile ≡ ""
      → IsContract a spec
  multiple :
      spec.version ≡ pos 2
      → spec.required_providers ≡ a.required_providers
      → spec.required_providers ≢ []
      → repeats spec.required_providers ≡ false
      → a.credential_profile ≡ some spec.credential_profile
      → spec.credential_profile ≢ ""
      → IsContract a spec

-- The value is the one that the profile declares, or the default where it declares none.
abbrev pub IsDeclared {ℓ} : {A : Type ℓ} → Option A → A → A → Type ℓ
IsDeclared declared default x = (declared ≡ some x) ⊎ ((declared ≡ none) × (x ≡ default))

declared {ℓ} : {A : Type ℓ} (o : Option A) (d : A) → IsDeclared o d (or_else o d)
declared none d = inr (refl, refl)
declared (some x) d = inl refl

-- The parts of a contract that was accepted, before its cases.
credential_spec_for-parts :
    (a : Attributes) (spec : CredentialSpec)
    → credential_spec_for a ≡ ok spec
    → (spec.version ≡ or_else a.credential_version (pos 1))
      × (spec.failure_mode ≡ or_else a.credential_failure_mode (default_mode spec.version))
      × (contains failure_modes spec.failure_mode ≡ true)
unfolding credential_spec_for
credential_spec_for-parts a spec h = (ground arith, ground arith, ground arith)

-- What `credential_spec_for` accepts has the version that the profile declares, or 1, and the
-- failure mode that it declares, or the one that the version implies, which is one of the two known
-- ones. It is a single key, without a set of providers and a credential profile, at version 1; or,
-- at version 2, the set of providers that the profile declares, which is not empty and has no
-- duplicate, under the credential profile that it declares, which is not empty.
pub credential_spec_for-IsContract :
    (a : Attributes) (spec : CredentialSpec)
    → credential_spec_for a ≡ ok spec
    → IsContract a spec
      × IsDeclared a.credential_version (pos 1) spec.version
      × IsDeclared a.credential_failure_mode
          (if spec.version == pos 2 then attested_zero else http_error)
          spec.failure_mode
      × (contains (http_error ∷ attested_zero ∷ []) spec.failure_mode ≡ true)
unfolding credential_spec_for
credential_spec_for-IsContract a spec h =
    let (version, mode, known) = credential_spec_for-parts a spec h in
    (
      elim (Bool-cases (spec.version == pos 1)) [
        | inl one ↦ IsContract.single (ground arith) (ground arith) (ground arith)
        | inr two ↦
            IsContract.multiple (ground arith) (ground arith) (ground arith) (ground arith)
              (ground arith) (ground arith)
      ],
      rw version (declared a.credential_version (pos 1)),
      rw mode (declared a.credential_failure_mode (default_mode spec.version)),
      known,
    )
