-- ===== src/Attest/Verified.antt =====
-- What verify_run.py shows of a response that room/attest.py has bound into a quote.
use kata_tee_runner.Prelude.{
  ℕ, String, true, some, List, ◌++◌, all, length, nat_eq, list_eq, ◌≡◌, refl, ap, ◌≢◌, ◌⊎◌, inl,
  inr, length-append, sym, ◌∙◌, [], ◌∷◌, arith,
}
use kata_tee_runner.Prelude.Text.{codes}
use kata_tee_runner.Attest.Hex.{hex, unhexlify, unhexlify-hex, is_byte}
use kata_tee_runner.Attest.{Bytes, Hashing, Response, verify_run}
use kata_tee_runner.Prelude.Value.{str, obj, end, field}

module _ (h : Hashing) where
  -- The canonical form of report, bundle digest and provenance together.
  abbrev pub payload_of : Response → Bytes
  payload_of d = h.canonical (
      obj (
        field "report" d.report
          (field "bundle_sha256" (str d.bundle_sha256) (field "provenance" d.provenance end))))

  abbrev payload_hash : Response → Bytes
  payload_hash d = h.sha256 (payload_of d)

  abbrev pub committed : Response → Bytes → Bytes
  committed d nonce = nonce ++ (h.encode d.project_key ++ payload_hash d)

  -- Two texts with one digest.
  abbrev pub Collision : Type 0
  Collision = (x y : Bytes) × (x ≢ y) × (h.sha256 x ≡ h.sha256 y)

  -- A SHA-256 digest is 32 bytes.
  abbrev pub IsDigesting : Type 0
  IsDigesting = (x : Bytes) → (length (h.sha256 x) ≡ 32) × (all is_byte (h.sha256 x) ≡ true)

  pub verify_run-eq-true :
      (d : Response) (nonce_hex : String) (nonce : Bytes)
      → unhexlify (codes nonce_hex) ≡ some nonce
      → verify_run h d nonce_hex ≡ some true
      → (hex (h.sha256 (h.canonical d.report)) ≡ d.answer_sha256)
        × (hex (payload_hash d) ≡ d.binding_sha256)
        × (hex (h.sha256 (committed d nonce)) ≡ d.report_data_sha256)
  unfolding verify_run
  verify_run-eq-true d nonce_hex nonce p v = (ground arith, ground arith, ground arith)

  pub hash_cases : (x y : Bytes) → h.sha256 x ≡ h.sha256 y → (x ≡ y) ⊎ Collision
  hash_cases x y e = elim (list_eq.dec x y) [ yes p ↦ inl p | no q ↦ inr (x, y, q, e) ]

pub hex-injective :
    (xs ys : List ℕ) → all is_byte xs ≡ true → all is_byte ys ≡ true → hex xs ≡ hex ys → xs ≡ ys
hex-injective xs ys p q e =
    let r : some xs ≡ some ys = sym (unhexlify-hex xs p) ∙ ap unhexlify e ∙ unhexlify-hex ys q in cc

pub append_cancel_left : (xs ys zs : List ℕ) → xs ++ ys ≡ xs ++ zs → ys ≡ zs
append_cancel_left [] ys zs h = h
append_cancel_left (x ∷ xs) ys zs h = append_cancel_left xs ys zs (cc)

append_split :
    (xs ys us vs : List ℕ) → length us ≡ length vs → xs ++ us ≡ ys ++ vs → (xs ≡ ys) × (us ≡ vs)
append_split [] [] us vs n h = (refl, h)
append_split [] (y ∷ ys) us vs n h = absurd (omega (arith, n, ap length h, length-append ys vs))
append_split (x ∷ xs) [] us vs n h = absurd (omega (arith, n, ap length h, length-append xs us))
append_split (x ∷ xs) (y ∷ ys) us vs n h = let (p, q) = append_split xs ys us vs n (cc) in (cc, q)

module _ (h : Hashing) where
  agree :
      (d e : Response) (nonce : Bytes)
      → IsDigesting h
      → h.sha256 (committed h d nonce) ≡ h.sha256 (committed h e nonce)
      → ((h.encode d.project_key ≡ h.encode e.project_key) × (payload_of h d ≡ payload_of h e))
        ⊎ Collision h
  agree d e nonce digesting same = elim (hash_cases h _ _ same) [
    | inr c ↦ inr c
    | inl p ↦
        let (keys, hashes) =
          append_split (h.encode d.project_key) (h.encode e.project_key) (payload_hash h d)
            (payload_hash h e) ((digesting (payload_of h d)).0 ∙ sym (digesting (payload_of h e)).0)
            (append_cancel_left nonce _ _ p) in
        elim (hash_cases h _ _ hashes) [ inr c ↦ inr c | inl q ↦ inl (keys, q) ]
  ]

  -- Where verify_run.py passes two responses for one nonce, and they state the same report data,
  -- which is what the quote commits to, then they have the same encoded project key and the same
  -- canonical form of report, bundle digest and provenance together, or two different texts have
  -- one SHA-256 digest. It takes that every digest is 32 bytes.
  pub verified_runs_agree :
      (d e : Response) (nonce_hex : String) (nonce : Bytes)
      → IsDigesting h
      → unhexlify (codes nonce_hex) ≡ some nonce
      → verify_run h d nonce_hex ≡ some true
      → verify_run h e nonce_hex ≡ some true
      → d.report_data_sha256 ≡ e.report_data_sha256
      → ((h.encode d.project_key ≡ h.encode e.project_key) × (payload_of h d ≡ payload_of h e))
        ⊎ Collision h
  verified_runs_agree d e nonce_hex nonce digesting n v w same =
      let p = (verify_run-eq-true h d nonce_hex nonce n v).2 in
      let q = (verify_run-eq-true h e nonce_hex nonce n w).2 in
      agree d e nonce digesting (
        hex-injective _ _ (digesting (committed h d nonce)).1 (digesting (committed h e nonce)).1
          (p ∙ same ∙ sym q))
