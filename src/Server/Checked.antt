-- ===== src/Server/Checked.antt =====
-- What `_run` has checked when it reserves the nonce: room/server.py, its body and the fields of it.
use kata_tee_runner.Prelude.{
  ap, ◌∙◌, [], ◌∷◌, ◌⊎◌, inl, inr, refl, String, true, none, some, length, leb, if◌then◌else◌, ◌&&◌,
  ◌≡◌, ◌≢◌, Result, ok, raise, arith, string_eq, nat_eq, list_eq, >>=-eq-ok, or_raise-eq-ok,
  or_raise, raise_if, not, sym,
}
use kata_tee_runner.Prelude.Numbers.{IntError}
use kata_tee_runner.Prelude.Dict.{Dict}
use kata_tee_runner.Prelude.Int.{ℤ}
use kata_tee_runner.Prelude.Text.{codes}
use kata_tee_runner.Prelude.Value.{Value, str, obj, end, as_str, as_dict}
use kata_tee_runner.Auth.{validate_request_window, claim}
use kata_tee_runner.Sealing.{is_sha256}
use kata_tee_runner.Attest.{Bytes, Response}
use kata_tee_runner.Attest.Hex.{unhexlify}
use kata_tee_runner.Server.Interface.{
  refused, answered, World, Request, is_nil, infrastructure, field_or, settled,
}
use kata_tee_runner.Server.{check_fields, timely_body}

module _ (w : World) where
  -- The dict that the bytes hold; no bytes hold an empty one.
  abbrev pub IsBody : Bytes → Dict String Value → Type 0
  IsBody raw body =
      ((raw ≡ []) × (body ≡ []))
      ⊎ ((raw ≢ [])
          × (parsed : Value) × (w.loads_bytes raw ≡ some parsed)
          × (as_dict parsed ≡ some body))

  parsed-IsBody :
      (raw : Bytes) (body : Dict String Value) (parsed : Value)
      → (if is_nil raw then some (obj end) else w.loads_bytes raw) ≡ some parsed
      → as_dict parsed ≡ some body
      → IsBody raw body
  parsed-IsBody [] body parsed p d =
      let same : obj end ≡ parsed = ground (arith, p) in
      let dict : some [] ≡ some body = ap as_dict same ∙ d in inl (refl, ground (arith, dict))
  parsed-IsBody (x ∷ xs) body parsed p d = inr (ground arith, parsed, p, d)

  -- The fields that the dict has, each with its check.
  pub record IsRequest (body : Dict String Value) (rq : Request) : Type 0 where
    pub is_nonce : as_str (field_or body "nonce" (str "")) ≡ some rq.nonce_hex
    pub is_hexadecimal : unhexlify (codes rq.nonce_hex) ≡ some rq.nonce
    pub fits : leb 8 (length rq.nonce) && leb (length rq.nonce) 32 ≡ true
    pub is_bundle : as_str (field_or body "bundle_sha256" (str "")) ≡ some rq.bundle_sha256
    pub is_digest : is_sha256 rq.bundle_sha256 ≡ true
    pub expires : claim body "expires_at" ≡ ok rq.expires_at
    pub project_key : field_or body "project_key" (str w.fixture_project) ≡ rq.project_key
    pub sealed_key : field_or body "sealed_key" (str "") ≡ rq.sealed_key
    pub bundle : field_or body "bundle" (str "") ≡ rq.bundle_b64

  settled-eq-ok : (r : Result IntError ℤ) (e : ℤ) → settled r ≡ ok e → r ≡ ok e
  settled-eq-ok (ok a) e h = ground arith
  settled-eq-ok (raise x) e h = absurd (ground arith)

  pub check_fields-IsRequest :
      (body : Dict String Value) (rq : Request) → check_fields w body ≡ ok rq → IsRequest body rq
  unfolding check_fields
  check_fields-IsRequest body rq h =
      let (nonce_hex, p₁, h₁) =
        >>=-eq-ok (or_raise (as_str (field_or body "nonce" (str ""))) infrastructure) _ h in
      let (nonce, p₂, h₂) = >>=-eq-ok (or_raise (unhexlify (codes nonce_hex)) _) _ h₁ in
      let (t₃, p₃, h₃) =
        >>=-eq-ok (raise_if (not (leb 8 (length nonce) && leb (length nonce) 32)) _) _ h₂ in
      let (sha, p₄, h₄) =
        >>=-eq-ok (or_raise (as_str (field_or body "bundle_sha256" (str ""))) _) _ h₃ in
      let (t₅, p₅, h₅) = >>=-eq-ok (raise_if (not (is_sha256 sha)) _) _ h₄ in
      let (e, p₆, h₆) = >>=-eq-ok (settled (claim body "expires_at")) _ h₅ in
      let q₁ : nonce_hex ≡ rq.nonce_hex = ground (arith, h₆) in
      let q₂ : nonce ≡ rq.nonce = ground (arith, h₆) in
      let q₃ : sha ≡ rq.bundle_sha256 = ground (arith, h₆) in
      let q₄ : e ≡ rq.expires_at = ground (arith, h₆) in
      record {
        is_nonce = rw (sym q₁) (or_raise-eq-ok _ _ nonce_hex p₁);
        is_hexadecimal =
            rw (sym q₁, sym q₂)
              (or_raise-eq-ok (unhexlify (codes nonce_hex)) (refused 400 "nonce must be hex") nonce
                p₂);
        fits = rw (sym q₂) (ground arith);
        is_bundle = rw (sym q₃) (or_raise-eq-ok _ _ sha p₄);
        is_digest = rw (sym q₃) (ground arith);
        expires = rw (sym q₄) (settled-eq-ok (claim body "expires_at") e p₆);
        project_key = ground (arith, h₆);
        sealed_key = ground (arith, h₆);
        bundle = ground (arith, h₆);
      }

  pub check_fields-unanswered :
      (body : Dict String Value) (a : Response) → check_fields w body ≢ raise (answered a)
  unfolding check_fields
  check_fields-unanswered body a h = ground arith

  pub timely_body-unanswered :
      (now : ℤ) (raw : Bytes) (a : Response) → timely_body w now raw ≢ raise (answered a)
  unfolding timely_body
  timely_body-unanswered now raw a h = ground arith

  pub timely_body-IsBody :
      (now : ℤ) (raw : Bytes) (body : Dict String Value)
      → timely_body w now raw ≡ ok body
      → IsBody raw body × (validate_request_window w.policy body now ≡ ok none)
  unfolding timely_body
  timely_body-IsBody now raw body h =
      let (parsed, p, h₁) =
        >>=-eq-ok (or_raise (if is_nil raw then some (obj end) else w.loads_bytes raw) _) _ h in
      let (fields, d, h₂) = >>=-eq-ok (or_raise (as_dict parsed) _) _ h₁ in
      let same : fields ≡ body = ground (arith, h₂) in
      (
        parsed-IsBody raw body parsed (or_raise-eq-ok _ _ parsed p)
            (rw (← same) (or_raise-eq-ok _ _ fields d)),
        ground (arith, h),
      )
