-- ===== src/Server/Answers.antt =====
-- What an answer of `/run` is evidence of: room/server.py with verify_run.py.
use kata_tee_runner.Prelude.{
  String, true, Option, none, some, ◌≡◌, refl, ap, sym, ◌≢◌, inl, inr, Result, ok, raise, arith,
  string_eq, eq_self, Option-cases, nat_eq, list_eq, >>=-eq-ok, ◌++◌, ◌>>=◌,
}
use kata_tee_runner.Prelude.Dict.{Dict}
use kata_tee_runner.Prelude.Int.{ℤ}
use kata_tee_runner.Prelude.Text.{codes, strip}
use kata_tee_runner.Prelude.Value.{Value, str, obj, end, field, as_str}
use kata_tee_runner.Auth.{
  ReplayGuard, is_configured, secret, verify, reserve, validate_request_window,
}
use kata_tee_runner.Attest.{Bytes, Response, bind_and_quote, binding_payload, verify_run}
use kata_tee_runner.Attest.Hex.{hex, unhexlify}
use kata_tee_runner.Server.Interface.{Reply, answered, World, Request}
use kata_tee_runner.Server.{
  check_fields, timely_body, check_body, answer, reply_with, prepare, execute, run_checked, run,
}
use kata_tee_runner.Server.Guarded.{compare_digest-eq-true}
use kata_tee_runner.Server.Evidence.{Quoted, execute-Quoted}
use kata_tee_runner.Server.Checked.{
  IsBody, IsRequest, check_fields-IsRequest, check_fields-unanswered, timely_body-unanswered,
  timely_body-IsBody,
}

-- `(signature or "").strip()` of the header
abbrev pub shown : Option String → String
shown signature = elim signature [ none ↦ "" | some s ↦ strip s ]

module _ (w : World) where
  answer-verifies :
      (rq : Request) (project_key : String) (report provenance : Value)
      → unhexlify (codes rq.nonce_hex) ≡ some rq.nonce
      → verify_run w.hashing (answer w rq project_key report provenance) rq.nonce_hex ≡ some true
  unfolding answer bind_and_quote verify_run binding_payload
  answer-verifies rq project_key report provenance n =
      let binding_hash = w.hashing.sha256 (
        w.hashing.canonical (
          obj (
            field "report" report (
              field "bundle_sha256" (str rq.bundle_sha256)
                (field "provenance" provenance end))))) in
      rw
        (
          verify_run,
          answer,
          bind_and_quote,
          n,
          eq_self (hex (w.hashing.sha256 (w.hashing.canonical report))),
          eq_self (hex binding_hash),
        )
        (ap some (
          eq_self
            (hex (w.hashing.sha256 (rq.nonce ++ (w.hashing.encode project_key ++ binding_hash))))))

  pub reply_with-eq-answered :
      (rq : Request) (report provenance : Value) (a : Response)
      → reply_with w rq report provenance ≡ answered a
      → (project_key : String) × (answer w rq project_key report provenance ≡ a)
  unfolding reply_with
  reply_with-eq-answered rq report provenance a h = elim (Option-cases (as_str rq.project_key)) [
    | inl p ↦ absurd (ground arith)
    | inr (project_key, p) ↦ (project_key, ground arith)
  ]

  answered_verifies :
      (rq : Request) (a : Response)
      → unhexlify (codes rq.nonce_hex) ≡ some rq.nonce
      → Quoted w rq a
      → (a.nonce ≡ rq.nonce_hex) × (verify_run w.hashing a a.nonce ≡ some true)
  unfolding answer
  answered_verifies rq a n (report, provenance, summarized, q) =
      let (project_key, same) = reply_with-eq-answered rq report provenance a q in
      rw (sym same) (refl, answer-verifies rq project_key report provenance n)

  check_body-unanswered :
      (now : ℤ) (raw : Bytes) (a : Response) → check_body w now raw ≢ raise (answered a)
  unfolding check_body
  check_body-unanswered now raw a h = go (timely_body w now raw) refl h
    where
      go :
          (r : Result Reply (Dict String Value))
          → timely_body w now raw ≡ r
          → (r >>= check_fields w) ≢ raise (answered a)
      go (ok body) p q = check_fields-unanswered w body a q
      go (raise x) p q = timely_body-unanswered w now raw a (ground arith)

  verify-eq-true :
      (raw : Bytes) (signature : Option String)
      → verify w.hmac w.auth_secret raw signature ≡ some true
      → w.hmac (secret w.auth_secret) raw ≡ shown signature
  unfolding verify
  verify-eq-true raw signature h = compare_digest-eq-true _ _ (ground arith)

  -- What an answer tells of the request: the body that was signed, the window, the nonce.
  abbrev pub IsAuthorized :
      ReplayGuard → ℤ → ℤ → Bytes → Option String → ReplayGuard → Response → Type 0
  IsAuthorized g now later raw signature kept a =
      (body : Dict String Value) × (rq : Request) × (w.hmac (secret w.auth_secret) raw
        ≡ shown signature)
      × IsBody w raw body
      × (validate_request_window w.policy body now ≡ ok none)
      × IsRequest w body rq
      × (reserve g rq.nonce_hex rq.expires_at later ≡ (kept, true))
      × (execute w rq (prepare w rq) ≡ answered a)

  run_checked-eq-answered :
      (g : ReplayGuard) (now later : ℤ) (raw : Bytes) (kept : ReplayGuard) (a : Response)
      → run_checked w g now later raw ≡ (kept, answered a)
      → (rq : Request) × (check_body w now raw ≡ ok rq)
        × (reserve g rq.nonce_hex rq.expires_at later ≡ (kept, true))
        × (execute w rq (prepare w rq) ≡ answered a)
  unfolding run_checked
  run_checked-eq-answered g now later raw kept a h = go (check_body w now raw) refl
    where
      go :
          (r : Result Reply Request)
          → check_body w now raw ≡ r
          → (rq : Request) × (check_body w now raw ≡ ok rq)
            × (reserve g rq.nonce_hex rq.expires_at later ≡ (kept, true))
            × (execute w rq (prepare w rq) ≡ answered a)
      go (raise r) p = absurd (ground (arith, check_body-unanswered now raw a))
      go (ok rq) p = (rq, ground arith, ground arith, ground arith)

  -- Where `run` answers with a report, of a run or of a credential failure, a secret is configured,
  -- the digest of the raw bytes under the secret is what the signature header shows, these bytes
  -- hold a dict whose time window holds and whose fields are those of the request, each within its
  -- checks, the nonce has been reserved in the store, which did not hold it, and the report comes
  -- from the steps that follow the reservation.
  pub run-IsAuthorized :
      (g : ReplayGuard) (now later : ℤ) (raw : Bytes) (signature : Option String)
      (kept : ReplayGuard) (a : Response)
      → run w g now later raw signature ≡ (kept, answered a)
      → (is_configured w.auth_secret ≡ true) × IsAuthorized g now later raw signature kept a
  unfolding run check_body
  run-IsAuthorized g now later raw signature kept a h =
      let v : verify w.hmac w.auth_secret raw signature ≡ some true = ground arith in
      let (rq, c, fresh, done) = run_checked-eq-answered g now later raw kept a (ground arith) in
      let (body, t, f) = >>=-eq-ok (timely_body w now raw) (check_fields w) c in
      (
        ground arith,
        (
          body,
          rq,
          verify-eq-true raw signature v,
          (timely_body-IsBody w now raw body t).0,
          (timely_body-IsBody w now raw body t).1,
          check_fields-IsRequest w body rq f,
          fresh,
          done,
        ),
      )

  -- Every report that `run` answers with, of a run or of a credential failure, passes
  -- verify_run.py, which builds the payload of the binding by itself, with the nonce that the
  -- answer states, whatever the profile returned.
  pub run-verifies :
      (g : ReplayGuard) (now later : ℤ) (raw : Bytes) (signature : Option String)
      (kept : ReplayGuard) (a : Response)
      → run w g now later raw signature ≡ (kept, answered a)
      → verify_run w.hashing a a.nonce ≡ some true
  run-verifies g now later raw signature kept a h =
      let (configured, (body, rq, s, parsed, t, f, fresh, done)) =
        run-IsAuthorized g now later raw signature kept a h in
      (answered_verifies rq a f.is_hexadecimal (execute-Quoted w rq a done)).1
