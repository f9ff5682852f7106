-- ===== src/Server.antt =====
-- room/server.py: the `/run` handler, `run` and `_run`, in the order of the source. The import of the
-- profile has no model.
pub mod Interface
pub mod Endpoints
pub mod Pulled
pub mod Submission
pub mod Submitted
pub mod Guarded
pub mod Checked
pub mod Evidence
pub mod Answers
pub mod Summarized
use kata_tee_runner.Prelude.{
  ℕ, String, Bool, true, false, not, ◌&&◌, Option, none, some, List, [], ◌∷◌, length, leb,
  if◌then◌else◌, ◌==◌, string_eq, Result, ok, raise, ◌>>=◌, ◌>>◌, raise_if, or_raise,
}
use kata_tee_runner.Prelude.Dict.{Dict, lookup}
use kata_tee_runner.Prelude.Int.{ℤ}
use kata_tee_runner.Prelude.Numbers.{IntError}
use kata_tee_runner.Prelude.Text.{codes}
use kata_tee_runner.Prelude.Value.{
  Value, Fields, null, bool, int, float, str, arr, obj, end, field, Items, nil, cons, as_str,
  as_dict, equals_int,
}
use kata_tee_runner.Profile.{CredentialSpec, attested_zero}
use kata_tee_runner.Auth.{
  Policy, ReplayGuard, is_configured, secret, verify, claim, validate_request_window, reserve,
  compare_digest,
}
use kata_tee_runner.Sealing.{Credential, single, multiple, is_sha256, resolve_sealed_credential}
use kata_tee_runner.Attest.{Bytes, Hashing, Quote, Response, Bound, bind_and_quote}
use kata_tee_runner.Attest.Hex.{hex, unhexlify}
use Interface.{
  Job, JobResult, Reply, Request, World, answered, attests_failures, binding_of, field_or,
  infrastructure, is_nil, not_sha256, refused, set_field, settled, truthy, unbound_message,
  unhandled, unless_error,
}

module _ (w : World) where
  -- The fields that `_run` takes out of a body whose time window holds
  unfoldable pub check_fields : Dict String Value → Result Reply Request
  check_fields body = do
    nonce_hex ← or_raise (as_str (field_or body "nonce" (str ""))) infrastructure
    nonce ← or_raise (unhexlify (codes nonce_hex)) (refused 400 "nonce must be hex")
    raise_if (not (leb 8 (length nonce) && leb (length nonce) 32))
        (refused 400 "nonce must be 8..32 bytes of hex")
    bundle_sha256 ← or_raise (as_str (field_or body "bundle_sha256" (str ""))) not_sha256
    raise_if (not (is_sha256 bundle_sha256)) not_sha256
    expires_at ← settled (claim body "expires_at")
    ok (record {
      nonce_hex = nonce_hex;
      nonce = nonce;
      project_key = field_or body "project_key" (str w.fixture_project);
      sealed_key = field_or body "sealed_key" (str "");
      bundle_b64 = field_or body "bundle" (str "");
      bundle_sha256 = bundle_sha256;
      expires_at = expires_at;
    })

  -- `_run` up to `window_error`: the body, if its time window holds
  unfoldable pub timely_body : ℤ → Bytes → Result Reply (Dict String Value)
  timely_body now raw = do
    parsed ←
        or_raise (if is_nil raw then some (obj end) else w.loads_bytes raw)
          (refused 400 "body must be JSON")
    body ← or_raise (as_dict parsed) (refused 400 "body must be a JSON object")
    window_error ← settled (validate_request_window w.policy body now)
    unless_error window_error
    ok body

  -- `_run` up to the reservation of the nonce
  unfoldable pub check_body : ℤ → Bytes → Result Reply Request
  check_body now raw = do body ← timely_body now raw; check_fields body

  unfoldable pub answer : Request → String → Value → Value → Response
  answer rq project_key report provenance =
      let b =
        bind_and_quote w.hashing w.get_quote report rq.nonce project_key rq.bundle_sha256
          provenance in
      record {
        nonce = rq.nonce_hex;
        project_key = project_key;
        report = report;
        bundle_sha256 = rq.bundle_sha256;
        provenance = provenance;
        answer_sha256 = hex b.answer_hash;
        binding_sha256 = hex b.binding_hash;
        report_data_sha256 = hex b.report_data;
        quote = b.quote;
      }

  -- The reply that both ends of a request share: `project_key.encode()` raises for other than a
  -- text.
  unfoldable pub reply_with : Request → Value → Value → Reply
  reply_with rq report provenance = elim (as_str rq.project_key) [
    | none ↦ infrastructure
    | some project_key ↦ answered (answer rq project_key report provenance)
  ]

  unfoldable pub attested_credential_failure : Request → String → String → Reply
  attested_credential_failure rq reason detail = elim (w.summary rq.nonce_hex) [
    | none ↦ infrastructure
    | some summary ↦
        reply_with rq
          (obj (
            field "status" (str "credential_failure")
              (field "reason" (str reason) (field "detail" (str detail) end))))
          (obj (
            field "profile" (str "credential_failure") (
              field "credential_profile" (str w.spec.credential_profile)
                (field "job_id" (str rq.nonce_hex) (field "inference_summary" summary end)))))
  ]

  -- An absent credential and an absent bundle, as `_run` tests them.
  abbrev check_funding : Request → Option Credential → Result Reply (Option Credential)
  check_funding rq (some c) =
      if not (truthy rq.bundle_b64)
      then raise (refused 400 "a sealed miner credential requires a candidate bundle")
      else ok (some c)
  check_funding rq none =
      if attests_failures w.spec && truthy rq.bundle_b64
      then raise (
          attested_credential_failure rq "absent"
            "this room requires a sealed miner credential for every scored run")
      else ok none

  abbrev pub use_credential :
      Request → Result String (Option Credential) → Result Reply (Option Credential)
  use_credential rq (raise detail) =
      if attests_failures w.spec
      then raise (attested_credential_failure rq "unreadable" detail)
      else raise (refused 400 detail)
  use_credential rq (ok c) = check_funding rq c

  -- `_run` from the resolution of the credential to the temporary directory; a `sealed_key` other
  -- than a text has no `strip`, which raises
  unfoldable pub resolve : Request → Result Reply (Option Credential)
  resolve rq = do
    sealed_key ← or_raise (as_str rq.sealed_key) infrastructure
    use_credential rq (resolve_sealed_credential w.decrypt w.loads sealed_key w.spec false)

  abbrev extracted : Result (Option String) (String × String) → Result Reply (String × String)
  extracted (ok found) = ok found
  extracted (raise (some message)) = raise (refused 400 message)
  extracted (raise none) = raise infrastructure

  abbrev pub is_bound : Option Credential → String → Option Bool
  is_bound none actual_binding = some true
  is_bound (some c) actual_binding = compare_digest (binding_of c) actual_binding

  -- The bundle's root, where there is a bundle and it is the one that was signed and paid for
  unfoldable pub check_bundle : Request → Option Credential → Result Reply (Option String)
  check_bundle rq credential = if not (truthy rq.bundle_b64) then ok none else do
    found ← extracted (w.extract rq.bundle_b64)
    same ← or_raise (compare_digest rq.bundle_sha256 found.1) infrastructure
    raise_if (not same) (refused 400 "bundle_sha256 does not match the submitted candidate bundle")
    bound ← or_raise (is_bound credential found.1) infrastructure
    raise_if (not bound) (
        if attests_failures w.spec
        then attested_credential_failure rq "not_bound_to_bundle" unbound_message
        else refused 400 unbound_message)
    ok (some found.0)

  -- What is passed to `PROFILE.run`, or the reply in its stead
  unfoldable pub prepare : Request → Result Reply Job
  prepare rq = do
    credential ← resolve rq
    bundle_root ← check_bundle rq credential
    ok (record {
      project_key = rq.project_key;
      credential = credential;
      bundle_root = bundle_root;
      job_id = rq.nonce_hex;
      bundle_sha256 = rq.bundle_sha256;
    })

  -- The profile's provenance with the summary, where that is a dict
  abbrev pub with_summary : Request → Value → Option Value
  with_summary rq (obj fs) = elim (w.summary rq.nonce_hex) [
    | none ↦ none
    | some summary ↦ some (obj (set_field "inference_summary" summary fs))
  ]
  with_summary rq v = some v

  unfoldable pub execute : Request → Result Reply Job → Reply
  execute rq (raise r) = r
  execute rq (ok job) = elim (w.run_profile job) [
    | none ↦ infrastructure
    | some result ↦ elim (with_summary rq result.provenance) [
      | none ↦ infrastructure
      | some provenance ↦ reply_with rq result.report provenance
    ]
  ]

  -- `_run(raw)`; the clock is read in `validate_request_window` and again in `reserve`
  unfoldable pub run_checked : ReplayGuard → ℤ → ℤ → Bytes → ReplayGuard × Reply
  run_checked g now later raw = elim (check_body now raw) [
    | raise r ↦ (g, r)
    | ok rq ↦
        let (kept, fresh) = reserve g rq.nonce_hex rq.expires_at later in
        if fresh then (kept, execute rq (prepare rq)) else (kept, refused 409 "nonce already used")
  ]

  abbrev pub after_verification :
      ReplayGuard → ReplayGuard × Reply → Option Bool → ReplayGuard × Reply
  after_verification g checked none = (g, unhandled)
  after_verification g checked (some false) = (g, refused 401 "unauthorized")
  after_verification g checked (some true) = checked

  -- `run()`, of the raw body and the signature header
  unfoldable pub run : ReplayGuard → ℤ → ℤ → Bytes → Option String → ReplayGuard × Reply
  unfolding run_checked
  run g now later raw signature =
      if not (is_configured w.auth_secret)
      then (g, refused 503 "room auth is not configured (set KATA_ROOM_AUTH_SECRET)")
      else after_verification g (run_checked g now later raw)
          (verify w.hmac w.auth_secret raw signature)
