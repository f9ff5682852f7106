-- ===== src/Server/Interface.antt =====
-- room/server.py: the requests, the replies, and what the handler of `/run` calls elsewhere. A reply
-- that ends the handler early is a raised `Reply`, as is `infrastructure`, the 500 with which `run`
-- answers an exception; `unhandled` is an exception outside `run`'s `try`. `World` holds the hash
-- functions, JSON, the decryption, the extraction of the bundle with its binding (room/bundle.py),
-- the profile, and the inference summary of a job (room/inference_gateway.py).
use kata_tee_runner.Prelude.{
  ℕ, String, Bool, true, false, not, Option, none, some, [], ◌∷◌, if◌then◌else◌, ◌==◌, string_eq,
  Result, ok, raise,
}
use kata_tee_runner.Prelude.Dict.{Dict, lookup}
use kata_tee_runner.Prelude.Int.{ℤ}
use kata_tee_runner.Prelude.Numbers.{IntError}
use kata_tee_runner.Prelude.Value.{
  Value, Fields, null, bool, str, arr, obj, end, field, nil, equals_int,
}
use kata_tee_runner.Profile.{CredentialSpec, attested_zero}
use kata_tee_runner.Auth.{Policy}
use kata_tee_runner.Sealing.{Credential, single, multiple}
use kata_tee_runner.Attest.{Bytes, Hashing, Quote, Response}

pub data Reply : Type 0 where
  refused : ℕ → String → Reply
  infrastructure unhandled : Reply
  answered : Response → Reply

-- `PROFILE.run`'s arguments.
pub record Job : Type 0 where
  pub project_key : Value
  pub credential : Option Credential
  pub bundle_root : Option String
  pub job_id : String
  pub bundle_sha256 : String

-- `TeeJobResult`
pub record JobResult : Type 0 where
  pub report : Value
  pub provenance : Value

-- In `extract`, `raise (some message)` is a `RuntimeError` and `raise none` another exception; `ok`
-- gives the root and its binding. `run_profile` is `none` where it raises or returns another type, and
-- `summary` where it raises.
pub record World : Type 0 where
  pub hashing : Hashing
  pub hmac : String → Bytes → String
  pub get_quote : Bytes → Quote
  pub loads_bytes : Bytes → Option Value
  pub loads : String → Option Value
  pub decrypt : String → Option String
  pub extract : Value → Result (Option String) (String × String)
  pub run_profile : Job → Option JobResult
  pub summary : String → Option Value
  pub auth_secret : Option String
  pub policy : Policy
  pub fixture_project : String
  pub spec : CredentialSpec

-- What `_run` takes from a request that it has checked.
pub record Request : Type 0 where
  pub nonce_hex : String
  pub nonce : Bytes
  pub project_key : Value
  pub sealed_key : Value
  pub bundle_b64 : Value
  pub bundle_sha256 : String
  pub expires_at : ℤ

-- `body.get(k, default)`
abbrev pub field_or : Dict String Value → String → Value → Value
field_or body k default = elim (lookup k body) [ none ↦ default | some v ↦ v ]

-- `bool(v)`
unfoldable pub truthy : Value → Bool
truthy null = false
truthy (bool b) = b
truthy (str s) = not (s == "")
truthy (arr nil) = false
truthy (obj end) = false
truthy v = not (equals_int v 0)

-- `d[k] = v`
unfoldable pub set_field : String → Value → Fields → Fields
set_field k v end = field k v end
set_field k v (field j w fs) =
    let rest = set_field k v fs in if k == j then field j v fs else field j w rest

abbrev pub attests_failures : CredentialSpec → Bool
attests_failures spec = spec.failure_mode == attested_zero

abbrev pub is_nil : Bytes → Bool
is_nil [] = true
is_nil (_ ∷ _) = false

abbrev pub settled {ℓ} : {A : Type ℓ} → Result IntError A → Result Reply A
settled (ok a) = ok a
settled (raise e) = raise infrastructure

-- `if window_error: return ..., 400`
abbrev pub unless_error : Option String → Result Reply (Unit {0})
unless_error none = ok tt
unless_error (some e) = raise (refused 400 e)

abbrev pub not_sha256 : Reply
not_sha256 = refused 400 "bundle_sha256 must be a lowercase SHA-256 hex digest"

-- `credential.bundle_binding`
abbrev pub binding_of : Credential → String
binding_of (single c) = c.bundle_binding
binding_of (multiple c) = c.bundle_binding

abbrev pub unbound_message : String
unbound_message = "sealed miner credential is not bound to this candidate bundle"
