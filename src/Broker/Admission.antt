-- ===== src/Broker/Admission.antt =====
-- What `authorize` and the locked part of `dispatch` have checked when they let a call through.
use kata_tee_runner.Prelude.{
  ◌↔◌, false, ℕ, ◌≤◌, ◌<◌, ◌≡◌, ◌≢◌, refl, ◌⊎◌, inl, inr, String, Bool, true, some, arith,
  string_eq, pair_eq, get_elem?, set, Result, ok, raise, Option-cases,
}
use kata_tee_runner.Prelude.Dict.{lookup}
use kata_tee_runner.Prelude.Value.{Value, Fields, str, obj, entries}
use kata_tee_runner.Broker.Spec.{BrokerError}
use kata_tee_runner.Broker.State.{Broker, Job, Capability}
use kata_tee_runner.Broker.Dispatch.{Grant, is_token, authorize, admit, used, bill}

-- A presented token stands in `_tokens` for an open job and in that job's capabilities, and its time
-- has not passed.
pub record IsLive (b : Broker) (now : ℕ) (t job_id : String) (ref : ℕ) (job : Job) (c : Capability)
    : Type 0 where
  pub shape : is_token t ≡ true
  pub known : lookup t b.tokens ≡ some job_id
  pub opened : lookup job_id b.jobs ≡ some ref
  pub object : get_elem? b.heap ref ≡ some job
  pub held : lookup t job.capabilities ≡ some c
  pub in_time : now ≤ c.expires_at

-- The same for a token as `dispatch` receives it, an object of any type.
pub record IsAuthorized (b : Broker) (now : ℕ) (token : Value) (ref : ℕ) (job : Job)
    (c : Capability) : Type 0 where
  pub t : String
  pub job_id : String
  pub is_text : token ≡ str t
  pub live : IsLive b now t job_id ref job c

pub authorize-eq-ok :
    (b : Broker) (now : ℕ) (token : Value) (ref : ℕ) (job : Job) (c : Capability)
    → authorize b now token ≡ ok (ref, job, c)
    → IsAuthorized b now token ref job c
unfolding authorize
authorize-eq-ok b now (str t) ref job c h = elim (Option-cases (lookup t b.tokens)) [
  | inl unknown ↦ absurd (ground arith)
  | inr (job_id, known) ↦ record {
    t = t;
    job_id = job_id;
    is_text = refl;
    live = record {
      shape = ground arith;
      known = known;
      opened = ground arith;
      object = ground arith;
      held = ground arith;
      in_time = ground arith;
    };
  }
]
authorize-eq-ok b now _ ref job c h = absurd (ground arith)

pub authorize-IsLive :
    {b : Broker} {now : ℕ} {t job_id : String} {ref : ℕ} {job : Job} {c : Capability}
    → IsLive b now t job_id ref job c
    → authorize b now (str t) ≡ ok (ref, job, c)
unfolding authorize
authorize-IsLive l = ground arith

-- What `dispatch` has checked of a call before the provider is paid for it.
pub record IsAdmitted (b : Broker) (now : ℕ) (token operation payload : Value) (over_http : Bool)
    (b' : Broker) (g : Grant) : Type 0 where
  pub job : Job
  pub capability : Capability
  pub name : String
  pub fields : Fields
  pub authorized : IsAuthorized b now token g.ref job capability
  pub holder : token ≡ str g.token
  pub operation_is : operation ≡ str name
  pub payload_is : payload ≡ obj fields
  pub reviewed : lookup name b.operations ≡ some g.spec
  pub role : g.spec.role ≡ capability.role
  pub exposure : (over_http ≡ false) ⊎ (g.spec.http_exposed ≡ true)
  pub quota : used job g.token g.spec.name < g.spec.max_calls
  pub funded : lookup g.spec.provider job.credentials ≡ some g.api_key
  pub key_is_set : g.api_key ≢ ""
  pub task : g.task_id ≡ lookup "task_id" (entries fields)
  pub contestant : g.contestant ≡ job.contestant
  pub billed : b' ≡ record b { heap = set b.heap g.ref (bill job g.token g.spec.name) }

-- The same at a capability that is known to be good: the checks that are left.
admit-eq-ok_at :
    (b : Broker) (now : ℕ) (t name : String) (fs : Fields) (over_http : Bool) (b' : Broker)
    (g : Grant) (ref : ℕ) (job : Job) (c : Capability)
    → authorize b now (str t) ≡ ok (ref, job, c)
    → admit b now (str t) (str name) (obj fs) over_http ≡ ok (b', g)
    → IsAdmitted b now (str t) (str name) (obj fs) over_http b' g
unfolding admit
admit-eq-ok_at b now t name fs over_http b' g ref job c a h = record {
  job = job;
  capability = c;
  name = name;
  fields = fs;
  authorized = authorize-eq-ok b now (str t) g.ref job c (ground arith);
  holder = ground arith;
  operation_is = refl;
  payload_is = refl;
  reviewed = ground arith;
  role = ground arith;
  exposure = ground arith;
  quota = ground arith;
  funded = ground arith;
  key_is_set = ground arith;
  task = ground arith;
  contestant = ground arith;
  billed = ground arith;
}

Result-cases :
    (r : Result BrokerError (ℕ × Job × Capability))
    → ((e : BrokerError) × (r ≡ raise e))
      ⊎ ((ref : ℕ) × (job : Job) × (c : Capability) × (r ≡ ok (ref, job, c)))
Result-cases (ok (ref, job, c)) = inr (ref, job, c, refl)
Result-cases (raise e) = inl (e, refl)

pub admit-eq-ok :
    (b : Broker) (now : ℕ) (token operation payload : Value) (over_http : Bool) (b' : Broker)
    (g : Grant)
    → admit b now token operation payload over_http ≡ ok (b', g)
    → IsAdmitted b now token operation payload over_http b' g
unfolding admit authorize
admit-eq-ok b now (str t) (str name) (obj fs) over_http b' g h =
    elim (Result-cases (authorize b now (str t))) [
      | inl (e, refusal) ↦ absurd (ground arith)
      | inr (ref, job, c, passed) ↦ admit-eq-ok_at b now t name fs over_http b' g ref job c passed h
    ]
admit-eq-ok b now _ _ _ over_http b' g h = absurd (ground arith)

admit-IsAdmitted :
    (b : Broker) (now : ℕ) (token operation payload : Value) (over_http : Bool) (b' : Broker)
    (g : Grant)
    → IsAdmitted b now token operation payload over_http b' g
    → admit b now token operation payload over_http ≡ ok (b', g)
unfolding admit
admit-IsAdmitted b now token operation payload over_http b' g a =
    rw (a.holder, a.operation_is, a.payload_is)
      (let l = a.authorized.live in ground (arith, authorize-IsLive l))

-- The locked part of `dispatch` lets a call through, and leaves a given state and grant, exactly
-- where all of `IsAdmitted` holds: the token is a live capability of an open job, the operation is
-- in the table and of the capability's role, and exposed if the call came over HTTP, the payload is
-- a dict, the count is below the ceiling, and the job has a key for the provider that is not empty;
-- and the state left is the old one with the job object's count of this operation replaced by one
-- more.
pub admit_iff :
    (b : Broker) (now : ℕ) (token operation payload : Value) (over_http : Bool) (b' : Broker)
    (g : Grant)
    → (admit b now token operation payload over_http ≡ ok (b', g))
      ↔ IsAdmitted b now token operation payload over_http b' g
admit_iff b now token operation payload over_http b' g = (
  admit-eq-ok b now token operation payload over_http b' g,
  admit-IsAdmitted b now token operation payload over_http b' g,
)
