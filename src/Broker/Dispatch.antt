-- ===== src/Broker/Dispatch.antt =====
-- room/broker.py: authorization, dispatch, the records and the quota. `dispatch` is the composition
-- of what it does under the lock (`admit`), the handler's call, and what it does after the call
-- (`write_record`, `answer`), so that other calls may come in between.
use kata_tee_runner.Prelude.{
  ℕ, suc, ◌+◌, ◌-◌, String, ◌<>◌, Bool, true, false, not, ◌&&◌, ◌||◌, Option, none, some, List, [],
  ◌∷◌, ◌++◌, leb, ltb, if◌then◌else◌, ◌==◌, string_eq, nat_eq, pair_eq, length, get_elem?, set, all,
  Result, ok, raise, ◌>>=◌, ◌>>◌, raise_if, or_raise,
}
use kata_tee_runner.Prelude.Dict.{Dict, lookup, insert}
use kata_tee_runner.Prelude.Int.{ℤ, pos, negsuc, leb_ℤ, ltb_ℤ, int_eq}
use kata_tee_runner.Prelude.Text.{codes, is_hex}
use kata_tee_runner.Prelude.Text.{strip_prefix, decimal}
use kata_tee_runner.Prelude.Value.{Value, bool, int, str, as_str, as_dict}
use kata_tee_runner.Broker.Spec.{
  OperationSpec, BrokerError, Outcome, returned, refused, failed, denied, denied_message,
}
use kata_tee_runner.Broker.State.{Broker, Job, Capability, Observation, find_job, capability_prefix}

-- `CAPABILITY_RE.fullmatch(token)`
unfoldable pub is_token : String → Bool
is_token s = elim (strip_prefix (codes capability_prefix) (codes s)) [
  | none ↦ false
  | some rest ↦ length rest == 32 && all is_hex rest
]

-- The one refusal.
abbrev pub deny : BrokerError
deny = denied denied_message

-- `_authorize(token)` at time `now`: the job's reference, the job, and the capability
unfoldable pub authorize : Broker → ℕ → Value → Result BrokerError (ℕ × Job × Capability)
unfolding is_token
authorize b now token = do
  t ← or_raise (as_str token) deny
  raise_if (not (is_token t)) deny
  job_id ← or_raise (lookup t b.tokens) deny
  (ref, job) ← or_raise (find_job b job_id) deny
  capability ← or_raise (lookup t job.capabilities) deny
  raise_if (ltb capability.expires_at now) deny
  ok (ref, job, capability)

-- `job.calls.get(key, 0)`
abbrev pub used : Job → String → String → ℕ
used job token name = elim (lookup (token, name) job.calls) [ none ↦ 0 | some n ↦ n ]

-- What the locked part of `dispatch` leaves for the call: the references and values it has read.
pub record Grant : Type 0 where
  pub ref : ℕ
  pub token : String
  pub contestant : String
  pub spec : OperationSpec
  pub api_key : String
  pub task_id : Option Value

-- `job.calls[key] = job.calls.get(key, 0) + 1`
abbrev pub bill : Job → String → String → Job
bill job token name = record job {
  calls = insert (token, name) (used job token name + 1) job.calls;
}

-- The part of `dispatch` that holds the lock.
unfoldable pub admit :
    Broker → ℕ → Value → Value → Value → Bool → Result BrokerError (Broker × Grant)
admit b now token operation payload over_http = do
  (ref, job, capability) ← authorize b now token
  name ← or_raise (as_str operation) deny
  spec ← or_raise (lookup name b.operations) deny
  raise_if (not (spec.role == capability.role)) deny
  raise_if (over_http && not spec.http_exposed) deny
  fields ← or_raise (as_dict payload) deny
  t ← or_raise (as_str token) deny
  raise_if (leb spec.max_calls (used job t spec.name)) deny
  api_key ← or_raise (lookup spec.provider job.credentials) deny
  raise_if (api_key == "") deny
  ok (
    record b { heap = set b.heap ref (bill job t spec.name) },
    record {
      ref = ref;
      token = t;
      contestant = job.contestant;
      spec = spec;
      api_key = api_key;
      task_id = lookup "task_id" fields;
    },
  )

-- `_classify(exc)`, by the exception's code
unfoldable pub classify : Option ℤ → String
classify none = "unreachable"
classify (some z) =
    if leb_ℤ (pos 200) z && ltb_ℤ z (pos 300)
    then "ok"
    else if z == pos 402
    then "payment_required"
    else if z == pos 401 || z == pos 403
    then "unauthorized"
    else if z == pos 429
    then "rate_limited"
    else if leb_ℤ (pos 400) z && ltb_ℤ z (pos 500)
    then "bad_request"
    else "provider_error"

unfoldable pub status_of : Outcome → String
unfolding classify
status_of (returned v) = "ok"
status_of (refused message) = "denied"
status_of (failed code) = classify code

-- `str(task_id) if isinstance(task_id, (str, int)) else ""`
unfoldable pub task_label : Option Value → String
unfolding decimal
task_label (some (str s)) = s
task_label (some (int (pos n))) = decimal n
task_label (some (int (negsuc n))) = "-" <> decimal (suc n)
task_label (some (bool true)) = "True"
task_label (some (bool false)) = "False"
task_label _ = ""

abbrev pub observe : Grant → String → Observation
observe g status = record {
  contestant = g.contestant;
  task_id = task_label g.task_id;
  provider = g.spec.provider;
  phase = g.spec.role;
  operation = g.spec.name;
  status = status;
}

-- `_record(job, spec, task_id, status)`: the object is written through the reference, live or not.
unfoldable pub write_record : Broker → Grant → String → Broker
write_record b g status = elim (get_elem? b.heap g.ref) [
  | none ↦ b
  | some job ↦ record b {
    heap = set b.heap g.ref (record job { records = job.records ++ observe g status ∷ [] });
  }
]

-- What `dispatch` returns or raises once the outcome is recorded.
unfoldable pub answer : Outcome → Result BrokerError Value
answer (refused message) = raise (denied message)
answer (failed code) = raise deny
answer (returned v) = elim (as_dict v) [ none ↦ raise deny | some _ ↦ ok v ]

unfoldable pub dispatch :
    Broker → ℕ → Value → Value → Value → Bool → Broker × Result BrokerError Value
dispatch b now token operation payload over_http =
    elim (admit b now token operation payload over_http) [
      | raise e ↦ (b, raise e)
      | ok (b', g) ↦
          let outcome = g.spec.handler g.api_key payload in
          (write_record b' g (status_of outcome), answer outcome)
    ]

pub record OperationQuota : Type 0 where
  pub used : ℕ
  pub max_calls : ℕ
  pub remaining : ℕ

-- The comprehension of `quota` over `_operations.values()`.
unfoldable pub quota_of : Dict String OperationSpec → Job → Capability → Dict String OperationQuota
quota_of [] job c = []
quota_of ((_, spec) ∷ d) job c =
    let rest = quota_of d job c in
    let n = used job c.token spec.name in
    if spec.role == c.role
    then (
      spec.name,
      record { used = n; max_calls = spec.max_calls; remaining = spec.max_calls - n },
    )
      ∷ rest
    else rest

pub record Quota : Type 0 where
  pub role : String
  pub operations : Dict String OperationQuota

unfoldable pub quota : Broker → ℕ → Value → Result BrokerError Quota
quota b now token = do
  (_, job, capability) ← authorize b now token
  ok (record { role = capability.role; operations = quota_of b.operations job capability })

-- `records(job_id)`
unfoldable pub records : Broker → String → List Observation
records b job_id = elim (find_job b job_id) [ none ↦ [] | some (_, job) ↦ job.records ]
