-- ===== src/Broker/State.antt =====
-- room/broker.py: the broker's state and the life of a job. Times are ticks of the monotonic clock.
-- A job is an object on a heap, for which `_jobs` holds a reference: a call in flight keeps its
-- reference to the job, also after `close_job` has dropped it.
use kata_tee_runner.Prelude.{
  ℕ, ◌+◌, String, ◌<>◌, Bool, false, not, ◌||◌, Option, none, some, List, [], ◌∷◌, ◌++◌, contains,
  string_eq, nat_eq, pair_eq, length, get_elem?, set, Result, ok, raise, ◌>>=◌, ◌>>◌, raise_if,
  or_raise,
}
use kata_tee_runner.Prelude.Dict.{Dict, keys, lookup, insert, erase}
use kata_tee_runner.Prelude.Int.{pos, int_eq}
use kata_tee_runner.Prelude.Text.{is_hex_text}
use kata_tee_runner.Prelude.Value.{Fields, str, int, end, field}
use kata_tee_runner.Broker.Spec.{
  OperationSpec, BrokerError, misconfigured, roles, operation_names_repeated, job_id_invalid,
  role_unknown, job_already_open, job_not_open,
}

pub record Capability : Type 0 where
  pub token : String
  pub job_id : String
  pub role : String
  pub expires_at : ℕ

-- `Capability.as_public()`
unfoldable pub as_public : Capability → Fields
as_public c =
    field "capability" (str c.token)
      (field "role" (str c.role) (field "expires_at" (int (pos c.expires_at)) end))

-- One observation of `_record`.
pub record Observation : Type 0 where
  pub contestant : String
  pub task_id : String
  pub provider : String
  pub phase : String
  pub operation : String
  pub status : String

pub record Job : Type 0 where
  pub job_id : String
  pub credentials : Dict String String
  pub contestant : String
  pub capabilities : Dict String Capability
  pub calls : Dict (String × String) ℕ
  pub records : List Observation

-- `heap` holds every job object ever made; `jobs` and `tokens` are `_jobs` and `_tokens`.
pub record Broker : Type 0 where
  pub operations : Dict String OperationSpec
  pub ttl : ℕ
  pub heap : List Job
  pub jobs : Dict String ℕ
  pub tokens : Dict String String

-- `len(set(names)) != len(names)`
unfoldable pub repeats : List String → Bool
repeats [] = false
repeats (x ∷ xs) = contains xs x || repeats xs

unfoldable pub table : List OperationSpec → Dict String OperationSpec → Dict String OperationSpec
table [] d = d
table (spec ∷ specs) d = table specs (insert spec.name spec d)

unfoldable pub names : List OperationSpec → List String
names [] = []
names (spec ∷ specs) = spec.name ∷ names specs

-- `Broker(operations, capability_ttl_seconds=ttl)`
unfoldable pub init : List OperationSpec → ℕ → Result BrokerError Broker
init specs ttl = do
  raise_if (repeats (names specs)) (misconfigured operation_names_repeated)
  ok (record { operations = table specs []; ttl = ttl; heap = []; jobs = []; tokens = [] })

-- `self._jobs.get(job_id)`: the reference, and the object that it leads to
abbrev pub find_job : Broker → String → Option (ℕ × Job)
find_job b job_id = elim (lookup job_id b.jobs) [
  | none ↦ none
  | some ref ↦ elim (get_elem? b.heap ref) [ none ↦ none | some job ↦ some (ref, job) ]
]

-- `_Job(job_id=..., credentials=dict(credentials), contestant=contestant)`
abbrev pub new_job : String → Dict String String → String → Job
new_job job_id credentials contestant = record {
  job_id = job_id;
  credentials = credentials;
  contestant = contestant;
  capabilities = [];
  calls = [];
  records = [];
}

unfoldable pub open_job : Broker → String → Dict String String → String → Result BrokerError Broker
open_job b job_id credentials contestant = do
  raise_if (not (is_hex_text 16 64 job_id)) (misconfigured job_id_invalid)
  elim (lookup job_id b.jobs) [
    | some _ ↦ raise (misconfigured (job_already_open job_id))
    | none ↦ ok (record b {
      heap = b.heap ++ new_job job_id credentials contestant ∷ [];
      jobs = insert job_id (length b.heap) b.jobs;
    })
  ]

unfoldable pub erase_all : List String → Dict String String → Dict String String
erase_all [] d = d
erase_all (k ∷ ks) d = erase_all ks (erase k d)

-- The object after `close_job`: no capability, and the keys gone.
abbrev pub retire : Job → Job
retire job = record job { credentials = []; capabilities = [] }

unfoldable pub close_job : Broker → String → Broker × List Observation
close_job b job_id = elim (find_job b job_id) [
  | none ↦ (b, [])
  | some (ref, job) ↦ (
    record b {
      heap = set b.heap ref (retire job);
      jobs = erase job_id b.jobs;
      tokens = erase_all (keys job.capabilities) b.tokens;
    },
    job.records,
  )
]

unfoldable pub close_each : List String → Broker → Broker
close_each [] b = b
close_each (job_id ∷ rest) b = close_each rest (close_job b job_id).0

-- `close()`, where no other call comes between its steps: each `close_job` takes the lock by itself
unfoldable pub close : Broker → Broker
close b = close_each (keys b.jobs) b

abbrev pub capability_prefix : String
capability_prefix = "kcap_"

-- `issue(job_id, role=role)` at time `now`, where `secrets.token_hex(16)` returns `random`
unfoldable pub issue :
    Broker → ℕ → String → String → String → Result BrokerError (Broker × Capability)
issue b now job_id role random = do
  raise_if (not (contains roles role)) (misconfigured role_unknown)
  (ref, job) ← or_raise (find_job b job_id) (misconfigured (job_not_open job_id))
  let token = capability_prefix <> random
  let capability : Capability = record {
    token = token;
    job_id = job_id;
    role = role;
    expires_at = now + b.ttl;
  }
  ok (
    record b {
      heap =
          set b.heap ref (record job { capabilities = insert token capability job.capabilities });
      tokens = insert token job_id b.tokens;
    },
    capability,
  )
