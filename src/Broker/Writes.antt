-- ===== src/Broker/Writes.antt =====
-- What each method that changes the state leaves in it.
use kata_tee_runner.Prelude.{
  ℕ, ◌+◌, ◌≡◌, ◌⊎◌, inl, inr, String, true, none, some, List, [], ◌∷◌, ◌++◌, arith, ◌<>◌, get_elem?,
  set, length, ok, Option-cases, contains, string_eq,
}
use kata_tee_runner.Prelude.Dict.{Dict, keys, lookup, insert, erase}
use kata_tee_runner.Prelude.Text.{is_hex_text}
use kata_tee_runner.Broker.Spec.{roles}
use kata_tee_runner.Broker.State.{
  Broker, Job, Capability, Observation, find_job, new_job, retire, open_job, close_job, issue,
  erase_all, capability_prefix,
}
use kata_tee_runner.Broker.Dispatch.{Grant, write_record, observe}

-- A successful `open_job` was for a new, well-formed id, and adds one object under it.
pub record IsOpening (b : Broker) (job_id : String) (credentials : Dict String String)
    (contestant : String) (b' : Broker) : Type 0 where
  pub shape : is_hex_text 16 64 job_id ≡ true
  pub new : lookup job_id b.jobs ≡ none
  pub after : b' ≡ record b {
    heap = b.heap ++ new_job job_id credentials contestant ∷ [];
    jobs = insert job_id (length b.heap) b.jobs;
  }

pub open_job-eq-ok :
    (b : Broker) (job_id : String) (credentials : Dict String String) (contestant : String)
    (b' : Broker)
    → open_job b job_id credentials contestant ≡ ok b'
    → IsOpening b job_id credentials contestant b'
unfolding open_job
open_job-eq-ok b job_id credentials contestant b' h = record {
  shape = ground arith;
  new = ground arith;
  after = ground arith;
}

-- A successful `issue` was for a live job and a known role.
pub record IsIssue (b : Broker) (now : ℕ) (job_id role random : String) (b' : Broker)
    (c : Capability) : Type 0 where
  pub ref : ℕ
  pub job : Job
  pub opened : lookup job_id b.jobs ≡ some ref
  pub object : get_elem? b.heap ref ≡ some job
  pub known_role : contains roles c.role ≡ true
  pub role_is : c.role ≡ role
  pub token_is : c.token ≡ capability_prefix <> random
  pub job_is : c.job_id ≡ job_id
  pub expiry : c.expires_at ≡ now + b.ttl
  pub after : b' ≡ record b {
    heap = set b.heap ref (record job { capabilities = insert c.token c job.capabilities });
    tokens = insert c.token job_id b.tokens;
  }

pub issue-eq-ok :
    (b : Broker) (now : ℕ) (job_id role random : String) (b' : Broker) (c : Capability)
    → issue b now job_id role random ≡ ok (b', c)
    → IsIssue b now job_id role random b' c
unfolding issue
issue-eq-ok b now job_id role random b' c h = elim (Option-cases (lookup job_id b.jobs)) [
  | inl missing ↦ absurd (ground arith)
  | inr (ref, opened) ↦ elim (Option-cases (get_elem? b.heap ref)) [
    | inl missing ↦ absurd (ground arith)
    | inr (job, object) ↦ record {
      ref = ref;
      job = job;
      opened = opened;
      object = object;
      known_role = ground arith;
      role_is = ground arith;
      token_is = ground arith;
      job_is = ground arith;
      expiry = ground arith;
      after = ground arith;
    }
  ]
]

-- `close_job` retires the object of a live job, and drops its id and its tokens.
pub record IsClosing (b : Broker) (job_id : String) (b' : Broker) (seen : List Observation)
    : Type 0 where
  pub ref : ℕ
  pub job : Job
  pub opened : lookup job_id b.jobs ≡ some ref
  pub object : get_elem? b.heap ref ≡ some job
  pub report : seen ≡ job.records
  pub after : b' ≡ record b {
    heap = set b.heap ref (retire job);
    jobs = erase job_id b.jobs;
    tokens = erase_all (keys job.capabilities) b.tokens;
  }

pub close_job-cases :
    (b : Broker) (job_id : String)
    → ((find_job b job_id ≡ none) × (close_job b job_id ≡ (b, [])))
      ⊎ IsClosing b job_id (close_job b job_id).0 (close_job b job_id).1
unfolding close_job
close_job-cases b job_id = elim (Option-cases (lookup job_id b.jobs)) [
  | inl missing ↦ inl (ground arith, ground arith)
  | inr (ref, opened) ↦ elim (Option-cases (get_elem? b.heap ref)) [
    | inl missing ↦ inl (ground arith, ground arith)
    | inr (job, object) ↦ inr (record {
      ref = ref;
      job = job;
      opened = opened;
      object = object;
      report = ground arith;
      after = ground arith;
    })
  ]
]

pub write_record-cases :
    (b : Broker) (g : Grant) (status : String)
    → (write_record b g status ≡ b)
      ⊎ ((job : Job) × (get_elem? b.heap g.ref ≡ some job)
          × (write_record b g status ≡ record b {
            heap = set b.heap g.ref (record job { records = job.records ++ observe g status ∷ [] });
          }))
unfolding write_record
write_record-cases b g status = elim (Option-cases (get_elem? b.heap g.ref)) [
  | inl missing ↦ inl (ground arith)
  | inr (job, object) ↦ inr (job, object, ground arith)
]
