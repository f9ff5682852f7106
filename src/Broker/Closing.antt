-- ===== src/Broker/Closing.antt =====
-- The end of a job: its capabilities are dead and its keys are gone.
use kata_tee_runner.Prelude.{
  ok, ℕ, ◌≡◌, ◌≢◌, refl, inl, inr, String, true, Option, none, some, List, [], ◌∷◌, arith, ◌==◌,
  string_eq, contains, if◌then◌else◌, get_elem?, raise, Option-cases,
}
use kata_tee_runner.Prelude.Dict.{
  Dict, keys, lookup, erase, lookup-insert, lookup-erase, lookup-nil, lookup-cons,
}
use kata_tee_runner.Prelude.Value.{str}
use kata_tee_runner.Broker.Spec.{OperationSpec}
use kata_tee_runner.Broker.State.{
  init, Broker, Job, Capability, close_job, close_each, close, erase_all,
}
use kata_tee_runner.Broker.Dispatch.{authorize, deny}
use kata_tee_runner.Broker.Admission.{admit-eq-ok}
use kata_tee_runner.Broker.Links.{IsLinked, IsLinked-Step, IsLinked-Run, IsLinked-init}
use kata_tee_runner.Broker.Steps.{Label, Step, Run}
use kata_tee_runner.Broker.Writes.{open_job-eq-ok, issue-eq-ok, close_job-cases, write_record-cases}

lookup-erase_all :
    (ks : List String) (t : String) (d : Dict String String)
    → lookup t (erase_all ks d) ≡ (if contains ks t then none else lookup t d)
unfolding erase_all
lookup-erase_all [] t d = refl
lookup-erase_all (k ∷ ks) t d =
    ground (arith, lookup-erase_all ks t (erase k d), lookup-erase t k d)

contains-keys {ℓ} :
    {A : Type ℓ} (d : Dict String A) (k : String) (v : A)
    → lookup k d ≡ some v
    → contains (keys d) k ≡ true
contains-keys {A} [] k v h = absurd (ground (arith, lookup-nil {V = A} k))
contains-keys ((j, w) ∷ d) k v h = ground (arith, lookup-cons k j w d, contains-keys d k v)

-- A token that `_tokens` lacks is refused, whatever else the state holds.
authorize-unknown :
    (b : Broker) (now : ℕ) (t : String)
    → lookup t b.tokens ≡ none
    → authorize b now (str t) ≡ raise deny
unfolding authorize
authorize-unknown b now t h = ground arith

-- The token that a step issues, if it issues one.
abbrev pub issued_by : {l : Label} {b b' : Broker} → Step b l b' → Option String
issued_by (Step.issued now job_id role random c h) = some c.token
issued_by _ = none

-- No step of the run issues the token anew.
abbrev pub IsWithout : {s b : Broker} → String → Run s b → Type 0
IsWithout t Run.here = Unit
IsWithout t (Run.next r step) = IsWithout t r × (issued_by step ≢ some t)

-- A job's tokens are dropped by a close and never added but by `issue`.
unknown-Step :
    {l : Label} {b b' : Broker} (t : String) (step : Step b l b')
    → issued_by step ≢ some t
    → lookup t b.tokens ≡ none
    → lookup t b'.tokens ≡ none
unknown-Step {b = b} {b' = b'} t (Step.opened job_id credentials contestant h) other k =
    rw (open_job-eq-ok b job_id credentials contestant b' h).after k
unknown-Step {b = b} t (Step.closed job_id h) other k = elim (close_job-cases b job_id) [
  | inl (_, kept) ↦ rw (h, kept) k
  | inr c ↦ rw (h, c.after) (ground (arith, lookup-erase_all (keys c.job.capabilities) t b.tokens))
]
unknown-Step {b = b} {b' = b'} t (Step.issued now job_id role random c h) other k =
    let i = issue-eq-ok b now job_id role random b' c h in
    rw i.after (ground (arith, lookup-insert t c.token job_id b.tokens))
unknown-Step {b = b} {b' = b'} t (Step.admitted now token operation payload over_http g h e) other
      k =
    rw (admit-eq-ok b now token operation payload over_http b' g h).billed k
unknown-Step {b = b} t (Step.recorded g status h) other k = elim (write_record-cases b g status) [
  | inl kept ↦ rw (h, kept) k
  | inr (job, object, after) ↦ rw (h, after) k
]

unknown-Run :
    {s b : Broker} (t : String) (r : Run s b)
    → IsWithout t r
    → lookup t s.tokens ≡ none
    → lookup t b.tokens ≡ none
unknown-Run t Run.here w k = k
unknown-Run t (Run.next r step) w k = unknown-Step t step w.1 (unknown-Run t r w.0 k)

-- After `close_job` of an open job, a capability that the job held is refused, at any time, in
-- every state that is reached later by steps none of which mints the same token again.
pub authorize-close_job :
    (b b' : Broker) (job_id t : String) (ref : ℕ) (job : Job) (c : Capability)
    (r : Run (close_job b job_id).0 b') (now : ℕ)
    → lookup job_id b.jobs ≡ some ref
    → get_elem? b.heap ref ≡ some job
    → lookup t job.capabilities ≡ some c
    → IsWithout t r
    → authorize b' now (str t) ≡ raise deny
unfolding close_job
authorize-close_job b b' job_id t ref job c r now opened object held fresh =
    authorize-unknown b' now t (
      unknown-Run t r fresh (
        ground (
          arith,
          lookup-erase_all (keys job.capabilities) t b.tokens,
          contains-keys job.capabilities t c,
        )))

jobs-close_job :
    (b : Broker) (job_id j : String)
    → IsLinked b
    → lookup j (close_job b job_id).0.jobs ≡ (if j == job_id then none else lookup j b.jobs)
jobs-close_job b job_id j w = elim (close_job-cases b job_id) [
  | inl (missing, kept) ↦ elim (Option-cases (lookup job_id b.jobs)) [
    | inl absent ↦ rw kept (ground arith)
    | inr (ref, listed) ↦
        let (job, there, named) = w.object job_id ref listed in absurd (ground arith)
  ]
  | inr c ↦ rw c.after (lookup-erase j job_id b.jobs)
]

IsLinked-close_job : (b : Broker) (job_id : String) → IsLinked b → IsLinked (close_job b job_id).0
IsLinked-close_job b job_id w = IsLinked-Step (Step.closed job_id refl) w

close_job-keys :
    (b : Broker) (job_id : String) (ref : ℕ) (job : Job)
    → IsLinked b
    → get_elem? (close_job b job_id).0.heap ref ≡ some job
    → job.job_id ≡ job_id
    → (job.credentials ≡ []) × (job.capabilities ≡ [])
close_job-keys b job_id ref job w h named =
    ground
      (arith, (IsLinked-close_job b job_id w).live ref job h, jobs-close_job b job_id job.job_id w)

jobs-close_each :
    (ks : List String) (b : Broker) (j : String)
    → IsLinked b
    → IsLinked (close_each ks b)
      × (lookup j (close_each ks b).jobs ≡ (if contains ks j then none else lookup j b.jobs))
unfolding close_each
jobs-close_each [] b j w = (w, refl)
jobs-close_each (k ∷ ks) b j w =
    let (linked, left) = jobs-close_each ks (close_job b k).0 j (IsLinked-close_job b k w) in
    (linked, ground (arith, left, jobs-close_job b k j w))

close-keys :
    (b : Broker) (ref : ℕ) (job : Job)
    → IsLinked b
    → get_elem? (close b).heap ref ≡ some job
    → (job.credentials ≡ []) × (job.capabilities ≡ [])
unfolding close
close-keys b ref job w h =
    let (linked, left) = jobs-close_each (keys b.jobs) b job.job_id w in
    elim (Option-cases (lookup job.job_id b.jobs)) [
      | inl absent ↦ ground (arith, linked.live ref job h)
      | inr (r, listed) ↦
          ground (arith, linked.live ref job h, contains-keys b.jobs job.job_id r listed)
    ]

-- In every state that a broker reaches: after `close_job` of an id no job object that carries the
-- id holds a key or a capability, objects that a call in flight still refers to included; after
-- `close`, where no other call comes between its steps, no job object at all does.
pub closed_without_keys :
    (specs : List OperationSpec) (ttl : ℕ) (s b : Broker) (r : Run s b) (job_id : String)
    (ref other : ℕ) (job last : Job)
    → init specs ttl ≡ ok s
    → get_elem? (close_job b job_id).0.heap ref ≡ some job
    → job.job_id ≡ job_id
    → get_elem? (close b).heap other ≡ some last
    → ((job.credentials ≡ []) × (job.capabilities ≡ []))
      × ((last.credentials ≡ []) × (last.capabilities ≡ []))
closed_without_keys specs ttl s b r job_id ref other job last start h named k =
    let linked = IsLinked-Run (IsLinked-init specs ttl s start) r in
    (close_job-keys b job_id ref job linked h named, close-keys b other last linked k)
