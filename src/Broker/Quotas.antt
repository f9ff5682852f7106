-- ===== src/Broker/Quotas.antt =====
-- Quotas: how often an operation is billed on a capability, over any run of the broker.
use kata_tee_runner.Prelude.{
  ℕ, zero, suc, ◌+◌, ◌≤◌, ◌≡◌, ◌∙◌, refl, inl, inr, String, ◌&&◌, none, some, List, [], ◌∷◌, ◌++◌,
  arith, ◌==◌, string_eq, nat_eq, pair_eq, if◌then◌else◌, get_elem?, set, get_elem?-set_self,
  get_elem?-set_ne, ok, Option-cases,
}
use kata_tee_runner.Prelude.Dict.{Dict, lookup, insert, lookup-insert, lookup-nil}
use kata_tee_runner.Broker.Spec.{OperationSpec}
use kata_tee_runner.Broker.State.{Broker, Job, new_job, retire, init, table}
use kata_tee_runner.Broker.Dispatch.{used, bill}
use kata_tee_runner.Broker.Admission.{admit-eq-ok}
use kata_tee_runner.Broker.JobRules.{IsJobRule, Everywhere-Run}
use kata_tee_runner.Broker.Steps.{Label, Step, Run, here, next, weight, billings, operations-Run}
use kata_tee_runner.Broker.Writes.{open_job-eq-ok, issue-eq-ok, close_job-cases, write_record-cases}

-- The table holds each operation under its name.
abbrev pub IsNamed : Dict String OperationSpec → Type 0
IsNamed d = (name : String) (spec : OperationSpec) → lookup name d ≡ some spec → spec.name ≡ name

table-IsNamed :
    (specs : List OperationSpec) (d : Dict String OperationSpec)
    → IsNamed d
    → IsNamed (table specs d)
unfolding table
table-IsNamed [] d h = h
table-IsNamed (s ∷ specs) d h =
    table-IsNamed specs (insert s.name s d)
      λ name spec e. ground (arith, lookup-insert name s.name s d, h name spec)

pub init-IsNamed :
    (specs : List OperationSpec) (ttl : ℕ) {b : Broker}
    → init specs ttl ≡ ok b
    → IsNamed b.operations × (b.heap ≡ [])
unfolding init
init-IsNamed specs ttl {b} h =
    let e : b.operations ≡ table specs [] = ground arith in
    (
      λ name spec p.
          table-IsNamed specs []
            (λ n s q. absurd (ground (arith, lookup-nil {V = OperationSpec} n))) name spec
            (rw e at p),
      ground arith,
    )

used-bill :
    (job : Job) (token t name n : String)
    → used (bill job token name) t n
      ≡ (if token == t && name == n then used job t n + 1 else used job t n)
used-bill job token t name n =
    ground (arith, lookup-insert (t, n) (token, name) (used job token name + 1) job.calls)

-- The count that stands in the object at a reference, 0 where there is none yet.
abbrev used_at : List Job → ℕ → String → String → ℕ
used_at heap ref t n = elim (get_elem? heap ref) [ none ↦ 0 | some job ↦ used job t n ]

used_at-set :
    (heap : List Job) (ref r : ℕ) (job new : Job) (t n : String)
    → get_elem? heap ref ≡ some job
    → used_at (set heap ref new) r t n ≡ (if ref == r then used new t n else used_at heap r t n)
used_at-set heap ref r job new t n at =
    ground (arith, get_elem?-set_self heap ref new job at, get_elem?-set_ne heap ref r new)

used-no_calls : (job : Job) (t n : String) → job.calls ≡ [] → used job t n ≡ 0
used-no_calls job t n empty = ground (arith, empty, lookup-nil {K = String × String} {V = ℕ} (t, n))

-- A new object has no calls.
used_at-append :
    (heap : List Job) (new : Job) (r : ℕ) (t n : String)
    → new.calls ≡ []
    → used_at (heap ++ new ∷ []) r t n ≡ used_at heap r t n
used_at-append [] new zero t n empty = used-no_calls new t n empty
used_at-append [] new (suc r) t n empty = refl
used_at-append (job ∷ heap) new zero t n empty = refl
used_at-append (job ∷ heap) new (suc r) t n empty = used_at-append heap new r t n empty

-- A write that leaves the calls of an object leaves every count.
used_at-same :
    (heap : List Job) (ref r : ℕ) (job new : Job) (t n : String)
    → get_elem? heap ref ≡ some job
    → new.calls ≡ job.calls
    → used_at (set heap ref new) r t n ≡ used_at heap r t n
used_at-same heap ref r job new t n at same = ground (arith, used_at-set heap ref r job new t n at)

used_at-Step :
    {l : Label} {b b' : Broker} (ref : ℕ) (t n : String)
    → Step b l b'
    → used_at b'.heap ref t n ≡ used_at b.heap ref t n + weight l ref t n
used_at-Step {b = b} {b' = b'} ref t n (Step.opened job_id credentials contestant h) =
    let o = open_job-eq-ok b job_id credentials contestant b' h in
    rw o.after (
      rw (used_at-append b.heap (new_job job_id credentials contestant) ref t n refl) (omega arith))
used_at-Step {b = b} ref t n (Step.closed job_id h) = elim (close_job-cases b job_id) [
  | inl (_, kept) ↦ rw (h, kept) (omega arith)
  | inr c ↦
      rw (h, c.after)
        (omega (arith, used_at-same b.heap c.ref ref c.job (retire c.job) t n c.object refl))
]
used_at-Step {b = b} {b' = b'} ref t n (Step.issued now job_id role random c h) =
    let i = issue-eq-ok b now job_id role random b' c h in
    rw i.after (used_at-same b.heap i.ref ref i.job _ t n i.object refl ∙ omega arith)
used_at-Step {b = b} {b' = b'} ref t n (Step.admitted now token operation payload over_http g h e) =
    let a = admit-eq-ok b now token operation payload over_http b' g h in
    let object = a.authorized.live.object in
    rw (a.billed, e)
      (ground (
        arith,
        used_at-set b.heap g.ref ref a.job (bill a.job g.token g.spec.name) t n object,
        object,
        used-bill a.job g.token t g.spec.name n,
      ))
used_at-Step {b = b} ref t n (Step.recorded g status h) = elim (write_record-cases b g status) [
  | inl kept ↦ rw (h, kept) (omega arith)
  | inr (job, object, after) ↦
      rw (h, after) (used_at-same b.heap g.ref ref job _ t n object refl ∙ omega arith)
]

-- The counters are the number of billings, of every object, capability and operation.
used_at-eq-billings :
    {s b : Broker} (ref : ℕ) (t n : String) (r : Run s b)
    → s.heap ≡ []
    → used_at b.heap ref t n ≡ billings r ref t n
used_at-eq-billings ref t n here empty = rw empty refl
used_at-eq-billings ref t n (next r step) empty =
    used_at-Step ref t n step ∙ omega (arith, used_at-eq-billings ref t n r empty)

-- A count is within the ceiling of its operation.
abbrev IsWithin : Dict String OperationSpec → Job → Type 0
IsWithin operations job =
    (t name : String) (spec : OperationSpec)
    → lookup name operations ≡ some spec
    → used job t spec.name ≤ spec.max_calls

IsWithin-rule :
    (operations : Dict String OperationSpec)
    → IsNamed operations
    → IsJobRule operations (IsWithin operations)
IsWithin-rule operations named = record {
  fresh = λ job_id credentials contestant t name spec h.
      omega (arith, used-no_calls (new_job job_id credentials contestant) t spec.name refl);
  retired = λ job h. h;
  granted = λ job c known h. h;
  billed = λ job token n spec listed below h t name other at. ground (
    arith,
    used-bill job token t spec.name other.name,
    h t name other at,
    named n spec listed,
    named name other at,
  );
  observed = λ job o h. h;
}

-- Over any run of a broker that was built from a table of operations, with the locked part of every
-- call as one step, so that calls of several threads come in any order, an operation of the table
-- is billed on one capability of one job object at most `max_calls` times.
pub billings-le-max_calls :
    (specs : List OperationSpec) (ttl : ℕ) (s b : Broker) (r : Run s b) (ref : ℕ)
    (token name : String) (spec : OperationSpec)
    → init specs ttl ≡ ok s
    → lookup name b.operations ≡ some spec
    → billings r ref token name ≤ spec.max_calls
billings-le-max_calls specs ttl s b r ref token name spec start listed =
    let (named, empty) = init-IsNamed specs ttl start in
    let same = operations-Run r in
    let known : lookup name s.operations ≡ some spec = rw same at listed in
    let count = used_at-eq-billings ref token name r empty in
    elim (Option-cases (get_elem? b.heap ref)) [
      | inl missing ↦ ground (arith, count)
      | inr (job, object) ↦
          let within =
            Everywhere-Run (IsWithin-rule s.operations named) refl
              (λ i j h. absurd (ground (arith, empty))) r ref job object token name spec known in
          ground (arith, count, named name spec known, within)
    ]
