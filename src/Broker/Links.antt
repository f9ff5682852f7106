-- ===== src/Broker/Links.antt =====
-- The references between `_jobs`, `_tokens` and the job objects, in every state that is reached.
use kata_tee_runner.Prelude.{
  List, ok, ℕ, ◌≡◌, refl, ◌⊎◌, inl, inr, String, none, some, [], ◌∷◌, ◌++◌, arith, string_eq,
  get_elem?, set, length, get_elem?-set_cases, get_elem?-append_cases, get_elem?-set_self,
  get_elem?-set_ne, get_elem?-append_last, get_elem?-append_left,
}
use kata_tee_runner.Prelude.Dict.{
  Dict, lookup, insert, erase, lookup-insert, lookup-erase, lookup-nil,
}
use kata_tee_runner.Broker.Spec.{OperationSpec}
use kata_tee_runner.Broker.State.{Broker, Job, new_job, retire, init}
use kata_tee_runner.Broker.Admission.{admit-eq-ok}
use kata_tee_runner.Broker.Steps.{Label, Step, Run}
use kata_tee_runner.Broker.Writes.{open_job-eq-ok, issue-eq-ok, close_job-cases, write_record-cases}

-- An id leads to an object that carries it, and an object that no id leads to holds no key.
pub record IsLinked (b : Broker) : Type 0 where
  pub object :
      (job_id : String) (ref : ℕ)
      → lookup job_id b.jobs ≡ some ref
      → (job : Job) × (get_elem? b.heap ref ≡ some job) × (job.job_id ≡ job_id)
  pub live :
      (ref : ℕ) (job : Job)
      → get_elem? b.heap ref ≡ some job
      → (lookup job.job_id b.jobs ≡ some ref) ⊎ ((job.credentials ≡ []) × (job.capabilities ≡ []))

-- One object is written, and keeps its id; it loses keys and capabilities or is live.
IsLinked-write :
    (b : Broker) (ref : ℕ) (job new : Job) (tokens : Dict String String)
    → get_elem? b.heap ref ≡ some job
    → new.job_id ≡ job.job_id
    → (lookup job.job_id b.jobs ≡ some ref) ⊎ ((new.credentials ≡ []) × (new.capabilities ≡ []))
    → IsLinked b
    → IsLinked (record b { heap = set b.heap ref new; tokens = tokens })
IsLinked-write b ref job new tokens at same kept w = record {
  object = λ job_id r h.
      let (old, there, named) = w.object job_id r h in
      ground (arith, get_elem?-set_self b.heap ref new job at, get_elem?-set_ne b.heap ref r new);
  live = λ r j h. ground (arith, get_elem?-set_cases b.heap ref r new j h, w.live r j);
}

IsLinked-open :
    (b : Broker) (new : Job)
    → lookup new.job_id b.jobs ≡ none
    → IsLinked b
    → IsLinked
        (record b { heap = b.heap ++ new ∷ []; jobs = insert new.job_id (length b.heap) b.jobs })
IsLinked-open b new absent w = record {
  object = λ job_id r h. elim (string_eq.dec job_id new.job_id) [
    | yes e ↦ (
      new,
      ground (
        arith,
        lookup-insert job_id new.job_id (length b.heap) b.jobs,
        get_elem?-append_last b.heap new,
      ),
      ground arith,
    )
    | no e ↦
        let (old, there, named) =
          w.object job_id r
            (ground (arith, lookup-insert job_id new.job_id (length b.heap) b.jobs)) in
        (old, get_elem?-append_left b.heap _ r old there, named)
  ];
  live = λ r j h. ground (
    arith,
    get_elem?-append_cases b.heap new j r h,
    w.live r j,
    lookup-insert j.job_id new.job_id (length b.heap) b.jobs,
  );
}

IsLinked-close :
    (b : Broker) (job_id : String) (ref : ℕ) (job : Job) (tokens : Dict String String)
    → lookup job_id b.jobs ≡ some ref
    → get_elem? b.heap ref ≡ some job
    → IsLinked b
    → IsLinked (record b {
      heap = set b.heap ref (retire job);
      jobs = erase job_id b.jobs;
      tokens = tokens;
    })
IsLinked-close b job_id ref job tokens opened at w = record {
  object = λ j r h.
      let (old, there, named) = w.object j r (ground (arith, lookup-erase j job_id b.jobs)) in
      let (gone, was, name) = w.object job_id ref opened in
      ground (arith, lookup-erase j job_id b.jobs, get_elem?-set_ne b.heap ref r (retire job));
  live = λ r j h.
      let (gone, was, name) = w.object job_id ref opened in
      ground (
        arith,
        get_elem?-set_cases b.heap ref r (retire job) j h,
        w.live r j,
        get_elem?-set_self b.heap ref (retire job) job at,
        lookup-erase j.job_id job_id b.jobs,
      );
}

pub IsLinked-Step : {l : Label} {b b' : Broker} → Step b l b' → IsLinked b → IsLinked b'
IsLinked-Step {b = b} {b' = b'} (Step.opened job_id credentials contestant h) w =
    let o = open_job-eq-ok b job_id credentials contestant b' h in
    rw o.after (IsLinked-open b (new_job job_id credentials contestant) o.new w)
IsLinked-Step {b = b} (Step.closed job_id h) w = elim (close_job-cases b job_id) [
  | inl (_, kept) ↦ rw (h, kept) w
  | inr c ↦ rw (h, c.after) (IsLinked-close b job_id c.ref c.job _ c.opened c.object w)
]
IsLinked-Step {b = b} {b' = b'} (Step.issued now job_id role random c h) w =
    let i = issue-eq-ok b now job_id role random b' c h in
    let (old, there, named) = w.object job_id i.ref i.opened in
    rw i.after
      (IsLinked-write b i.ref i.job _ _ i.object refl (inl (ground (arith, i.opened, i.object))) w)
IsLinked-Step {b = b} {b' = b'} (Step.admitted now token operation payload over_http g h e) w =
    let a = admit-eq-ok b now token operation payload over_http b' g h in
    let object = a.authorized.live.object in
    rw a.billed (IsLinked-write b g.ref a.job _ _ object refl (w.live g.ref a.job object) w)
IsLinked-Step {b = b} (Step.recorded g status h) w = elim (write_record-cases b g status) [
  | inl kept ↦ rw (h, kept) w
  | inr (job, object, after) ↦
      rw (h, after) (IsLinked-write b g.ref job _ _ object refl (w.live g.ref job object) w)
]

pub IsLinked-Run : {s b : Broker} → IsLinked s → Run s b → IsLinked b
IsLinked-Run w Run.here = w
IsLinked-Run w (Run.next r step) = IsLinked-Step step (IsLinked-Run w r)

-- A broker that was just built has nothing to link.
pub IsLinked-init :
    (specs : List OperationSpec) (ttl : ℕ) (s : Broker) → init specs ttl ≡ ok s → IsLinked s
unfolding init
IsLinked-init specs ttl s start = record {
  object = λ job_id ref h. absurd (ground (arith, lookup-nil {V = ℕ} job_id));
  live = λ ref job h. absurd (ground arith);
}
