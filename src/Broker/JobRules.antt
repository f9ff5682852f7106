-- ===== src/Broker/JobRules.antt =====
-- A property of job objects that the writes to one object keep holds of every object, forever.
use kata_tee_runner.Prelude.{
  ℕ, ◌<◌, ◌≡◌, ◌∙◌, inl, inr, String, true, some, List, [], ◌∷◌, ◌++◌, get_elem?, set, string_eq,
  get_elem?-set_cases, get_elem?-append_cases, contains,
}
use kata_tee_runner.Prelude.Dict.{Dict, lookup, insert}
use kata_tee_runner.Broker.Spec.{OperationSpec, roles}
use kata_tee_runner.Broker.State.{Broker, Job, Capability, Observation, new_job, retire}
use kata_tee_runner.Broker.Dispatch.{bill, used, observe}
use kata_tee_runner.Broker.Admission.{admit-eq-ok}
use kata_tee_runner.Broker.Steps.{Label, Step, Run, operations-Run}
use kata_tee_runner.Broker.Writes.{open_job-eq-ok, issue-eq-ok, close_job-cases, write_record-cases}

pub record IsJobRule (operations : Dict String OperationSpec) (P : Job → Type 0) : Type 0 where
  pub fresh :
      (job_id : String) (credentials : Dict String String) (contestant : String)
      → P (new_job job_id credentials contestant)
  pub retired : (job : Job) → P job → P (retire job)
  pub granted :
      (job : Job) (c : Capability)
      → contains roles c.role ≡ true
      → P job
      → P (record job { capabilities = insert c.token c job.capabilities })
  pub billed :
      (job : Job) (token name : String) (spec : OperationSpec)
      → lookup name operations ≡ some spec
      → used job token spec.name < spec.max_calls
      → P job
      → P (bill job token spec.name)
  pub observed :
      (job : Job) (o : Observation) → P job → P (record job { records = job.records ++ o ∷ [] })

abbrev pub Everywhere : (Job → Type 0) → Broker → Type 0
Everywhere P b = (ref : ℕ) (job : Job) → get_elem? b.heap ref ≡ some job → P job

module _ {P : Job → Type 0} where
  -- An object is written, or one more is made.
  Everywhere-set :
      (heap : List Job) (ref : ℕ) (new : Job)
      → P new
      → ((i : ℕ) (job : Job) → get_elem? heap i ≡ some job → P job)
      → (i : ℕ) (job : Job) → get_elem? (set heap ref new) i ≡ some job
      → P job
  Everywhere-set heap ref new p all i job h = elim (get_elem?-set_cases heap ref i new job h) [
    | inl (_, same) ↦ rw same p
    | inr old ↦ all i job old
  ]

  Everywhere-append :
      (heap : List Job) (new : Job)
      → P new
      → ((i : ℕ) (job : Job) → get_elem? heap i ≡ some job → P job)
      → (i : ℕ) (job : Job) → get_elem? (heap ++ new ∷ []) i ≡ some job
      → P job
  Everywhere-append heap new p all i job h = elim (get_elem?-append_cases heap new job i h) [
    | inl old ↦ all i job old
    | inr (_, same) ↦ rw same p
  ]

module _ {operations : Dict String OperationSpec} {P : Job → Type 0}
    (rule : IsJobRule operations P) where
  Everywhere-Step :
      {l : Label} {b b' : Broker}
      → b.operations ≡ operations
      → Step b l b'
      → Everywhere P b
      → Everywhere P b'
  Everywhere-Step {b = b} {b' = b'} same (Step.opened job_id credentials contestant h) all =
      rw (open_job-eq-ok b job_id credentials contestant b' h).after
        (Everywhere-append b.heap _ (rule.fresh job_id credentials contestant) all)
  Everywhere-Step {b = b} same (Step.closed job_id h) all = elim (close_job-cases b job_id) [
    | inl (_, kept) ↦ rw (h, kept) all
    | inr c ↦
        rw (h, c.after)
          (Everywhere-set b.heap c.ref _ (rule.retired c.job (all c.ref c.job c.object)) all)
  ]
  Everywhere-Step {b = b} {b' = b'} same (Step.issued now job_id role random c h) all =
      let i = issue-eq-ok b now job_id role random b' c h in
      rw i.after (
        Everywhere-set b.heap i.ref _ (rule.granted i.job c i.known_role (all i.ref i.job i.object))
          all)
  Everywhere-Step {b = b} {b' = b'} same (Step.admitted now token operation payload over_http g h e)
        all =
      let a = admit-eq-ok b now token operation payload over_http b' g h in
      rw a.billed (
        Everywhere-set b.heap g.ref _
          (rule.billed a.job g.token a.name g.spec (rw (← same) a.reviewed) a.quota
            (all g.ref a.job a.authorized.live.object))
          all)
  Everywhere-Step {b = b} same (Step.recorded g status h) all =
      elim (write_record-cases b g status) [
        | inl kept ↦ rw (h, kept) all
        | inr (job, object, after) ↦
            rw (h, after)
              (Everywhere-set b.heap g.ref _
                (rule.observed job (observe g status) (all g.ref job object)) all)
      ]

  pub Everywhere-Run :
      {s b : Broker} → s.operations ≡ operations → Everywhere P s → Run s b → Everywhere P b
  Everywhere-Run same all Run.here = all
  Everywhere-Run same all (Run.next r step) =
      Everywhere-Step (operations-Run r ∙ same) step (Everywhere-Run same all r)
