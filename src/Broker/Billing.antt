-- ===== src/Broker/Billing.antt =====
-- What one admitted call of `dispatch` writes, whatever its handler does.
use kata_tee_runner.Prelude.{
  nat_eq, inl, inr, ℕ, ◌+◌, ◌≡◌, ◌⊎◌, refl, String, Bool, some, [], ◌∷◌, ◌++◌, arith, get_elem?,
  set, get_elem?-set_self, get_elem?-set_ne, ok, string_eq, pair_eq,
}
use kata_tee_runner.Prelude.Dict.{lookup-insert}
use kata_tee_runner.Prelude.Value.{Value}
use kata_tee_runner.Broker.State.{Broker, Job, Observation}
use kata_tee_runner.Broker.Dispatch.{
  Grant, admit, dispatch, used, bill, observe, write_record, status_of, task_label,
}
use kata_tee_runner.Broker.Outcomes.{HasStatus, status_of-HasStatus}
use kata_tee_runner.Broker.Admission.{admit-eq-ok}

-- What is told of a call: whose it was, what it asked for, and how it ended.
pub record IsObservation (g : Grant) (ending : String) (o : Observation) : Type 0 where
  pub contestant : o.contestant ≡ g.contestant
  pub task_id : o.task_id ≡ task_label g.task_id
  pub provider : o.provider ≡ g.spec.provider
  pub phase : o.phase ≡ g.spec.role
  pub operation : o.operation ≡ g.spec.name
  pub status : o.status ≡ ending

-- From one object to the next: one more call billed, one more observation, and no other change.
pub record IsCharged (g : Grant) (status : String) (old new : Job) : Type 0 where
  pub one_call : used new g.token g.spec.name ≡ used old g.token g.spec.name + 1
  pub other_calls :
      (t n : String) → ((t ≡ g.token) × (n ≡ g.spec.name)) ⊎ (used new t n ≡ used old t n)
  pub observation : Observation
  pub one_record : new.records ≡ old.records ++ observation ∷ []
  pub told : IsObservation g status observation
  pub credentials : new.credentials ≡ old.credentials
  pub capabilities : new.capabilities ≡ old.capabilities

pub record IsAccounted (b : Broker) (g : Grant) (status : String) (after : Broker) : Type 0 where
  pub old : Job
  pub new : Job
  pub before : get_elem? b.heap g.ref ≡ some old
  pub now : get_elem? after.heap g.ref ≡ some new
  pub charged : IsCharged g status old new
  pub others : (ref : ℕ) → (g.ref ≡ ref) ⊎ (get_elem? after.heap ref ≡ get_elem? b.heap ref)
  pub jobs : after.jobs ≡ b.jobs
  pub tokens : after.tokens ≡ b.tokens

abbrev charge : (g : Grant) (status : String) (job : Job) → Job
charge g status job =
    let paid = bill job g.token g.spec.name in
    record paid { records = paid.records ++ observe g status ∷ [] }

charge-IsCharged :
    (g : Grant) (status : String) (job : Job) → IsCharged g status job (charge g status job)
charge-IsCharged g status job = record {
  one_call = ground (
    arith,
    lookup-insert (g.token, g.spec.name) (g.token, g.spec.name) (used job g.token g.spec.name + 1)
        job.calls,
  );
  other_calls = λ t n. ground (
    arith,
    lookup-insert (t, n) (g.token, g.spec.name) (used job g.token g.spec.name + 1) job.calls,
  );
  observation = observe g status;
  one_record = refl;
  told = record {
    contestant = refl;
    task_id = refl;
    provider = refl;
    phase = refl;
    operation = refl;
    status = refl;
  };
  credentials = refl;
  capabilities = refl;
}

write_record-bill :
    (b : Broker) (g : Grant) (status : String) (job : Job)
    → get_elem? b.heap g.ref ≡ some job
    → IsAccounted b g status (
        write_record (record b { heap = set b.heap g.ref (bill job g.token g.spec.name) }) g status)
unfolding write_record
write_record-bill b g status job at =
    let paid = bill job g.token g.spec.name in
    let there = get_elem?-set_self b.heap g.ref paid job at in
    record {
      old = job;
      new = charge g status job;
      before = at;
      now = ground (
        arith,
        there,
        get_elem?-set_self (set b.heap g.ref paid) g.ref (charge g status job) paid there,
      );
      charged = charge-IsCharged g status job;
      others = λ ref. elim (nat_eq.dec g.ref ref) [
        | yes same ↦ inl same
        | no other ↦ inr (
            ground (
              arith,
              there,
              get_elem?-set_ne b.heap g.ref ref paid other,
              get_elem?-set_ne (set b.heap g.ref paid) g.ref ref (charge g status job) other,
            ))
      ];
      jobs = ground (arith, there);
      tokens = ground (arith, there);
    }

-- An admitted call of `dispatch` adds one to its own count and one observation to its job object,
-- also where the handler raises: it tells the contestant, the task, the provider, the role, the
-- operation, and the status, which is "ok" for a value, "denied" for the refusal of the handler,
-- the class of its code or "unreachable" for another exception. The object keeps its other counts,
-- its keys and its capabilities, and no other job object, and neither index of the broker, changes.
pub dispatch-IsAccounted :
    (b : Broker) (now : ℕ) (token operation payload : Value) (over_http : Bool) (b' : Broker)
    (g : Grant)
    → admit b now token operation payload over_http ≡ ok (b', g)
    → (status : String) × HasStatus (g.spec.handler g.api_key payload) status
      × IsAccounted b g status (dispatch b now token operation payload over_http).0
unfolding dispatch
dispatch-IsAccounted b now token operation payload over_http b' g h =
    let a = admit-eq-ok b now token operation payload over_http b' g h in
    let outcome = g.spec.handler g.api_key payload in
    (
      status_of outcome,
      status_of-HasStatus outcome,
      rw (h, dispatch) (rw a.billed (write_record-bill b g _ a.job a.authorized.live.object)),
    )
