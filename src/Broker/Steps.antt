-- ===== src/Broker/Steps.antt =====
-- The broker as a transition system. Every method that writes is a step, and a call of `dispatch` is
-- two: one for what it does under the lock, one for the record of its outcome, with any steps of
-- other threads in between. `close` is no step of its own but a `close_job` for each job.
use kata_tee_runner.Prelude.{ℕ, ◌+◌, ◌≡◌, refl, ◌∙◌, arith, Bool, String, ok, if◌then◌else◌}
use kata_tee_runner.Prelude.{◌&&◌, ◌==◌, nat_eq, string_eq}
use kata_tee_runner.Prelude.Dict.{Dict}
use kata_tee_runner.Prelude.Value.{Value}
use kata_tee_runner.Broker.State.{Broker, Capability, open_job, close_job, issue}
use kata_tee_runner.Broker.Dispatch.{Grant, admit, write_record}
use kata_tee_runner.Broker.Admission.{admit-eq-ok}

-- What a step has billed: a call of one operation, on one capability of one job object.
pub data Label : Type 0 where
  unbilled : Label
  billed : ℕ → String → String → Label

pub data Step (b : Broker) : Label → Broker → Type 0 where
  opened :
      {b' : Broker} (job_id : String) (credentials : Dict String String) (contestant : String)
      → open_job b job_id credentials contestant ≡ ok b'
      → Step b unbilled b'
  closed : {b' : Broker} (job_id : String) → b' ≡ (close_job b job_id).0 → Step b unbilled b'
  issued :
      {b' : Broker} (now : ℕ) (job_id role random : String) (c : Capability)
      → issue b now job_id role random ≡ ok (b', c)
      → Step b unbilled b'
  admitted :
      {l : Label} {b' : Broker} (now : ℕ) (token operation payload : Value) (over_http : Bool)
      (g : Grant)
      → admit b now token operation payload over_http ≡ ok (b', g)
      → l ≡ billed g.ref g.token g.spec.name
      → Step b l b'
  recorded :
      {b' : Broker} (g : Grant) (status : String)
      → b' ≡ write_record b g status
      → Step b unbilled b'

-- Any number of steps, the last one outermost.
pub data Run (start : Broker) : Broker → Type 0 where
  here : Run start start
  next : {l : Label} {b b' : Broker} → Run start b → Step b l b' → Run start b'

abbrev pub weight : Label → ℕ → String → String → ℕ
weight unbilled ref token name = 0
weight (billed r t n) ref token name = if r == ref && (t == token && n == name) then 1 else 0

-- How often a run has billed an operation on a capability of a job object.
abbrev pub billings : {s b : Broker} → Run s b → ℕ → String → String → ℕ
billings here ref token name = 0
billings (next {l} r step) ref token name = billings r ref token name + weight l ref token name

pub operations-Step : {l : Label} {b b' : Broker} → Step b l b' → b'.operations ≡ b.operations
unfolding open_job close_job issue write_record
operations-Step (opened job_id credentials contestant h) = ground arith
operations-Step (closed job_id h) = ground arith
operations-Step (issued now job_id role random c h) = ground arith
operations-Step {b' = b'} (admitted now token operation payload over_http g h e) =
    ground (arith, (admit-eq-ok _ now token operation payload over_http b' g h).billed)
operations-Step (recorded g status h) = ground arith

pub operations-Run : {s b : Broker} → Run s b → b.operations ≡ s.operations
operations-Run here = refl
operations-Run (next r step) = operations-Step step ∙ operations-Run r
