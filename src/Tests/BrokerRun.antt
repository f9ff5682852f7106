-- ===== src/Tests/BrokerRun.antt =====
-- room/broker.py: one job, one capability, one call over HTTP, and the close.
use kata_tee_runner.Prelude.{
  ℕ, ◌≡◌, ◌⊎◌, ◌↔◌, ◌≤◌, refl, String, true, Option, none, some, List, [], ◌∷◌, ok, raise,
  get_elem?, string_eq, nat_eq, pair_eq, get_elem?,
}
use kata_tee_runner.Prelude.Dict.{Dict, lookup, insert}
use kata_tee_runner.Prelude.Int.{pos}
use kata_tee_runner.Prelude.Text.{after_prefix}
use kata_tee_runner.Prelude.Numbers.{int_of}
use kata_tee_runner.Prelude.Value.{Value, str, obj, end}
use kata_tee_runner.Broker.Spec.{OperationSpec, Handler, returned, operation_spec, role_agent}
use kata_tee_runner.Broker.State.{
  Broker, Job, Capability, init, table, names, repeats, new_job, open_job, close_job, close,
  close_each, issue, retire,
}
use kata_tee_runner.Broker.Dispatch.{Grant, authorize, admit, dispatch, answer, deny}
use kata_tee_runner.Broker.Steps.{Step, Run, billings}
use kata_tee_runner.Broker.Admission.{IsAdmitted, admit_iff}
use kata_tee_runner.Broker.Outcomes.{HasStatus, IsAnswer}
use kata_tee_runner.Broker.Refusals.{dispatch-cases}
use kata_tee_runner.Broker.Quotas.{billings-le-max_calls}
use kata_tee_runner.Broker.Closing.{authorize-close_job, closed_without_keys}
use kata_tee_runner.Broker.Exposure.{AreConstructed, admit_over_http}
use kata_tee_runner.Broker.Billing.{IsAccounted, dispatch-IsAccounted}
use kata_tee_runner.Broker.Http.{
  Request, do_post, operation_of, capability, read_body, announced, payload_of,
}

abbrev echo : Handler
echo key payload = returned payload

abbrev search : OperationSpec
search = record {
  name = "search";
  role = role_agent;
  provider = "openrouter";
  handler = echo;
  max_calls = 2;
  http_exposed = true;
}

abbrev specs : List OperationSpec
specs = search ∷ []

abbrev job_id : String
job_id = "0123456789abcdef"

abbrev random : String
random = "00112233445566778899aabbccddeeff"

abbrev token : String
token = "kcap_00112233445566778899aabbccddeeff"

abbrev credentials : Dict String String
credentials = ("openrouter", "sk-1") ∷ []

abbrev empty : Broker
empty = record {
  operations = ("search", search) ∷ [];
  ttl = 100;
  heap = [];
  jobs = [];
  tokens = [];
}

abbrev opened : Broker
opened = record empty { heap = new_job job_id credentials "alice" ∷ []; jobs = (job_id, 0) ∷ [] }

abbrev held : Capability
held = record { token = token; job_id = job_id; role = role_agent; expires_at = 110 }

abbrev job : Job
job = record (new_job job_id credentials "alice") { capabilities = (token, held) ∷ [] }

abbrev issued : Broker
issued = record opened { heap = job ∷ []; tokens = (token, job_id) ∷ [] }

abbrev billed_job : Job
billed_job = record job { calls = ((token, "search"), 1) ∷ [] }

abbrev billed : Broker
billed = record issued { heap = billed_job ∷ [] }

abbrev grant : Grant
grant = record {
  ref = 0;
  token = token;
  contestant = "alice";
  spec = search;
  api_key = "sk-1";
  task_id = none;
}

starts : init specs 100 ≡ ok empty
unfolding init table names repeats insert string_eq
starts = refl

opens : open_job empty job_id credentials "alice" ≡ ok opened
unfolding open_job lookup insert string_eq
opens = refl

issues : issue opened 10 job_id role_agent random ≡ ok (issued, held)
unfolding issue lookup insert string_eq
issues = refl

authorizes : authorize issued 20 (str token) ≡ ok (0, job, held)
unfolding authorize lookup string_eq nat_eq
authorizes = refl

admits : admit issued 20 (str token) (str "search") (obj end) true ≡ ok (billed, grant)
unfolding admit authorize lookup insert string_eq nat_eq
admits = refl

abbrev run : Run empty billed
run =
    Run.next
      (Run.next (Run.next Run.here (Step.opened job_id credentials "alice" opens))
        (Step.issued 10 job_id role_agent random held issues))
      (Step.admitted 20 (str token) (str "search") (obj end) true grant admits refl)

abbrev run_issued : Run empty issued
run_issued =
    Run.next (Run.next Run.here (Step.opened job_id credentials "alice" opens))
      (Step.issued 10 job_id role_agent random held issues)

listed : lookup "search" billed.operations ≡ some search
unfolding lookup string_eq
listed = refl

billings-le-max_calls_example : billings run 0 token "search" ≤ search.max_calls
billings-le-max_calls_example =
    billings-le-max_calls specs 100 empty billed run 0 token "search" search starts listed

admit_iff_example :
    (admit issued 20 (str token) (str "search") (obj end) true ≡ ok (billed, grant))
    ↔ IsAdmitted issued 20 (str token) (str "search") (obj end) true billed grant
admit_iff_example = admit_iff issued 20 (str token) (str "search") (obj end) true billed grant

dispatch-cases_example :
    (dispatch issued 20 (str token) (str "search") (obj end) true ≡ (issued, raise deny))
    ⊎ ((b' : Broker) × (g : Grant) × (status : String) × IsAdmitted issued 20
          (str token)
          (str "search")
          (obj end)
          true
          b'
          g
        × HasStatus (g.spec.handler g.api_key (obj end)) status
        × IsAnswer
            (g.spec.handler g.api_key (obj end))
            (dispatch issued 20 (str token) (str "search") (obj end) true).1
        × IsAccounted issued g status
            (dispatch issued 20 (str token) (str "search") (obj end) true).0)
dispatch-cases_example = dispatch-cases issued 20 (str token) (str "search") (obj end) true

job_listed : lookup job_id issued.jobs ≡ some 0
unfolding lookup string_eq
job_listed = refl

token_held : lookup token job.capabilities ≡ some held
unfolding lookup string_eq
token_held = refl

authorize-close_job_example : authorize (close_job issued job_id).0 30 (str token) ≡ raise deny
authorize-close_job_example =
    authorize-close_job issued (close_job issued job_id).0 job_id token 0 job held Run.here 30
      job_listed refl token_held tt

closed_object : get_elem? (close_job issued job_id).0.heap 0 ≡ some (retire job)
unfolding close_job lookup string_eq
closed_object = refl

all_closed_object : get_elem? (close issued).heap 0 ≡ some (retire job)
unfolding close close_each close_job lookup string_eq
all_closed_object = refl

closed_without_keys_example :
    (((retire job).credentials ≡ []) × ((retire job).capabilities ≡ []))
    × (((retire job).credentials ≡ []) × ((retire job).capabilities ≡ []))
closed_without_keys_example =
    closed_without_keys specs 100 empty issued run_issued job_id 0 0 (retire job) (retire job)
      starts closed_object refl all_closed_object

declares : operation_spec "search" role_agent "openrouter" (some echo) (pos 2) true ≡ ok search
unfolding operation_spec string_eq
declares = refl

all_constructed : AreConstructed specs
all_constructed = (("search", role_agent, "openrouter", some echo, pos 2, true, declares), tt)

admit_over_http_example : (search.role ≡ role_agent) × (search.http_exposed ≡ true)
admit_over_http_example =
    admit_over_http specs 100 empty issued run_issued 20 (str token) (str "search") (obj end) billed
      grant all_constructed starts admits

dispatch-IsAccounted_example :
    (status : String) × (status ≡ "ok")
    × IsAccounted issued grant status
        (dispatch issued 20 (str token) (str "search") (obj end) true).0
dispatch-IsAccounted_example =
    dispatch-IsAccounted issued 20 (str token) (str "search") (obj end) true billed grant admits

abbrev loads : List ℕ → Option Value
loads body = some (obj end)

abbrev request : Request
request = record {
  path = "/v1/op/search";
  capability = some token;
  transfer_encoding = none;
  content_lengths = "2" ∷ [];
  body = 123 ∷ 125 ∷ [];
}

serves : (do_post loads issued 20 request).1.status ≡ 200
unfolding do_post dispatch admit authorize answer operation_of capability read_body announced
    payload_of lookup insert string_eq nat_eq int_of after_prefix
serves = refl
