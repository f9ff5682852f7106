-- ===== src/Broker/QuotaReport.antt =====
-- What `quota` tells the holder of a capability.
use kata_tee_runner.Prelude.{
  ℕ, ◌-◌, ◌≡◌, ◌∙◌, refl, String, Option, none, some, List, [], ◌∷◌, arith, ok, ◌==◌, string_eq,
  pair_eq, if◌then◌else◌,
}
use kata_tee_runner.Prelude.Dict.{Dict, lookup, insert, lookup-insert, lookup-nil}
use kata_tee_runner.Prelude.Value.{Value}
use kata_tee_runner.Broker.Spec.{OperationSpec}
use kata_tee_runner.Broker.State.{Broker, Job, Capability, init, table}
use kata_tee_runner.Broker.Dispatch.{OperationQuota, Quota, quota, quota_of, authorize, used}
use kata_tee_runner.Broker.Steps.{Run, operations-Run}

-- Each operation once, under its name.
abbrev IsTable : Dict String OperationSpec → Type 0
IsTable [] = Unit
IsTable ((k, spec) ∷ d) = (spec.name ≡ k) × (lookup k d ≡ none) × IsTable d

insert-IsTable :
    (spec : OperationSpec) (d : Dict String OperationSpec)
    → IsTable d
    → IsTable (insert spec.name spec d)
unfolding insert
insert-IsTable spec [] t = (refl, lookup-nil spec.name, tt)
insert-IsTable spec ((k, s) ∷ d) (named, once, rest) =
    ground (arith, insert-IsTable spec d rest, lookup-insert k spec.name spec d)

table-IsTable :
    (specs : List OperationSpec) (d : Dict String OperationSpec)
    → IsTable d
    → IsTable (table specs d)
unfolding table
table-IsTable [] d t = t
table-IsTable (s ∷ specs) d t = table-IsTable specs (insert s.name s d) (insert-IsTable s d t)

abbrev report : Job → Capability → OperationSpec → Option OperationQuota
report job c spec =
    if spec.role == c.role
    then some (record {
      used = used job c.token spec.name;
      max_calls = spec.max_calls;
      remaining = spec.max_calls - used job c.token spec.name;
    })
    else none

abbrev report_at : Job → Capability → Option OperationSpec → Option OperationQuota
report_at job c none = none
report_at job c (some spec) = report job c spec

lookup-quota_of :
    (d : Dict String OperationSpec) (job : Job) (c : Capability) (name : String)
    → IsTable d
    → lookup name (quota_of d job c) ≡ report_at job c (lookup name d)
unfolding quota_of lookup
lookup-quota_of [] job c name t =
    ground (arith, lookup-nil {V = OperationQuota} name, lookup-nil {V = OperationSpec} name)
lookup-quota_of ((k, spec) ∷ d) job c name (named, once, rest) =
    ground (arith, lookup-quota_of d job c name rest)

-- In every state that a broker reaches, `quota` of an authorized capability returns its role and,
-- under the name of every operation that this role may invoke, the number of calls billed, the
-- ceiling and what is left, and it holds no other name.
quota-report :
    (specs : List OperationSpec) (ttl : ℕ) (s b : Broker) (r : Run s b) (now : ℕ) (token : Value)
    (ref : ℕ) (job : Job) (c : Capability)
    → init specs ttl ≡ ok s
    → authorize b now token ≡ ok (ref, job, c)
    → (q : Quota) × (quota b now token ≡ ok q)
      × (q.role ≡ c.role)
      × ((name : String) → lookup name q.operations ≡ report_at job c (lookup name b.operations))
unfolding init quota
quota-report specs ttl s b r now token ref job c start passed =
    let same : b.operations ≡ table specs [] = operations-Run r ∙ (ground arith) in
    (
      record { role = c.role; operations = quota_of b.operations job c },
      ground arith,
      refl,
      λ name. lookup-quota_of b.operations job c name (rw same (table-IsTable specs [] tt)),
    )
