-- ===== src/Broker/Exposure.antt =====
-- What the checks of `OperationSpec` keep off the network.
use kata_tee_runner.Prelude.{
  ◌⊎◌, ◌≢◌, ℕ, ◌<◌, ◌≡◌, ◌∙◌, String, Bool, true, false, Option, some, List, [], ◌∷◌, arith,
  string_eq, contains, ok,
}
use kata_tee_runner.Prelude.Dict.{Dict, lookup, insert, lookup-insert, lookup-nil}
use kata_tee_runner.Prelude.Int.{ℤ, pos}
use kata_tee_runner.Prelude.Value.{Value}
use kata_tee_runner.Broker.Spec.{
  OperationSpec, Handler, operation_spec, roles, role_agent, role_evaluator,
}
use kata_tee_runner.Broker.State.{Broker, init, table}
use kata_tee_runner.Broker.Dispatch.{Grant, admit}
use kata_tee_runner.Broker.Admission.{admit-eq-ok}
use kata_tee_runner.Broker.Steps.{Run, operations-Run}

-- A specification that `__post_init__` let through.
record IsReviewed (spec : OperationSpec) : Type 0 where
  known_role : contains roles spec.role ≡ true
  has_calls : 0 < spec.max_calls
  inner : (spec.role ≢ role_evaluator) ⊎ (spec.http_exposed ≡ false)

-- A specification that `__post_init__` lets through has a known role and at least one call, and is
-- not exposed over HTTP if it is of the evaluator's role; its name, role and ceiling are those that
-- were given.
operation_spec-IsReviewed :
    (name role provider : String) (handler : Option Handler) (max_calls : ℤ) (exposed : Bool)
    (spec : OperationSpec)
    → operation_spec name role provider handler max_calls exposed ≡ ok spec
    → IsReviewed spec × (spec.name ≡ name) × (spec.role ≡ role) × (pos spec.max_calls ≡ max_calls)
unfolding operation_spec
operation_spec-IsReviewed name role provider handler max_calls exposed spec h = (
  record { known_role = ground arith; has_calls = ground arith; inner = ground arith },
  ground arith,
  ground arith,
  ground arith,
)

-- What `OperationSpec(...)` has let through, each from some arguments.
abbrev pub IsConstructed : OperationSpec → Type 0
IsConstructed spec =
    (name : String) × (role : String) × (provider : String) × (handler : Option Handler)
    × (max_calls : ℤ) × (exposed : Bool) × (operation_spec name role provider handler max_calls
          exposed
        ≡ ok spec)

abbrev pub AreConstructed : List OperationSpec → Type 0
AreConstructed [] = Unit
AreConstructed (spec ∷ specs) = IsConstructed spec × AreConstructed specs

IsConstructed-IsReviewed : (spec : OperationSpec) → IsConstructed spec → IsReviewed spec
IsConstructed-IsReviewed spec (name, role, provider, handler, max_calls, exposed, made) =
    (operation_spec-IsReviewed name role provider handler max_calls exposed spec made).0

table-IsReviewed :
    (specs : List OperationSpec) (d : Dict String OperationSpec)
    → AreConstructed specs
    → ((name : String) (spec : OperationSpec) → lookup name d ≡ some spec → IsReviewed spec)
    → (name : String) (spec : OperationSpec) → lookup name (table specs d) ≡ some spec
    → IsReviewed spec
unfolding table
table-IsReviewed [] d all old name spec h = old name spec h
table-IsReviewed (s ∷ specs) d (first, rest) old name spec h =
    table-IsReviewed specs (insert s.name s d) rest
      (λ n sp e. elim (string_eq.dec n s.name) [
        | yes p ↦ rw (← new n sp p e) (IsConstructed-IsReviewed s first)
        | no p ↦ old n sp (ground (arith, lookup-insert n s.name s d))
      ])
      name spec h
  where
    new :
        (n : String) (sp : OperationSpec)
        → n ≡ s.name
        → lookup n (insert s.name s d) ≡ some sp
        → s ≡ sp
    new n sp p e = ground (arith, lookup-insert n s.name s d)

reviewed :
    (specs : List OperationSpec) (ttl : ℕ) (s b : Broker) (r : Run s b)
    → AreConstructed specs
    → init specs ttl ≡ ok s
    → (name : String) (spec : OperationSpec) → lookup name b.operations ≡ some spec
    → IsReviewed spec
unfolding init
reviewed specs ttl s b r all start name spec h =
    let same : b.operations ≡ table specs [] = operations-Run r ∙ (ground arith) in
    table-IsReviewed specs [] all
      (λ n sp e. absurd (ground (arith, lookup-nil {V = OperationSpec} n))) name spec (rw same at h)

-- In every state that is reached from a broker built from specifications that `OperationSpec` has
-- constructed from any arguments, a call that is admitted over HTTP is of an exposed operation of
-- the agent's role, whatever the token.
pub admit_over_http :
    (specs : List OperationSpec) (ttl : ℕ) (s b : Broker) (r : Run s b) (now : ℕ)
    (token operation payload : Value) (b' : Broker) (g : Grant)
    → AreConstructed specs
    → init specs ttl ≡ ok s
    → admit b now token operation payload true ≡ ok (b', g)
    → (g.spec.role ≡ role_agent) × (g.spec.http_exposed ≡ true)
admit_over_http specs ttl s b r now token operation payload b' g all start h =
    let a = admit-eq-ok b now token operation payload true b' g h in
    let sp = reviewed specs ttl s b r all start a.name g.spec a.reviewed in
    ground (arith, a.exposure, sp.inner, sp.known_role)
