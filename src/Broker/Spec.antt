-- ===== src/Broker/Spec.antt =====
-- room/broker.py: the roles, the errors, and `OperationSpec` with its checks.
use kata_tee_runner.Prelude.{
  ℕ, String, Bool, false, not, ◌&&◌, ◌||◌, Option, List, [], ◌∷◌, leb, ◌==◌, contains, string_eq,
  nat_eq, pair_eq, length, all, Result, ok, ◌>>=◌, ◌>>◌, raise_if, or_raise,
}
use kata_tee_runner.Prelude.Int.{ℤ, pos, pos_part, leb_ℤ, int_eq}
use kata_tee_runner.Prelude.Text.{Codes, codes, is_digit, is_lower}
use kata_tee_runner.Prelude.Value.{Value}

abbrev pub role_agent : String
role_agent = "agent"

abbrev pub role_evaluator : String
role_evaluator = "evaluator"

abbrev pub roles : List String
roles = role_agent ∷ role_evaluator ∷ []

abbrev pub denied_message : String
denied_message = "the broker refused the request"

-- What a `BrokerConfigurationError` complains of, with the operation or the job that it names.
pub data Fault : Type 0 where
  operation_name_invalid operation_names_repeated job_id_invalid role_unknown : Fault
  operation_role_unknown operation_not_callable operation_without_calls : String → Fault
  evaluator_exposed job_already_open job_not_open : String → Fault

-- `BrokerDenied` with its message, `BrokerConfigurationError` with its complaint.
pub data BrokerError : Type 0 where
  denied : String → BrokerError
  misconfigured : Fault → BrokerError

-- What calling an operation's handler comes to: a value, a `BrokerDenied`, or another exception
-- with its integer `code` attribute, if it has one.
pub data Outcome : Type 0 where
  returned : Value → Outcome
  refused : String → Outcome
  failed : Option ℤ → Outcome

abbrev pub Handler : Type 0
Handler = String → Value → Outcome

pub record OperationSpec : Type 0 where
  pub name : String
  pub role : String
  pub provider : String
  pub handler : Handler
  pub max_calls : ℕ
  pub http_exposed : Bool

-- `[a-z][a-z0-9-]{0,63}`
abbrev pub name_codes : Codes → Bool
name_codes [] = false
name_codes (c ∷ cs) =
    is_lower c && leb (length cs) 63 && all (λ d. is_lower d || is_digit d || d == b'-') cs

-- `OperationSpec(...)` with its `__post_init__`; the handler is `none` where it is not callable.
unfoldable pub operation_spec :
    String → String → String → Option Handler → ℤ → Bool → Result BrokerError OperationSpec
operation_spec name role provider handler max_calls http_exposed = do
  raise_if (not (name_codes (codes name))) (misconfigured operation_name_invalid)
  raise_if (not (contains roles role)) (misconfigured (operation_role_unknown name))
  call ← or_raise handler (misconfigured (operation_not_callable name))
  raise_if (leb_ℤ max_calls (pos 0)) (misconfigured (operation_without_calls name))
  raise_if (role == role_evaluator && http_exposed) (misconfigured (evaluator_exposed name))
  ok (record {
    name = name;
    role = role;
    provider = provider;
    handler = call;
    max_calls = pos_part max_calls;
    http_exposed = http_exposed;
  })
