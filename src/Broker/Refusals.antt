-- ===== src/Broker/Refusals.antt =====
-- Refusals of the broker: they are all alike, and a refused call has no effect.
use kata_tee_runner.Prelude.{
  ℕ, ◌≡◌, refl, String, ◌⊎◌, inl, inr, Bool, arith, string_eq, pair_eq, Result, ok, raise,
}
use kata_tee_runner.Prelude.Value.{Value, str}
use kata_tee_runner.Broker.Spec.{BrokerError}
use kata_tee_runner.Broker.State.{Broker}
use kata_tee_runner.Broker.Dispatch.{
  Grant, authorize, admit, answer, dispatch, deny, quota, status_of, write_record,
}
use kata_tee_runner.Broker.Outcomes.{HasStatus, IsAnswer, answer-IsAnswer}
use kata_tee_runner.Broker.Billing.{IsAccounted, dispatch-IsAccounted}
use kata_tee_runner.Broker.Admission.{IsAdmitted, admit-eq-ok}

authorize-eq-raise :
    (b : Broker) (now : ℕ) (token : Value) (e : BrokerError)
    → authorize b now token ≡ raise e
    → e ≡ deny
unfolding authorize
authorize-eq-raise b now (str t) e h = ground arith
authorize-eq-raise b now _ e h = ground arith

admit-eq-raise :
    (b : Broker) (now : ℕ) (token operation payload : Value) (over_http : Bool) (e : BrokerError)
    → admit b now token operation payload over_http ≡ raise e
    → e ≡ deny
unfolding admit
admit-eq-raise b now token operation payload over_http e h =
    ground (arith, authorize-eq-raise b now token e)

Result-cases :
    (r : Result BrokerError (Broker × Grant))
    → ((e : BrokerError) × (r ≡ raise e)) ⊎ ((b : Broker) × (g : Grant) × (r ≡ ok (b, g)))
Result-cases (ok (b, g)) = inr (b, g, refl)
Result-cases (raise e) = inl (e, refl)

-- What a call comes to that is admitted, in the parts of `dispatch`.
pub dispatch-admitted :
    (b : Broker) (now : ℕ) (token operation payload : Value) (over_http : Bool)
    → (dispatch b now token operation payload over_http ≡ (b, raise deny))
      ⊎ ((b' : Broker) × (g : Grant) × (admit b now token operation payload over_http ≡ ok (b', g))
          × (dispatch b now token operation payload over_http ≡ (
            write_record b' g (status_of (g.spec.handler g.api_key payload)),
            answer (g.spec.handler g.api_key payload),
          )))
unfolding dispatch
dispatch-admitted b now token operation payload over_http =
    elim (Result-cases (admit b now token operation payload over_http)) [
      | inl (e, refusal) ↦
          inl (ground (arith, admit-eq-raise b now token operation payload over_http e refusal))
      | inr (b', g, passed) ↦ inr (b', g, passed, ground arith)
    ]

-- A call of `dispatch` leaves the state as it was and raises the one refusal, or it was admitted,
-- and then it makes the handler's call with the job's key and adds one to its own count and one
-- observation to its job object: "ok" for a value, "denied" for the refusal of the handler, the
-- class of its code or "unreachable" for another exception. It returns a value that is a dict,
-- raises the handler's own refusal as it is, and raises the one refusal for anything else.
pub dispatch-cases :
    (b : Broker) (now : ℕ) (token operation payload : Value) (over_http : Bool)
    → (dispatch b now token operation payload over_http ≡ (b, raise deny))
      ⊎ ((b' : Broker) × (g : Grant) × (status : String) × IsAdmitted b now token operation payload
            over_http b' g
          × HasStatus (g.spec.handler g.api_key payload) status
          × IsAnswer
              (g.spec.handler g.api_key payload)
              (dispatch b now token operation payload over_http).1
          × IsAccounted b g status (dispatch b now token operation payload over_http).0)
dispatch-cases b now token operation payload over_http =
    elim (dispatch-admitted b now token operation payload over_http) [
      | inl refusal ↦ inl refusal
      | inr (b', g, passed, result) ↦
          let (status, has, accounted) =
            dispatch-IsAccounted b now token operation payload over_http b' g passed in
          inr (
            b',
            g,
            status,
            admit-eq-ok b now token operation payload over_http b' g passed,
            has,
            rw result (answer-IsAnswer (g.spec.handler g.api_key payload)),
            accounted,
          )
    ]

pub quota-eq-raise :
    (b : Broker) (now : ℕ) (token : Value) (e : BrokerError)
    → quota b now token ≡ raise e
    → e ≡ deny
unfolding quota
quota-eq-raise b now token e h = ground (arith, authorize-eq-raise b now token e)
