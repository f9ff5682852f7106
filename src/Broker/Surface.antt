-- ===== src/Broker/Surface.antt =====
-- What a client of the broker's HTTP surface can bring about and can see.
use kata_tee_runner.Prelude.{
  ℕ, ◌≤◌, ◌≡◌, ◌⊎◌, String, true, Option, some, List, arith, length, string_eq,
}
use kata_tee_runner.Prelude.Value.{Value, str}
use kata_tee_runner.Broker.Spec.{denied_message}
use kata_tee_runner.Broker.State.{Broker}
use kata_tee_runner.Broker.Dispatch.{Grant, write_record, status_of}
use kata_tee_runner.Broker.Admission.{IsAdmitted}
use kata_tee_runner.Broker.Http.{
  Request, max_request_bytes, one_field, capability, operation_of, do_get, do_post, payload_of,
}

module _ (loads : List ℕ → Option Value) (b : Broker) (now : ℕ) (r : Request) where
  -- A call that a request has made: what it asked for, the grant, and the state it leaves.
  pub record IsServed (after : Broker) : Type 0 where
    pub body : List ℕ
    pub operation : String
    pub payload : Value
    pub admitted_state : Broker
    pub grant : Grant
    pub small : length body ≤ max_request_bytes
    pub named : operation_of r.path ≡ some operation
    pub parsed : payload_of loads body ≡ some payload
    pub admitted :
        IsAdmitted b now (str (capability r)) (str operation) payload true admitted_state grant
    pub left :
        after
        ≡ write_record admitted_state grant (status_of (grant.spec.handler grant.api_key payload))

  -- Every response of the broker's HTTP surface with another status than 200, to a GET or a POST,
  -- whatever the cause, has the one body.
  refusals_alike :
      (((do_post loads b now r).1.status ≡ 200)
        ⊎ ((do_post loads b now r).1.payload ≡ one_field "error" (str denied_message)))
      × (((do_get b now r).status ≡ 200)
          ⊎ ((do_get b now r).payload ≡ one_field "error" (str denied_message)))
  unfolding do_post do_get
  refusals_alike = (ground arith, ground arith)
