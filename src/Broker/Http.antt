-- ===== src/Broker/Http.antt =====
-- room/broker.py, `BrokerHandler`: the surface that the untrusted agent reaches. A request is given
-- as the server reads it: the path that `urlsplit` finds, the headers that the handler looks at, and
-- the bytes that can be read. `loads` stands for `json.loads(body.decode("utf-8"))`.
use kata_tee_runner.Prelude.{
  ℕ, ◌*◌, String, true, false, not, Option, none, some, List, [], ◌∷◌, take, ◌==◌, string_eq,
  if◌then◌else◌, ltb, ok, raise,
}
use kata_tee_runner.Prelude.Dict.{Dict}
use kata_tee_runner.Prelude.Int.{pos, negsuc}
use kata_tee_runner.Prelude.Numbers.{int_of}
use kata_tee_runner.Prelude.Text.{strip, after_prefix}
use kata_tee_runner.Prelude.Value.{Value, Fields, int, str, obj, end, field}
use kata_tee_runner.Broker.Spec.{denied_message}
use kata_tee_runner.Broker.State.{Broker}
use kata_tee_runner.Broker.Dispatch.{Quota, OperationQuota, dispatch, quota}

pub record Request : Type 0 where
  pub path : String
  pub capability : Option String
  pub transfer_encoding : Option String
  pub content_lengths : List String
  pub body : List ℕ

pub record Response : Type 0 where
  pub status : ℕ
  pub payload : Value

abbrev pub max_request_bytes : ℕ
max_request_bytes = 256 * 1024

abbrev pub one_field : String → Value → Value
one_field k v = obj (field k v end)

abbrev pub refusal : ℕ → Response
refusal status = record { status = status; payload = one_field "error" (str denied_message) }

-- `_capability()`
unfoldable pub capability : Request → String
capability r = elim r.capability [ none ↦ "" | some s ↦ strip s ]

-- The length that a request announces, if `_read_body` accepts it.
unfoldable pub announced : Request → Option ℕ
announced r =
    if elim r.transfer_encoding [ none ↦ false | some s ↦ not (s == "") ]
    then none
    else elim r.content_lengths [
      | [] ↦ some 0
      | first ∷ [] ↦ elim (int_of first) [
        | none ↦ none
        | some (negsuc _) ↦ none
        | some (pos n) ↦ if ltb max_request_bytes n then none else some n
      ]
      | _ ↦ none
    ]

-- `_read_body()`
unfoldable pub read_body : Request → Option (List ℕ)
unfolding announced
read_body r = elim (announced r) [ none ↦ none | some n ↦ some (take n r.body) ]

quota_fields : Dict String OperationQuota → Fields
quota_fields [] = end
quota_fields ((name, q) ∷ rest) =
    field name
      (obj (
        field "used" (int (pos q.used)) (
          field "max_calls" (int (pos q.max_calls))
            (field "remaining" (int (pos q.remaining)) end))))
      (quota_fields rest)

-- The dict that `quota` returns, as JSON.
unfoldable pub quota_value : Quota → Value
unfolding quota_fields
quota_value q =
    obj (field "role" (str q.role) (field "operations" (obj (quota_fields q.operations)) end))

-- `do_GET`
unfoldable pub do_get : Broker → ℕ → Request → Response
do_get b now r =
    if r.path == "/healthz"
    then record {
      status = 200;
      payload = obj (field "status" (str "ok") (field "service" (str "kata-broker") end));
    }
    else if r.path == "/v1/quota"
    then elim (quota b now (str (capability r))) [
      | ok q ↦ record { status = 200; payload = quota_value q }
      | raise e ↦ refusal 403
    ]
    else refusal 404

-- `path[len("/v1/op/"):]`, where the path begins with it
unfoldable pub operation_of : String → Option String
operation_of path = after_prefix "/v1/op/" path

-- `do_POST`
module _ (loads : List ℕ → Option Value) where
  -- `json.loads(body.decode("utf-8")) if body else {}`
  unfoldable pub payload_of : List ℕ → Option Value
  payload_of [] = some (obj end)
  payload_of body = loads body

  unfoldable pub do_post : Broker → ℕ → Request → Broker × Response
  do_post b now r = elim (read_body r) [
    | none ↦ (b, refusal 403)
    | some body ↦ elim (operation_of r.path) [
      | none ↦ (b, refusal 404)
      | some operation ↦ elim (payload_of body) [
        | none ↦ (b, refusal 400)
        | some payload ↦
            let (b', result) = dispatch b now (str (capability r)) (str operation) payload true in
            (
              b',
              elim result [ ok v ↦ record { status = 200; payload = v } | raise e ↦ refusal 403 ],
            )
      ]
    ]
  ]
