-- ===== src/Broker/Sent.antt =====
-- room/broker.py, `_send`: what goes out for a response. `dumps` stands for `json.dumps(payload,
-- separators=(",", ":")).encode("utf-8")`.
use kata_tee_runner.Prelude.{
  ℕ, ◌*◌, ◌≤◌, ◌≡◌, String, Bool, true, List, [], ◌∷◌, length, take, length-take, take-all, min,
}
use kata_tee_runner.Prelude.Dict.{Dict}
use kata_tee_runner.Prelude.Text.{decimal}
use kata_tee_runner.Prelude.Value.{Value}
use kata_tee_runner.Broker.Http.{Response}

pub record Sent : Type 0 where
  pub status : ℕ
  pub headers : Dict String String
  pub body : List ℕ
  pub close_connection : Bool

abbrev pub max_response_bytes : ℕ
max_response_bytes = 8 * 1024 * 1024

unfoldable pub send : (Value → List ℕ) → Response → Sent
send dumps r =
    let body = take max_response_bytes (dumps r.payload) in
    record {
      status = r.status;
      headers =
          ("Content-Type", "application/json")
          ∷ ("Connection", "close")
          ∷ ("Content-Length", decimal (length body))
          ∷ [];
      body = body;
      close_connection = true;
    }

-- A response of at most `max_response_bytes` bytes goes out whole; a longer one is cut to this length,
-- under the same status.
send-body :
    (dumps : Value → List ℕ) (r : Response)
    → (length (send dumps r).body ≡ min max_response_bytes (length (dumps r.payload)))
      × (length (dumps r.payload) ≤ max_response_bytes → (send dumps r).body ≡ dumps r.payload)
unfolding send
send-body dumps r = (
  length-take max_response_bytes (dumps r.payload),
  take-all max_response_bytes (dumps r.payload),
)
