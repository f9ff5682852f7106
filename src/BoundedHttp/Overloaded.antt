-- ===== src/BoundedHttp/Overloaded.antt =====
-- room/bounded_http.py: what a connection gets for which there is no slot.
use kata_tee_runner.Prelude.{String, ◌<>◌, Bool, true, false, List, [], ◌∷◌, length}
use kata_tee_runner.Prelude.Text.{codes, decimal}

abbrev pub overloaded_body : String
overloaded_body = "{\"error\":\"server is at capacity\"}"

unfoldable pub overloaded_response : String
overloaded_response =
    "HTTP/1.1 503 Service Unavailable\r\n"
    <> ("Content-Type: application/json\r\n"
        <> (("Content-Length: " <> (decimal (length (codes overloaded_body)) <> "\r\n"))
            <> ("Connection: close\r\n" <> ("\r\n" <> overloaded_body))))

pub data SocketCall : Type 0 where
  sendall : String → SocketCall
  shutdown : SocketCall

-- `_reject_overloaded`; `sends` tells whether `sendall` does without an `OSError`. The calls that
-- succeed.
unfoldable pub reject_overloaded : Bool → List SocketCall
reject_overloaded true = sendall overloaded_response ∷ shutdown ∷ []
reject_overloaded false = shutdown ∷ []
