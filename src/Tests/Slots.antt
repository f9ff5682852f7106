-- ===== src/Tests/Slots.antt =====
-- room/bounded_http.py: a server with one slot, its one connection, and a wait for its release.
use kata_tee_runner.Prelude.{◌+◌, ◌≤◌, ◌≡◌, refl, inl, arith, Bool, true, some, [], ◌∷◌, ok, nat_eq}
use kata_tee_runner.Prelude.Int.{pos}
use kata_tee_runner.Prelude.Text.{decimal, decimal_from, digit}
use kata_tee_runner.BoundedHttp.Overloaded.{overloaded_response}
use kata_tee_runner.BoundedHttp.{Server, start, process_request, threaded}
use kata_tee_runner.BoundedHttp.Connections.{Step, Run, slots_in_use}
use kata_tee_runner.BoundedHttp.Waiting.{Wakeup, wait_for_release, FitsOne, wait_for_release-ends}

abbrev idle : Server
idle = record { max_connections = 1; slots = 1; release_count = 0 }

abbrev busy : Server
busy = record { max_connections = 1; slots = 0; release_count = 0 }

starts : start (pos 1) (pos 15) ≡ ok idle
unfolding start
starts = refl

admits : process_request idle true ≡ ok (busy, threaded)
unfolding process_request
admits = refl

abbrev run : Run idle busy 1
run = Run.next Run.here (Step.began admits)

slots_in_use_example : (busy.slots + 1 ≡ idle.max_connections) × (1 ≤ idle.max_connections)
slots_in_use_example = slots_in_use (pos 1) (pos 15) idle busy 1 run starts

abbrev unreleased : Wakeup
unreleased = record { now = 10; release_count = 0 }

abbrev released : Wakeup
released = record { now = 12; release_count = 1 }

wait_for_release-ends_example :
    (b : Bool) × (wait_for_release 1 5 10 unreleased (released ∷ []) ≡ some b)
    × FitsOne 1 15 b unreleased (released ∷ [])
wait_for_release-ends_example =
    wait_for_release-ends 1 5 10 unreleased (released ∷ []) (inl (omega arith), tt) (omega arith)

sent_response :
    overloaded_response
    ≡ "HTTP/1.1 503 Service Unavailable\r\nContent-Type: application/json\r\nContent-Length: 33\r\nConnection: close\r\n\r\n{\"error\":\"server is at capacity\"}"
unfolding overloaded_response decimal decimal_from digit nat_eq
sent_response = refl
