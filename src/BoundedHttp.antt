-- ===== src/BoundedHttp.antt =====
-- room/bounded_http.py: the connection slots of `BoundedThreadingHTTPServer`. A server is the
-- semaphore's value with its bound, and the count of releases; the sockets, with their timeout, have no model.
pub mod Connections
pub mod Waiting
pub mod Overloaded
use kata_tee_runner.Prelude.{
  ℕ, zero, suc, ◌+◌, Bool, true, false, ◌≡◌, leb, if◌then◌else◌, Result, ok, raise, ◌>>=◌, ◌>>◌,
  raise_if,
}
use kata_tee_runner.Prelude.Int.{ℤ, pos, leb_ℤ, pos_part}

-- The two `ValueError`s of `__init__`, and the one of a `BoundedSemaphore` that is released too
-- often.
pub data ServerError : Type 0 where
  connections_not_positive timeout_not_positive released_too_often : ServerError

pub record Server : Type 0 where
  pub max_connections : ℕ
  pub slots : ℕ
  pub release_count : ℕ

-- `__init__(max_connections=..., connection_timeout_seconds=...)`, the time in ticks
unfoldable pub start : ℤ → ℤ → Result ServerError Server
start max_connections timeout = do
  raise_if (leb_ℤ max_connections (pos 0)) connections_not_positive
  raise_if (leb_ℤ timeout (pos 0)) timeout_not_positive
  ok (record {
    max_connections = pos_part max_connections;
    slots = pos_part max_connections;
    release_count = 0;
  })

-- `_connection_slots.release()` and `_note_release()`
unfoldable pub release : Server → Result ServerError Server
release s =
    if leb s.max_connections s.slots
    then raise released_too_often
    else ok (record s { slots = s.slots + 1; release_count = s.release_count + 1 })

-- What becomes of a connection: a 503, a thread, or the exception of a thread that did not start.
pub data Admission : Type 0 where
  overloaded threaded failed : Admission

abbrev pub start_thread : Bool → Server → Result ServerError (Server × Admission)
start_thread true s = ok (s, threaded)
start_thread false s = do freed ← release s; ok (freed, failed)

abbrev pub process_at : ℕ → Bool → Server → Result ServerError (Server × Admission)
process_at zero starts s = ok (s, overloaded)
process_at (suc n) starts s = start_thread starts (record s { slots = n })

-- `process_request`; `starts` tells whether the thread of the base class starts
unfoldable pub process_request : Server → Bool → Result ServerError (Server × Admission)
unfolding release
process_request s starts = process_at s.slots starts s

-- The end of `process_request_thread`, whether the handler has returned or raised
unfoldable pub process_request_thread : Server → Result ServerError Server
unfolding release
process_request_thread s = release s
