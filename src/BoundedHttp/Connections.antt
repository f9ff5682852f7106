-- ===== src/BoundedHttp/Connections.antt =====
-- The server of room/bounded_http.py with its threads, as a transition system: how many connections
-- are served at a time, and that no slot is lost or freed twice.
use kata_tee_runner.Prelude.{
  ℕ, suc, ◌+◌, ◌-◌, ◌≤◌, ◌<◌, ◌≡◌, refl, ◌⊎◌, Bool, true, false, arith, ok,
}
use kata_tee_runner.Prelude.Int.{ℤ}
use kata_tee_runner.BoundedHttp.{
  Server, overloaded, threaded, failed, start, release, process_request, process_request_thread,
}

-- A server with the number of threads that serve a connection.
pub data Step (s : Server) (serving : ℕ) : Server → ℕ → Type 0 where
  rejected :
      {s' : Server} (starts : Bool)
      → process_request s starts ≡ ok (s', overloaded)
      → Step s serving s' serving
  began :
      {s' : Server} → process_request s true ≡ ok (s', threaded) → Step s serving s' (suc serving)
  aborted : {s' : Server} → process_request s false ≡ ok (s', failed) → Step s serving s' serving
  ended :
      {s' : Server} (left : ℕ)
      → serving ≡ suc left
      → process_request_thread s ≡ ok s'
      → Step s serving s' left

pub data Run (first : Server) : Server → ℕ → Type 0 where
  here : Run first first 0
  next : {s s' : Server} {n m : ℕ} → Run first s n → Step s n s' m → Run first s' m

IsKept-Step :
    {s s' : Server} {n m : ℕ}
    → Step s n s' m
    → s.slots + n ≡ s.max_connections
    → (s'.slots + m ≡ s'.max_connections) × (s'.max_connections ≡ s.max_connections)
unfolding process_request process_request_thread release
IsKept-Step (Step.rejected starts h) k = (ground arith, ground arith)
IsKept-Step (Step.began h) k = (ground arith, ground arith)
IsKept-Step (Step.aborted h) k = (ground arith, ground arith)
IsKept-Step (Step.ended left e h) k = (ground arith, ground arith)

start-is_free :
    (m t : ℤ) (s : Server)
    → start m t ≡ ok s
    → (s.slots ≡ s.max_connections) × (0 < s.max_connections)
unfolding start
start-is_free m t s h = (ground arith, ground arith)

kept_slots :
    {first s : Server} {n : ℕ}
    → first.slots ≡ first.max_connections
    → Run first s n
    → (s.slots + n ≡ s.max_connections) × (s.max_connections ≡ first.max_connections)
kept_slots free Run.here = (omega (arith, free), refl)
kept_slots free (Run.next r step) =
    let (k, same) = kept_slots free r in
    let (k', same') = IsKept-Step step k in (k', omega (arith, same, same'))

-- Over any run of a server that was started, of connections that are refused, served, or whose
-- thread does not start, and of threads that end, in any order, the free slots and the threads that
-- serve a connection make `max_connections` together, so no more than that are served at a time.
pub slots_in_use :
    (m t : ℤ) (first s : Server) (serving : ℕ) (r : Run first s serving)
    → start m t ≡ ok first
    → (s.slots + serving ≡ first.max_connections) × (serving ≤ first.max_connections)
slots_in_use m t first s serving r h =
    let (k, same) = kept_slots (start-is_free m t first h).0 r in
    (omega (arith, k, same), omega (arith, k, same))

-- In every state that a started server reaches, a connection is refused, without effect, where
-- `max_connections` threads serve; else it takes a slot if its thread starts, and if the thread
-- does not start the slot is given back and the release counted. The semaphore is never released
-- too often.
connection_cases :
    (m t : ℤ) (first s : Server) (serving : ℕ) (r : Run first s serving) (starts : Bool)
    → start m t ≡ ok first
    → ((serving ≡ first.max_connections) × (process_request s starts ≡ ok (s, overloaded)))
      ⊎ (((serving < first.max_connections)
            × (starts ≡ true)
            × (process_request s starts ≡ ok (record s { slots = s.slots - 1 }, threaded)))
          ⊎ ((serving < first.max_connections)
              × (starts ≡ false)
              × (process_request s starts
                  ≡ ok (record s { release_count = s.release_count + 1 }, failed))))
unfolding process_request release
connection_cases m t first s serving r starts h =
    let (k, same) = kept_slots (start-is_free m t first h).0 r in
    elim starts [ true ↦ ground (arith, k, same) | false ↦ ground (arith, k, same) ]

-- In every state that a started server reaches in which some thread serves a connection, the end of
-- a thread gives back one slot and counts one release, and the semaphore does not raise.
thread_frees_slot :
    (m t : ℤ) (first s : Server) (serving : ℕ) (r : Run first s serving)
    → start m t ≡ ok first
    → 0 < serving
    → process_request_thread s
      ≡ ok (record s { slots = s.slots + 1; release_count = s.release_count + 1 })
unfolding process_request_thread release
thread_frees_slot m t first s serving r h some_thread =
    let (k, same) = kept_slots (start-is_free m t first h).0 r in ground (arith, k, same)
