-- ===== src/Network/Services.antt =====
-- room/inference_network.py: the gateway's process and the broker's server, which are started once. A call
-- of either is taken as one step; a process may end at any time.
use kata_tee_runner.Prelude.{
  ℕ, suc, ◌≡◌, ◌⊎◌, inl, inr, refl, arith, Bool, true, false, Option, none, some, List, [], ◌∷◌,
  contains, if◌then◌else◌, ◌==◌, nat_eq, eq_self, Bool-cases,
}

-- `_gateway_process`, the processes that have not ended, and the number of the next one
pub record Gateway : Type 0 where
  pub current : Option ℕ
  pub alive : List ℕ
  pub next : ℕ

abbrev pub unstarted : Gateway
unstarted = record { current = none; alive = []; next = 0 }

-- `_gateway_process is not None and _gateway_process.poll() is None`
abbrev pub is_running : Gateway → Bool
is_running g = elim g.current [ none ↦ false | some p ↦ contains g.alive p ]

-- `start_inference_gateway_once()`; `spawns` tells whether `Popen` returns. The result tells whether the call
-- does.
abbrev pub spawn : Bool → Gateway → Bool × Gateway
spawn true g = (true, record { current = some g.next; alive = g.next ∷ g.alive; next = suc g.next })
spawn false g = (false, g)

unfoldable pub start_inference_gateway_once : Bool → Gateway → Bool × Gateway
start_inference_gateway_once spawns g = if is_running g then (true, g) else spawn spawns g

-- `_broker_server`, and the thread that serves it
pub record BrokerServer : Type 0 where
  pub server : Option ℕ
  pub is_served : Bool

-- What `Thread.start` leaves.
abbrev pub serve : ℕ → Bool → Option ℕ × BrokerServer
serve server true = (some server, record { server = some server; is_served = true })
serve server false = (none, record { server = some server; is_served = false })

-- `start_broker_once(broker)`; `built` is the server that `build_broker_server` returns, and `starts` tells
-- whether the thread starts. `none` is an exception.
unfoldable pub start_broker_once : Option ℕ → Bool → BrokerServer → Option ℕ × BrokerServer
start_broker_once built starts b = elim b.server [
  | some server ↦ (some server, b)
  | none ↦ elim built [ none ↦ (none, b) | some server ↦ serve server starts ]
]

-- A process ends.
unfoldable pub remove : ℕ → List ℕ → List ℕ
remove p [] = []
remove p (q ∷ qs) = let rest = remove p qs in if p == q then rest else q ∷ rest

pub data Step (g : Gateway) : Gateway → Type 0 where
  called : (spawns : Bool) → Step g (start_inference_gateway_once spawns g).1
  ended : (p : ℕ) → Step g (record g { alive = remove p g.alive })

pub data Run : Gateway → Type 0 where
  here : Run unstarted
  next : {g g' : Gateway} → Run g → Step g g' → Run g'

-- No process, or the one that is known.
abbrev pub IsSingle : Gateway → Type 0
IsSingle g = (g.alive ≡ []) ⊎ ((p : ℕ) × (g.current ≡ some p) × (g.alive ≡ p ∷ []))

-- Where the thread does not start, a later call returns the server, which nothing serves.
unserved_broker :
    (server : ℕ) (built : Option ℕ) (starts : Bool)
    → start_broker_once built starts
        (start_broker_once (some server) false (record { server = none; is_served = false })).1
      ≡ (some server, record { server = some server; is_served = false })
unfolding start_broker_once
unserved_broker server built starts = refl

alone : (g : Gateway) → is_running g ≡ false → IsSingle g → g.alive ≡ []
alone g stopped (inl none_alive) = none_alive
alone g stopped (inr (p, known, one)) = absurd (ground (arith, known, one, eq_self p))

start-IsSingle :
    (spawns : Bool) (g : Gateway) → IsSingle g → IsSingle (start_inference_gateway_once spawns g).1
unfolding start_inference_gateway_once
start-IsSingle spawns g s = elim (Bool-cases (is_running g)) [
  | inl running ↦ rw (start_inference_gateway_once, running) s
  | inr stopped ↦ rw (start_inference_gateway_once, stopped) (spawned spawns (alone g stopped s))
]
  where
    spawned : (b : Bool) → g.alive ≡ [] → IsSingle (spawn b g).1
    spawned true empty = inr (g.next, refl, rw empty refl)
    spawned false empty = inl empty

remove-IsSingle :
    (p : ℕ) (g : Gateway) → IsSingle g → IsSingle (record g { alive = remove p g.alive })
unfolding remove
remove-IsSingle p g (inl none_alive) = inl (rw none_alive refl)
remove-IsSingle p g (inr (q, known, one)) = elim (Bool-cases (p == q)) [
  | inl this ↦ inl (rw (one, remove, this) refl)
  | inr other ↦ inr (q, known, rw (one, remove, other) refl)
]

Step-IsSingle : {g g' : Gateway} → Step g g' → IsSingle g → IsSingle g'
Step-IsSingle {g} (Step.called spawns) s = start-IsSingle spawns g s
Step-IsSingle {g} (Step.ended p) s = remove-IsSingle p g s

Run-IsSingle : {g : Gateway} → Run g → IsSingle g
Run-IsSingle Run.here = inl refl
Run-IsSingle (Run.next r step) = Step-IsSingle step (Run-IsSingle r)

-- What a call leaves that returns: one process, which runs.
abbrev pub IsStarted : Bool × Gateway → Type 0
IsStarted (false, g) = Unit
IsStarted (true, g) = (p : ℕ) × (g.current ≡ some p) × (g.alive ≡ p ∷ [])

start-IsStarted :
    (spawns : Bool) (g : Gateway) → IsSingle g → IsStarted (start_inference_gateway_once spawns g)
unfolding start_inference_gateway_once
start-IsStarted spawns g s = elim (Bool-cases (is_running g)) [
  | inl running ↦ rw (start_inference_gateway_once, running) (known running s)
  | inr stopped ↦ rw (start_inference_gateway_once, stopped) (spawned spawns (alone g stopped s))
]
  where
    known : is_running g ≡ true → IsSingle g → (p : ℕ) × (g.current ≡ some p) × (g.alive ≡ p ∷ [])
    known running (inr single) = single
    known running (inl none_alive) = absurd (idle g.current running)
      where
        idle : (c : Option ℕ) → (elim c [ none ↦ false | some p ↦ contains g.alive p ]) ≡ true → ⊥
        idle none h = cc
        idle (some p) h = ground (arith, none_alive, h)

    spawned : (b : Bool) → g.alive ≡ [] → IsStarted (spawn b g)
    spawned true empty = (g.next, refl, rw empty refl)
    spawned false empty = tt

-- Over any run of calls of `start_inference_gateway_once`, one after the other, between which
-- processes may end, at most one gateway process is alive, and it is the one that
-- `_gateway_process` refers to; after a call that returns just one is alive, and a call returns
-- where the process can be started.
pub one_gateway :
    (g : Gateway) (r : Run g) (spawns : Bool)
    → IsSingle g
      × IsStarted (start_inference_gateway_once spawns g)
      × (spawns ≡ true → (start_inference_gateway_once spawns g).0 ≡ true)
unfolding start_inference_gateway_once
one_gateway g r spawns =
    (Run-IsSingle r, start-IsStarted spawns g (Run-IsSingle r), λ yes. ground arith)
