-- ===== src/Network/Chains.antt =====
-- room/inference_network.py: its chains of docker commands. The daemon answers to a command after those
-- before it; `none` is an exception of the command's.
use kata_tee_runner.Prelude.{
  ℕ, String, ◌<>◌, Bool, true, false, not, ◌&&◌, ◌||◌, Option, none, some, List, [], ◌∷◌,
  if◌then◌else◌, ◌==◌, nat_eq, string_eq, list_eq, Result, ok, raise,
}
use kata_tee_runner.Prelude.Int.{int_eq}
use kata_tee_runner.Prelude.Text.{codes, strip}
use kata_tee_runner.Gateway.Route.{RouteError, make_job_route_token}
use kata_tee_runner.Gateway.Headers.{lower}
use kata_tee_runner.Gateway.Status.{words, lines}
use kata_tee_runner.Network.Docker.{
  Process, Args, Calls, Failure, Run, ◌>>=◌, ◌>>◌, return, fail_if, noted, succeeded, inf_net,
  is_agent_container, is_agent_volume, docker_already_exists, full_lines, internal_args,
  create_args, connect_args, image_args, rm_container, rm_volume, probe_args, gateway_health,
  broker_health, no_credentials, login_failed, not_inspected, not_internal, not_created,
  not_connected, no_image, unreachable_gateway, unreachable_broker, unhandled,
}

-- `inference_gateway_url(job_id, provider)`
unfoldable pub inference_gateway_url :
    (String → List ℕ → String) → Option String → String → String → Result RouteError String
inference_gateway_url hmac env job_id provider =
    elim (make_job_route_token hmac env job_id provider) [
      | raise error ↦ raise error
      | ok route ↦ ok ("http://kata-inference-gateway:8000/j/" <> route)
    ]

-- The daemon, and `socket.gethostname()`.
module _ (answer : Calls → Args → Option Process) (host : String) where
  unfoldable pub docker : Args → Run Process
  docker args calls = elim (answer calls args) [
    | none ↦ (raise unhandled, calls)
    | some p ↦ (ok p, (args, p) ∷ calls)
  ]

  -- A command whose result is not looked at.
  unfoldable pub best_effort : Args → Run (Unit {0})
  unfolding docker
  best_effort args = docker args >>= λ p. return tt

  unfoldable pub log_in : String → String → Run (Unit {0})
  unfolding docker
  log_in user token = do
    fail_if (user == "" || token == "") no_credentials
    process ← docker ("login" ∷ "ghcr.io" ∷ "-u" ∷ user ∷ "--password-stdin" ∷ [])
    fail_if (not (succeeded process)) login_failed

  -- `ghcr_login()`, with the flag that it sets
  unfoldable pub ghcr_login :
      String → String → Bool → Calls → (Result Failure (Unit {0}) × Calls) × Bool
  unfolding log_in
  ghcr_login user token true calls = ((ok tt, calls), true)
  ghcr_login user token false calls = noted (log_in user token calls)

  unfoldable pub require_internal_network : Run (Unit {0})
  unfolding docker
  require_internal_network = do
    inspect ← docker internal_args
    fail_if (not (succeeded inspect)) not_inspected
    fail_if (not (lower (strip inspect.stdout) == codes "true")) not_internal

  unfoldable pub network_endpoint_ids : Run (List String)
  unfolding docker full_lines
  network_endpoint_ids = do
    inspect ← docker (
        "network" ∷ "inspect" ∷ "-f" ∷ "{{range $id, $cfg := .Containers}}{{$id}}\n{{end}}"
        ∷ inf_net ∷ [])
    return (if succeeded inspect then full_lines (lines inspect.stdout) else [])

  -- `for name in names: if pattern.fullmatch(name.strip()): docker([*args, name.strip()])`
  unfoldable pub remove_each : (String → Bool) → (String → Args) → List String → Run (Unit {0})
  unfolding best_effort
  remove_each pattern args [] = return tt
  remove_each pattern args (name ∷ names) =
      let rest = remove_each pattern args names in
      if pattern (strip name) then best_effort (args (strip name)) >> rest else rest

  -- Past the listing of the volumes.
  unfoldable pub remove_volumes : Process → Run (Unit {0})
  unfolding remove_each
  remove_volumes volumes =
      if succeeded volumes
      then remove_each is_agent_volume rm_volume (words volumes.stdout)
      else return tt

  unfoldable pub remove_containers : Process → Run (Unit {0})
  unfolding docker remove_each remove_volumes
  remove_containers listed =
      if succeeded listed
      then remove_each is_agent_container rm_container (words listed.stdout)
        >> (docker ("volume" ∷ "ls" ∷ "--format" ∷ "{{.Name}}" ∷ []) >>= remove_volumes)
      else return tt

  -- `cleanup_stale_agent_containers()`
  unfoldable pub cleanup_stale_agent_containers : Run (Unit {0})
  unfolding docker remove_containers
  cleanup_stale_agent_containers =
      docker ("ps" ∷ "-a" ∷ "--format" ∷ "{{.Names}}" ∷ []) >>= remove_containers

  unfoldable pub reset_inference_network : Run (Unit {0})
  unfolding cleanup_stale_agent_containers network_endpoint_ids best_effort docker
      require_internal_network remove_each
  reset_inference_network = do
    cleanup_stale_agent_containers
    endpoints ← network_endpoint_ids
    remove_each (λ id. true) (λ id. "network" ∷ "disconnect" ∷ "-f" ∷ inf_net ∷ id ∷ []) endpoints
    best_effort ("network" ∷ "rm" ∷ inf_net ∷ [])
    create ← docker create_args
    fail_if (not (succeeded create) && not (docker_already_exists create)) not_created
    require_internal_network
    connect ← docker (connect_args host)
    fail_if (not (succeeded connect) && not (docker_already_exists connect)) not_connected

  -- `_verify_gateway_reachable()` and `_verify_broker_reachable()`
  unfoldable pub verify_reachable : String → Failure → Run (Unit {0})
  unfolding docker
  verify_reachable url failure = do
    inspect ← docker (image_args host)
    let image = if succeeded inspect then strip inspect.stdout else ""
    fail_if (image == "") no_image
    probe ← docker (probe_args image url)
    fail_if (not (succeeded probe)) failure

  -- `_verify_broker_reachable()`
  unfoldable pub verify_broker_reachable : Run (Unit {0})
  unfolding verify_reachable
  verify_broker_reachable = verify_reachable broker_health unreachable_broker

  -- `ensure_inference_network_once()`, and `ensure_broker_network_once` once the broker serves: what is
  -- done, and the flag of readiness that is left.
  unfoldable pub ensure_once :
      String → Failure → Bool → Calls → (Result Failure (Unit {0}) × Calls) × Bool
  unfolding reset_inference_network verify_reachable
  ensure_once url failure true calls = ((ok tt, calls), true)
  ensure_once url failure false calls =
      noted ((reset_inference_network >> verify_reachable url failure) calls)

  unfoldable pub ensure_inference_network_once :
      Bool → Calls → (Result Failure (Unit {0}) × Calls) × Bool
  unfolding ensure_once
  ensure_inference_network_once = ensure_once gateway_health unreachable_gateway

  unfoldable pub ensure_broker_network_once :
      Bool → Calls → (Result Failure (Unit {0}) × Calls) × Bool
  unfolding ensure_once
  ensure_broker_network_once = ensure_once broker_health unreachable_broker
