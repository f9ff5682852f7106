-- ===== src/Tests/NetworkRun.antt =====
-- room/inference_network.py: a daemon that grants every command.
use kata_tee_runner.Prelude.{
  ◌≡◌, refl, true, false, Option, some, [], ◌++◌, string_eq, nat_eq, list_eq,
}
use native.Mathlib.Decide.{ℕ_discrete}
use kata_tee_runner.Prelude.Int.{pos, int_eq}
use kata_tee_runner.Prelude.Text.{strip, after_prefix}
use kata_tee_runner.Prelude.Cut.{cut}
use kata_tee_runner.Gateway.Headers.{lower}
use kata_tee_runner.Gateway.Providers.{occurs}
use kata_tee_runner.Gateway.Status.{words, lines}
use kata_tee_runner.Network.Docker.{
  Process, Args, Calls, gateway_health, unreachable_gateway, is_agent_container, is_agent_volume,
  full_lines, docker_already_exists,
}
use kata_tee_runner.Network.Chains.{
  docker, best_effort, remove_each, remove_volumes, remove_containers,
  cleanup_stale_agent_containers, network_endpoint_ids, require_internal_network,
  reset_inference_network, verify_reachable, ensure_once,
}
use kata_tee_runner.Network.Services.{
  Gateway, start_inference_gateway_once, remove, Step, Run, IsSingle, IsStarted, one_gateway,
}
use kata_tee_runner.Network.Closed.{IsSealedOff, ensure_once-IsSealedOff}
use kata_tee_runner.Network.Cleanup.{AreCleanup, cleanup_stale_agent_containers-AreCleanup}

abbrev answer : Calls → Args → Option Process
answer calls args = some (record { returncode = pos 0; stdout = "true"; stderr = "" })

is_ready : (ensure_once answer "runner" gateway_health unreachable_gateway false []).1 ≡ true
unfolding ensure_once reset_inference_network verify_reachable cleanup_stale_agent_containers
    remove_containers remove_volumes remove_each best_effort docker network_endpoint_ids
    require_internal_network full_lines words lines lower strip is_agent_container is_agent_volume
    after_prefix cut docker_already_exists occurs string_eq nat_eq list_eq int_eq ℕ_discrete
is_ready = refl

ensure_once-IsSealedOff_example :
    IsSealedOff answer "runner" gateway_health
      (ensure_once answer "runner" gateway_health unreachable_gateway false []).0.1
ensure_once-IsSealedOff_example =
    ensure_once-IsSealedOff answer "runner" gateway_health unreachable_gateway [] is_ready

cleanup_stale_agent_containers-AreCleanup_example :
    (added : Calls) × ((cleanup_stale_agent_containers answer "runner" []).1 ≡ added ++ [])
    × AreCleanup added
cleanup_stale_agent_containers-AreCleanup_example =
    cleanup_stale_agent_containers-AreCleanup answer "runner" []

-- The gateway's process has been started, and has ended.
abbrev ended : Gateway
ended = record { current = some 0; alive = []; next = 1 }

run_ended : Run ended
unfolding start_inference_gateway_once remove nat_eq
run_ended = Run.next (Run.next Run.here (Step.called true)) (Step.ended 0)

one_gateway_example :
    IsSingle ended
    × IsStarted (start_inference_gateway_once true ended)
    × (true ≡ true → (start_inference_gateway_once true ended).0 ≡ true)
one_gateway_example = one_gateway ended run_ended true
