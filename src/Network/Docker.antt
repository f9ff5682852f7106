-- ===== src/Network/Docker.antt =====
-- room/inference_network.py: the docker commands of the sealed network, chains of them, and what is read
-- from their output. `calls` lists the commands up to now, the latest first. A `RuntimeError` is given by
-- which one it is.
use kata_tee_runner.Prelude.{
  String, ◌<>◌, Bool, true, false, ◌&&◌, ◌||◌, Option, none, some, List, [], ◌∷◌, if◌then◌else◌,
  ◌==◌, nat_eq, string_eq, list_eq, Result, ok, raise,
}
use kata_tee_runner.Prelude.Cut.{cut}
use kata_tee_runner.Prelude.Int.{ℤ, pos, int_eq}
use kata_tee_runner.Prelude.Text.{codes, strip, after_prefix, is_hex_text}
use kata_tee_runner.Gateway.Headers.{lower}
use kata_tee_runner.Gateway.Providers.{occurs}

pub record Process : Type 0 where
  pub returncode : ℤ
  pub stdout : String
  pub stderr : String

abbrev pub Args : Type 0
Args = List String

abbrev pub Calls : Type 0
Calls = List (Args × Process)

pub data Failure : Type 0 where
  no_credentials login_failed not_inspected not_internal not_created not_connected : Failure
  no_image unreachable_gateway unreachable_broker unhandled : Failure

abbrev pub Run : Type 0 → Type 0
Run A = Calls → Result Failure A × Calls

abbrev pub resume :
    {A B : Type 0} → (A → Run B) → Result Failure A × Calls → Result Failure B × Calls
resume rest (raise failure, calls) = (raise failure, calls)
resume rest (ok a, calls) = rest a calls

-- A chain of commands.
infixl 5 ◌>>=◌ ◌>>◌
abbrev pub ◌>>=◌ : {A B : Type 0} → Run A → (A → Run B) → Run B
(first >>= rest) calls = resume rest (first calls)

abbrev pub ◌>>◌ : {B : Type 0} → Run (Unit {0}) → Run B → Run B
first >> rest = first >>= λ done. rest

abbrev pub return : {A : Type 0} → A → Run A
return a calls = (ok a, calls)

abbrev pub fail_if : Bool → Failure → Run (Unit {0})
fail_if true failure calls = (raise failure, calls)
fail_if false failure calls = (ok tt, calls)

-- What is left of a flag that the end of a chain sets.
abbrev pub noted : Result Failure (Unit {0}) × Calls → (Result Failure (Unit {0}) × Calls) × Bool
noted (ok done, calls) = ((ok tt, calls), true)
noted (raise failure, calls) = ((raise failure, calls), false)

abbrev pub succeeded : Process → Bool
succeeded p = p.returncode == pos 0

abbrev pub inf_net : String
inf_net = "kata-inf-net"

abbrev pub gateway_alias : String
gateway_alias = "kata-inference-gateway"

-- `_AGENT_CONTAINER_RE` and `_AGENT_VOLUME_RE`: what follows the hexadecimal id
abbrev after_agent : String → Option String
after_agent name = elim (after_prefix "kata-sn22-" name) [
  | some s ↦ some s
  | none ↦ after_prefix "kata-sn60-" name
]

abbrev is_id : String → Bool
is_id = is_hex_text 12 64

unfoldable pub is_agent_container : String → Bool
is_agent_container name = elim (after_agent name) [
  | none ↦ false
  | some s ↦ elim (cut b'-' s) [ none ↦ is_id s | some (id, rest) ↦ is_id id && rest == "stage" ]
]

unfoldable pub is_agent_volume : String → Bool
is_agent_volume name = elim (after_agent name) [
  | none ↦ false
  | some s ↦ elim (cut b'-' s) [
    | none ↦ false
    | some (id, rest) ↦ is_id id && (rest == "bundle" || rest == "output")
  ]
]

-- `_docker_already_exists(process)`
unfoldable pub docker_already_exists : Process → Bool
unfolding occurs
docker_already_exists p = occurs (codes "already exists") (lower p.stderr)

-- The lines of a text that are not blank, stripped.
unfoldable pub full_lines : List String → List String
full_lines [] = []
full_lines (line ∷ rest) =
    let others = full_lines rest in if strip line == "" then others else strip line ∷ others

abbrev pub internal_args : Args
internal_args = "network" ∷ "inspect" ∷ "-f" ∷ "{{.Internal}}" ∷ inf_net ∷ []

abbrev pub create_args : Args
create_args = "network" ∷ "create" ∷ "--internal" ∷ inf_net ∷ []

abbrev pub connect_args : String → Args
connect_args host = "network" ∷ "connect" ∷ "--alias" ∷ gateway_alias ∷ inf_net ∷ host ∷ []

abbrev pub image_args : String → Args
image_args host = "inspect" ∷ "-f" ∷ "{{.Image}}" ∷ host ∷ []

abbrev pub rm_container : String → Args
rm_container name = "rm" ∷ "-f" ∷ name ∷ []

abbrev pub rm_volume : String → Args
rm_volume name = "volume" ∷ "rm" ∷ "-f" ∷ name ∷ []

-- The probe; the URL is quoted as `repr` does.
abbrev pub probe_args : String → String → Args
probe_args image url =
    "run"
    ∷ "--rm"
    ∷ "--network"
    ∷ inf_net
    ∷ "--entrypoint"
    ∷ "python"
    ∷ image
    ∷ "-c"
    ∷ ("import urllib.request,sys;"
        <> ("sys.exit(0 if urllib.request.urlopen('"
            <> (url <> "', timeout=10).status == 200 else 1)")))
    ∷ []

-- The broker's URL, `broker_url()`, and the two URLs that are probed.
abbrev pub broker_url : String
broker_url = "http://kata-inference-gateway:8100"

abbrev pub gateway_health : String
gateway_health = "http://kata-inference-gateway:8000/healthz"

abbrev pub broker_health : String
broker_health = "http://kata-inference-gateway:8100/healthz"
