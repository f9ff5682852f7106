-- ===== src/Tests/SummaryRun.antt =====
-- room/server.py with room/inference_gateway.py: a run whose agent has called the gateway.
use kata_tee_runner.Prelude.{
  ℕ, String, true, none, some, List, [], ◌∷◌, ◌≡◌, refl, ◌⊎◌, string_eq, nat_eq, list_eq, ok,
}
use kata_tee_runner.Prelude.Dict.{lookup}
use kata_tee_runner.Prelude.Int.{pos, ◌+ℤ◌, ◌-ℤ◌}
use kata_tee_runner.Prelude.Text.{strip, is_hex_text}
use kata_tee_runner.Prelude.Value.{str, obj, field, end}
use kata_tee_runner.Auth.{validate_request_window, claim, check_window}
use kata_tee_runner.Prelude.Numbers.{int_value}
use kata_tee_runner.Attest.{Response, verify_run, bind_and_quote}
use kata_tee_runner.Attest.Hex.{unhexlify, hex}
use kata_tee_runner.Attest.Verified.{Collision, payload_of}
use kata_tee_runner.Gateway.Status.{summarize_job_inference, summary_value}
use kata_tee_runner.Gateway.Recorded.Counted.{summarize_job_inference-post_all}
use kata_tee_runner.Gateway.Recorded.{Post, post_all, all_outcomes}
use kata_tee_runner.Tests.GatewayRun.{world as gateway_world, request as posted}
use kata_tee_runner.Gateway.Status.Counts.{tally}
use kata_tee_runner.Sealing.{resolve_sealed_credential, is_sha256}
use kata_tee_runner.Server.Interface.{World, Job, answered, truthy, set_field}
use kata_tee_runner.Server.{
  answer, check_fields, timely_body, check_body, resolve, check_bundle, prepare, reply_with,
  execute, run_checked, run, with_summary,
}
use kata_tee_runner.Server.Summarized.{with_outcomes, IsCounted, room, run-IsCounted}
use kata_tee_runner.Tests.RoomRun.{
  hashing, world, guard, kept, request, configured, verifies, reserves, digests,
}

abbrev job_id : String
job_id = "0102030405060708"

-- A POST on the route of the job.
abbrev posts : List Post
posts =
    (
      gateway_world,
      record posted {
        path =
            some
              "/j/0102030405060708~openrouter~0123456789abcdef0123456789abcdef0123456789abcdef0123456789abcdef/inference";
      },
      true,
    )
    ∷ []

abbrev outcomes : List (ℕ × ℕ)
outcomes = all_outcomes job_id posts

abbrev summarized : World
summarized = room world job_id posts [] true true

abbrev response : Response
response =
    answer summarized request "fixture" (str "done")
      (obj (field "inference_summary" (summary_value (tally outcomes)) end))

summary_made :
    (summarize_job_inference true true job_id (post_all posts [])).0
    ≡ some (summary_value (tally outcomes))
unfolding is_hex_text lookup
summary_made = (summarize_job_inference-post_all true true job_id posts [] refl refl).0

abbrev job : Job
job = record {
  project_key = str "fixture";
  credential = none;
  bundle_root = none;
  job_id = job_id;
  bundle_sha256 = request.bundle_sha256;
}

prepares : prepare summarized request ≡ ok job
unfolding prepare resolve check_bundle truthy resolve_sealed_credential strip string_eq
    with_outcomes
prepares = refl

attaches :
    with_summary summarized request (obj end)
    ≡ some (obj (field "inference_summary" (summary_value (tally outcomes)) end))
unfolding with_outcomes set_field
attaches = rw (with_summary, summary_made) refl

executes : execute summarized request (prepare summarized request) ≡ answered response
unfolding execute reply_with with_outcomes
executes = rw (prepares, execute, attaches) refl

checks : check_body summarized (pos 1010) (123 ∷ []) ≡ ok request
unfolding check_body timely_body check_fields validate_request_window claim check_window int_value
    lookup unhexlify is_sha256 string_eq ◌+ℤ◌ ◌-ℤ◌ with_outcomes
checks = refl

runs_checked :
    run_checked summarized guard (pos 1010) (pos 1011) (123 ∷ []) ≡ (kept, answered response)
unfolding run_checked
runs_checked = rw (run_checked, checks, reserves, executes) refl

runs :
    run summarized guard (pos 1010) (pos 1011) (123 ∷ []) (some "5eed") ≡ (kept, answered response)
unfolding run with_outcomes
runs = rw (run, configured, verifies, runs_checked) refl

response_verifies : verify_run hashing response job_id ≡ some true
unfolding answer bind_and_quote verify_run unhexlify hex with_outcomes nat_eq list_eq
response_verifies = refl

run-IsCounted_example :
    IsCounted world outcomes response.provenance
    × ((payload_of hashing response ≡ payload_of hashing response) ⊎ Collision hashing)
unfolding is_hex_text lookup answer
run-IsCounted_example =
    run-IsCounted world job_id posts [] true true guard (pos 1010) (pos 1011) (123 ∷ [])
      (some "5eed") kept response response refl refl runs refl digests response_verifies refl
