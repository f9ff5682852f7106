-- ===== src/Server/Summarized.antt =====
-- room/server.py with room/inference_gateway.py: the summary of a job's inference in an answer of `/run`,
-- which the room asks for after the POSTs to the gateway.
use kata_tee_runner.Prelude.{
  ℕ, String, Bool, true, Option, none, some, List, ◌≡◌, ap, sym, ◌∙◌, ◌⊎◌, inl, inr, string_eq,
}
use kata_tee_runner.Prelude.Dict.{lookup}
use kata_tee_runner.Prelude.Int.{ℤ}
use kata_tee_runner.Prelude.Text.{codes, is_hex_text}
use kata_tee_runner.Prelude.Value.{Value, as_dict}
use kata_tee_runner.Auth.{ReplayGuard}
use kata_tee_runner.Attest.{Bytes, Response, verify_run}
use kata_tee_runner.Attest.Hex.{unhexlify}
use kata_tee_runner.Attest.Verified.{IsDigesting, Collision, payload_of, verified_runs_agree}
use kata_tee_runner.Gateway.Status.{Files, summarize_job_inference, summary_value}
use kata_tee_runner.Gateway.Recorded.Counted.{summarize_job_inference-post_all}
use kata_tee_runner.Gateway.Recorded.{Post, post_all, all_outcomes, written}
use kata_tee_runner.Gateway.Status.Counts.{tally}
use kata_tee_runner.Server.Interface.{World, Job, JobResult, Request, answered}
use kata_tee_runner.Server.{answer, run}
use kata_tee_runner.Server.Evidence.{summary_in, IsSummarized, execute-Quoted}
use kata_tee_runner.Server.Answers.{run-IsAuthorized, run-verifies, reply_with-eq-answered}

-- The room's surroundings, with the gateway's own summary; `opens` and `removes` tell of the
-- calls on its file.
unfoldable pub with_outcomes : Bool → Bool → Files → World → World
with_outcomes opens removes files w = record w {
  summary = λ job_id. (summarize_job_inference opens removes job_id files).0;
}

-- The provenance counts the outcomes, or it is the profile's, which is not a dict.
abbrev pub IsCounted : World → List (ℕ × ℕ) → Value → Type 0
IsCounted w os provenance =
    (summary_in provenance ≡ some (summary_value (tally os)))
    ⊎ ((job : Job) × (result : JobResult) × (w.run_profile job ≡ some result)
        × (result.provenance ≡ provenance)
        × (as_dict provenance ≡ none))

IsSummarized-IsCounted :
    (opens removes : Bool) (w : World) (files : Files) (os : List (ℕ × ℕ)) (rq : Request)
    (provenance : Value)
    → (summarize_job_inference opens removes rq.nonce_hex files).0 ≡ some (summary_value (tally os))
    → IsSummarized (with_outcomes opens removes files w) rq provenance
    → IsCounted w os provenance
unfolding with_outcomes
IsSummarized-IsCounted opens removes w files os rq provenance made (inl (summary, asked, has)) =
    inl (has ∙ sym asked ∙ made)
IsSummarized-IsCounted opens removes w files os rq provenance made (inr other) = inr other

answer-states :
    (w : World) (rq : Request) (project_key : String) (report provenance : Value) (a : Response)
    → answer w rq project_key report provenance ≡ a
    → (rq.nonce_hex ≡ a.nonce) × (provenance ≡ a.provenance)
unfolding answer
answer-states w rq project_key report provenance a same =
    (ap (λ r. r.nonce) same, ap (λ r. r.provenance) same)

module _ (w : World) (job_id : String) (posts : List Post) (files : Files)
    (opens removes : Bool) where
  abbrev pub room : World
  room = with_outcomes opens removes (post_all posts files) w

  verified_runs_agree_payload :
      (b a : Response) (nonce : Bytes)
      → IsDigesting w.hashing
      → unhexlify (codes job_id) ≡ some nonce
      → verify_run w.hashing b job_id ≡ some true
      → verify_run w.hashing a job_id ≡ some true
      → b.report_data_sha256 ≡ a.report_data_sha256
      → (payload_of w.hashing b ≡ payload_of w.hashing a) ⊎ Collision w.hashing
  verified_runs_agree_payload b a nonce digesting n v u same =
      elim (verified_runs_agree w.hashing b a job_id nonce digesting n v u same) [
        | inl agree ↦ inl agree.1
        | inr c ↦ inr c
      ]

  -- Where `run`, in a room that takes the summary of a job's inference from the gateway's record,
  -- answers for a nonce of 16 to 64 lowercase hexadecimal characters, under which nothing was
  -- recorded before a sequence of POSTs to the gateway, the answer's provenance has the summary
  -- that counts just the outcomes that these POSTs recorded under the nonce in lines that were
  -- written, or none where the record does not open, or it is the provenance of the profile, which
  -- is not a dict; and any response that verify_run.py passes for this nonce, with the same report
  -- data, has the same canonical form of report, bundle digest and provenance together, or two
  -- different texts have one SHA-256 digest. It takes that every digest is 32 bytes.
  pub run-IsCounted :
      (g : ReplayGuard) (now later : ℤ) (raw : Bytes) (signature : Option String)
      (kept : ReplayGuard) (a b : Response)
      → is_hex_text 16 64 job_id ≡ true
      → lookup job_id files ≡ none
      → run room g now later raw signature ≡ (kept, answered a)
      → a.nonce ≡ job_id
      → IsDigesting w.hashing
      → verify_run w.hashing b job_id ≡ some true
      → b.report_data_sha256 ≡ a.report_data_sha256
      → IsCounted w (written opens (all_outcomes job_id posts)) a.provenance
        × ((payload_of w.hashing b ≡ payload_of w.hashing a) ⊎ Collision w.hashing)
  unfolding with_outcomes
  run-IsCounted g now later raw signature kept a b valid fresh h named digesting passes same =
      let (configured, (body, rq, s, parsed, t, f, reserved, done)) =
        run-IsAuthorized room g now later raw signature kept a h in
      let (report, provenance, summarized, q) = execute-Quoted room rq a done in
      let (project_key, equal) = reply_with-eq-answered room rq report provenance a q in
      let (nonce, stated) = answer-states room rq project_key report provenance a equal in
      let job : rq.nonce_hex ≡ job_id = nonce ∙ named in
      let made : (summarize_job_inference opens removes rq.nonce_hex (post_all posts files)).0
          ≡ some (summary_value (tally (written opens (all_outcomes job_id posts)))) =
        rw job (summarize_job_inference-post_all opens removes job_id posts files valid fresh).0 in
      let hexed : unhexlify (codes job_id) ≡ some rq.nonce = rw (← job) f.is_hexadecimal in
      let verified : verify_run w.hashing a job_id ≡ some true =
        rw (← named) (run-verifies room g now later raw signature kept a h) in
      (
        rw (← stated) (
            IsSummarized-IsCounted opens removes w (post_all posts files)
              (written opens (all_outcomes job_id posts)) rq provenance made summarized),
        verified_runs_agree_payload b a rq.nonce digesting hexed passes verified same,
      )
