-- ===== src/Server/Evidence.antt =====
-- What an answer of `/run` is evidence of: room/server.py with verify_run.py.
use kata_tee_runner.Prelude.{
  String, false, Option, none, some, ◌≡◌, refl, inl, inr, Result, ok, raise, arith, string_eq,
  Option-cases, nat_eq, list_eq, ◌⊎◌, ◌==◌, Bool-cases,
}
use kata_tee_runner.Prelude.Dict.{lookup}
use kata_tee_runner.Prelude.Value.{
  Value, Fields, null, bool, int, float, str, arr, obj, end, field, as_str, as_dict,
}
use kata_tee_runner.Sealing.{Credential, resolve_sealed_credential}
use kata_tee_runner.Attest.{Response}
use kata_tee_runner.Server.Interface.{
  Reply, answered, Job, JobResult, World, Request, unbound_message, set_field,
}
use kata_tee_runner.Server.{
  use_credential, with_summary, reply_with, attested_credential_failure, resolve, check_bundle,
  prepare, execute,
}

-- What a provenance has for the summary of the job's inference.
abbrev pub summary_in : Value → Option Value
summary_in provenance = elim (as_dict provenance) [
  | none ↦ none
  | some fields ↦ lookup "inference_summary" fields
]

summary_in-set_field :
    (summary : Value) (fs : Fields)
    → summary_in (obj (set_field "inference_summary" summary fs)) ≡ some summary
unfolding set_field lookup string_eq
summary_in-set_field summary end = refl
summary_in-set_field summary (field k v fs) = elim (Bool-cases ("inference_summary" == k)) [
  | inl this ↦ ground arith
  | inr other ↦ ground (arith, summary_in-set_field summary fs)
]

module _ (w : World) where
  -- The provenance has the summary of the job, or it is the profile's, which is not a dict.
  abbrev pub IsSummarized : Request → Value → Type 0
  IsSummarized rq provenance =
      ((summary : Value) × (w.summary rq.nonce_hex ≡ some summary)
        × (summary_in provenance ≡ some summary))
      ⊎ ((job : Job) × (result : JobResult) × (w.run_profile job ≡ some result)
          × (result.provenance ≡ provenance)
          × (as_dict provenance ≡ none))

  -- The answer comes from `reply_with`.
  abbrev pub Quoted : Request → Response → Type 0
  Quoted rq a =
      (report : Value) × (provenance : Value) × IsSummarized rq provenance
      × (reply_with w rq report provenance ≡ answered a)

  failure-Quoted :
      (rq : Request) (reason detail : String) (a : Response)
      → attested_credential_failure w rq reason detail ≡ answered a
      → Quoted rq a
  unfolding attested_credential_failure lookup string_eq
  failure-Quoted rq reason detail a h = elim (Option-cases (w.summary rq.nonce_hex)) [
    | inl failed ↦ absurd (ground arith)
    | inr (summary, made) ↦
        let provenance = obj (
          field "profile" (str "credential_failure") (
            field "credential_profile" (str w.spec.credential_profile)
              (field "job_id" (str rq.nonce_hex) (field "inference_summary" summary end)))) in
        (
          obj (
              field "status" (str "credential_failure")
                (field "reason" (str reason) (field "detail" (str detail) end))),
          provenance,
          inl (summary, made, refl),
          ground arith,
        )
  ]

  with_summary-IsSummarized :
      (rq : Request) (job : Job) (result : JobResult) (provenance : Value)
      → w.run_profile job ≡ some result
      → with_summary w rq result.provenance ≡ some provenance
      → IsSummarized rq provenance
  with_summary-IsSummarized rq job result provenance ran h = go result.provenance refl
    where
      plain :
          as_dict result.provenance ≡ none
          → with_summary w rq result.provenance ≡ some result.provenance
          → IsSummarized rq provenance
      plain other same =
          let e : result.provenance ≡ provenance = cc in inr (job, result, ran, e, rw (← e) other)

      go : (v : Value) → result.provenance ≡ v → IsSummarized rq provenance
      go (obj fs) e = elim (Option-cases (w.summary rq.nonce_hex)) [
        | inl failed ↦ absurd (ground arith)
        | inr (summary, made) ↦
            let same : obj (set_field "inference_summary" summary fs) ≡ provenance = ground arith in
            inl (summary, made, rw (← same) (summary_in-set_field summary fs))
      ]
      go null e = plain (rw e refl) (rw e refl)
      go (bool b) e = plain (rw e refl) (rw e refl)
      go (int z) e = plain (rw e refl) (rw e refl)
      go (float x) e = plain (rw e refl) (rw e refl)
      go (str s) e = plain (rw e refl) (rw e refl)
      go (arr vs) e = plain (rw e refl) (rw e refl)

  resolve-Quoted : (rq : Request) (a : Response) → resolve w rq ≡ raise (answered a) → Quoted rq a
  unfolding resolve
  resolve-Quoted rq a h = elim (Option-cases (as_str rq.sealed_key)) [
    | inl other ↦ absurd (ground arith)
    | inr (sealed, p) ↦
        go (resolve_sealed_credential w.decrypt w.loads sealed w.spec false) (ground arith)
  ]
    where
      go :
          (r : Result String (Option Credential))
          → use_credential w rq r ≡ raise (answered a)
          → Quoted rq a
      go (raise detail) h = failure-Quoted rq "unreadable" detail a (ground arith)
      go (ok none) h =
          failure-Quoted rq "absent"
            "this room requires a sealed miner credential for every scored run" a (ground arith)
      go (ok (some k)) h = absurd (ground arith)

  check_bundle-Quoted :
      (rq : Request) (c : Option Credential) (a : Response)
      → check_bundle w rq c ≡ raise (answered a)
      → Quoted rq a
  unfolding check_bundle
  check_bundle-Quoted rq c a h =
      failure-Quoted rq "not_bound_to_bundle" unbound_message a (ground arith)

  pub execute-Quoted :
      (rq : Request) (a : Response) → execute w rq (prepare w rq) ≡ answered a → Quoted rq a
  unfolding execute prepare
  execute-Quoted rq a h = go (resolve w rq) refl
    where
      finish : (job : Job) → execute w rq (ok job) ≡ answered a → Quoted rq a
      finish job e = elim (Option-cases (w.run_profile job)) [
        | inl p ↦ absurd (ground arith)
        | inr (result, p) ↦ elim (Option-cases (with_summary w rq result.provenance)) [
          | inl failed ↦ absurd (ground arith)
          | inr (provenance, made) ↦ (
            result.report,
            provenance,
            with_summary-IsSummarized rq job result provenance p made,
            ground arith,
          )
        ]
      ]

      bundle :
          (c : Option Credential) (b : Result Reply (Option String))
          → resolve w rq ≡ ok c
          → check_bundle w rq c ≡ b
          → Quoted rq a
      bundle c (raise r) p q = check_bundle-Quoted rq c a (ground arith)
      bundle c (ok root) p q =
          finish
            (record {
              project_key = rq.project_key;
              credential = c;
              bundle_root = root;
              job_id = rq.nonce_hex;
              bundle_sha256 = rq.bundle_sha256;
            })
            (ground arith)

      go : (r : Result Reply (Option Credential)) → resolve w rq ≡ r → Quoted rq a
      go (raise r) p = resolve-Quoted rq a (ground arith)
      go (ok c) p = bundle c (check_bundle w rq c) p refl
