-- ===== src/Gateway/Recorded/Counted.antt =====
-- room/inference_gateway.py: the summary of a job after the POSTs to the gateway, and how much these can
-- add to it.
use kata_tee_runner.Prelude.{
  ℕ, zero, suc, ◌+◌, ◌*◌, ◌≤◌, ◌≡◌, ◌⊎◌, Bool, if◌then◌else◌, inl, inr, refl, ap, ◌∙◌, arith,
  String, ◌<>◌, true, false, none, some, List, [], ◌∷◌, ◌++◌, length, ◌==◌, string_eq, ok,
  Bool-cases, Option, length-append,
}
use Prim.Native.String.append
use kata_tee_runner.Prelude.Dict.{Dict, lookup, lookup-erase_self, lookup-erase_ne}
use kata_tee_runner.Prelude.Text.{is_hex_text}
use kata_tee_runner.Gateway.Headers.{ProviderRequest}
use kata_tee_runner.Gateway.Usage.{max_tokens, extract_reported_tokens}
use kata_tee_runner.Gateway.Route.{provider_from_route}
use kata_tee_runner.Gateway.Forward.{
  Outcome, responded, http_error, unreachable, interrupted, Event, requested, waited, recorded,
  relayed, answered, crashed, Request, World, relay_response, do_post,
}
use kata_tee_runner.Gateway.Forward.Attempts.{rounds, ending, counted}
use kata_tee_runner.Gateway.Forward.Replies.{IsForwarded, do_post-IsForwarded}
use kata_tee_runner.Gateway.Forward.Settled.{records, recorded_tokens, do_post-IsOnce}
use kata_tee_runner.Gateway.Status.{
  Files, summary_value, summarize_job_inference, read_text, removed,
}
use kata_tee_runner.Gateway.Status.Lines.{text_with}
use kata_tee_runner.Gateway.Status.Counts.{
  total, tally, buckets, buckets-tally, text_of-absent, summarize_job_inference-text_with,
}
use kata_tee_runner.Gateway.Recorded.{
  Post, post_all, outcomes_of, all_outcomes, written, is_routed, routed, text_of-post_all,
}

outcomes_of-le :
    (job_id : String) (es : List Event)
    → (length (outcomes_of job_id es) ≤ records es)
      × (total (outcomes_of job_id es) ≤ recorded_tokens es)
outcomes_of-le job_id [] = (omega arith, omega arith)
outcomes_of-le job_id (recorded other status tokens ∷ es) =
    let (few, small) = outcomes_of-le job_id es in
    elim (Bool-cases (other == job_id)) [
      | inl this ↦ rw (this) (omega (arith, few), omega (arith, small))
      | inr differ ↦ rw (differ) (omega (arith, few), omega (arith, small))
    ]
outcomes_of-le job_id (requested request ∷ es) = outcomes_of-le job_id es
outcomes_of-le job_id (waited attempt ∷ es) = outcomes_of-le job_id es
outcomes_of-le job_id (relayed status items body ∷ es) = outcomes_of-le job_id es
outcomes_of-le job_id (answered status payload ∷ es) = outcomes_of-le job_id es
outcomes_of-le job_id (crashed ∷ es) = outcomes_of-le job_id es

total-le : (os : List (ℕ × ℕ)) (m : ℕ) → length os ≤ 1 → total os ≤ m → total os ≤ m * length os
total-le [] m one small = omega arith
total-le (o ∷ []) m one small = omega (arith, small)
total-le (o ∷ o' ∷ os) m one small = absurd (omega arith)

module _ (w : World) (job_id other : String) (differ : (other == job_id) ≡ false) where
  counted-other :
      (request : ProviderRequest) (attempts status : ℕ) (items : Dict String String) (body : List ℕ)
      (told : Option ℕ)
      → outcomes_of job_id (counted w other request attempts status items body told) ≡ []
  unfolding relay_response
  counted-other request attempts status items body none = refl
  counted-other request attempts status items body (some n) = rw (differ) refl

  ending-other :
      (request : ProviderRequest) (attempts first retries : ℕ) (o : Outcome)
      → outcomes_of job_id (rounds request first retries ++ ending w other request attempts o) ≡ []
  unfolding relay_response
  ending-other request attempts first zero (responded status items body) =
      counted-other request attempts status items body
        (extract_reported_tokens (w.loads_bytes body))
  ending-other request attempts first zero (http_error status items none) = rw (differ) refl
  ending-other request attempts first zero (http_error status items (some body)) = rw (differ) refl
  ending-other request attempts first zero (unreachable reason) = rw (differ) refl
  ending-other request attempts first zero interrupted = refl
  ending-other request attempts first (suc retries) o =
      ending-other request attempts (suc first) retries o

  forwarded-other :
      (r : Request) (provider : String) (es : List Event)
      → IsForwarded w r other provider es
      → outcomes_of job_id es ≡ []
  forwarded-other r provider es (inl (status, payload, p)) = rw (p, differ) refl
  forwarded-other r provider es (inr (request, _, attempts, few, retries, within, _, p)) =
      rw (p) (ending-other request attempts 1 retries (w.upstream request (suc retries)))

-- What one POST adds for a job.
abbrev pub IsRecordedOnce : String → Post → List (ℕ × ℕ) → Type 0
IsRecordedOnce job_id post os =
    (length os ≤ routed job_id (post ∷ [])) × (total os ≤ max_tokens * length os)

at_most_routed :
    (job_id : String) (post : Post) (n : ℕ)
    → is_routed job_id post ≡ true
    → n ≤ 1
    → n ≤ routed job_id (post ∷ [])
at_most_routed job_id post n is h = rw (is) h

routed-cons :
    (job_id : String) (post : Post) (posts : List Post)
    → routed job_id (post ∷ posts) ≡ routed job_id (post ∷ []) + routed job_id posts
routed-cons job_id post posts = elim (Bool-cases (is_routed job_id post)) [
  | inl this ↦ rw (this) (omega arith)
  | inr other ↦ rw (other) (omega arith)
]

do_post-IsRecordedOnce :
    (job_id : String) (w : World) (r : Request) (writes : Bool)
    → IsRecordedOnce job_id (w, r, writes) (outcomes_of job_id (do_post w r))
do_post-IsRecordedOnce job_id w r writes = elim (do_post-IsForwarded w r) [
  | inl crash ↦ rw (crash) (omega arith, omega arith)
  | inr (inl (status, payload, _, p)) ↦ rw (p) (omega arith, omega arith)
  | inr (inr (path, other, provider, at, found, served)) ↦ elim (Bool-cases (other == job_id)) [
    | inr differ ↦
        rw (forwarded-other w job_id other differ r provider (do_post w r) served)
          (omega arith, omega arith)
    | inl this ↦
        let (_, _, once, _, small) = do_post-IsOnce w r in
        let (few, sum) = outcomes_of-le job_id (do_post w r) in
        (
          at_most_routed job_id (w, r, writes) _ (is_routed-path other provider path at found this)
              (omega (arith, few, once)),
          total-le _ max_tokens (omega (arith, few, once)) (omega (arith, sum, small)),
        )
  ]
]
  where
    is_routed-path :
        (other provider path : String)
        → r.path ≡ some path
        → provider_from_route w.hmac w.auth_secret path ≡ ok (other, provider)
        → (other == job_id) ≡ true
        → is_routed job_id (w, r, writes) ≡ true
    is_routed-path other provider path at found this = rw (at, found) this

written-IsRecordedOnce :
    (job_id : String) (post : Post) (writes : Bool) (os : List (ℕ × ℕ))
    → IsRecordedOnce job_id post os
    → IsRecordedOnce job_id post (written writes os)
written-IsRecordedOnce job_id post true os once = once
written-IsRecordedOnce job_id post false os once = (omega arith, omega arith)

total-append : (xs ys : List (ℕ × ℕ)) → total (xs ++ ys) ≡ total xs + total ys
total-append [] ys = omega arith
total-append ((status, tokens) ∷ xs) ys = omega (arith, total-append xs ys)

all_outcomes-le :
    (job_id : String) (posts : List Post)
    → (length (all_outcomes job_id posts) ≤ routed job_id posts)
      × (total (all_outcomes job_id posts) ≤ max_tokens * length (all_outcomes job_id posts))
all_outcomes-le job_id [] = (omega arith, omega arith)
all_outcomes-le job_id ((w, r, writes) ∷ posts) =
    let (few, small) =
      written-IsRecordedOnce job_id (w, r, writes) writes (outcomes_of job_id (do_post w r))
        (do_post-IsRecordedOnce job_id w r writes) in
    let (rest_few, rest_small) = all_outcomes-le job_id posts in
    let first = written writes (outcomes_of job_id (do_post w r)) in
    let sizes = length-append first (all_outcomes job_id posts) in
    (
      omega (arith, few, rest_few, sizes, routed-cons job_id (w, r, writes) posts),
      omega (arith, small, rest_small, sizes, total-append first (all_outcomes job_id posts)),
    )

-- What the summary can take: nothing where the file does not open.
read_outcomes-le :
    (opens : Bool) (job_id : String) (posts : List Post)
    → (length (written opens (all_outcomes job_id posts)) ≤ routed job_id posts)
      × (total (written opens (all_outcomes job_id posts))
          ≤ max_tokens * length (written opens (all_outcomes job_id posts)))
read_outcomes-le true job_id posts = all_outcomes-le job_id posts
read_outcomes-le false job_id posts = (omega arith, omega arith)

read_text-post_all :
    (opens : Bool) (job_id : String) (posts : List Post) (files : Files)
    → lookup job_id files ≡ none
    → read_text opens job_id (post_all posts files)
      ≡ text_with (written opens (all_outcomes job_id posts))
read_text-post_all false job_id posts files fresh = refl
read_text-post_all true job_id posts files fresh =
    let os = all_outcomes job_id posts in
    text_of-post_all job_id posts files
    ∙ (ap (λ s. s <> text_with os) (text_of-absent job_id files fresh) ∙ append.nil (text_with os))

-- The job's file is gone, unless it could not be removed; the others are as they were.
abbrev pub IsRemoved : Bool → String → Files → Files → Type 0
IsRemoved removes job_id before after =
    (lookup job_id after ≡ (if removes then none else lookup job_id before))
    × ((other : String) → (other ≡ job_id) ⊎ (lookup other after ≡ lookup other before))

removed-IsRemoved :
    (removes : Bool) (job_id : String) (files : Files)
    → IsRemoved removes job_id files (removed removes job_id files)
removed-IsRemoved false job_id files = (refl, λ other. inr refl)
removed-IsRemoved true job_id files = (
  lookup-erase_self job_id files,
  λ other. elim (string_eq.dec other job_id) [
    | yes same ↦ inl same
    | no differ ↦ inr (lookup-erase_ne other job_id files differ)
  ],
)

-- After any sequence of POSTs to the gateway, for jobs of any id, the summary of a job with a valid
-- id, of which nothing was recorded before, counts the outcomes that these POSTs recorded under the
-- id in lines that were written, or none where the record does not open: all of them, their tokens,
-- and each bucket by its own test of the status, into just one of which each outcome falls. They
-- are at most as many as the POSTs on a route that is signed for the job, and their tokens are at
-- most 1,000,000,000 for each. The job's file is gone then, or as it was where it cannot be
-- removed, and the other files are as they were.
pub summarize_job_inference-post_all :
    (opens removes : Bool) (job_id : String) (posts : List Post) (files : Files)
    → is_hex_text 16 64 job_id ≡ true
    → lookup job_id files ≡ none
    → ((summarize_job_inference opens removes job_id (post_all posts files)).0
        ≡ some (summary_value (tally (written opens (all_outcomes job_id posts)))))
      × (buckets (tally (written opens (all_outcomes job_id posts)))
          ≡ length (written opens (all_outcomes job_id posts)))
      × (length (written opens (all_outcomes job_id posts)) ≤ routed job_id posts)
      × (total (written opens (all_outcomes job_id posts))
          ≤ max_tokens * length (written opens (all_outcomes job_id posts)))
      × IsRemoved removes job_id
          (post_all posts files)
          (summarize_job_inference opens removes job_id (post_all posts files)).1
summarize_job_inference-post_all opens removes job_id posts files valid fresh =
    let os = written opens (all_outcomes job_id posts) in
    let (few, small) = read_outcomes-le opens job_id posts in
    rw
      (summarize_job_inference-text_with opens removes job_id os (post_all posts files) valid
        (read_text-post_all opens job_id posts files fresh))
      (refl, buckets-tally os, few, small, removed-IsRemoved removes job_id (post_all posts files))
