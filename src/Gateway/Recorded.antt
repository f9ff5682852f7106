-- ===== src/Gateway/Recorded.antt =====
-- room/inference_gateway.py: what the POSTs to the gateway leave in the record of a job. They stand in the
-- order in which they record, and each has its own surroundings.
pub mod Counted
use kata_tee_runner.Prelude.{
  ℕ, suc, ◌≡◌, ◌≢◌, inl, inr, refl, ap, sym, ◌∙◌, arith, String, ◌<>◌, Bool, true, false, none,
  some, List, [], ◌∷◌, ◌++◌, if◌then◌else◌, ◌==◌, string_eq, ok, raise, Bool-cases, eq_self,
}
use Prim.Native.String.append
use text.Mathlib.TextLemmas.{append_assoc, append-nil}
use kata_tee_runner.Prelude.Dict.{lookup-insert_self, lookup-insert_ne}
use kata_tee_runner.Gateway.Route.{provider_from_route}
use kata_tee_runner.Gateway.Forward.{
  Event, requested, waited, recorded, relayed, answered, crashed, Request, World, do_post,
}
use kata_tee_runner.Gateway.Status.{Files, text_of, line_of, record_job_outcome}
use kata_tee_runner.Gateway.Status.Lines.{text_with}

-- A request, its surroundings, and whether a line that its handling records is written.
abbrev pub Post : Type 0
Post = World × Request × Bool

-- What the effects of a handler write.
unfoldable pub write_events : Bool → List Event → Files → Files
write_events writes [] files = files
write_events writes (recorded job_id status tokens ∷ es) files =
    write_events writes es (record_job_outcome writes job_id status tokens files)
write_events writes (_ ∷ es) files = write_events writes es files

unfoldable pub post_all : List Post → Files → Files
post_all [] files = files
post_all ((w, r, writes) ∷ posts) files = post_all posts (write_events writes (do_post w r) files)

-- The outcomes that are recorded under an id.
abbrev pub outcomes_of : String → List Event → List (ℕ × ℕ)
outcomes_of job_id [] = []
outcomes_of job_id (recorded other status tokens ∷ es) =
    let rest = outcomes_of job_id es in if other == job_id then (status, tokens) ∷ rest else rest
outcomes_of job_id (_ ∷ es) = outcomes_of job_id es

abbrev pub written : Bool → List (ℕ × ℕ) → List (ℕ × ℕ)
written true os = os
written false os = []

-- The outcomes that the POSTs record under an id, of those whose lines are written.
abbrev pub all_outcomes : String → List Post → List (ℕ × ℕ)
all_outcomes job_id [] = []
all_outcomes job_id ((w, r, writes) ∷ posts) =
    written writes (outcomes_of job_id (do_post w r)) ++ all_outcomes job_id posts

-- The path is a route that the room has signed for the job.
abbrev pub is_routed : String → Post → Bool
is_routed job_id (w, r, _) = elim r.path [
  | none ↦ false
  | some path ↦ elim (provider_from_route w.hmac w.auth_secret path) [
    | raise _ ↦ false
    | ok (other, _) ↦ other == job_id
  ]
]

abbrev pub routed : String → List Post → ℕ
routed job_id [] = 0
routed job_id (post ∷ posts) =
    let rest = routed job_id posts in if is_routed job_id post then suc rest else rest

text_with-append : (xs ys : List (ℕ × ℕ)) → text_with (xs ++ ys) ≡ text_with xs <> text_with ys
text_with-append [] ys = sym (append.nil (text_with ys))
text_with-append (x ∷ xs) ys =
    ap (λ s. line_of x <> s) (text_with-append xs ys)
    ∙ sym (append_assoc (line_of x) (text_with xs) (text_with ys))

text_of-record_self :
    (job_id : String) (status tokens : ℕ) (files : Files)
    → text_of job_id (record_job_outcome true job_id status tokens files)
      ≡ text_of job_id files <> line_of (status, tokens)
unfolding record_job_outcome
text_of-record_self job_id status tokens files =
    rw (text_of, lookup-insert_self job_id (text_of job_id files <> line_of (status, tokens)) files)
      refl

text_of-record_ne :
    (job_id other : String) (status tokens : ℕ) (files : Files)
    → job_id ≢ other
    → text_of job_id (record_job_outcome true other status tokens files) ≡ text_of job_id files
unfolding record_job_outcome
text_of-record_ne job_id other status tokens files differ =
    rw
      (
        text_of,
        lookup-insert_ne job_id other (text_of other files <> line_of (status, tokens)) files
            differ,
      )
      refl

-- The text after the line of another job, or of this one.
text_of-record :
    (job_id other : String) (status tokens : ℕ) (files : Files) (os : List (ℕ × ℕ))
    → text_of job_id (record_job_outcome true other status tokens files) <> text_with os
      ≡ text_of job_id files <> text_with (if other == job_id then (status, tokens) ∷ os else os)
text_of-record job_id other status tokens files os = elim (string_eq.dec other job_id) [
  | yes this ↦
      rw (this, eq_self job_id)
        (ap (λ s. s <> text_with os) (text_of-record_self job_id status tokens files)
          ∙ append_assoc (text_of job_id files) (line_of (status, tokens)) (text_with os))
  | no differ ↦ rw (eq-ne differ) (
      ap (λ s. s <> text_with os)
        (text_of-record_ne job_id other status tokens files (λ same. differ (sym same))))
]
  where
    eq-ne : {x y : String} → x ≢ y → (x == y) ≡ false
    eq-ne {x} {y} differ = elim (Bool-cases (x == y)) [
      | inl same ↦ absurd (differ (ground arith))
      | inr other ↦ other
    ]

-- Where nothing is written, nothing changes.
write_events-unwritten : (es : List Event) (files : Files) → write_events false es files ≡ files
unfolding write_events record_job_outcome
write_events-unwritten [] files = refl
write_events-unwritten (recorded other status tokens ∷ es) files = write_events-unwritten es files
write_events-unwritten (requested request ∷ es) files = write_events-unwritten es files
write_events-unwritten (waited attempt ∷ es) files = write_events-unwritten es files
write_events-unwritten (relayed status items body ∷ es) files = write_events-unwritten es files
write_events-unwritten (answered status payload ∷ es) files = write_events-unwritten es files
write_events-unwritten (crashed ∷ es) files = write_events-unwritten es files

text_of-written :
    (job_id : String) (es : List Event) (files : Files)
    → text_of job_id (write_events true es files)
      ≡ text_of job_id files <> text_with (outcomes_of job_id es)
unfolding write_events
text_of-written job_id [] files = sym (append-nil (text_of job_id files))
text_of-written job_id (recorded other status tokens ∷ es) files =
    text_of-written job_id es (record_job_outcome true other status tokens files)
    ∙ text_of-record job_id other status tokens files (outcomes_of job_id es)
text_of-written job_id (requested request ∷ es) files = text_of-written job_id es files
text_of-written job_id (waited attempt ∷ es) files = text_of-written job_id es files
text_of-written job_id (relayed status items body ∷ es) files = text_of-written job_id es files
text_of-written job_id (answered status payload ∷ es) files = text_of-written job_id es files
text_of-written job_id (crashed ∷ es) files = text_of-written job_id es files

text_of-write_events :
    (writes : Bool) (job_id : String) (es : List Event) (files : Files)
    → text_of job_id (write_events writes es files)
      ≡ text_of job_id files <> text_with (written writes (outcomes_of job_id es))
text_of-write_events true job_id es files = text_of-written job_id es files
text_of-write_events false job_id es files =
    ap (text_of job_id) (write_events-unwritten es files) ∙ sym (append-nil (text_of job_id files))

pub text_of-post_all :
    (job_id : String) (posts : List Post) (files : Files)
    → text_of job_id (post_all posts files)
      ≡ text_of job_id files <> text_with (all_outcomes job_id posts)
unfolding post_all
text_of-post_all job_id [] files = sym (append-nil (text_of job_id files))
text_of-post_all job_id ((w, r, writes) ∷ posts) files =
    let first = written writes (outcomes_of job_id (do_post w r)) in
    text_of-post_all job_id posts (write_events writes (do_post w r) files)
    ∙ (ap (λ s. s <> text_with (all_outcomes job_id posts))
          (text_of-write_events writes job_id (do_post w r) files)
        ∙ (append_assoc (text_of job_id files) (text_with first)
              (text_with (all_outcomes job_id posts))
            ∙ ap (λ s. text_of job_id files <> s)
                (sym (text_with-append first (all_outcomes job_id posts)))))
