-- ===== src/Gateway/Status/Counts.antt =====
-- The buckets of a job's summary.
use kata_tee_runner.Prelude.{
  ℕ, suc, ◌+◌, ◌≡◌, refl, ap, ◌∙◌, arith, String, Bool, true, false, not, ◌&&◌, none, some, List,
  [], ◌∷◌, contains, length, leb, ltb, if◌then◌else◌, ◌==◌, nat_eq, string_eq,
}
use kata_tee_runner.Prelude.Dict.{lookup}
use kata_tee_runner.Prelude.Int.{pos, int_eq}
use kata_tee_runner.Prelude.Text.{is_hex_text}
use kata_tee_runner.Gateway.Status.{
  Files, text_of, lines, read_outcomes, Summary, sum, count, count_all, summary_of, summary_value,
  summarize_job_inference, read_text, removed,
}
use kata_tee_runner.Gateway.Status.Lines.{text_with, posted, read_outcomes-text_with}

-- How many of the outcomes have a status that passes the test.
abbrev pub number_with : (ℕ → Bool) → List (ℕ × ℕ) → ℕ
number_with p [] = 0
number_with p ((status, tokens) ∷ os) =
    let rest = number_with p os in if p status then suc rest else rest

abbrev pub total : List (ℕ × ℕ) → ℕ
total [] = 0
total ((status, tokens) ∷ os) = tokens + total os

abbrev pub is_accepted : ℕ → Bool
is_accepted status = leb 200 status && ltb status 300

abbrev pub is_other : ℕ → Bool
is_other status = not (is_accepted status) && not (contains (0 ∷ 400 ∷ 401 ∷ 402 ∷ 403 ∷ []) status)

-- The summary, each number by itself.
abbrev pub tally : List (ℕ × ℕ) → Summary
tally os = record {
  requests = length os;
  tokens = total os;
  accepted = number_with is_accepted os;
  payment_required = number_with (λ s. s == 402) os;
  unauthorized = number_with (contains (401 ∷ 403 ∷ [])) os;
  bad_request = number_with (λ s. s == 400) os;
  unreachable = number_with (λ s. s == 0) os;
  other = number_with is_other os;
}

abbrev bit : Bool → ℕ
bit b = if b then 1 else 0

-- A counter that goes up by one on each status that passes the test.
Counts : (Summary → ℕ) → (ℕ → Bool) → Type 0
Counts f p = (s : Summary) (status : ℕ) → f (count s (pos status)) ≡ f s + bit (p status)

count_all-number_with :
    (f : Summary → ℕ) (p : ℕ → Bool)
    → Counts f p
    → (s : Summary) (os : List (ℕ × ℕ)) → f (count_all s (posted os)) ≡ f s + number_with p os
unfolding Counts count_all
count_all-number_with f p step s [] = omega arith
count_all-number_with f p step s ((status, tokens) ∷ os) =
    let now = step s status in
    let later = count_all-number_with f p step (count s (pos status)) os in
    ground (arith, now, later)

requests-Counts : Counts (λ s. s.requests) (λ status. false)
unfolding Counts count
requests-Counts s status = ground arith

accepted-Counts : Counts (λ s. s.accepted) is_accepted
unfolding Counts count
accepted-Counts s status = ground arith

payment_required-Counts : Counts (λ s. s.payment_required) (λ s. s == 402)
unfolding Counts count
payment_required-Counts s status = ground arith

other-Counts : Counts (λ s. s.other) is_other
unfolding Counts count
other-Counts s status = ground arith

tokens-Counts : Counts (λ s. s.tokens) (λ status. false)
unfolding Counts count
tokens-Counts s status = ground arith

unauthorized-Counts : Counts (λ s. s.unauthorized) (contains (401 ∷ 403 ∷ []))
unfolding Counts count
unauthorized-Counts s status = ground arith

bad_request-Counts : Counts (λ s. s.bad_request) (λ s. s == 400)
unfolding Counts count
bad_request-Counts s status = ground arith

unreachable-Counts : Counts (λ s. s.unreachable) (λ s. s == 0)
unfolding Counts count
unreachable-Counts s status = ground arith

number_with-false : (os : List (ℕ × ℕ)) → number_with (λ status. false) os ≡ 0
number_with-false [] = refl
number_with-false (o ∷ os) = number_with-false os

length-posted : (os : List (ℕ × ℕ)) → length (posted os) ≡ length os
length-posted [] = refl
length-posted (o ∷ os) = ap suc (length-posted os)

sum-posted : (os : List (ℕ × ℕ)) → sum (posted os) ≡ total os
unfolding sum
sum-posted [] = refl
sum-posted ((status, tokens) ∷ os) = ap (λ n. tokens + n) (sum-posted os)

abbrev start : List (ℕ × ℕ) → Summary
start os = record {
  requests = length (posted os);
  tokens = sum (posted os);
  accepted = 0;
  payment_required = 0;
  unauthorized = 0;
  bad_request = 0;
  unreachable = 0;
  other = 0;
}

from_zero : (n m k : ℕ) → n ≡ m + k → m ≡ 0 → n ≡ k
from_zero n m k p q = omega arith

summary_of-posted : (os : List (ℕ × ℕ)) → summary_of (posted os) ≡ tally os
unfolding summary_of
summary_of-posted os =
    let requests =
      count_all-number_with (λ s. s.requests) (λ status. false) requests-Counts (start os) os in
    let tokens =
      count_all-number_with (λ s. s.tokens) (λ status. false) tokens-Counts (start os) os in
    let no_more = number_with-false os in
    let all_requests : (summary_of (posted os)).requests ≡ length os =
      omega (arith, length-posted os) in
    let all_tokens : (summary_of (posted os)).tokens ≡ total os = omega (arith, sum-posted os) in
    let counted =
      λ (f : Summary → ℕ) (p : ℕ → Bool) (step : Counts f p) (zero_first : f (start os) ≡ 0).
        from_zero (f (summary_of (posted os))) (f (start os)) (number_with p os)
          (count_all-number_with f p step (start os) os) zero_first in
    λ i. record {
      requests = all_requests i;
      tokens = all_tokens i;
      accepted = counted (λ s. s.accepted) is_accepted accepted-Counts refl i;
      payment_required =
          counted (λ s. s.payment_required) (λ s. s == 402) payment_required-Counts refl i;
      unauthorized =
          counted (λ s. s.unauthorized) (contains (401 ∷ 403 ∷ [])) unauthorized-Counts refl i;
      bad_request = counted (λ s. s.bad_request) (λ s. s == 400) bad_request-Counts refl i;
      unreachable = counted (λ s. s.unreachable) (λ s. s == 0) unreachable-Counts refl i;
      other = counted (λ s. s.other) is_other other-Counts refl i;
    }

abbrev pub buckets : Summary → ℕ
buckets s =
    s.accepted
    + (s.payment_required + (s.unauthorized + (s.bad_request + (s.unreachable + s.other))))

pub buckets-tally : (os : List (ℕ × ℕ)) → buckets (tally os) ≡ length os
buckets-tally [] = refl
buckets-tally ((status, tokens) ∷ os) = ground (arith, buckets-tally os)

pub summarize_job_inference-text_with :
    (opens removes : Bool) (job_id : String) (os : List (ℕ × ℕ)) (files : Files)
    → is_hex_text 16 64 job_id ≡ true
    → read_text opens job_id files ≡ text_with os
    → summarize_job_inference opens removes job_id files
      ≡ (some (summary_value (tally os)), removed removes job_id files)
unfolding summarize_job_inference
summarize_job_inference-text_with opens removes job_id os files valid text =
    let read : read_outcomes (lines (read_text opens job_id files)) ≡ some (posted os) =
      ap (λ x. read_outcomes (lines x)) text ∙ read_outcomes-text_with os in
    rw (valid, read, summary_of-posted os) refl

pub text_of-absent :
    (job_id : String) (files : Files) → lookup job_id files ≡ none → text_of job_id files ≡ ""
text_of-absent job_id files fresh = rw (text_of, fresh) refl
