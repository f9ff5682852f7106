-- ===== src/Gateway/Status.antt =====
-- room/inference_gateway.py: the record of a job's inference outcomes. The directory of the records
-- is a dict of texts; a line is written whole or not at all, and a file is read whole or not
-- at all. The room alone writes there, in ASCII.
pub mod Lines
pub mod Counts
use kata_tee_runner.Prelude.{
  ℕ, zero, suc, ◌+◌, String, ◌<>◌, Bool, true, false, not, ◌&&◌, ◌||◌, Option, none, some, List, [],
  ◌∷◌, length, all, leb, if◌then◌else◌, ◌==◌, nat_eq, string_eq,
}
use Prim.Native.Char.{Char, code}
use Prim.Native.String
use kata_tee_runner.Prelude.Dict.{Dict, lookup, insert, erase}
use kata_tee_runner.Prelude.Int.{ℤ, pos, negsuc, int_eq, pos_part, leb_ℤ, ltb_ℤ}
use kata_tee_runner.Prelude.Numbers.{int_of}
use kata_tee_runner.Prelude.Text.{Codes, codes, is_space, is_digit, is_hex_text, decimal}
use kata_tee_runner.Prelude.Value.{Value, Fields, int, obj, end, field}

abbrev pub Files : Type 0
Files = Dict String String

-- The text of a job's file, as `open(path, "a")` finds it.
abbrev pub text_of : String → Files → String
text_of job_id files = elim (lookup job_id files) [ none ↦ "" | some text ↦ text ]

unfoldable pub line_of : ℕ × ℕ → String
line_of (status, tokens) = decimal status <> (" " <> (decimal tokens <> "\n"))

-- `_record_job_outcome`; `writes` tells whether the line is written, which is lost on an `OSError`
unfoldable pub record_job_outcome : Bool → String → ℕ → ℕ → Files → Files
record_job_outcome false job_id status tokens files = files
record_job_outcome true job_id status tokens files =
    insert job_id (text_of job_id files <> line_of (status, tokens)) files

abbrev pub push : Char → List String → List String
push c [] = (String.◌∷◌ c "") ∷ []
push c (s ∷ ss) = (String.◌∷◌ c s) ∷ ss

-- `for line in handle`, without the line ends. A `\r\n` makes one empty line more, which has no field.
unfoldable pub lines : String → List String
lines String.[] = []
lines (String.◌∷◌ c s) =
    let rest = lines s in if code c == 10 || code c == 13 then "" ∷ rest else push c rest

abbrev pub begins_word : String → Bool
begins_word String.[] = false
begins_word (String.◌∷◌ c s) = not (is_space (code c))

-- `line.split()`
unfoldable pub words : String → List String
words String.[] = []
words (String.◌∷◌ c s) =
    let rest = words s in
    if is_space (code c)
    then rest
    else if begins_word s
    then push c rest
    else (String.◌∷◌ c "") ∷ rest

abbrev pub is_digits : Codes → Bool
is_digits cs = leb 1 (length cs) && all is_digit cs

unfoldable pub without_dashes : Codes → Codes
without_dashes [] = []
without_dashes (c ∷ cs) = let rest = without_dashes cs in if c == b'-' then rest else c ∷ cs

-- What a line tells; `fails` is the `ValueError` of `int`.
pub data Told : Type 0 where
  skipped fails : Told
  tells : ℤ → ℕ → Told

unfoldable pub tokens_of : List String → ℕ
tokens_of [] = 0
tokens_of (second ∷ fields) =
    if is_digits (codes second) then elim (int_of second) [ none ↦ 0 | some z ↦ pos_part z ] else 0

unfoldable pub told_by : List String → Told
unfolding without_dashes tokens_of
told_by [] = skipped
told_by (first ∷ fields) =
    if not (is_digits (without_dashes (codes first)))
    then skipped
    else elim (int_of first) [ none ↦ fails | some status ↦ tells status (tokens_of fields) ]

-- The loop over the lines; `none` where it raises.
unfoldable pub read_outcomes : List String → Option (List (ℤ × ℕ))
unfolding words told_by
read_outcomes [] = some []
read_outcomes (line ∷ rest) = elim (told_by (words line)) [
  | skipped ↦ read_outcomes rest
  | fails ↦ none
  | tells status tokens ↦ elim (read_outcomes rest) [
    | none ↦ none
    | some os ↦ some ((status, tokens) ∷ os)
  ]
]

pub record Summary : Type 0 where
  pub requests : ℕ
  pub tokens : ℕ
  pub accepted : ℕ
  pub payment_required : ℕ
  pub unauthorized : ℕ
  pub bad_request : ℕ
  pub unreachable : ℕ
  pub other : ℕ

unfoldable pub sum : List (ℤ × ℕ) → ℕ
sum [] = 0
sum ((status, tokens) ∷ os) = tokens + sum os

-- One pass of the loop that counts.
unfoldable pub count : Summary → ℤ → Summary
count s status =
    if leb_ℤ (pos 200) status && ltb_ℤ status (pos 300)
    then record s { accepted = suc s.accepted }
    else if status == pos 402
    then record s { payment_required = suc s.payment_required }
    else if status == pos 401 || status == pos 403
    then record s { unauthorized = suc s.unauthorized }
    else if status == pos 400
    then record s { bad_request = suc s.bad_request }
    else if status == pos 0
    then record s { unreachable = suc s.unreachable }
    else record s { other = suc s.other }

unfoldable pub count_all : Summary → List (ℤ × ℕ) → Summary
unfolding count
count_all s [] = s
count_all s ((status, tokens) ∷ os) = count_all (count s status) os

unfoldable pub summary_of : List (ℤ × ℕ) → Summary
unfolding count_all sum
summary_of os =
    count_all
      (record {
        requests = length os;
        tokens = sum os;
        accepted = 0;
        payment_required = 0;
        unauthorized = 0;
        bad_request = 0;
        unreachable = 0;
        other = 0;
      })
      os

abbrev number : String → ℕ → Fields → Fields
number k n = field k (int (pos n))

-- The dict that is returned.
unfoldable pub summary_value : Summary → Value
summary_value s = obj (
    number "requests" s.requests (
      number "tokens" s.tokens (
        number "ok" s.accepted (
          number "payment_required" s.payment_required (
            number "unauthorized" s.unauthorized (
              number "bad_request" s.bad_request
                (number "unreachable" s.unreachable (number "other" s.other end))))))))

-- The text that is read, and the files after `os.remove`, each with whether the call raises an `OSError`
abbrev pub read_text : Bool → String → Files → String
read_text true job_id files = text_of job_id files
read_text false job_id files = ""

abbrev pub removed : Bool → String → Files → Files
removed true job_id files = erase job_id files
removed false job_id files = files

-- `summarize_job_inference(job_id)`, where the file opens and where it is removed: what it returns, `none`
-- where it raises, and what it leaves.
unfoldable pub summarize_job_inference : Bool → Bool → String → Files → Option Value × Files
unfolding lines read_outcomes summary_of summary_value
summarize_job_inference opens removes job_id files =
    if not (is_hex_text 16 64 job_id) then (some (obj (number "requests" 0 end)), files) else (
      elim (read_outcomes (lines (read_text opens job_id files))) [
        | none ↦ none
        | some os ↦ some (summary_value (summary_of os))
      ],
      removed removes job_id files,
    )
