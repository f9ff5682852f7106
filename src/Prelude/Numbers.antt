-- ===== src/Prelude/Numbers.antt =====
-- `int(s)` for a text with ASCII digits: white space around it, a sign, and digits which single
-- underscores may part; and `int(v)` of the other JSON values.
use Prim.Native.Nat.{ℕ, zero, suc, ◌+◌, ◌-◌, ◌*◌, ◌/◌, ◌^◌, max}
use Prim.Native.String.{String}
use mathlib.Core.Bool.{Bool, true, false, ◌&&◌, ◌||◌}
use mathlib.Core.Option.{Option, none, some}
use mathlib.Core.List.{[], ◌∷◌}
use kata_tee_runner.Prelude.Tests.{if◌then◌else◌}
use kata_tee_runner.Prelude.Equality.{◌==◌, nat_eq, string_eq}
use kata_tee_runner.Prelude.Int.{ℤ, pos, negsuc, pos_part}
use kata_tee_runner.Prelude.Results.{Result, ok, raise}
use kata_tee_runner.Prelude.Value.{Value, bool, int, float, str, finite, infinite}
use kata_tee_runner.Prelude.Text.{Codes, codes, is_digit, strip}

-- `after` tells that a digit has just been read.
unfoldable pub digits_from : ℕ → Bool → Codes → Option ℕ
digits_from acc after [] = if after then some acc else none
digits_from acc after (c ∷ cs) =
    let rest = digits_from (if is_digit c then acc * 10 + (c - 48) else acc) (is_digit c) cs in
    if is_digit c || (c == b'_' && after) then rest else none

abbrev pub negate : ℕ → ℤ
negate zero = pos 0
negate (suc n) = negsuc n

unfoldable pub signed : Codes → Option ℤ
unfolding digits_from
signed [] = none
signed (c ∷ cs) =
    if c == b'-'
    then elim (digits_from 0 false cs) [ none ↦ none | some n ↦ some (negate n) ]
    else if c == b'+'
    then elim (digits_from 0 false cs) [ none ↦ none | some n ↦ some (pos n) ]
    else elim (digits_from 0 false (c ∷ cs)) [ none ↦ none | some n ↦ some (pos n) ]

unfoldable pub int_of : String → Option ℤ
unfolding signed strip
int_of s = signed (codes (strip s))

-- What `int(v)` raises: a `TypeError` or `ValueError`, or the `OverflowError` of an infinite float.
pub data IntError : Type 0 where
  malformed overflow : IntError

unfoldable pub int_value : Value → Result IntError ℤ
int_value (int z) = ok z
int_value (bool b) = ok (pos (if b then 1 else 0))
int_value (float (finite false m k)) = ok (pos (m / 2 ^ k))
int_value (float (finite true m k)) = ok (negate (m / 2 ^ k))
int_value (float (infinite _)) = raise overflow
int_value (str s) = elim (int_of s) [ none ↦ raise malformed | some z ↦ ok z ]
int_value _ = raise malformed

-- `max(floor, int(raw) if raw else default)`, with the default for a malformed text; `raw` is the
-- stripped value of an environment variable, "" where it is not set.
unfoldable pub env_int : ℕ → ℕ → Option String → ℕ
env_int floor default none = max floor default
env_int floor default (some raw) =
    if strip raw == ""
    then max floor default
    else elim (int_of (strip raw)) [ none ↦ max floor default | some z ↦ max floor (pos_part z) ]
