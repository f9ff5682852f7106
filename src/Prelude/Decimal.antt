-- ===== src/Prelude/Decimal.antt =====
-- `int(str(n))`
use Prim.Native.Nat.{ℕ, zero, suc, ◌+◌, ◌*◌, ◌/◌, ◌%◌, ◌<◌}
use Prim.Native.Char.{code}
use Prim.Native.String.{String, ◌++◌ as ◌<>◌}
use mathlib.Core.Path.{◌≡◌, refl, ap, ◌∙◌}
use mathlib.Core.Logic.{inl, inr}
use mathlib.Core.Bool.{Bool, true, false, not, ◌&&◌}
use mathlib.Core.Option.{some}
use mathlib.Core.List.{[], ◌∷◌, ◌++◌}
use native.Mathlib.Omega.{arith}
use native.Mathlib.Decide.{ℕ_discrete}
use kata_tee_runner.Prelude.Tests.{leb, both, Bool-cases, if◌then◌else◌}
use kata_tee_runner.Prelude.Equality.{◌==◌, nat_eq, string_eq}
use kata_tee_runner.Prelude.Int.{pos}
use kata_tee_runner.Prelude.Lists.{all}
use kata_tee_runner.Prelude.Text.{
  Codes, codes, codes-append, is_digit, is_space, digit, decimal_from, decimal, lstrip, rstrip,
  strip,
}
use kata_tee_runner.Prelude.Numbers.{digits_from, signed, int_of}

codes-digit : (d : ℕ) → d < 10 → codes (digit d) ≡ (48 + d) ∷ []
unfolding digit nat_eq ℕ_discrete
codes-digit zero h = refl
codes-digit (suc zero) h = refl
codes-digit (suc (suc zero)) h = refl
codes-digit (suc (suc (suc zero))) h = refl
codes-digit (suc (suc (suc (suc zero)))) h = refl
codes-digit (suc (suc (suc (suc (suc zero))))) h = refl
codes-digit (suc (suc (suc (suc (suc (suc zero)))))) h = refl
codes-digit (suc (suc (suc (suc (suc (suc (suc zero))))))) h = refl
codes-digit (suc (suc (suc (suc (suc (suc (suc (suc zero)))))))) h = refl
codes-digit (suc (suc (suc (suc (suc (suc (suc (suc (suc zero))))))))) h = refl
codes-digit (suc (suc (suc (suc (suc (suc (suc (suc (suc (suc d)))))))))) h = absurd (omega arith)

pub all-append :
    (p : ℕ → Bool) (xs ys : Codes) → all p xs ≡ true → all p ys ≡ true → all p (xs ++ ys) ≡ true
all-append p [] ys g h = h
all-append p (x ∷ xs) ys g h = ground (arith, all-append p xs ys)

digit-IsDigit :
    (d : ℕ) (rest : String)
    → d < 10
    → all is_digit (codes rest) ≡ true
    → all is_digit (codes (digit d <> rest)) ≡ true
digit-IsDigit d rest small h =
    rw (codes-append (digit d) rest, codes-digit d small) (ground (arith, h))

decimal_from-digits :
    (fuel n : ℕ) (rest : String)
    → all is_digit (codes rest) ≡ true
    → all is_digit (codes (decimal_from fuel n rest)) ≡ true
unfolding decimal_from
decimal_from-digits zero n rest h = h
decimal_from-digits (suc fuel) n rest h =
    let last = digit-IsDigit (n % 10) rest (omega arith) h in
    let more = decimal_from-digits fuel (n / 10) (digit (n % 10) <> rest) last in
    ground (arith, last, more)

digits_from-digit :
    (acc d : ℕ) (after : Bool) (rest : String)
    → d < 10
    → digits_from acc after (codes (digit d <> rest)) ≡ digits_from (acc * 10 + d) true (codes rest)
unfolding digits_from
digits_from-digit acc d after rest small =
    rw (codes-append (digit d) rest, codes-digit d small) (ground arith)

-- Read after no digit, the digits of n leave n behind.
digits_from-decimal_from :
    (fuel n : ℕ) (rest : String)
    → n < fuel
    → digits_from 0 false (codes (decimal_from fuel n rest)) ≡ digits_from n true (codes rest)
unfolding decimal_from
digits_from-decimal_from zero n rest h = absurd (omega arith)
digits_from-decimal_from (suc fuel) n rest h = elim (Bool-cases (leb n 9)) [
  | inl small ↦
      let whole : 0 * 10 + n % 10 ≡ n = ground arith in
      rw (small) (rw (digits_from-digit 0 (n % 10) false rest (omega arith), whole) refl)
  | inr large ↦
      let whole : n / 10 * 10 + n % 10 ≡ n = omega arith in
      rw (large) (
        digits_from-decimal_from fuel (n / 10) (digit (n % 10) <> rest) (ground arith)
        ∙ digits_from-digit (n / 10) (n % 10) true rest (omega arith)
        ∙ ap (λ m. digits_from m true (codes rest)) whole)
]

abbrev is_solid : ℕ → Bool
is_solid c = not (is_space c)

unless : (b : Bool) (x y : String) → not b ≡ true → (if b then x else y) ≡ y
unless true x y h = cc
unless false x y h = refl

both_no : (a b : Bool) → not a ≡ true → (a && b) ≡ false
both_no a b h = ground arith

lstrip-solid : (s : String) → all is_solid (codes s) ≡ true → lstrip s ≡ s
unfolding lstrip
lstrip-solid String.[] h = refl
lstrip-solid (String.◌∷◌ c s) h =
    unless (is_space (code c)) (lstrip s) (String.◌∷◌ c s)
      (both (is_solid (code c)) (all is_solid (codes s)) h).0

rstrip-solid : (s : String) → all is_solid (codes s) ≡ true → rstrip s ≡ s
unfolding rstrip
rstrip-solid String.[] h = refl
rstrip-solid (String.◌∷◌ c s) h =
    let (first, later) = both (is_solid (code c)) (all is_solid (codes s)) h in
    rw (both_no (is_space (code c)) (rstrip s == "") first)
      (ap (String.◌∷◌ c) (rstrip-solid s later))

pub strip-solid : (s : String) → all is_solid (codes s) ≡ true → strip s ≡ s
unfolding strip
strip-solid s h = rw (lstrip-solid s h) (rstrip-solid s h)

pub decimal-digits : (n : ℕ) → all is_digit (codes (decimal n)) ≡ true
unfolding decimal
decimal-digits n = decimal_from-digits (suc n) n "" refl

digit-IsSolid : (cs : Codes) → all is_digit cs ≡ true → all is_solid cs ≡ true
digit-IsSolid [] h = refl
digit-IsSolid (c ∷ cs) h = ground (arith, digit-IsSolid cs)

signed-digits :
    (cs : Codes) (n : ℕ)
    → all is_digit cs ≡ true
    → digits_from 0 false cs ≡ some n
    → signed cs ≡ some (pos n)
unfolding signed digits_from
signed-digits [] n digits read = absurd (ground arith)
signed-digits (c ∷ cs) n digits read = ground (arith, read)

pub int_of-decimal : (n : ℕ) → int_of (decimal n) ≡ some (pos n)
unfolding int_of decimal digits_from
int_of-decimal n =
    let digits = decimal-digits n in
    let read = digits_from-decimal_from (suc n) n "" (omega arith) in
    rw (strip-solid (decimal n) (digit-IsSolid (codes (decimal n)) digits))
      (signed-digits (codes (decimal n)) n digits read)
