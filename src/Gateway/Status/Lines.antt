-- ===== src/Gateway/Status/Lines.antt =====
-- What is recorded of a job is what the summary reads.
use kata_tee_runner.Prelude.{
  both, ℕ, ◌≡◌, refl, sym, ap, ◌∙◌, arith, String, ◌<>◌, Bool, true, false, not, ◌||◌, some, List,
  [], ◌∷◌, ◌++◌, all, length, leb, if◌then◌else◌, ◌==◌, nat_eq, string_eq,
}
use Prim.Native.Char.{Char, code}
use Prim.Native.String.append
use text.Mathlib.TextLemmas.{append_assoc, append-nil}
use kata_tee_runner.Prelude.Int.{ℤ, pos}
use kata_tee_runner.Prelude.Numbers.{int_of, signed}
use kata_tee_runner.Prelude.Decimal.{all-append, decimal-digits, int_of-decimal}
use kata_tee_runner.Prelude.Text.{
  Codes, codes, codes-append, is_space, is_digit, decimal, strip, lstrip, rstrip,
}
use kata_tee_runner.Gateway.Status.{
  line_of, push, lines, begins_word, words, is_digits, without_dashes, tells, tokens_of, told_by,
  read_outcomes,
}

abbrev is_plain : ℕ → Bool
is_plain c = not (is_space c)

abbrev is_inner : ℕ → Bool
is_inner c = not (c == 10 || c == 13)

kept : (b : Bool) (x y : List String) → not b ≡ true → (if b then x else y) ≡ y
kept true x y h = cc
kept false x y h = refl

implied :
    (p q : ℕ → Bool)
    → ((c : ℕ) → p c ≡ true → q c ≡ true)
    → (cs : Codes) → all p cs ≡ true
    → all q cs ≡ true
implied p q pq [] h = refl
implied p q pq (c ∷ cs) h =
    let (first, later) = both (p c) (all p cs) h in
    ground (arith, pq c first, implied p q pq cs later)

lines-line :
    (x s : String) → all is_inner (codes x) ≡ true → lines (x <> String.◌∷◌ "\n" s) ≡ x ∷ lines s
unfolding lines
lines-line String.[] s h = rw (append.nil (String.◌∷◌ "\n" s)) (ground arith)
lines-line (String.◌∷◌ c x) s h =
    let (first, later) = both (is_inner (code c)) (all is_inner (codes x)) h in
    rw (append.cons c x (String.◌∷◌ "\n" s)) (
      kept (code c == 10 || code c == 13) ("" ∷ lines (x <> String.◌∷◌ "\n" s))
        (push c (lines (x <> String.◌∷◌ "\n" s))) first
      ∙ ap (push c) (lines-line x s later))

attached : (b : Bool) (x y : List String) → b ≡ true → (if b then x else y) ≡ x
attached true x y h = refl
attached false x y h = cc

digit-IsPlain : (c : ℕ) → is_digit c ≡ true → is_plain c ≡ true
digit-IsPlain c h = ground arith

words-token :
    (c : Char) (x s : String)
    → all is_plain (codes (String.◌∷◌ c x)) ≡ true
    → begins_word s ≡ false
    → words ((String.◌∷◌ c x) <> s) ≡ (String.◌∷◌ c x) ∷ words s
unfolding words
words-token c String.[] s h ends =
    let (first, later) = both (is_plain (code c)) true h in
    rw (append.cons c "" s, append.nil s)
      (kept (is_space (code c)) (words s) _ first ∙ rw (ends) refl)
words-token c (String.◌∷◌ d x) s h ends =
    let (first, later) = both (is_plain (code c)) (all is_plain (codes (String.◌∷◌ d x))) h in
    let (second, _) = both (is_plain (code d)) (all is_plain (codes x)) later in
    let next = words-token d x s later ends in
    let goes_on : words (String.◌∷◌ d (x <> s)) ≡ (String.◌∷◌ d x) ∷ words s =
      ap words (sym (append.cons d x s)) ∙ next in
    rw (append.cons c (String.◌∷◌ d x) s, append.cons d x s)
      (kept (is_space (code c)) (words (String.◌∷◌ d (x <> s))) _ first
        ∙ (attached (not (is_space (code d))) _ _ second ∙ ap (push c) goes_on))

words-last :
    (c : Char) (x : String)
    → all is_plain (codes (String.◌∷◌ c x)) ≡ true
    → words (String.◌∷◌ c x) ≡ (String.◌∷◌ c x) ∷ []
unfolding words
words-last c x h = ap words (sym (append-nil (String.◌∷◌ c x))) ∙ words-token c x "" h refl

-- The two tokens of a line.
words-line :
    (x y : String)
    → is_digits (codes x) ≡ true
    → is_digits (codes y) ≡ true
    → words (x <> (" " <> y)) ≡ x ∷ y ∷ []
unfolding words
words-line String.[] y h k = absurd (ground arith)
words-line (String.◌∷◌ c x) String.[] h k = absurd (ground arith)
words-line (String.◌∷◌ c x) (String.◌∷◌ d y) h k =
    let (_, xs) =
      both (leb 1 (length (codes (String.◌∷◌ c x)))) (all is_digit (codes (String.◌∷◌ c x))) h in
    let (_, ys) =
      both (leb 1 (length (codes (String.◌∷◌ d y)))) (all is_digit (codes (String.◌∷◌ d y))) k in
    let gap : " " <> (String.◌∷◌ d y) ≡ String.◌∷◌ " " (String.◌∷◌ d y) =
      append.cons " " "" (String.◌∷◌ d y) ∙ ap (String.◌∷◌ " ") (append.nil (String.◌∷◌ d y)) in
    let solid = implied is_digit is_plain digit-IsPlain in
    rw (gap) (
      words-token c x (String.◌∷◌ " " (String.◌∷◌ d y)) (solid (codes (String.◌∷◌ c x)) xs) refl
      ∙ ap (◌∷◌ (String.◌∷◌ c x)) (words-last d y (solid (codes (String.◌∷◌ d y)) ys)))

nonempty : (x : String) (z : ℤ) → int_of x ≡ some z → leb 1 (length (codes x)) ≡ true
unfolding int_of strip lstrip rstrip signed
nonempty String.[] z h = absurd (ground arith)
nonempty (String.◌∷◌ c x) z h = ground arith

decimal-IsDigits : (n : ℕ) → is_digits (codes (decimal n)) ≡ true
decimal-IsDigits n =
    ground (arith, nonempty (decimal n) (pos n) (int_of-decimal n), decimal-digits n)

without_dashes-digits : (cs : Codes) → all is_digit cs ≡ true → without_dashes cs ≡ cs
unfolding without_dashes
without_dashes-digits [] h = refl
without_dashes-digits (c ∷ cs) h = ground arith

told_by-decimal :
    (status tokens : ℕ) → told_by (decimal status ∷ decimal tokens ∷ []) ≡ tells (pos status) tokens
unfolding told_by tokens_of
told_by-decimal status tokens =
    rw
      (
        without_dashes-digits (codes (decimal status)) (decimal-digits status),
        decimal-IsDigits status,
        int_of-decimal status,
        decimal-IsDigits tokens,
        int_of-decimal tokens,
      )
      refl

-- The text of the lines of a job's outcomes.
abbrev pub text_with : List (ℕ × ℕ) → String
text_with [] = ""
text_with (o ∷ os) = line_of o <> text_with os

abbrev pub posted : List (ℕ × ℕ) → List (ℤ × ℕ)
posted [] = []
posted ((status, tokens) ∷ os) = (pos status, tokens) ∷ posted os

digit-IsInner : (c : ℕ) → is_digit c ≡ true → is_inner c ≡ true
digit-IsInner c h = ground arith

abbrev tokens_line : ℕ → ℕ → String
tokens_line status tokens = decimal status <> (" " <> decimal tokens)

tokens_line-IsInner : (status tokens : ℕ) → all is_inner (codes (tokens_line status tokens)) ≡ true
tokens_line-IsInner status tokens =
    rw (codes-append (decimal status) (" " <> decimal tokens), codes-append " " (decimal tokens))
      (all-append is_inner (codes (decimal status)) (codes " " ++ codes (decimal tokens))
        (implied is_digit is_inner digit-IsInner (codes (decimal status)) (decimal-digits status))
        (all-append is_inner (codes " ") (codes (decimal tokens)) (ground arith) (
          implied is_digit is_inner digit-IsInner (codes (decimal tokens))
            (decimal-digits tokens))))

line_of-append :
    (status tokens : ℕ) (s : String)
    → line_of (status, tokens) <> s ≡ tokens_line status tokens <> String.◌∷◌ "\n" s
unfolding line_of
line_of-append status tokens s = regroup (decimal status) " " (decimal tokens) s
  where
    regroup :
        (a b c t : String) → (a <> (b <> (c <> "\n"))) <> t ≡ (a <> (b <> c)) <> String.◌∷◌ "\n" t
    regroup a b c t =
        append_assoc a _ t
        ∙ ap (λ x. a <> x)
            (append_assoc b _ t
              ∙ ap (λ x. b <> x)
                  (append_assoc c _ t
                    ∙ ap (λ x. c <> x)
                        (append.cons "\n" "" t ∙ ap (String.◌∷◌ "\n") (append.nil t)))
              ∙ sym (append_assoc b c _))
        ∙ sym (append_assoc a _ _)

lines-text_with : (o : ℕ × ℕ) (s : String) → lines (line_of o <> s) ≡ tokens_line o.0 o.1 ∷ lines s
lines-text_with (status, tokens) s =
    ap lines (line_of-append status tokens s)
    ∙ lines-line (tokens_line status tokens) s (tokens_line-IsInner status tokens)

read_outcomes-cons :
    (line : String) (rest : List String) (status : ℤ) (tokens : ℕ) (os : List (ℤ × ℕ))
    → told_by (words line) ≡ tells status tokens
    → read_outcomes rest ≡ some os
    → read_outcomes (line ∷ rest) ≡ some ((status, tokens) ∷ os)
unfolding read_outcomes
read_outcomes-cons line rest status tokens os p q = ground (arith, p, q)

pub read_outcomes-text_with :
    (os : List (ℕ × ℕ)) → read_outcomes (lines (text_with os)) ≡ some (posted os)
unfolding read_outcomes lines
read_outcomes-text_with [] = refl
read_outcomes-text_with ((status, tokens) ∷ os) =
    let fields =
      words-line (decimal status) (decimal tokens) (decimal-IsDigits status)
        (decimal-IsDigits tokens) in
    ap read_outcomes (lines-text_with (status, tokens) (text_with os))
    ∙ read_outcomes-cons (tokens_line status tokens) (lines (text_with os)) (pos status) tokens
        (posted os) (ap told_by fields ∙ told_by-decimal status tokens) (read_outcomes-text_with os)
