-- ===== src/Prelude/Cut.antt =====
-- Texts cut at a character, and put together again.
use Prim.Native.Nat.{ℕ}
use Prim.Native.Char.{Char, code}
use Prim.Native.String.{String}
use Prim.Native.String.{◌++◌ as ◌<>◌}
use Prim.Native.String.append
use mathlib.Core.Path.{◌≡◌, refl, ap, ◌∙◌, sym}
use mathlib.Core.Logic.{inl, inr}
use mathlib.Core.Bool.{false}
use mathlib.Core.Option.{Option, none, some}
use native.Mathlib.Omega.{arith}
use text.Mathlib.TextEquality.{Char-path}
use kata_tee_runner.Prelude.Tests.{if◌then◌else◌, Option-cases}
use kata_tee_runner.Prelude.Equality.{◌==◌, nat_eq, contains}
use kata_tee_runner.Prelude.Text.{codes, after_prefix}

abbrev with_first : Char → Option (String × String) → Option (String × String)
with_first c none = none
with_first c (some (before, after)) = some (String.◌∷◌ c before, after)

-- What stands before and after the first character of the code, if there is one.
unfoldable pub cut : ℕ → String → Option (String × String)
cut sep String.[] = none
cut sep (String.◌∷◌ c s) =
    let rest = cut sep s in if code c == sep then some ("", s) else with_first c rest

-- No character of the text has the code.
abbrev pub IsFree : ℕ → String → Type 0
IsFree sep s = contains (codes s) sep ≡ false

pub cut-append :
    (c : Char) (a b : String) → IsFree (code c) a → cut (code c) (a <> String.◌∷◌ c b) ≡ some (a, b)
unfolding cut
cut-append c String.[] b free = rw (append.nil (String.◌∷◌ c b)) (ground arith)
cut-append c (String.◌∷◌ d a) b free =
    rw (append.cons d a (String.◌∷◌ c b)) (ground (arith, cut-append c a b))

-- A text that was cut is its two parts with the character between them.
pub cut-eq-some :
    (c : Char) (s a b : String)
    → cut (code c) s ≡ some (a, b)
    → (s ≡ a <> String.◌∷◌ c b) × IsFree (code c) a
unfolding cut
cut-eq-some c String.[] a b h = absurd (ground arith)
cut-eq-some c (String.◌∷◌ d s) a b h = elim (nat_eq.dec (code d) (code c)) [
  | yes e ↦
      let p : a ≡ "" = ground arith in
      let q : s ≡ b = ground arith in
      rw (p, q, Char-path d c e) (sym (append.nil (String.◌∷◌ c b)), refl)
  | no e ↦ elim (Option-cases (cut (code c) s)) [
    | inl none' ↦ absurd (ground arith)
    | inr ((x, y), found) ↦
        let (same, free) = cut-eq-some c s x y found in
        let p : String.◌∷◌ d x ≡ a = ground arith in
        let q : y ≡ b = ground arith in
        rw (← p, ← q)
          (ap (String.◌∷◌ d) same ∙ sym (append.cons d x (String.◌∷◌ c y)), ground arith)
  ]
]

pub after_prefix-append : (p s : String) → after_prefix p (p <> s) ≡ some s
unfolding after_prefix
after_prefix-append String.[] s = rw (append.nil s)
after_prefix-append (String.◌∷◌ c p) s =
    rw (append.cons c p s) (ground (arith, after_prefix-append p s))

pub after_prefix-eq-some : (p s r : String) → after_prefix p s ≡ some r → s ≡ p <> r
unfolding after_prefix
after_prefix-eq-some String.[] s r h = rw (append.nil r) (ground arith)
after_prefix-eq-some (String.◌∷◌ c p) String.[] r h = absurd (ground arith)
after_prefix-eq-some (String.◌∷◌ c p) (String.◌∷◌ d s) r h = elim (nat_eq.dec (code c) (code d)) [
  | yes e ↦
      rw (← Char-path c d e)
        (ap (String.◌∷◌ c) (after_prefix-eq-some p s r (ground arith)) ∙ sym (append.cons c p r))
  | no e ↦ absurd (ground arith)
]
