-- ===== src/Prelude/Render.antt =====
-- The text of the code points below the surrogates.
use Prim.Native.Nat.{ℕ, ◌<◌}
use Prim.Native.Char.{char, IsScalar}
use Prim.Native.String.{String}
use mathlib.Core.Path.{◌≡◌, refl, ap, ◌∙◌}
use mathlib.Core.Bool.{true}
use mathlib.Core.List.{[], ◌∷◌}
use native.Mathlib.Omega.{arith}
use native.Mathlib.Decide.{dec_lt}
use kata_tee_runner.Prelude.Lists.{all}
use kata_tee_runner.Prelude.Tests.{both}
use kata_tee_runner.Prelude.Text.{Codes, codes, is_hex}

pub scalar : (c : ℕ) → c < 55296 → IsScalar c
scalar c h = ground arith

abbrev put : (c : ℕ) → Dec (c < 55296) → String → String
put c (yes h) rest = String.◌∷◌ (char c (scalar c h)) rest
put c (no h) rest = rest

unfoldable pub text_of : Codes → String
text_of [] = String.[]
text_of (c ∷ cs) = put c (dec_lt c 55296) (text_of cs)

codes-put : (c : ℕ) (d : Dec (c < 55296)) (s : String) → c < 55296 → codes (put c d s) ≡ c ∷ codes s
codes-put c (yes h) s small = refl
codes-put c (no h) s small = absurd (h small)

pub codes-text_of : (cs : Codes) → all is_hex cs ≡ true → codes (text_of cs) ≡ cs
unfolding text_of
codes-text_of [] h = refl
codes-text_of (c ∷ cs) h =
    let (first, later) = both (is_hex c) (all is_hex cs) h in
    codes-put c (dec_lt c 55296) (text_of cs) (ground arith) ∙ ap (◌∷◌ c) (codes-text_of cs later)
