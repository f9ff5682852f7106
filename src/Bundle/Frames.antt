-- ===== src/Bundle/Frames.antt =====
-- The framing of the files of a bundle can be undone.
use kata_tee_runner.Prelude.{
  ℕ, zero, suc, ◌+◌, ◌*◌, ◌/◌, ◌%◌, ◌^◌, ◌<◌, ◌≤◌, ◌≡◌, refl, sym, ap, ◌∙◌, [], ◌∷◌, ◌++◌, length,
  length-append, ok, arith,
}
use kata_tee_runner.Attest.{Bytes}
use kata_tee_runner.Bundle.{to_bytes, frame}

length-to_bytes : (w n : ℕ) → length (to_bytes w n) ≡ w
unfolding to_bytes
length-to_bytes zero n = refl
length-to_bytes (suc w) n =
    omega (arith, length-append (to_bytes w (n / 256)) (n % 256 ∷ []), length-to_bytes w (n / 256))

value : ℕ → Bytes → ℕ
value acc [] = acc
value acc (b ∷ bs) = value (acc * 256 + b) bs

value-append : (acc b : ℕ) (bs : Bytes) → value acc (bs ++ b ∷ []) ≡ value acc bs * 256 + b
unfolding value
value-append acc b [] = refl
value-append acc b (c ∷ bs) = value-append (acc * 256 + c) b bs

value-to_bytes : (w n : ℕ) → n < 256 ^ w → value 0 (to_bytes w n) ≡ n
unfolding to_bytes value
value-to_bytes zero n h = omega arith
value-to_bytes (suc w) n h =
    rw
      (
        value-append 0 (n % 256) (to_bytes w (n / 256)),
        value-to_bytes w (n / 256) (omega (arith, h)),
      )
      (omega arith)

append_assoc : (xs ys zs : Bytes) → (xs ++ ys) ++ zs ≡ xs ++ (ys ++ zs)
append_assoc [] ys zs = refl
append_assoc (x ∷ xs) ys zs = ap (◌∷◌ x) (append_assoc xs ys zs)

append_split :
    (xs ys us vs : Bytes) → length xs ≡ length ys → xs ++ us ≡ ys ++ vs → (xs ≡ ys) × (us ≡ vs)
append_split [] [] us vs n h = (refl, h)
append_split [] (y ∷ ys) us vs n h = absurd (omega (arith, n))
append_split (x ∷ xs) [] us vs n h = absurd (omega (arith, n))
append_split (x ∷ xs) (y ∷ ys) us vs n h =
    let (p, q) = append_split xs ys us vs (omega (arith, n)) (cc) in (cc, q)

frame-eq-ok :
    (p c s : Bytes)
    → frame p c ≡ ok s
    → (length p < 256 ^ 4)
      × (length c < 256 ^ 8)
      × (s ≡ to_bytes 4 (length p) ++ (p ++ (to_bytes 8 (length c) ++ c)))
unfolding frame
frame-eq-ok p c s h = (ground arith, ground arith, ground arith)

to_bytes-injective : (w m n : ℕ) → m < 256 ^ w → n < 256 ^ w → to_bytes w m ≡ to_bytes w n → m ≡ n
to_bytes-injective w m n p q e = sym (value-to_bytes w m p) ∙ ap (value 0) e ∙ value-to_bytes w n q

prefixed :
    (w : ℕ) (xs ys us vs : Bytes)
    → length xs < 256 ^ w
    → length ys < 256 ^ w
    → to_bytes w (length xs) ++ (xs ++ us) ≡ to_bytes w (length ys) ++ (ys ++ vs)
    → (xs ≡ ys) × (us ≡ vs)
prefixed w xs ys us vs p q e =
    let (sizes, rest) =
      append_split (to_bytes w (length xs)) (to_bytes w (length ys)) _ _
        (length-to_bytes w (length xs) ∙ sym (length-to_bytes w (length ys))) e in
    append_split xs ys us vs (to_bytes-injective w (length xs) (length ys) p q sizes) rest

-- Two streams that begin with a file's frame and are equal begin with the same file.
pub frame_prefix :
    (p c s q d t u v : Bytes)
    → frame p c ≡ ok s
    → frame q d ≡ ok t
    → s ++ u ≡ t ++ v
    → (p ≡ q) × (c ≡ d) × (u ≡ v)
frame_prefix p c s q d t u v f g e =
    let (p₁, c₁, s₁) = frame-eq-ok p c s f in
    let (p₂, c₂, t₂) = frame-eq-ok q d t g in
    let e' : to_bytes 4 (length p) ++ (p ++ (to_bytes 8 (length c) ++ (c ++ u)))
        ≡ to_bytes 4 (length q) ++ (q ++ (to_bytes 8 (length d) ++ (d ++ v))) =
      sym (shifted p c u) ∙ ap (λ x. x ++ u) (sym s₁) ∙ e ∙ ap (λ x. x ++ v) t₂ ∙ shifted q d v in
    let (same, e₂) =
      prefixed 4 p q (to_bytes 8 (length c) ++ (c ++ u)) (to_bytes 8 (length d) ++ (d ++ v)) p₁ p₂
        e' in
    let (contents, e₃) = prefixed 8 c d u v c₁ c₂ e₂ in (same, contents, e₃)
  where
    shifted :
        (p c u : Bytes)
        → (to_bytes 4 (length p) ++ (p ++ (to_bytes 8 (length c) ++ c))) ++ u
          ≡ to_bytes 4 (length p) ++ (p ++ (to_bytes 8 (length c) ++ (c ++ u)))
    shifted p c u =
        append_assoc (to_bytes 4 (length p)) _ u
        ∙ ap (λ x. to_bytes 4 (length p) ++ x)
            (append_assoc p _ u ∙ ap (λ x. p ++ x) (append_assoc (to_bytes 8 (length c)) c u))

pub frame-long : (p c s : Bytes) → frame p c ≡ ok s → 4 ≤ length s
frame-long p c s f = omega (
  arith,
  ap length (frame-eq-ok p c s f).2,
  length-append (to_bytes 4 (length p)) (p ++ (to_bytes 8 (length c) ++ c)),
  length-to_bytes 4 (length p),
)
