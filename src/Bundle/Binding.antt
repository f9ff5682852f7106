-- ===== src/Bundle/Binding.antt =====
-- What a binding of room/bundle.py tells of the files of a bundle.
use kata_tee_runner.Prelude.{
  ◌≡◌, ◌⊎◌, inl, inr, refl, sym, ap, ◌∙◌, List, [], ◌∷◌, ◌++◌, length, length-append, Result, ok,
  ◌>>=◌, >>=-eq-ok, Bool-cases, if◌then◌else◌, arith,
}
use kata_tee_runner.Prelude.Text.{Codes}
use kata_tee_runner.Attest.{Bytes, Hashing}
use kata_tee_runner.Attest.Hex.{hex}
use kata_tee_runner.Attest.Verified.{
  Collision, IsDigesting, hash_cases, hex-injective, append_cancel_left,
}
use kata_tee_runner.Bundle.{
  Entry, directory, regular, special, BindingError, excluded, frame, frames, domain,
  credential_bundle_binding,
}
use kata_tee_runner.Bundle.Frames.{frame_prefix, frame-long}

-- A stream of frames, of the files themselves.
encode_all : List (Bytes × Bytes) → Result BindingError Bytes
encode_all [] = ok []
encode_all ((p, c) ∷ files) = do first ← frame p c; more ← encode_all files; ok (first ++ more)

encode_all-cons :
    (p c s : Bytes) (files : List (Bytes × Bytes))
    → encode_all ((p, c) ∷ files) ≡ ok s
    → (first : Bytes) × (more : Bytes) × (frame p c ≡ ok first)
      × (encode_all files ≡ ok more)
      × (s ≡ first ++ more)
unfolding encode_all
encode_all-cons p c s files h =
    let (first, f, h₁) = >>=-eq-ok (frame p c) _ h in
    let (more, m, h₂) = >>=-eq-ok (encode_all files) _ h₁ in (first, more, f, m, ground (arith, h₂))

encode_all-nil : (s : Bytes) → encode_all [] ≡ ok s → s ≡ []
unfolding encode_all
encode_all-nil s h = ground arith

encode_all-injective :
    (xs ys : List (Bytes × Bytes)) (s : Bytes)
    → encode_all xs ≡ ok s
    → encode_all ys ≡ ok s
    → xs ≡ ys
encode_all-injective [] [] s h k = refl
encode_all-injective [] ((q, d) ∷ ys) s h k =
    let (first, more, f, m, e) = encode_all-cons q d s ys k in
    absurd (
      omega (
        arith,
        ap length e,
        ap length (encode_all-nil s h),
        length-append first more,
        frame-long q d first f,
      ))
encode_all-injective ((p, c) ∷ xs) [] s h k =
    let (first, more, f, m, e) = encode_all-cons p c s xs h in
    absurd (
      omega (
        arith,
        ap length e,
        ap length (encode_all-nil s k),
        length-append first more,
        frame-long p c first f,
      ))
encode_all-injective ((p, c) ∷ xs) ((q, d) ∷ ys) s h k =
    let (first, more, f, m, e) = encode_all-cons p c s xs h in
    let (first', more', f', m', e') = encode_all-cons q d s ys k in
    let (path, content, rest) = frame_prefix p c first q d first' more more' f f' (sym e ∙ e') in
    let tails = encode_all-injective xs ys more m (rw rest m') in cc

module _ (h : Hashing) where
  -- The files that count, each as its encoded path and its content, in the order of the listing.
  abbrev pub included : List Entry → List (Bytes × Bytes)
  included [] = []
  included (directory path ∷ rest) = included rest
  included (special path ∷ rest) = included rest
  included (regular path content ∷ rest) =
      if excluded path then included rest else (h.encode path, content) ∷ included rest

  frames-included :
      (es : List Entry) (s : Bytes) → frames h es ≡ ok s → encode_all (included es) ≡ ok s
  unfolding frames encode_all
  frames-included [] s k = k
  frames-included (directory path ∷ rest) s k = frames-included rest s k
  frames-included (special path ∷ rest) s k = absurd (ground arith)
  frames-included (regular path content ∷ rest) s k = elim (Bool-cases (excluded path)) [
    | inl skip ↦ rw skip (frames-included rest s (ground arith))
    | inr kept ↦
        let here : (frame (h.encode path) content >>= λ first.
        frames h rest >>= λ more. ok (first ++ more))
            ≡ ok s =
          ground arith in
        let (first, f, k₁) = >>=-eq-ok (frame (h.encode path) content) _ here in
        let (more, m, k₂) = >>=-eq-ok (frames h rest) _ k₁ in
        rw (kept, f, frames-included rest more m) k₂
  ]

  -- Two bundles with one credential binding have the same files, path by path as encoded and
  -- content by content, in the order of the listing and apart from the sealed key, caches and
  -- version control data that the binding leaves out, or two different texts have one SHA-256
  -- digest. It takes that every digest is 32 bytes.
  pub binding_determines_files :
      (es fs : List Entry) (binding : Codes)
      → IsDigesting h
      → credential_bundle_binding h es ≡ ok binding
      → credential_bundle_binding h fs ≡ ok binding
      → (included es ≡ included fs) ⊎ Collision h
  unfolding credential_bundle_binding
  binding_determines_files es fs binding digesting p q =
      let (s, f, p') = >>=-eq-ok (frames h es) _ p in
      let (t, g, q') = >>=-eq-ok (frames h fs) _ q in
      let same : hex (h.sha256 (domain ++ s)) ≡ hex (h.sha256 (domain ++ t)) =
        ground (arith, p', q') in
      let hashes = hex-injective _ _ (digesting (domain ++ s)).1 (digesting (domain ++ t)).1 same in
      elim (hash_cases h (domain ++ s) (domain ++ t) hashes) [
        | inr c ↦ inr c
        | inl e ↦
            let streams : s ≡ t = append_cancel_left domain s t e in
            inl (
              encode_all-injective (included es) (included fs) s (frames-included es s f)
                (rw streams (frames-included fs t g)))
      ]
