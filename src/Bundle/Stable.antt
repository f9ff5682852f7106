-- ===== src/Bundle/Stable.antt =====
-- What may change in a bundle without changing its binding.
use kata_tee_runner.Prelude.{
  ◌≡◌, refl, ◌∙◌, sym, string_eq, nat_eq, list_eq, arith, String, true, List, [], ◌∷◌, ◌++◌,
}
use kata_tee_runner.Attest.{Bytes, Hashing}
use kata_tee_runner.Bundle.{
  Entry, parts, last_part, suffix, from_last_dot, any_transient, directory, regular, special,
  excluded, frames, credential_bundle_binding,
}

excluded-sealed_key : excluded "sealed_inference_key" ≡ true
unfolding excluded parts last_part suffix from_last_dot any_transient string_eq nat_eq list_eq
excluded-sealed_key = refl

module _ (h : Hashing) where
  frames-append_excluded :
      (path : String) (content : Bytes) (es later : List Entry)
      → excluded path ≡ true
      → frames h (es ++ regular path content ∷ later) ≡ frames h (es ++ later)
  unfolding frames
  frames-append_excluded path content [] later out = ground (arith, out)
  frames-append_excluded path content (directory p ∷ es) later out =
      frames-append_excluded path content es later out
  frames-append_excluded path content (special p ∷ es) later out = refl
  frames-append_excluded path content (regular p c ∷ es) later out =
      rw (frames-append_excluded path content es later out) refl

  credential_bundle_binding-excluded :
      (path : String) (content : Bytes) (earlier later : List Entry)
      → excluded path ≡ true
      → credential_bundle_binding h (earlier ++ regular path content ∷ later)
        ≡ credential_bundle_binding h (earlier ++ later)
  unfolding credential_bundle_binding
  credential_bundle_binding-excluded path content earlier later out =
      rw (frames-append_excluded path content earlier later out) refl

  -- The binding of a bundle is the same with the file of the sealed key and without it, and
  -- whatever this file holds, wherever the listing has it.
  pub sealed_key_unbound :
      (content content' : Bytes) (earlier later : List Entry)
      → (credential_bundle_binding h (earlier ++ regular "sealed_inference_key" content ∷ later)
          ≡ credential_bundle_binding h (earlier ++ later))
        × (credential_bundle_binding h (earlier ++ regular "sealed_inference_key" content ∷ later)
            ≡ credential_bundle_binding h
                (earlier ++ regular "sealed_inference_key" content' ∷ later))
  sealed_key_unbound content content' earlier later =
      let before =
        credential_bundle_binding-excluded "sealed_inference_key" content earlier later
          excluded-sealed_key in
      let after =
        credential_bundle_binding-excluded "sealed_inference_key" content' earlier later
          excluded-sealed_key in
      (before, before ∙ sym after)
