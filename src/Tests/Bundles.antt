-- ===== src/Tests/Bundles.antt =====
-- room/bundle.py: a bundle with an agent, and the same with a cache and a sealed key beside it.
use kata_tee_runner.Prelude.{
  ◌≡◌, ◌⊎◌, ◌↔◌, refl, none, some, true, false, List, [], ◌∷◌, ◌++◌, ok, nat_eq, string_eq, list_eq,
}
use kata_tee_runner.Prelude.Text.{codes}
use kata_tee_runner.Attest.{Bytes, Hashing}
use kata_tee_runner.Attest.Hex.{hex}
use kata_tee_runner.Attest.Verified.{Collision, IsDigesting}
use kata_tee_runner.Bundle.{
  Entry, directory, regular, frame, frames, excluded, parts, last_part, suffix, from_last_dot,
  any_transient, credential_bundle_binding,
}
use kata_tee_runner.Bundle.Extraction.{done, Archives, limits, extract_submission_bundle}
use kata_tee_runner.Bundle.Extracted.{IsWithin, extract_submission_bundle_iff}
use kata_tee_runner.Bundle.Stable.{sealed_key_unbound}
use kata_tee_runner.Bundle.Binding.{included, binding_determines_files}

abbrev zeros : Bytes
zeros =
    0 ∷ 0 ∷ 0 ∷ 0 ∷ 0 ∷ 0 ∷ 0 ∷ 0 ∷ 0 ∷ 0 ∷ 0 ∷ 0 ∷ 0 ∷ 0 ∷ 0 ∷ 0 ∷ 0 ∷ 0 ∷ 0 ∷ 0 ∷ 0 ∷ 0 ∷ 0 ∷ 0
    ∷ 0 ∷ 0 ∷ 0 ∷ 0 ∷ 0 ∷ 0 ∷ 0 ∷ 0 ∷ []

abbrev hashing : Hashing
hashing = record { sha256 = λ x. zeros; canonical = λ v. []; encode = codes }

abbrev bare : List Entry
bare = regular "agent.py" (1 ∷ 2 ∷ []) ∷ []

abbrev cached : List Entry
cached =
    directory "lib"
    ∷ regular "lib/x.pyc" (9 ∷ [])
    ∷ regular "agent.py" (1 ∷ 2 ∷ [])
    ∷ regular "sealed_inference_key" (7 ∷ [])
    ∷ []

skips_cache : excluded "lib/x.pyc" ≡ true
unfolding excluded parts last_part suffix from_last_dot any_transient string_eq nat_eq list_eq
skips_cache = refl

keeps_agent : excluded "agent.py" ≡ false
unfolding excluded parts last_part suffix from_last_dot any_transient string_eq nat_eq list_eq
keeps_agent = refl

keeps_hidden : excluded ".pyc" ≡ false
unfolding excluded parts last_part suffix from_last_dot any_transient string_eq nat_eq list_eq
keeps_hidden = refl

bare_binding : credential_bundle_binding hashing bare ≡ ok (hex zeros)
unfolding credential_bundle_binding frames frame excluded parts last_part suffix from_last_dot
    any_transient string_eq nat_eq list_eq
bare_binding = refl

cached_binding : credential_bundle_binding hashing cached ≡ ok (hex zeros)
unfolding credential_bundle_binding frames frame excluded parts last_part suffix from_last_dot
    any_transient string_eq nat_eq list_eq
cached_binding = refl

digests : IsDigesting hashing
digests x = (refl, refl)

binding_determines_files_example :
    (included hashing bare ≡ included hashing cached) ⊎ Collision hashing
binding_determines_files_example =
    binding_determines_files hashing bare cached (hex zeros) digests bare_binding cached_binding

abbrev archives : Archives
archives = record {
  b64decode = λ s. some (1 ∷ 2 ∷ 3 ∷ []);
  getmembers = λ b. done (record { name = "agent.py"; is_file = true; size = 2 } ∷ []);
  extractall = λ ms. done tt;
}

extract_submission_bundle_iff_example :
    (extract_submission_bundle archives (limits none none (some "1")) "AQID"
      ≡ ok (record { name = "agent.py"; is_file = true; size = 2 } ∷ []))
    ↔ IsWithin archives
        (limits none none (some "1"))
        "AQID"
        (record { name = "agent.py"; is_file = true; size = 2 } ∷ [])
extract_submission_bundle_iff_example =
    extract_submission_bundle_iff archives (limits none none (some "1")) "AQID"
      (record { name = "agent.py"; is_file = true; size = 2 } ∷ [])

sealed_key_unbound_example :
    (credential_bundle_binding hashing (bare ++ regular "sealed_inference_key" (7 ∷ []) ∷ [])
      ≡ credential_bundle_binding hashing (bare ++ []))
    × (credential_bundle_binding hashing (bare ++ regular "sealed_inference_key" (7 ∷ []) ∷ [])
        ≡ credential_bundle_binding hashing (bare ++ regular "sealed_inference_key" (8 ∷ []) ∷ []))
sealed_key_unbound_example = sealed_key_unbound hashing (7 ∷ []) (8 ∷ []) bare []
