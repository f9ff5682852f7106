-- ===== src/Bundle/Extracted.antt =====
-- When a bundle is extracted.
use kata_tee_runner.Prelude.{
  ℕ, ◌+◌, ◌*◌, ◌/◌, ◌≤◌, ◌≡◌, ◌≢◌, ◌↔◌, refl, arith, String, false, some, List, length, ltb, ◌==◌,
  string_eq, ok, >>=-eq-ok, >>-eq-ok, or_raise, or_raise-eq-ok,
}
use kata_tee_runner.Prelude.Text.{codes}
use kata_tee_runner.Attest.{Bytes}
use kata_tee_runner.Bundle.Extraction.{
  Member, not_base64, Attempt, done, refused, failed, Archives, Limits, regular_members, total_size,
  attempted, extract_submission_bundle,
}

pub record IsWithin (a : Archives) (l : Limits) (bundle_b64 : String) (members : List Member)
    : Type 0 where
  pub raw : Bytes
  pub is_given : bundle_b64 ≢ ""
  pub is_short : length (codes bundle_b64) ≤ (l.max_compressed + 2) / 3 * 4
  pub is_base64 : a.b64decode bundle_b64 ≡ some raw
  pub is_small : length raw ≤ l.max_compressed
  pub is_archive : a.getmembers raw ≡ done members
  pub has_few_files : length (regular_members members) ≤ l.max_files
  pub is_not_bomb : total_size (regular_members members) ≤ l.max_extracted
  pub is_safe : a.extractall members ≡ done tt

attempted-eq-ok {ℓ} : {A : Type ℓ} (x : Attempt A) (r : A) → attempted x ≡ ok r → x ≡ done r
attempted-eq-ok (done y) r h = cc
attempted-eq-ok refused r h = cc
attempted-eq-ok failed r h = cc

module _ (a : Archives) (l : Limits) where
  extract_submission_bundle-IsWithin :
      (bundle_b64 : String) (members : List Member)
      → extract_submission_bundle a l bundle_b64 ≡ ok members
      → IsWithin a l bundle_b64 members
  unfolding extract_submission_bundle
  extract_submission_bundle-IsWithin bundle_b64 members h =
      let (given, h₁) = >>-eq-ok (bundle_b64 == "") _ _ h in
      let (short, h₂) =
        >>-eq-ok (ltb ((l.max_compressed + 2) / 3 * 4) (length (codes bundle_b64))) _ _ h₁ in
      let (raw, decoded, h₃) = >>=-eq-ok (or_raise (a.b64decode bundle_b64) not_base64) _ h₂ in
      let (small, h₄) = >>-eq-ok (ltb l.max_compressed (length raw)) _ _ h₃ in
      let (found, listed, h₅) = >>=-eq-ok (attempted (a.getmembers raw)) _ h₄ in
      let (few, h₆) = >>-eq-ok (ltb l.max_files (length (regular_members found))) _ _ h₅ in
      let (bounded, h₇) =
        >>-eq-ok (ltb l.max_extracted (total_size (regular_members found))) _ _ h₆ in
      let (extracted, safe, h₈) = >>=-eq-ok (attempted (a.extractall found)) _ h₇ in
      let same : found ≡ members = ground (arith, h₈) in
      rw (← same) (record {
        raw = raw;
        is_given = ground (arith, given);
        is_short = at_most (length (codes bundle_b64)) _ short;
        is_base64 = or_raise-eq-ok (a.b64decode bundle_b64) not_base64 raw decoded;
        is_small = at_most (length raw) l.max_compressed small;
        is_archive = attempted-eq-ok (a.getmembers raw) found listed;
        has_few_files = at_most (length (regular_members found)) l.max_files few;
        is_not_bomb = at_most (total_size (regular_members found)) l.max_extracted bounded;
        is_safe = attempted-eq-ok (a.extractall found) tt safe;
      })
    where
      at_most : (n limit : ℕ) → ltb limit n ≡ false → n ≤ limit
      at_most n limit h = ground (arith, h)

  within : (n limit : ℕ) → n ≤ limit → ltb limit n ≡ false
  within n limit h = ground (arith, h)

  extract_submission_bundle-ok :
      (bundle_b64 : String) (members : List Member)
      → IsWithin a l bundle_b64 members
      → extract_submission_bundle a l bundle_b64 ≡ ok members
  unfolding extract_submission_bundle
  extract_submission_bundle-ok bundle_b64 members i =
      let given : (bundle_b64 == "") ≡ false = ground (arith, i.is_given) in
      rw
        (
          given,
          within (length (codes bundle_b64)) ((l.max_compressed + 2) / 3 * 4) i.is_short,
          i.is_base64,
          within (length i.raw) l.max_compressed i.is_small,
          i.is_archive,
          within (length (regular_members members)) l.max_files i.has_few_files,
          within (total_size (regular_members members)) l.max_extracted i.is_not_bomb,
          i.is_safe,
        )
        refl

  -- A bundle is extracted, with given members, exactly where it is given, its text and its decoded
  -- bytes are within the compressed limit, it is an archive with these members, of which the
  -- regular files are within the limits of number and total size, and the extraction succeeds.
  pub extract_submission_bundle_iff :
      (bundle_b64 : String) (members : List Member)
      → (extract_submission_bundle a l bundle_b64 ≡ ok members) ↔ IsWithin a l bundle_b64 members
  extract_submission_bundle_iff bundle_b64 members = (
    extract_submission_bundle-IsWithin bundle_b64 members,
    extract_submission_bundle-ok bundle_b64 members,
  )
