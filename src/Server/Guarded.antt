-- ===== src/Server/Guarded.antt =====
-- What stands between a `/run` request and the profile in room/server.py.
use kata_tee_runner.Prelude.{
  String, true, false, Option, none, some, ◌&&◌, ◌≡◌, refl, inl, inr, Result, ok, raise, arith,
  string_eq, ap, >>=-eq-ok, Option-cases, sym, ◌∙◌,
}
use kata_tee_runner.Prelude.Value.{as_str}
use kata_tee_runner.Auth.{compare_digest}
use kata_tee_runner.Sealing.{Credential, resolve_sealed_credential}
use kata_tee_runner.Server.Interface.{Job, World, Request, truthy, attests_failures, binding_of}
use kata_tee_runner.Server.{is_bound, use_credential, resolve, check_bundle, prepare}

pub compare_digest-eq-true : (a b : String) → compare_digest a b ≡ some true → a ≡ b
unfolding compare_digest
compare_digest-eq-true a b h = ground arith

module _ (w : World) where
  -- How a credential and a bundle come together in a job that the profile is run on.
  abbrev pub IsFunded : Request → Option Credential → Option String → Type 0
  IsFunded rq none none = truthy rq.bundle_b64 ≡ false
  IsFunded rq none (some root) =
      (w.extract rq.bundle_b64 ≡ ok (root, rq.bundle_sha256)) × (attests_failures w.spec ≡ false)
  IsFunded rq (some c) none = ⊥
  IsFunded rq (some c) (some root) =
      (w.extract rq.bundle_b64 ≡ ok (root, rq.bundle_sha256)) × (binding_of c ≡ rq.bundle_sha256)

  resolve-eq-ok :
      (rq : Request) (c : Option Credential)
      → resolve w rq ≡ ok c
      → (sealed : String) × (as_str rq.sealed_key ≡ some sealed)
        × (resolve_sealed_credential w.decrypt w.loads sealed w.spec false ≡ ok c)
  unfolding resolve
  resolve-eq-ok rq c h = elim (Option-cases (as_str rq.sealed_key)) [
    | inl other ↦ absurd (ground arith)
    | inr (sealed, p) ↦ (
      sealed,
      p,
      found sealed (resolve_sealed_credential w.decrypt w.loads sealed w.spec false) (ground arith),
    )
  ]
    where
      found :
          (sealed : String) (r : Result String (Option Credential))
          → use_credential w rq r ≡ ok c
          → r ≡ ok c
      found sealed (raise detail) h = absurd (ground arith)
      found sealed (ok none) h = ground arith
      found sealed (ok (some k)) h = ground arith

  resolve-eq-none :
      (rq : Request)
      → resolve w rq ≡ ok none
      → attests_failures w.spec && truthy rq.bundle_b64 ≡ false
  unfolding resolve
  resolve-eq-none rq h = ground arith

  resolve-eq-some :
      (rq : Request) (k : Credential) → resolve w rq ≡ ok (some k) → truthy rq.bundle_b64 ≡ true
  unfolding resolve
  resolve-eq-some rq k h = ground arith

  check_bundle-eq-none :
      (rq : Request) (c : Option Credential)
      → check_bundle w rq c ≡ ok none
      → truthy rq.bundle_b64 ≡ false
  unfolding check_bundle
  check_bundle-eq-none rq c h = ground arith

  check_bundle-eq-some :
      (rq : Request) (c : Option Credential) (root : String)
      → check_bundle w rq c ≡ ok (some root)
      → (actual : String) × (truthy rq.bundle_b64 ≡ true)
        × (w.extract rq.bundle_b64 ≡ ok (root, actual))
        × (compare_digest rq.bundle_sha256 actual ≡ some true)
        × (is_bound w c actual ≡ some true)
  unfolding check_bundle
  check_bundle-eq-some rq c root h = split (w.extract rq.bundle_b64) refl
    where
      split :
          (r : Result (Option String) (String × String))
          → w.extract rq.bundle_b64 ≡ r
          → (actual : String) × (truthy rq.bundle_b64 ≡ true)
            × (w.extract rq.bundle_b64 ≡ ok (root, actual))
            × (compare_digest rq.bundle_sha256 actual ≡ some true)
            × (is_bound w c actual ≡ some true)
      split (ok (r, actual)) e = (actual, ground arith, ground arith, ground arith, ground arith)
      split (raise none) e = absurd (ground arith)
      split (raise (some m)) e = absurd (ground arith)

  check_bundle-extract :
      (rq : Request) (c : Option Credential) (root : String)
      → check_bundle w rq c ≡ ok (some root)
      → (truthy rq.bundle_b64 ≡ true) × (w.extract rq.bundle_b64 ≡ ok (root, rq.bundle_sha256))
  check_bundle-extract rq c root h =
      let (actual, t, e, same, b) = check_bundle-eq-some rq c root h in
      (t, rw (compare_digest-eq-true rq.bundle_sha256 actual same) e)

  check_bundle-binding :
      (rq : Request) (k : Credential) (root : String)
      → check_bundle w rq (some k) ≡ ok (some root)
      → binding_of k ≡ rq.bundle_sha256
  check_bundle-binding rq k root h =
      let (actual, t, e, same, b) = check_bundle-eq-some rq (some k) root h in
      compare_digest-eq-true (binding_of k) actual b
      ∙ sym (compare_digest-eq-true rq.bundle_sha256 actual same)

  resolved_IsFunded :
      (rq : Request) (c : Option Credential) (root : Option String)
      → resolve w rq ≡ ok c
      → check_bundle w rq c ≡ ok root
      → IsFunded rq c root
  resolved_IsFunded rq none none r b = check_bundle-eq-none rq none b
  resolved_IsFunded rq (some k) none r b =
      absurd (ground (arith, resolve-eq-some rq k r, check_bundle-eq-none rq (some k) b))
  resolved_IsFunded rq none (some root) r b =
      let (t, e) = check_bundle-extract rq none root b in
      (e, ground (arith, t, resolve-eq-none rq r))
  resolved_IsFunded rq (some k) (some root) r b =
      ((check_bundle-extract rq (some k) root b).1, check_bundle-binding rq k root b)

  -- Where `_run` comes to call the profile on a job, the job's credential is what the sealed text
  -- of the request resolves to, and one of three cases holds: the request has neither a credential
  -- nor a bundle; it has a bundle whose binding is the digest that the request states, no
  -- credential, and a profile that does not attest credential failures; or it has such a bundle and
  -- a credential that is bound to the same digest. The job id is the nonce, and the digest and the
  -- project are those of the request.
  pub prepare-IsFunded :
      (rq : Request) (job : Job)
      → prepare w rq ≡ ok job
      → ((sealed : String) × (as_str rq.sealed_key ≡ some sealed)
          × (resolve_sealed_credential w.decrypt w.loads sealed w.spec false ≡ ok job.credential))
        × IsFunded rq job.credential job.bundle_root
        × (job.job_id ≡ rq.nonce_hex)
        × (job.bundle_sha256 ≡ rq.bundle_sha256)
        × (job.project_key ≡ rq.project_key)
  unfolding prepare
  prepare-IsFunded rq job h =
      let (c, r, h₁) = >>=-eq-ok (resolve w rq) _ h in
      let (root, b, h₂) = >>=-eq-ok (check_bundle w rq c) _ h₁ in
      let same : record {
        project_key = rq.project_key;
        credential = c;
        bundle_root = root;
        job_id = rq.nonce_hex;
        bundle_sha256 = rq.bundle_sha256;
      }
          ≡ job =
        ground arith in
      let rc : c ≡ job.credential = ap (λ (j : Job). j.credential) same in
      let rr : root ≡ job.bundle_root = ap (λ (j : Job). j.bundle_root) same in
      (
        resolve-eq-ok rq job.credential (rw (sym rc) r),
        resolved_IsFunded rq job.credential job.bundle_root (rw (sym rc) r) (rw (sym rc, sym rr) b),
        ground arith,
        ground arith,
        ground arith,
      )
