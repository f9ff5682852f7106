-- ===== src/Server/Submitted.antt =====
-- Which bundle it is that the profile is run on.
use kata_tee_runner.Prelude.{
  ◌≡◌, ◌⊎◌, refl, sym, ap, ◌∙◌, arith, String, true, Option, none, some, List, ◌++◌, all, >>=-eq-ok,
  Result, ok, raise,
}
use kata_tee_runner.Prelude.Render.{text_of, codes-text_of}
use kata_tee_runner.Prelude.Text.{Codes, codes, is_hex}
use kata_tee_runner.Prelude.Value.{Value, null, bool, int, float, str, obj, arr}
use kata_tee_runner.Attest.Hex.{hex, hex-IsHex}
use kata_tee_runner.Attest.Verified.{Collision, IsDigesting}
use kata_tee_runner.Sealing.{Credential}
use kata_tee_runner.Bundle.{Entry, BindingError, frames, domain, credential_bundle_binding}
use kata_tee_runner.Bundle.Binding.{included, binding_determines_files}
use kata_tee_runner.Bundle.Extraction.{
  Member, Archives, Limits, ExtractError, extract_submission_bundle,
}
use kata_tee_runner.Bundle.Extracted.{IsWithin, extract_submission_bundle_iff}
use kata_tee_runner.Server.Interface.{Job, World, Request, binding_of}
use kata_tee_runner.Server.{prepare}
use kata_tee_runner.Server.Guarded.{IsFunded, prepare-IsFunded}
use kata_tee_runner.Server.Submission.{found_at, bind_extracted, extract_and_bind, with_bundles}

module _ (a : Archives) (l : Limits) (root : String) (listing : String → List Entry)
    (w : World) where
  -- The bundle of a request, as the room has unpacked it and found its binding to be as given.
  pub record IsSubmitted (v : Value) (binding : String) : Type 0 where
    pub bundle_b64 : String
    pub members : List Member
    pub is_text : v ≡ str bundle_b64
    pub is_within : IsWithin a l bundle_b64 members
    pub is_bound : credential_bundle_binding w.hashing (listing bundle_b64) ≡ ok (codes binding)

  found_at-eq-ok :
      (r binding : String) (x : Result BindingError Codes)
      → found_at root x ≡ ok (r, binding)
      → (found : Codes) × (x ≡ ok found) × (text_of found ≡ binding) × (root ≡ r)
  found_at-eq-ok r binding (raise e) h = cc
  found_at-eq-ok r binding (ok found) h = (found, refl, ground (arith, h), ground (arith, h))

  binding-IsHex :
      (es : List Entry) (found : Codes)
      → IsDigesting w.hashing
      → credential_bundle_binding w.hashing es ≡ ok found
      → all is_hex found ≡ true
  unfolding credential_bundle_binding
  binding-IsHex es found digesting b =
      let (stream, f, b') = >>=-eq-ok (frames w.hashing es) _ b in
      let same : hex (w.hashing.sha256 (domain ++ stream)) ≡ found = ground (arith, b') in
      rw (← same) (hex-IsHex _ (digesting (domain ++ stream)).1)

  bind_extracted-IsSubmitted :
      (s r binding : String) (x : Result ExtractError (List Member))
      → IsDigesting w.hashing
      → extract_submission_bundle a l s ≡ x
      → bind_extracted a l root listing w.hashing s x ≡ ok (r, binding)
      → IsSubmitted (str s) binding × (root ≡ r)
  bind_extracted-IsSubmitted s r binding (raise e) digesting same h = cc
  bind_extracted-IsSubmitted s r binding (ok members) digesting same h =
      let (found, b, shown, at) =
        found_at-eq-ok r binding (credential_bundle_binding w.hashing (listing s)) h in
      let exact = codes-text_of found (binding-IsHex (listing s) found digesting b) in
      (
        record {
          bundle_b64 = s;
          members = members;
          is_text = refl;
          is_within = (extract_submission_bundle_iff a l s members).0 same;
          is_bound = b ∙ ap ok (sym exact ∙ ap codes shown);
        },
        at,
      )

  extracted-IsSubmitted :
      (v : Value) (r binding : String)
      → IsDigesting w.hashing
      → extract_and_bind a l root listing w.hashing v ≡ ok (r, binding)
      → IsSubmitted v binding × (root ≡ r)
  unfolding extract_and_bind
  extracted-IsSubmitted (str s) r binding digesting h =
      bind_extracted-IsSubmitted s r binding (extract_submission_bundle a l s) digesting refl h
  extracted-IsSubmitted null r binding digesting h = cc
  extracted-IsSubmitted (bool b) r binding digesting h = cc
  extracted-IsSubmitted (int z) r binding digesting h = cc
  extracted-IsSubmitted (float f) r binding digesting h = cc
  extracted-IsSubmitted (obj fields) r binding digesting h = absurd (ground arith)
  extracted-IsSubmitted (arr items) r binding digesting h = absurd (ground arith)

  extracted_of_funded :
      (rq : Request) (c : Option Credential) (r : String)
      → IsFunded (with_bundles a l root listing w) rq c (some r)
      → extract_and_bind a l root listing w.hashing rq.bundle_b64 ≡ ok (r, rq.bundle_sha256)
  unfolding with_bundles
  extracted_of_funded rq none r f = f.0
  extracted_of_funded rq (some c) r f = f.0

  -- Where `_run`, in a room that unpacks and binds bundles as room/bundle.py does, comes to call
  -- the profile on a job with a bundle, the request's bundle is a text that was unpacked within the
  -- three limits, the digest that the request states is the binding of what it was unpacked to, and
  -- the job's root is the directory of that. It takes that every digest is 32 bytes.
  pub prepare-IsSubmitted :
      (rq : Request) (job : Job) (r : String)
      → IsDigesting w.hashing
      → prepare (with_bundles a l root listing w) rq ≡ ok job
      → job.bundle_root ≡ some r
      → IsSubmitted rq.bundle_b64 rq.bundle_sha256 × (root ≡ r)
  prepare-IsSubmitted rq job r digesting h at =
      let funded = (prepare-IsFunded (with_bundles a l root listing w) rq job h).1 in
      let given : IsFunded (with_bundles a l root listing w) rq job.credential (some r) =
        rw (← at) funded in
      extracted-IsSubmitted rq.bundle_b64 r rq.bundle_sha256 digesting
        (extracted_of_funded rq job.credential r given)

  credential_bundle :
      (rq : Request) (c : Credential) (root' : Option String)
      → IsDigesting w.hashing
      → IsFunded (with_bundles a l root listing w) rq (some c) root'
      → IsSubmitted rq.bundle_b64 (binding_of c)
  credential_bundle rq c none digesting f = absurd f
  credential_bundle rq c (some r) digesting f =
      rw f.1
        (extracted-IsSubmitted rq.bundle_b64 r rq.bundle_sha256 digesting
          (extracted_of_funded rq (some c) r f)).0

  funded_bundle :
      (rq : Request) (job : Job) (c : Credential)
      → IsDigesting w.hashing
      → prepare (with_bundles a l root listing w) rq ≡ ok job
      → job.credential ≡ some c
      → IsSubmitted rq.bundle_b64 (binding_of c)
  funded_bundle rq job c digesting h paid =
      let funded = (prepare-IsFunded (with_bundles a l root listing w) rq job h).1 in
      credential_bundle rq c job.bundle_root digesting (rw (← paid) funded)

  -- Where `_run`, in a room that unpacks and binds bundles as room/bundle.py does, comes to call
  -- the profile on two jobs whose credentials are bound to one digest, the bundles of both requests
  -- are texts, and what they unpack to has the same files, path by path as encoded and content by
  -- content, apart from those that the binding leaves out, or two different texts have one SHA-256
  -- digest. It takes that every digest is 32 bytes.
  pub one_bundle_per_binding :
      (rq rq' : Request) (job job' : Job) (c c' : Credential)
      → IsDigesting w.hashing
      → prepare (with_bundles a l root listing w) rq ≡ ok job
      → prepare (with_bundles a l root listing w) rq' ≡ ok job'
      → job.credential ≡ some c
      → job'.credential ≡ some c'
      → binding_of c ≡ binding_of c'
      → (s : String) × (s' : String) × (rq.bundle_b64 ≡ str s)
        × (rq'.bundle_b64 ≡ str s')
        × ((included w.hashing (listing s) ≡ included w.hashing (listing s')) ⊎ Collision w.hashing)
  one_bundle_per_binding rq rq' job job' c c' digesting h h' paid paid' same =
      let i = funded_bundle rq job c digesting h paid in
      let i' = funded_bundle rq' job' c' digesting h' paid' in
      (
        i.bundle_b64,
        i'.bundle_b64,
        i.is_text,
        i'.is_text,
        binding_determines_files w.hashing (listing i.bundle_b64) (listing i'.bundle_b64)
            (codes (binding_of c)) digesting i.is_bound (rw same i'.is_bound),
      )
