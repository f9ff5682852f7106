-- ===== src/Server/Submission.antt =====
-- room/server.py with room/bundle.py: `_run` on the bundle that a request brings. `root` is the directory
-- that the bundle is unpacked to, and `listing` what stands below it after the bundle's text is unpacked.
use kata_tee_runner.Prelude.{
  ℕ, suc, ◌+◌, ◌*◌, ◌/◌, String, Option, none, some, List, ltb, if◌then◌else◌, Result, ok, raise,
}
use kata_tee_runner.Prelude.Render.{text_of}
use kata_tee_runner.Prelude.Text.{Codes}
use kata_tee_runner.Prelude.Value.{Value, str, obj, arr, Fields, end, field, Items, nil, cons}
use kata_tee_runner.Attest.{Hashing}
use kata_tee_runner.Bundle.{Entry, BindingError, irregular, too_long, credential_bundle_binding}
use kata_tee_runner.Bundle.Extraction.{
  Member, ExtractError, missing_bundle, compressed_size, not_base64, file_count, extracted_size,
  unsafe_archive, unhandled, Archives, Limits, extract_submission_bundle,
}
use kata_tee_runner.Server.Interface.{World}

-- `str(exc)` of a `RuntimeError`; `none` for another exception
abbrev pub message : ExtractError → Option String
message missing_bundle = some "TEE run is missing its candidate bundle"
message compressed_size = some "candidate bundle exceeds the compressed-size policy"
message not_base64 = some "candidate bundle is not valid base64"
message file_count = some "candidate bundle exceeds the file-count policy"
message extracted_size = some "candidate bundle exceeds the extracted-size policy"
message unsafe_archive = some "candidate bundle is not a safe gzip tar archive"
message unhandled = none

abbrev pub binding_message : BindingError → Option String
binding_message irregular = some "credential binding accepts regular bundle files only"
binding_message too_long = none

abbrev pub items_length : Items → ℕ
items_length nil = 0
items_length (cons v vs) = suc (items_length vs)

abbrev pub fields_length : Fields → ℕ
fields_length end = 0
fields_length (field k v fs) = suc (fields_length fs)

-- A list or a dict of the given length: too long, or a `TypeError` of `b64decode`
abbrev pub unfit : Limits → ℕ → Result (Option String) (String × String)
unfit l n =
    if ltb ((l.max_compressed + 2) / 3 * 4) n then raise (message compressed_size) else raise none

abbrev pub found_at : String → Result BindingError Codes → Result (Option String) (String × String)
found_at root (raise e) = raise (binding_message e)
found_at root (ok binding) = ok (root, text_of binding)

module _ (a : Archives) (l : Limits) (root : String) (listing : String → List Entry)
    (h : Hashing) where
  abbrev pub bind_extracted :
      String → Result ExtractError (List Member) → Result (Option String) (String × String)
  bind_extracted bundle_b64 (raise e) = raise (message e)
  bind_extracted bundle_b64 (ok members) =
      found_at root (credential_bundle_binding h (listing bundle_b64))

  -- The `try` of `_run` around the extraction and the binding, of a bundle that is not empty
  unfoldable pub extract_and_bind : Value → Result (Option String) (String × String)
  extract_and_bind (str bundle_b64) =
      bind_extracted bundle_b64 (extract_submission_bundle a l bundle_b64)
  extract_and_bind (arr items) = unfit l (items_length items)
  extract_and_bind (obj fields) = unfit l (fields_length fields)
  extract_and_bind _ = raise none

-- The room's surroundings, with its own treatment of bundles.
unfoldable pub with_bundles : Archives → Limits → String → (String → List Entry) → World → World
unfolding extract_and_bind
with_bundles a l root listing w = record w { extract = extract_and_bind a l root listing w.hashing }
