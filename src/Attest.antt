-- ===== src/Attest.antt =====
-- room/attest.py, which binds a report and its provenance into a quote, and verify_run.py, which
-- recomputes what the quote commits to. `Hashing` holds what both take from elsewhere: SHA-256,
-- `json.dumps` in its canonical form, and UTF-8. Bytes are lists of numbers below 256.
pub mod Hex
pub mod Verified
use kata_tee_runner.Prelude.{
  ℕ, String, Bool, ◌&&◌, Option, none, some, List, ◌++◌, ◌==◌, nat_eq, list_eq,
}
use kata_tee_runner.Prelude.Value.{Value, Fields, str, obj, end, field}
use kata_tee_runner.Prelude.Text.{Codes, codes}
use Hex.{hex, unhexlify}

abbrev pub Bytes : Type 0
Bytes = List ℕ

pub record Hashing : Type 0 where
  pub sha256 : Bytes → Bytes
  pub canonical : Value → Bytes
  pub encode : String → Bytes

-- `get_client().get_quote(report_data)`
pub record Quote : Type 0 where
  pub quote : String
  pub event_log : String

-- What `/run` answers with: the fields of the JSON object, whether a run or a credential failure.
-- A digest in hexadecimal is its code points.
pub record Response : Type 0 where
  pub nonce : String
  pub project_key : String
  pub report : Value
  pub bundle_sha256 : String
  pub provenance : Value
  pub answer_sha256 : Codes
  pub binding_sha256 : Codes
  pub report_data_sha256 : Codes
  pub quote : Quote

unfoldable pub binding_payload : Value → String → Value → Value
binding_payload report bundle_sha256 provenance = obj (
    field "report" report
      (field "bundle_sha256" (str bundle_sha256) (field "provenance" provenance end)))

pub record Bound : Type 0 where
  pub answer_hash : Bytes
  pub binding_hash : Bytes
  pub report_data : Bytes
  pub quote : Quote

module _ (h : Hashing) where
  unfoldable pub bind_and_quote : (Bytes → Quote) → Value → Bytes → String → String → Value → Bound
  bind_and_quote get_quote report nonce project_key bundle_sha256 provenance =
      let binding_hash = h.sha256 (h.canonical (binding_payload report bundle_sha256 provenance)) in
      let report_data = h.sha256 (nonce ++ (h.encode project_key ++ binding_hash)) in
      record {
        answer_hash = h.sha256 (h.canonical report);
        binding_hash = binding_hash;
        report_data = report_data;
        quote = get_quote report_data;
      }

  -- `main()` of verify_run.py on a saved response and the nonce given on the command line; `none`
  -- is the exception of `unhexlify`.
  unfoldable pub verify_run : Response → String → Option Bool
  verify_run saved nonce_hex = elim (unhexlify (codes nonce_hex)) [
    | none ↦ none
    | some nonce ↦
        let binding = obj (
          field "report" saved.report (
            field "bundle_sha256" (str saved.bundle_sha256)
              (field "provenance" saved.provenance end))) in
        let binding_hash = h.sha256 (h.canonical binding) in
        some (
          hex (h.sha256 (h.canonical saved.report)) == saved.answer_sha256
          && hex binding_hash == saved.binding_sha256
          && hex (h.sha256 (nonce ++ (h.encode saved.project_key ++ binding_hash)))
            == saved.report_data_sha256)
  ]
