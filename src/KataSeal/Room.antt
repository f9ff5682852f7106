-- ===== src/KataSeal/Room.antt =====
-- kata_seal.py: the room's public key, and the check of the quote that comes with it. `World` holds the
-- libraries that the tool calls; `none` stands for an exception of theirs.
use kata_tee_runner.Prelude.{
  ℕ, ◌*◌, String, Bool, true, false, not, ◌&&◌, ◌||◌, Option, none, some, List, [], ◌∷◌, ◌++◌, ◌<>◌,
  take, length, contains, all, ltb, if◌then◌else◌, ◌==◌, nat_eq, string_eq, list_eq, Result, ok,
  ◌>>=◌, ◌>>◌, raise_if, or_raise,
}
use Prim.Native.Char.{code}
use kata_tee_runner.Prelude.Dict.{Dict}
use kata_tee_runner.Prelude.Text.{Codes, codes, strip, is_hex}
use kata_tee_runner.Prelude.Value.{Value, as_dict}
use kata_tee_runner.Attest.{Bytes}
use kata_tee_runner.Attest.Hex.{hex, unhexlify}
use kata_tee_runner.KataSeal.{
  SealError, bad_room_url, large_response, bad_document, malformed_quote, not_tdx, incomplete_quote,
  unhealthy_status, wrong_measurement, malformed_pubkey, unbound_pubkey, unhandled,
}

pub record Url : Type 0 where
  pub scheme : String
  pub netloc : String
  pub username : Option String
  pub password : Option String
  pub query : String
  pub fragment : String

-- The report of a parsed quote; a quote that does not say which kind it is counts as TDX.
pub record QuoteReport : Type 0 where
  pub is_tdx : Bool
  pub mr_config_id : Bytes
  pub report_data : Bytes

-- `http_get` opens an URL, redirects refused; `fromhex` is `bytes.fromhex`; `parse_quote` and `tcb_status`
-- are `dcap_qvl`'s, the latter with the collateral fetched and the status of the verified quote.
pub record World : Type 0 where
  pub urlparse : String → Option Url
  pub http_get : String → Option Bytes
  pub loads_bytes : Bytes → Option Value
  pub fromhex : String → Option Bytes
  pub parse_quote : Bytes → Option QuoteReport
  pub tcb_status : Bytes → Option String
  pub sha256 : Bytes → Bytes

-- `url.rstrip("/")`
unfoldable pub rstrip_slashes : String → String
rstrip_slashes String.[] = String.[]
rstrip_slashes (String.◌∷◌ c s) =
    let rest = rstrip_slashes s in
    if code c == b'/' && rest == "" then String.[] else String.◌∷◌ c rest

abbrev is_absent : Option String → Bool
is_absent none = true
is_absent (some s) = false

abbrev pub is_room_url : Url → Bool
is_room_url url =
    url.scheme == "https"
    && not (url.netloc == "")
    && is_absent url.username
    && is_absent url.password
    && url.query == ""
    && url.fragment == ""

abbrev pub max_document_bytes : ℕ
max_document_bytes = 64 * 1024

abbrev pub healthy_tcb_statuses : List String
healthy_tcb_statuses = "OK" ∷ "SW_HARDENING_NEEDED" ∷ "UpToDate" ∷ "SWHardeningNeeded" ∷ []

-- `bytes[first:last]` with `first ≤ last`
abbrev pub drop_one : Bytes → Bytes
drop_one [] = []
drop_one (b ∷ bs) = bs

abbrev pub is_pubkey : String → Bool
is_pubkey pubkey = length (codes pubkey) == 66 && all is_hex (codes pubkey)

module _ (w : World) where
  unfoldable pub fetch_pubkey : String → Result SealError (Dict String Value)
  unfolding rstrip_slashes
  fetch_pubkey room = do
    let url = rstrip_slashes (strip room)
    parsed ← or_raise (w.urlparse url) unhandled
    raise_if (not (is_room_url parsed)) bad_room_url
    response ← or_raise (w.http_get (url <> "/pubkey")) unhandled
    let body = take 65537 response
    raise_if (ltb max_document_bytes (length body)) large_response
    document ← or_raise (w.loads_bytes body) bad_document
    or_raise (as_dict document) bad_document

  unfoldable pub expected_binding : Bytes → Bytes
  expected_binding pubkey = w.sha256 (codes "kata-sealing-pubkey:" ++ pubkey)

  -- `verify_room(quote_hex, pubkey, expected_measurement)`
  unfoldable pub verify_room : String → String → String → Result SealError (Codes × String)
  unfolding expected_binding
  verify_room quote_hex pubkey expected_measurement = do
    raw ← or_raise (w.fromhex quote_hex) malformed_quote
    report ← or_raise (w.parse_quote raw) unhandled
    raise_if (not report.is_tdx) not_tdx
    raise_if (ltb (length report.mr_config_id) 33 || ltb (length report.report_data) 32)
        incomplete_quote
    let measurement = hex (take 32 (drop_one report.mr_config_id))
    status ← or_raise (w.tcb_status raw) unhandled
    raise_if (not (contains healthy_tcb_statuses status)) unhealthy_status
    raise_if (not (measurement == codes expected_measurement)) wrong_measurement
    raise_if (not (is_pubkey pubkey)) malformed_pubkey
    key ← or_raise (unhexlify (codes pubkey)) unhandled
    raise_if (not (take 32 report.report_data == expected_binding key)) unbound_pubkey
    ok (measurement, status)
