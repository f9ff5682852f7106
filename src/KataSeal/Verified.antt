-- ===== src/KataSeal/Verified.antt =====
-- To which key the tool seals.
use kata_tee_runner.Prelude.{
  affirmed, ◌≡◌, ◌⊎◌, inl, inr, arith, if◌then◌else◌, Bool-cases, [], String, true, false, not,
  ◌&&◌, ◌||◌, some, ◌++◌, take, length, contains, ltb, ◌==◌, nat_eq, string_eq, list_eq, ok,
  >>=-eq-ok, >>-eq-ok, or_raise, or_raise-eq-ok,
}
use kata_tee_runner.Prelude.Dict.{Dict}
use kata_tee_runner.Prelude.Text.{Codes, codes}
use kata_tee_runner.Prelude.Value.{Value}
use kata_tee_runner.Attest.{Bytes}
use kata_tee_runner.Attest.Hex.{hex, unhexlify}
use kata_tee_runner.Sealing.{text_at, is_sha256}
use kata_tee_runner.KataSeal.{missing_pubkey, malformed_quote, unhandled}
use kata_tee_runner.KataSeal.Keys.{Sources}
use kata_tee_runner.KataSeal.Room.{
  World, QuoteReport, healthy_tcb_statuses, drop_one, is_pubkey, fetch_pubkey, expected_binding,
  verify_room,
}
use kata_tee_runner.KataSeal.Main.{Args, Encoding, seal, single_mode, set_mode, main}

-- What makes a key that of the room with the given measurement.
pub record IsRoomKey (w : World) (quote pubkey measurement : String) : Type 0 where
  pub raw : Bytes
  pub report : QuoteReport
  pub status : String
  pub key : Bytes
  pub is_quote : w.fromhex quote ≡ some raw
  pub is_report : w.parse_quote raw ≡ some report
  pub is_tdx : report.is_tdx ≡ true
  pub is_complete :
      (ltb (length report.mr_config_id) 33 || ltb (length report.report_data) 32) ≡ false
  pub is_status : w.tcb_status raw ≡ some status
  pub is_healthy : contains healthy_tcb_statuses status ≡ true
  pub is_measured : hex (take 32 (drop_one report.mr_config_id)) ≡ codes measurement
  pub is_formed : is_pubkey pubkey ≡ true
  pub is_key : unhexlify (codes pubkey) ≡ some key
  pub is_bound : take 32 report.report_data ≡ w.sha256 (codes "kata-sealing-pubkey:" ++ key)

verify_room-IsRoomKey :
    (w : World) (quote pubkey measurement : String) (found : Codes × String)
    → verify_room w quote pubkey measurement ≡ ok found
    → IsRoomKey w quote pubkey measurement
unfolding verify_room expected_binding
verify_room-IsRoomKey w quote pubkey measurement found h =
    let (raw, q, h₁) = >>=-eq-ok (or_raise (w.fromhex quote) malformed_quote) _ h in
    let (report, r, h₂) = >>=-eq-ok (or_raise (w.parse_quote raw) unhandled) _ h₁ in
    let (tdx, h₃) = >>-eq-ok (not report.is_tdx) _ _ h₂ in
    let (long, h₄) =
      >>-eq-ok (ltb (length report.mr_config_id) 33 || ltb (length report.report_data) 32) _ _ h₃ in
    let (status, s, h₅) = >>=-eq-ok (or_raise (w.tcb_status raw) unhandled) _ h₄ in
    let (healthy, h₆) = >>-eq-ok (not (contains healthy_tcb_statuses status)) _ _ h₅ in
    let (measured, h₇) =
      >>-eq-ok (not (hex (take 32 (drop_one report.mr_config_id)) == codes measurement)) _ _ h₆ in
    let (formed, h₈) = >>-eq-ok (not (is_pubkey pubkey)) _ _ h₇ in
    let (key, k, h₉) = >>=-eq-ok (or_raise (unhexlify (codes pubkey)) unhandled) _ h₈ in
    let (bound, _) =
      >>-eq-ok (not (take 32 report.report_data == w.sha256 (codes "kata-sealing-pubkey:" ++ key)))
        _ _ h₉ in
    record {
      raw = raw;
      report = report;
      status = status;
      key = key;
      is_quote = or_raise-eq-ok (w.fromhex quote) malformed_quote raw q;
      is_report = or_raise-eq-ok (w.parse_quote raw) unhandled report r;
      is_tdx = affirmed report.is_tdx tdx;
      is_complete = long;
      is_status = or_raise-eq-ok (w.tcb_status raw) unhandled status s;
      is_healthy = affirmed (contains healthy_tcb_statuses status) healthy;
      is_measured =
          agreed (hex (take 32 (drop_one report.mr_config_id))) (codes measurement) measured;
      is_formed = affirmed (is_pubkey pubkey) formed;
      is_key = or_raise-eq-ok (unhexlify (codes pubkey)) unhandled key k;
      is_bound =
          agreed (take 32 report.report_data) (w.sha256 (codes "kata-sealing-pubkey:" ++ key))
            bound;
    }
  where
    agreed : (xs ys : Codes) → not (xs == ys) ≡ false → xs ≡ ys
    agreed xs ys h = ground arith

module _ (w : World) (e : Encoding) (from : Sources) where
  -- What `main` has made of its arguments where it returns.
  pub record IsSealed (args : Args) (sealed : String) : Type 0 where
    pub payload : Value
    pub info : Dict String Value
    pub pubkey : String
    pub quote : String
    pub is_fetched : fetch_pubkey w args.room ≡ ok info
    pub is_pubkey : text_at "pubkey" info ≡ some pubkey
    pub is_quote : text_at "quote" info ≡ some quote
    pub is_built :
        (if not (args.provider == "") then single_mode from args else set_mode from args)
        ≡ ok payload
    pub is_verified : (args.no_verify ≡ true) ⊎ IsRoomKey w quote pubkey args.measurement
    pub is_encrypted : e.encrypt pubkey (e.dumps payload) ≡ some sealed

  -- Where the sealing tool returns, the sealed text is the payload of its mode, encrypted under the
  -- public key that the room published; and unless the check is turned off, the room's quote is a
  -- TDX quote of a healthy platform, states the measurement that the miner has approved, and binds
  -- this public key.
  pub main-IsSealed :
      (args : Args) (sealed : String) → main w e from args ≡ ok sealed → IsSealed args sealed
  unfolding main seal
  main-IsSealed args sealed h =
      let (_, h₁) = >>-eq-ok (not args.no_verify && not (is_sha256 args.measurement)) _ _ h in
      let (_, h₂) = >>-eq-ok (not args.is_dir) _ _ h₁ in
      let (payload, b, h₃) =
        >>=-eq-ok (if not (args.provider == "") then single_mode from args else set_mode from args)
          _ h₂ in
      let (info, f, h₄) = >>=-eq-ok (fetch_pubkey w args.room) _ h₃ in
      let (pubkey, k, h₅) = >>=-eq-ok (or_raise (text_at "pubkey" info) missing_pubkey) _ h₄ in
      let (quote, q, h₆) = >>=-eq-ok (or_raise (text_at "quote" info) missing_pubkey) _ h₅ in
      let (found, v, h₇) =
        >>=-eq-ok
          (if args.no_verify then ok ([], "") else verify_room w quote pubkey args.measurement) _
          h₆ in
      record {
        payload = payload;
        info = info;
        pubkey = pubkey;
        quote = quote;
        is_fetched = f;
        is_pubkey = or_raise-eq-ok _ missing_pubkey pubkey k;
        is_quote = or_raise-eq-ok _ missing_pubkey quote q;
        is_built = b;
        is_verified = verified args quote pubkey found v;
        is_encrypted = or_raise-eq-ok _ unhandled sealed h₇;
      }
    where
      verified :
          (args : Args) (quote pubkey : String) (found : Codes × String)
          → (if args.no_verify then ok ([], "") else verify_room w quote pubkey args.measurement)
            ≡ ok found
          → (args.no_verify ≡ true) ⊎ IsRoomKey w quote pubkey args.measurement
      verified args quote pubkey found v = elim (Bool-cases args.no_verify) [
        | inl off ↦ inl off
        | inr on ↦
            inr
              (verify_room-IsRoomKey w quote pubkey args.measurement found (ground (arith, on, v)))
      ]
