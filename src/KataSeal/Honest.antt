-- ===== src/KataSeal/Honest.antt =====
-- kata_seal.py with the room's `/pubkey` of room/server.py: the tool seals to a room that is what it says.
use kata_tee_runner.Prelude.{
  ℕ, Bool-cases, inl, inr, ◌≡◌, refl, ap, ◌∙◌, arith, String, true, false, ◌||◌, some, ◌++◌, take,
  length, all, contains, ltb, nat_eq, string_eq, list_eq, eq_self, ok, or_raise,
}
use kata_tee_runner.Prelude.Render.{text_of, codes-text_of}
use kata_tee_runner.Prelude.Text.{codes}
use kata_tee_runner.Prelude.Value.{Value, Fields, str, end, field, entries}
use kata_tee_runner.Attest.{Bytes, Quote}
use kata_tee_runner.Attest.Hex.{hex, unhexlify, is_byte, unhexlify-hex, hex-IsHex, length-hex}
use kata_tee_runner.Server.Endpoints
use kata_tee_runner.Server.Endpoints.{page, Keys, published, quoted, pubkey}
use kata_tee_runner.Prelude.Dict.{lookup}
use kata_tee_runner.Sealing.{text_at}
use kata_tee_runner.KataSeal.{unhandled}
use kata_tee_runner.KataSeal.Room.{
  World, QuoteReport, healthy_tcb_statuses, drop_one, is_pubkey, fetch_pubkey, expected_binding,
  verify_room,
}
use kata_tee_runner.KataSeal.Keys.{Sources}
use kata_tee_runner.KataSeal.Main.{Args, Encoding, seal}
use kata_tee_runner.KataSeal.Verified.{IsRoomKey}

verify_room-ok :
    (w : World) (quote key measurement : String) (i : IsRoomKey w quote key measurement)
    → verify_room w quote key measurement ≡ ok (codes measurement, i.status)
unfolding verify_room expected_binding
verify_room-ok w quote key measurement i =
    rw
      (
        i.is_quote,
        i.is_report,
        i.is_tdx,
        i.is_complete,
        i.is_status,
        i.is_healthy,
        i.is_measured,
        eq_self (codes measurement),
        i.is_formed,
        i.is_key,
        i.is_bound,
        eq_self (w.sha256 (codes "kata-sealing-pubkey:" ++ i.key)),
      )
      refl

-- A room in order: it has a key, whose compressed form is 33 bytes; its quote is, to the library of the
-- tool, of a healthy platform of the given measurement, with the report data that was asked for first; and
-- the tool reads the document as the room has sent it.
pub record IsHonest (w : World) (k : Keys) (room measurement : String) : Type 0 where
  pub secret : Bytes
  pub quote : Quote
  pub raw : Bytes
  pub report : QuoteReport
  pub status : String
  pub has_secret : k.sealing_privkey ≡ some secret
  pub is_compressed : length (k.public_key secret) ≡ 33
  pub are_bytes : all is_byte (k.public_key secret) ≡ true
  pub same_sha256 : (x : Bytes) → k.sha256 x ≡ w.sha256 x
  pub is_quoted :
      k.get_quote (k.sha256 (codes "kata-sealing-pubkey:" ++ k.public_key secret)) ≡ some quote
  pub is_hexadecimal : w.fromhex quote.quote ≡ some raw
  pub is_parsed : w.parse_quote raw ≡ some report
  pub is_tdx : report.is_tdx ≡ true
  pub is_complete :
      (ltb (length report.mr_config_id) 33 || ltb (length report.report_data) 32) ≡ false
  pub is_measured : hex (take 32 (drop_one report.mr_config_id)) ≡ codes measurement
  pub is_reported :
      take 32 report.report_data ≡ k.sha256 (codes "kata-sealing-pubkey:" ++ k.public_key secret)
  pub is_status : w.tcb_status raw ≡ some status
  pub is_healthy : contains healthy_tcb_statuses status ≡ true
  pub is_delivered :
      (fields : Fields) → pubkey k ≡ page 200 fields → fetch_pubkey w room ≡ ok (entries fields)

module _ (w : World) (k : Keys) (room measurement : String)
    (i : IsHonest w k room measurement) where
  abbrev pub shown : String
  shown = text_of (hex (k.public_key i.secret))

  codes-shown : codes shown ≡ hex (k.public_key i.secret)
  codes-shown = codes-text_of _ (hex-IsHex _ i.are_bytes)

  shown_key : unhexlify (codes shown) ≡ some (k.public_key i.secret)
  shown_key = ap unhexlify codes-shown ∙ unhexlify-hex _ i.are_bytes

  shown_IsFormed : is_pubkey shown ≡ true
  shown_IsFormed =
      let long : length (hex (k.public_key i.secret)) ≡ 66 =
        omega (arith, length-hex (k.public_key i.secret), i.is_compressed) in
      rw (codes-shown, long, hex-IsHex (k.public_key i.secret) i.are_bytes, eq_self {A = ℕ} 66) refl

  abbrev document : Fields
  document =
      field "pubkey" (str shown)
        (field "quote" (str i.quote.quote) (field "event_log" (str i.quote.event_log) end))

  pubkey_page : pubkey k ≡ page 200 document
  unfolding pubkey
  pubkey_page =
      ap (Endpoints.shown k) i.has_secret
      ∙ (ap (quoted k shown) shown_key ∙ ap (published k shown) i.is_quoted)

  text_at-pubkey : text_at "pubkey" (entries document) ≡ some shown
  unfolding lookup string_eq
  text_at-pubkey = refl

  text_at-quote : text_at "quote" (entries document) ≡ some i.quote.quote
  unfolding lookup string_eq
  text_at-quote = refl

  honest_IsRoomKey : IsRoomKey w i.quote.quote shown measurement
  honest_IsRoomKey = record {
    raw = i.raw;
    report = i.report;
    status = i.status;
    key = k.public_key i.secret;
    is_quote = i.is_hexadecimal;
    is_report = i.is_parsed;
    is_tdx = i.is_tdx;
    is_complete = i.is_complete;
    is_status = i.is_status;
    is_healthy = i.is_healthy;
    is_measured = i.is_measured;
    is_formed = shown_IsFormed;
    is_key = shown_key;
    is_bound = i.is_reported ∙ i.same_sha256 _;
  }

  -- To a room that has a sealing key, whose `/pubkey` the tool reads as the room sends it, and
  -- whose quote the tool's library finds to be a complete TDX quote of a healthy platform, of the
  -- approved measurement and with the report data that the room asked for, the tool seals: what it
  -- returns is the payload encrypted under the room's compressed public key in hexadecimal, with
  -- the check of the room or without it.
  pub seal-honest :
      (e : Encoding) (from : Sources) (args : Args) (payload : Value)
      → args.room ≡ room
      → args.measurement ≡ measurement
      → seal w e from args payload ≡ or_raise (e.encrypt shown (e.dumps payload)) unhandled
  unfolding seal
  seal-honest e from args payload at measured =
      let fetched : fetch_pubkey w args.room ≡ ok (entries document) =
        rw at (i.is_delivered document pubkey_page) in
      elim (Bool-cases args.no_verify) [
        | inl off ↦ rw (fetched, text_at-pubkey, text_at-quote, off) refl
        | inr on ↦
            rw
              (
                fetched,
                text_at-pubkey,
                text_at-quote,
                on,
                measured,
                verify_room-ok w i.quote.quote shown measurement honest_IsRoomKey,
              )
              refl
      ]
