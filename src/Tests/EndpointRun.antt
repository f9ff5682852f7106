-- ===== src/Tests/EndpointRun.antt =====
-- room/server.py and kata_seal.py: a room that publishes its key, the tool that seals to it, and a pull.
use kata_tee_runner.Prelude.{
  ◌≡◌, ◌⊎◌, refl, arith, true, false, some, [], ◌∷◌, ok, string_eq, nat_eq, list_eq, or_raise,
}
use native.Mathlib.Decide.{ℕ_discrete, dec_lt}
use kata_tee_runner.Prelude.Cut.{cut}
use kata_tee_runner.Prelude.Dict.{lookup}
use kata_tee_runner.Prelude.Int.{pos, int_eq}
use kata_tee_runner.Prelude.Render.{text_of}
use kata_tee_runner.Prelude.Text.{strip}
use kata_tee_runner.Prelude.Value.{Fields, str, bool, obj, end, field, entries}
use kata_tee_runner.Auth.{secret, is_configured, verify, compare_digest}
use kata_tee_runner.Attest.Hex.{hex, unhexlify}
use kata_tee_runner.Gateway.Headers.{lower}
use kata_tee_runner.Network.Docker.{Process, Calls}
use kata_tee_runner.Network.Chains.{docker, log_in, ghcr_login}
use kata_tee_runner.Server.Interface.{truthy}
use kata_tee_runner.Server.Endpoints.{
  page, Keys, pubkey, Diagnostics, pull_args, digest_args, show_digest, show_pulled, pull_image,
  pull, pull_body, pull_test, profile_name,
}
use kata_tee_runner.Server.Pulled.{IsGuarded, pull_test-IsGuarded}
use kata_tee_runner.KataSeal.{unhandled}
use kata_tee_runner.KataSeal.Room.{World, fetch_pubkey, rstrip_slashes}
use kata_tee_runner.KataSeal.Main.{seal}
use kata_tee_runner.KataSeal.Honest.{IsHonest, seal-honest}
use kata_tee_runner.Tests.SealRun.{zeros, world, from, set_args, encoding}

names_profile : profile_name (some " lane.tee:Profile:x ") ≡ some ("lane.tee", "Profile:x")
unfolding profile_name cut strip string_eq nat_eq ℕ_discrete
names_profile = refl

abbrev keys : Keys
keys = record {
  sealing_privkey = some (9 ∷ []);
  public_key = λ secret. 2 ∷ zeros;
  sha256 = λ x. zeros;
  get_quote = λ x. some (record { quote = "04"; event_log = "log" });
}

abbrev document : Fields
document =
    field "pubkey" (str "020000000000000000000000000000000000000000000000000000000000000000")
      (field "quote" (str "04") (field "event_log" (str "log") end))

abbrev tool : World
tool = record world { loads_bytes = λ b. some (obj document) }

publishes : pubkey keys ≡ page 200 document
unfolding pubkey text_of dec_lt hex unhexlify
publishes = refl

fetches : fetch_pubkey tool "https://room/" ≡ ok (entries document)
unfolding fetch_pubkey rstrip_slashes strip string_eq nat_eq ℕ_discrete
fetches = refl

page-injective : (a b : Fields) → page 200 a ≡ page 200 b → a ≡ b
page-injective a b h = cc

honest :
    IsHonest tool keys "https://room/"
      "0000000000000000000000000000000000000000000000000000000000000000"
unfolding hex string_eq
honest = record {
  secret = 9 ∷ [];
  quote = record { quote = "04"; event_log = "log" };
  raw = 4 ∷ [];
  report = record { is_tdx = true; mr_config_id = 1 ∷ zeros; report_data = zeros };
  status = "UpToDate";
  has_secret = refl;
  is_compressed = refl;
  are_bytes = refl;
  same_sha256 = λ x. refl;
  is_quoted = refl;
  is_hexadecimal = refl;
  is_parsed = refl;
  is_tdx = refl;
  is_complete = refl;
  is_measured = refl;
  is_reported = refl;
  is_status = refl;
  is_healthy = refl;
  is_delivered = λ fields shown.
      rw (page-injective fields document (ground (arith, shown, publishes))) fetches;
}

seal-honest_example :
    seal tool encoding from set_args (str "payload")
    ≡ or_raise (encoding.encrypt (text_of (hex (2 ∷ zeros))) "text") unhandled
seal-honest_example =
    seal-honest tool keys "https://room/"
      "0000000000000000000000000000000000000000000000000000000000000000" honest encoding from
      set_args (str "payload") refl refl

abbrev diagnostics : Diagnostics
diagnostics = record {
  enabled = some "TRUE";
  auth_secret = some "secret";
  hmac = λ secret raw. "5eed";
  loads_bytes = λ raw. some (obj (field "project_key" (str "p") end));
  image = λ key. some "ghcr.io/lane:1";
  user = "kata";
  token = "t";
  answer = λ calls args. some (record { returncode = pos 0; stdout = "sha256:1"; stderr = "" });
  host = "room";
}

abbrev done : Process
done = record { returncode = pos 0; stdout = "sha256:1"; stderr = "" }

abbrev after : Calls
after =
    (digest_args "ghcr.io/lane:1", done)
    ∷ (pull_args "ghcr.io/lane:1", done)
    ∷ ("login" ∷ "ghcr.io" ∷ "-u" ∷ "kata" ∷ "--password-stdin" ∷ [], done)
    ∷ []

pulls_image : pull_test diagnostics (123 ∷ []) (some "5eed") false [] ≡ (
  (
    page 200 (
        field "ok"
          (bool true)
          (field "image" (str "ghcr.io/lane:1") (field "digest" (str "sha256:1") end))),
    after,
  ),
  true,
)
unfolding pull_test pull_body pull pull_image show_pulled show_digest ghcr_login log_in docker
    is_configured secret verify compare_digest truthy lookup lower strip string_eq nat_eq list_eq
    int_eq ℕ_discrete
pulls_image = refl

pull_test-IsGuarded_example :
    (((pull_test diagnostics (123 ∷ []) (some "5eed") false []).0.1 ≡ [])
      × ((pull_test diagnostics (123 ∷ []) (some "5eed") false []).1 ≡ false))
    ⊎ IsGuarded diagnostics
        (123 ∷ [])
        (some "5eed")
        false
        []
        (pull_test diagnostics (123 ∷ []) (some "5eed") false []).0.1
pull_test-IsGuarded_example = pull_test-IsGuarded diagnostics (123 ∷ []) (some "5eed") false []
