-- ===== src/Auth.antt =====
-- room/auth.py: the signature of a request, its time window, and the store of used nonces. `hmac`
-- stands for HMAC-SHA256 with a hexadecimal digest, under the secret's text.
pub mod Window
pub mod Replay
pub mod Gap
use kata_tee_runner.Prelude.{
  ℕ, ◌≡◌, String, Bool, true, false, not, ◌&&◌, Option, none, some, List, [], ◌∷◌, length, contains,
  ltb, if◌then◌else◌, ◌==◌, string_eq, Result, ok, raise, ◌>>=◌,
}
use kata_tee_runner.Prelude.Dict.{Dict, keys, lookup, insert}
use kata_tee_runner.Prelude.Int.{ℤ, pos, ltb_ℤ, leb_ℤ, ◌+ℤ◌, ◌-ℤ◌}
use kata_tee_runner.Prelude.Numbers.{IntError, malformed, overflow, int_value, env_int}
use kata_tee_runner.Prelude.Text.{strip, is_ascii}
use kata_tee_runner.Prelude.Value.{Value}

-- `_secret()`, of the environment variable's value
unfoldable pub secret : Option String → String
secret none = ""
secret (some raw) = strip raw

unfoldable pub is_configured : Option String → Bool
unfolding secret
is_configured env = not (secret env == "")

-- `hmac.compare_digest(a, b)` on texts; `none` is the `TypeError` that it raises on other than ASCII
unfoldable pub compare_digest : String → String → Option Bool
compare_digest a b = if is_ascii a && is_ascii b then some (a == b) else none

module _ (hmac : String → List ℕ → String) where
  -- `verify(body, signature)`; the header is `none` where it is absent
  unfoldable pub verify : Option String → List ℕ → Option String → Option Bool
  unfolding is_configured compare_digest
  verify env body signature =
      if is_configured env
      then compare_digest (hmac (secret env) body) (elim signature [ none ↦ "" | some s ↦ strip s ])
      else some false

-- `request_lifetime_seconds()` and `request_clock_skew_seconds()`
unfoldable pub lifetime_seconds : Option String → ℕ
lifetime_seconds = env_int 1 1200

unfoldable pub clock_skew_seconds : Option String → ℕ
clock_skew_seconds = env_int 0 30

-- The two limits of the room's policy.
pub record Policy : Type 0 where
  pub lifetime : ℕ
  pub skew : ℕ

-- `int(payload[name])`
unfoldable pub claim : Dict String Value → String → Result IntError ℤ
claim payload name = elim (lookup name payload) [ none ↦ raise malformed | some v ↦ int_value v ]

abbrev pub claims_message : String
claims_message = "request must include integer issued_at and expires_at"

-- The tests of `validate_request_window` on the two claims.
unfoldable pub check_window : Policy → ℤ → ℤ → ℤ → Option String
check_window p current issued_at expires_at =
    if ltb_ℤ (current +ℤ pos p.skew) issued_at
    then some "request issued_at is too far in the future"
    else if leb_ℤ expires_at issued_at
    then some "request expires_at must be after issued_at"
    else if ltb_ℤ (pos p.lifetime) (expires_at -ℤ issued_at)
    then some "request lifetime exceeds the room policy"
    else if ltb_ℤ expires_at (current -ℤ pos p.skew)
    then some "request has expired"
    else none

-- What the `try` of `validate_request_window` makes of the claims: an `OverflowError` passes.
unfoldable pub window_of :
    Policy → ℤ → Result IntError ℤ → Result IntError ℤ → Result IntError (Option String)
window_of p current (ok i) (ok e) = ok (check_window p current i e)
window_of p current (raise overflow) e = raise overflow
window_of p current (ok i) (raise overflow) = raise overflow
window_of p current _ _ = ok (some claims_message)

-- `validate_request_window(payload, now=current)`
unfoldable pub validate_request_window :
    Policy → Dict String Value → ℤ → Result IntError (Option String)
unfolding window_of
validate_request_window p payload current =
    window_of p current (claim payload "issued_at") (claim payload "expires_at")

pub record ReplayGuard : Type 0 where
  pub max_entries : ℕ
  pub seen : Dict String ℤ

-- The first loop of `reserve`: old entries leave from the front, up to one that has not expired.
unfoldable pub purge : ℤ → Dict String ℤ → Dict String ℤ
purge current [] = []
purge current ((nonce, expiry) ∷ d) =
    let rest = purge current d in if leb_ℤ current expiry then (nonce, expiry) ∷ d else rest

-- The second loop: the oldest entries leave while there are too many.
unfoldable pub trim : ℕ → Dict String ℤ → Dict String ℤ
trim n [] = []
trim n (e ∷ d) = let rest = trim n d in if ltb n (length (e ∷ d)) then rest else e ∷ d

-- `reserve(nonce_hex, expires_at=expires_at, now=current)`
unfoldable pub reserve : ReplayGuard → String → ℤ → ℤ → ReplayGuard × Bool
reserve g nonce expires_at current =
    let live = purge current g.seen in
    if contains (keys live) nonce
    then (record g { seen = live }, false)
    else (record g { seen = trim g.max_entries (insert nonce expires_at live) }, true)

-- `clear()`
unfoldable pub clear : ReplayGuard → ReplayGuard
clear g = record g { seen = [] }
