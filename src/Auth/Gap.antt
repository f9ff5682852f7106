-- ===== src/Auth/Gap.antt =====
-- The clock skew that the time window allows is not known to the store of nonces.
use kata_tee_runner.Prelude.{◌<◌, ◌≡◌, refl, String, true, none, [], ◌∷◌, arith, string_eq}
use kata_tee_runner.Prelude.Dict.{Dict, insert}
use kata_tee_runner.Prelude.Int.{ℤ, pos, ◌+ℤ◌, ◌≤ℤ◌, ◌<ℤ◌, +ℤ_parts}
use kata_tee_runner.Auth.{Policy, ReplayGuard, check_window, purge, trim, reserve}
use kata_tee_runner.Auth.Window.{IsTimely, none_of_IsTimely}

abbrev pub AllExpired : ℤ → Dict String ℤ → Type 0
AllExpired now [] = Unit
AllExpired now ((_, e) ∷ d) = (e <ℤ now) × AllExpired now d

purge-AllExpired : (now : ℤ) (d : Dict String ℤ) → AllExpired now d → purge now d ≡ []
unfolding purge
purge-AllExpired now [] h = refl
purge-AllExpired now ((_, e) ∷ d) (old, rest) = ground (arith, purge-AllExpired now d rest)

reserve-AllExpired :
    (g : ReplayGuard) (nonce : String) (e now : ℤ)
    → 0 < g.max_entries
    → AllExpired now g.seen
    → reserve g nonce e now ≡ (record g { seen = (nonce, e) ∷ [] }, true)
unfolding reserve insert trim
reserve-AllExpired g nonce e now room old = rw (purge-AllExpired now g.seen old) (ground arith)

-- A signed request whose window is accepted and whose nonce is reserved is accepted once more after
-- its expiry, for as long as the skew lets it pass the window test, if the other entries of the
-- store had expired and the store has room for one: the store drops the nonce at the expiry, the
-- window test goes on for the skew.
pub replay_in_skew :
    (p : Policy) (g : ReplayGuard) (nonce : String) (issued expires now later : ℤ)
    → 0 < g.max_entries
    → AllExpired now g.seen
    → IsTimely p now issued expires
    → now ≤ℤ later
    → expires <ℤ later
    → later ≤ℤ expires +ℤ pos p.skew
    → (check_window p now issued expires ≡ none)
      × ((reserve g nonce expires now).1 ≡ true)
      × (check_window p later issued expires ≡ none)
      × ((reserve (reserve g nonce expires now).0 nonce expires later).1 ≡ true)
replay_in_skew p g nonce issued expires now later room old timely ordered past within = (
  none_of_IsTimely p now issued expires timely,
  rw (reserve-AllExpired g nonce expires now room old) refl,
  none_of_IsTimely p later issued expires (record {
    issued = omega (arith, timely.issued, +ℤ_parts now (pos p.skew), +ℤ_parts later (pos p.skew));
    ordered = timely.ordered;
    short = timely.short;
    unexpired = within;
  }),
  rw (reserve-AllExpired g nonce expires now room old) (
      rw
        (reserve-AllExpired (record g { seen = (nonce, expires) ∷ [] }) nonce expires later room
          (omega arith, tt))
        refl),
)
