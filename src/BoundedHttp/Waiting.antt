-- ===== src/BoundedHttp/Waiting.antt =====
-- room/bounded_http.py: `wait_for_release`. The clock is given in ticks.
use kata_tee_runner.Prelude.{
  ℕ, ◌+◌, ◌≤◌, ◌<◌, ◌≡◌, ◌⊎◌, inl, inr, arith, Bool, true, false, Option, none, some, List, [], ◌∷◌,
  length, leb, if◌then◌else◌, Bool-cases,
}

-- What the loop finds after a wait: the clock, and the number of releases.
pub record Wakeup : Type 0 where
  pub now : ℕ
  pub release_count : ℕ

-- The loop, over the waits that come to an end; `none` is a wait that does not.
unfoldable pub wait_until : ℕ → ℕ → Wakeup → List Wakeup → Option Bool
wait_until at_least deadline seen [] =
    if leb at_least seen.release_count
    then some true
    else if leb deadline seen.now
    then some false
    else none
wait_until at_least deadline seen (w ∷ ws) =
    let rest = wait_until at_least deadline w ws in
    if leb at_least seen.release_count
    then some true
    else if leb deadline seen.now
    then some false
    else rest

-- `wait_for_release(at_least=..., timeout=...)`, called at the time `start`
unfoldable pub wait_for_release : ℕ → ℕ → ℕ → Wakeup → List Wakeup → Option Bool
unfolding wait_until
wait_for_release at_least timeout start seen ws = wait_until at_least (start + timeout) seen ws

-- A wait ends since `_note_release` has counted a release and notified, or since its time is up.
abbrev pub AreWaits : ℕ → Wakeup → List Wakeup → Type 0
AreWaits deadline seen [] = Unit
AreWaits deadline seen (w ∷ ws) =
    ((seen.release_count < w.release_count)
      ⊎ ((seen.release_count ≤ w.release_count) × (deadline ≤ w.now)))
    × AreWaits deadline w ws

-- The answer fits a moment that the loop has come to: enough releases, or too few and the time is up.
abbrev pub Fits : ℕ → ℕ → Bool → Wakeup → Type 0
Fits at_least deadline true seen = at_least ≤ seen.release_count
Fits at_least deadline false seen = (seen.release_count < at_least) × (deadline ≤ seen.now)

-- ... at one of the moments.
abbrev pub FitsOne : ℕ → ℕ → Bool → Wakeup → List Wakeup → Type 0
FitsOne at_least deadline b seen [] = Fits at_least deadline b seen
FitsOne at_least deadline b seen (w ∷ ws) =
    Fits at_least deadline b seen ⊎ FitsOne at_least deadline b w ws

now_FitsOne :
    (a d : ℕ) (b : Bool) (seen : Wakeup) (ws : List Wakeup)
    → Fits a d b seen
    → FitsOne a d b seen ws
now_FitsOne a d b seen [] f = f
now_FitsOne a d b seen (w ∷ ws) f = inl f

wait_until-ends :
    (a d : ℕ) (seen : Wakeup) (ws : List Wakeup)
    → AreWaits d seen ws
    → (a ≤ seen.release_count + length ws) ⊎ (d ≤ seen.now)
    → (b : Bool) × (wait_until a d seen ws ≡ some b) × FitsOne a d b seen ws
unfolding wait_until
wait_until-ends a d seen [] waits bound = elim (Bool-cases (leb a seen.release_count)) [
  | inl enough ↦ (true, ground arith, ground arith)
  | inr few ↦ (false, ground arith, (ground arith, ground arith))
]
wait_until-ends a d seen (w ∷ ws) waits bound = elim (Bool-cases (leb a seen.release_count)) [
  | inl enough ↦ (true, ground arith, inl (ground arith))
  | inr few ↦ elim (Bool-cases (leb d seen.now)) [
    | inl late ↦ (false, ground arith, inl (ground arith, ground arith))
    | inr early ↦
        let (b, ends, fits) = wait_until-ends a d w ws waits.1 (next waits.0 (ground arith)) in
        (b, ground (arith, ends), inr fits)
  ]
]
  where
    next :
        ((seen.release_count < w.release_count)
          ⊎ ((seen.release_count ≤ w.release_count) × (d ≤ w.now)))
        → a ≤ seen.release_count + (length ws + 1)
        → (a ≤ w.release_count + length ws) ⊎ (d ≤ w.now)
    next (inl more) h = inl (omega arith)
    next (inr (same, late)) h = inr late

-- Where each wait ends since a release has been counted or since the time is up, and there are as
-- many waits as releases are missing, `wait_for_release` returns; it returns True at a moment when
-- the releases asked for have been counted, or False at one when they have not and the time is up.
pub wait_for_release-ends :
    (at_least timeout start : ℕ) (seen : Wakeup) (ws : List Wakeup)
    → AreWaits (start + timeout) seen ws
    → at_least ≤ seen.release_count + length ws
    → (b : Bool) × (wait_for_release at_least timeout start seen ws ≡ some b)
      × FitsOne at_least (start + timeout) b seen ws
unfolding wait_for_release
wait_for_release-ends at_least timeout start seen ws waits bound =
    wait_until-ends at_least (start + timeout) seen ws waits (inl bound)
