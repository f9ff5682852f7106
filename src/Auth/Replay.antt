-- ===== src/Auth/Replay.antt =====
-- The store of used nonces: bounded, and single use for as long as an entry is kept.
use kata_tee_runner.Prelude.{
  ℕ, suc, ◌+◌, ◌≤◌, ◌<◌, ◌≡◌, refl, ◌⊎◌, inl, inr, String, true, false, List, [], ◌∷◌, ◌++◌, arith,
  length, length-append, contains, ltb, string_eq, Bool-cases,
}
use kata_tee_runner.Prelude.Dict.{Dict, keys, insert}
use kata_tee_runner.Prelude.Int.{ℤ, ◌≤ℤ◌, leb_ℤ}
use kata_tee_runner.Auth.{ReplayGuard, purge, trim, reserve}

length-trim-le : (n : ℕ) (d : Dict String ℤ) → length (trim n d) ≤ n
unfolding trim
length-trim-le n [] = omega arith
length-trim-le n (e ∷ d) = ground (arith, length-trim-le n d)

length-purge-le : (now : ℤ) (d : Dict String ℤ) → length (purge now d) ≤ length d
unfolding purge
length-purge-le now [] = omega arith
length-purge-le now (e ∷ d) = ground (arith, length-purge-le now d)

-- A store of nonces that is within its limit is within its limit after `reserve`, whose limit is
-- the same.
reserve-bounded :
    (g : ReplayGuard) (nonce : String) (expires_at now : ℤ)
    → length g.seen ≤ g.max_entries
    → (length (reserve g nonce expires_at now).0.seen ≤ g.max_entries)
      × ((reserve g nonce expires_at now).0.max_entries ≡ g.max_entries)
unfolding reserve
reserve-bounded g nonce expires_at now h = (
  ground (
    arith,
    length-purge-le now g.seen,
    length-trim-le g.max_entries (insert nonce expires_at (purge now g.seen)),
  ),
  ground arith,
)

-- An entry for the nonce, not expired at `now`, with at most `n` entries after it.
abbrev pub IsKept : String → ℤ → ℕ → Dict String ℤ → Type 0
IsKept nonce e n [] = ⊥
IsKept nonce e n ((k, x) ∷ d) = ((k ≡ nonce) × (x ≡ e) × (length d ≤ n)) ⊎ IsKept nonce e n d

purge-IsKept :
    (nonce : String) (e : ℤ) (n : ℕ) (now : ℤ) (d : Dict String ℤ)
    → now ≤ℤ e
    → IsKept nonce e n d
    → IsKept nonce e n (purge now d)
unfolding purge
purge-IsKept nonce e n now [] fresh k = k
purge-IsKept nonce e n now ((j, x) ∷ d) fresh k = elim (Bool-cases (leb_ℤ now x)) [
  | inl stays ↦ rw stays k
  | inr goes ↦ rw goes (elim k [
    | inl (_, same, _) ↦ absurd (ground (arith, same))
    | inr later ↦ purge-IsKept nonce e n now d fresh later
  ])
]

contains-IsKept :
    (nonce : String) (e : ℤ) (n : ℕ) (d : Dict String ℤ)
    → IsKept nonce e n d
    → contains (keys d) nonce ≡ true
contains-IsKept nonce e n [] k = absurd k
contains-IsKept nonce e n ((j, x) ∷ d) (inl (same, _, _)) = ground arith
contains-IsKept nonce e n ((j, x) ∷ d) (inr later) =
    ground (arith, contains-IsKept nonce e n d later)

weaken-IsKept :
    (nonce : String) (e : ℤ) (n m : ℕ) (d : Dict String ℤ)
    → n ≤ m
    → IsKept nonce e n d
    → IsKept nonce e m d
weaken-IsKept nonce e n m [] h k = k
weaken-IsKept nonce e n m ((j, x) ∷ d) h (inl (a, b, c)) = inl (a, b, omega arith)
weaken-IsKept nonce e n m ((j, x) ∷ d) h (inr later) = inr (weaken-IsKept nonce e n m d h later)

trim-IsKept :
    (nonce : String) (e : ℤ) (n max : ℕ) (d : Dict String ℤ)
    → n < max
    → IsKept nonce e n d
    → IsKept nonce e n (trim max d)
unfolding trim
trim-IsKept nonce e n max [] h k = k
trim-IsKept nonce e n max ((j, x) ∷ d) h k = elim (Bool-cases (ltb max (length ((j, x) ∷ d)))) [
  | inl over ↦ rw over (elim k [
    | inl (_, _, last) ↦ absurd (ground arith)
    | inr later ↦ trim-IsKept nonce e n max d h later
  ])
  | inr fits ↦ rw fits k
]

insert-new :
    (nonce : String) (e : ℤ) (d : Dict String ℤ)
    → contains (keys d) nonce ≡ false
    → insert nonce e d ≡ d ++ (nonce, e) ∷ []
unfolding insert
insert-new nonce e [] h = refl
insert-new nonce e ((j, x) ∷ d) h = ground (arith, insert-new nonce e d)

append-IsKept :
    (nonce : String) (e : ℤ) (n : ℕ) (d : Dict String ℤ) (m : String) (x : ℤ)
    → IsKept nonce e n d
    → IsKept nonce e (suc n) (d ++ (m, x) ∷ [])
append-IsKept nonce e n [] m x k = absurd k
append-IsKept nonce e n ((j, y) ∷ d) m x (inl (a, b, c)) =
    inl (a, b, omega (arith, length-append {0} d ((m, x) ∷ [])))
append-IsKept nonce e n ((j, y) ∷ d) m x (inr later) = inr (append-IsKept nonce e n d m x later)

last-IsKept : (nonce : String) (e : ℤ) (d : Dict String ℤ) → IsKept nonce e 0 (d ++ (nonce, e) ∷ [])
last-IsKept nonce e [] = inl (refl, refl, omega arith)
last-IsKept nonce e ((j, x) ∷ d) = inr (last-IsKept nonce e d)

reserve-IsKept :
    (nonce : String) (e : ℤ) (n : ℕ) (g : ReplayGuard) (m : String) (x now : ℤ)
    → now ≤ℤ e
    → suc n < g.max_entries
    → IsKept nonce e n g.seen
    → IsKept nonce e (suc n) (reserve g m x now).0.seen
unfolding reserve
reserve-IsKept nonce e n g m x now fresh room k =
    let live = purge-IsKept nonce e n now g.seen fresh k in
    elim (Bool-cases (contains (keys (purge now g.seen)) m)) [
      | inl old ↦ rw old (weaken-IsKept nonce e n (suc n) (purge now g.seen) (omega arith) live)
      | inr new ↦ rw new (
          rw (insert-new m x (purge now g.seen) new) (
            trim-IsKept nonce e (suc n) g.max_entries _ room
              (append-IsKept nonce e n (purge now g.seen) m x live)))
    ]

max_entries-reserve :
    (g : ReplayGuard) (m : String) (x now : ℤ) → (reserve g m x now).0.max_entries ≡ g.max_entries
unfolding reserve
max_entries-reserve g m x now = ground arith

-- Reservations of other requests, each with its nonce, its expiry and the time of the call.
pub record Call : Type 0 where
  pub nonce : String
  pub expires_at : ℤ
  pub now : ℤ

abbrev pub reserve_all : ReplayGuard → List Call → ReplayGuard
reserve_all g [] = g
reserve_all g (c ∷ calls) = reserve_all (reserve g c.nonce c.expires_at c.now).0 calls

abbrev pub AllBefore : ℤ → List Call → Type 0
AllBefore e [] = Unit
AllBefore e (c ∷ calls) = (c.now ≤ℤ e) × AllBefore e calls

refused_of_IsKept :
    (calls : List Call) (nonce : String) (e : ℤ) (n : ℕ) (g : ReplayGuard) (again now : ℤ)
    → IsKept nonce e n g.seen
    → AllBefore e calls
    → length calls + n < g.max_entries
    → now ≤ℤ e
    → (reserve (reserve_all g calls) nonce again now).1 ≡ false
refused_of_IsKept [] nonce e n g again now k before room fresh =
    unfold reserve in
    ground (
      arith,
      contains-IsKept nonce e n (purge now g.seen) (purge-IsKept nonce e n now g.seen fresh k),
    )
refused_of_IsKept (c ∷ calls) nonce e n g again now k (first, before) room fresh =
    refused_of_IsKept calls nonce e (suc n) _ again now
      (reserve-IsKept nonce e n g c.nonce c.expires_at c.now first (omega arith) k) before
      (omega (arith, max_entries-reserve g c.nonce c.expires_at c.now)) fresh

taken-IsKept :
    (g : ReplayGuard) (nonce : String) (e now : ℤ)
    → 0 < g.max_entries
    → (reserve g nonce e now).1 ≡ true
    → IsKept nonce e 0 (reserve g nonce e now).0.seen
unfolding reserve
taken-IsKept g nonce e now room taken =
    elim (Bool-cases (contains (keys (purge now g.seen)) nonce)) [
      | inl old ↦ absurd (ground arith)
      | inr new ↦ rw new (
          rw (insert-new nonce e (purge now g.seen) new)
            (trim-IsKept nonce e 0 g.max_entries _ room (last-IsKept nonce e (purge now g.seen))))
    ]

-- A nonce that `reserve` has taken is refused again until its expiry, with any other calls in
-- between, so long as these are fewer than `max_entries` and come no later than the expiry.
pub reserve_once :
    (g : ReplayGuard) (nonce : String) (e now : ℤ) (calls : List Call) (again later : ℤ)
    → (reserve g nonce e now).1 ≡ true
    → AllBefore e calls
    → length calls < g.max_entries
    → later ≤ℤ e
    → (reserve (reserve_all (reserve g nonce e now).0 calls) nonce again later).1 ≡ false
reserve_once g nonce e now calls again later taken before room fresh =
    refused_of_IsKept calls nonce e 0 _ again later (taken-IsKept g nonce e now (omega arith) taken)
      before (omega (arith, max_entries-reserve g nonce e now)) fresh
