-- ===== src/Network/Outcomes.antt =====
-- What the end of a chain of docker commands says of its commands.
use kata_tee_runner.Prelude.{
  ℕ, ◌≡◌, ◌≢◌, ◌⊎◌, inl, inr, refl, ap, if◌then◌else◌, eq_self, arith, String, Bool, true, false,
  not, ◌&&◌, Option, none, some, List, ◌∷◌, ◌==◌, string_eq, list_eq, nat_eq, Result, ok, raise,
  Option-cases,
}
use kata_tee_runner.Network.Docker.{Process, Args, Calls, Failure, unhandled, Run, resume, fail_if}
use kata_tee_runner.Network.Chains.{docker}

raise-ne-ok :
    {B : Type 0} (failure : Failure) (b : B) → ◌≢◌ {A = Result Failure B} (raise failure) (ok b)
raise-ne-ok failure b h = cc

pub resume-eq-ok :
    {A B : Type 0} (rest : A → Run B) (r : Result Failure A × Calls) (b : B) (after : Calls)
    → resume rest r ≡ (ok b, after)
    → (a : A) × (between : Calls) × (r ≡ (ok a, between)) × (rest a between ≡ (ok b, after))
resume-eq-ok rest (raise failure, between) b after h =
    absurd (raise-ne-ok failure b (ap (λ r. r.0) h))
resume-eq-ok rest (ok a, between) b after h = (a, between, refl, h)

pub fail_if-eq-ok :
    (test : Bool) (failure : Failure) (calls after : Calls)
    → fail_if test failure calls ≡ (ok tt, after)
    → (test ≡ false) × (calls ≡ after)
fail_if-eq-ok true failure calls after h = absurd (ground (arith, ap (λ r. r.0) h))
fail_if-eq-ok false failure calls after h = (refl, ap (λ r. r.1) h)

pub agreed : (xs ys : List ℕ) → not (xs == ys) ≡ false → xs ≡ ys
agreed xs ys h = ground arith

pub given :
    (b : Bool) (s : String) → ((if b then s else "") == "") ≡ false → (if b then s else "") ≡ s
given true s h = refl
given false s h = absurd (ground (arith, h, eq_self {A = String} ""))

pub either : (a b : Bool) → not a && not b ≡ false → (a ≡ true) ⊎ (b ≡ true)
either a b h = ground arith

module _ (answer : Calls → Args → Option Process) (host : String) where
  pub docker-eq-ok :
      (args : Args) (calls after : Calls) (p : Process)
      → docker answer host args calls ≡ (ok p, after)
      → (args, p) ∷ calls ≡ after
  unfolding docker
  docker-eq-ok args calls after p h = elim (Option-cases (answer calls args)) [
    | inl failed ↦ absurd (raise-ne-ok unhandled p (ap (λ r. r.0) (now none failed)))
    | inr (x, told) ↦
        let same : x ≡ p = ok-injective (ap (λ r. r.0) (now (some x) told)) in
        let then' : (args, x) ∷ calls ≡ after = ap (λ r. r.1) (now (some x) told) in
        rw (← same) then'
  ]
    where
      after_answer : Option Process → Result Failure Process × Calls
      after_answer none = (raise unhandled, calls)
      after_answer (some x) = (ok x, (args, x) ∷ calls)

      now : (o : Option Process) → answer calls args ≡ o → after_answer o ≡ (ok p, after)
      now o q = rw (← q) h

      ok-injective : {a b : Process} → ◌≡◌ {A = Result Failure Process} (ok a) (ok b) → a ≡ b
      ok-injective e = cc
