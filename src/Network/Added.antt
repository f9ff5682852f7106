-- ===== src/Network/Added.antt =====
-- Which docker commands a chain adds to those before it.
use kata_tee_runner.Prelude.{
  ◌≡◌, refl, sym, ap, ◌∙◌, String, Bool, true, false, Option, none, some, [], ◌∷◌, ◌++◌,
  if◌then◌else◌, Result, ok, raise,
}
use kata_tee_runner.Network.Docker.{
  Process, Args, Calls, Failure, unhandled, Run, resume, ◌>>=◌, return,
}
use kata_tee_runner.Network.Chains.{docker}

pub append_assoc : (a b c : Calls) → (a ++ b) ++ c ≡ a ++ (b ++ c)
append_assoc [] b c = refl
append_assoc (x ∷ a) b c = ap (◌∷◌ x) (append_assoc a b c)

module _ (P : Args → Type 0) where
  abbrev pub Are : Calls → Type 0
  Are [] = Unit
  Are ((args, p) ∷ calls) = P args × Are calls

  -- A chain that adds such commands alone.
  abbrev pub Adds : {A : Type 0} → Run A → Type 0
  Adds m = (calls : Calls) → (added : Calls) × ((m calls).1 ≡ added ++ calls) × Are added

  pub Are-append : (a b : Calls) → Are a → Are b → Are (a ++ b)
  Are-append [] b x y = y
  Are-append ((args, p) ∷ a) b (c, x) y = (c, Are-append a b x y)

  pub return-Adds : {A : Type 0} (a : A) → Adds (return a)
  return-Adds a calls = ([], refl, tt)

  pub resume-Adds :
      {A B : Type 0} (rest : A → Run B) (r : Result Failure A × Calls) (calls added : Calls)
      → ((a : A) → Adds (rest a))
      → r.1 ≡ added ++ calls
      → Are added
      → (more : Calls) × ((resume rest r).1 ≡ more ++ calls) × Are more
  resume-Adds rest (raise failure, between) calls added later p all_good = (added, p, all_good)
  resume-Adds rest (ok a, between) calls added later p all_good =
      let (more, q, good) = later a between in
      (
        more ++ added,
        q ∙ (ap (λ c. more ++ c) p ∙ sym (append_assoc more added calls)),
        Are-append more added good all_good,
      )

  pub >>=-Adds :
      {A B : Type 0} (first : Run A) (rest : A → Run B)
      → Adds first
      → ((a : A) → Adds (rest a))
      → Adds (first >>= rest)
  >>=-Adds first rest now later calls =
      let (added, p, good) = now calls in resume-Adds rest (first calls) calls added later p good

  pub if-Adds :
      {A : Type 0} (b : Bool) (m n : Run A)
      → (b ≡ true → Adds m)
      → Adds n
      → Adds (if b then m else n)
  if-Adds true m n x y = x refl
  if-Adds false m n x y = y

  module _ (answer : Calls → Args → Option Process) (host : String) where
    pub docker-Adds : (args : Args) → P args → Adds (docker answer host args)
    unfolding docker
    docker-Adds args good calls = split (answer calls args)
      where
        split :
            (o : Option Process)
            → (added : Calls) × ((elim o as (λ _. Result Failure Process × Calls) [
              | none ↦ (raise unhandled, calls)
              | some p ↦ (ok p, (args, p) ∷ calls)
            ]).1
                ≡ added ++ calls)
              × Are added
        split none = ([], refl, tt)
        split (some p) = ((args, p) ∷ [], refl, (good, tt))
