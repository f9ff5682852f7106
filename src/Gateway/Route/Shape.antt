-- ===== src/Gateway/Route/Shape.antt =====
-- The paths of the gateway's routes: which groups of `match_route` fit, and the path that they make.
use kata_tee_runner.Prelude.{
  ℕ, ◌≡◌, refl, sym, ap, ◌∙◌, arith, String, ◌<>◌, Bool, true, false, not, ◌||◌, Option, some, [],
  ◌∷◌, ◌==◌, contains, all, leb, string_eq, nat_eq, Result, ok, eq_self, >>=-eq-ok, or_raise,
  or_raise-eq-ok, raise_if, ◌>>=◌, ◌>>◌,
}
use Prim.Native.Char.{Char}
use Prim.Native.String.append
use kata_tee_runner.Prelude.Text.{
  Codes, codes, after_prefix, is_hex_text, is_hex, is_lower, is_digit,
}
use kata_tee_runner.Prelude.Cut.{
  cut, IsFree, cut-append, cut-eq-some, after_prefix-append, after_prefix-eq-some,
}
use kata_tee_runner.Auth.{compare_digest}
use kata_tee_runner.Sealing.{is_provider_id, provider_codes}
use kata_tee_runner.Gateway.Route.{RouteError, unauthorized, type_error, RouteMatch, match_route}

free_of_all :
    (p : ℕ → Bool) (cs : Codes) (c : ℕ) → p c ≡ false → all p cs ≡ true → contains cs c ≡ false
free_of_all p [] c no_c h = refl
free_of_all p (d ∷ cs) c no_c h = elim (nat_eq.dec c d) [
  | yes e ↦ absurd (ground (arith, ap p e))
  | no e ↦ ground (arith, free_of_all p cs c no_c)
]

hex_IsFree : (s : String) (lo hi c : ℕ) → is_hex c ≡ false → is_hex_text lo hi s ≡ true → IsFree c s
hex_IsFree s lo hi c no_c h = free_of_all is_hex (codes s) c no_c (ground arith)

abbrev is_provider_code : ℕ → Bool
is_provider_code d = is_lower d || is_digit d || d == b'_' || d == b'-'

provider_IsFree : (s : String) → is_provider_id s ≡ true → IsFree b'~' s
unfolding is_provider_id nat_eq
provider_IsFree s h = codes_IsFree (codes s) h
  where
    codes_IsFree : (cs : Codes) → provider_codes cs ≡ true → contains cs b'~' ≡ false
    codes_IsFree [] h = refl
    codes_IsFree (c ∷ cs) h =
        ground (arith, free_of_all is_provider_code cs b'~' refl (ground arith))

abbrev path_of : RouteMatch → String
path_of m = "/j/" <> (m.job_id <> ("~" <> (m.provider <> ("~" <> (m.signature <> "/inference")))))

-- What `fullmatch` asks of the groups.
pub record IsRoute (m : RouteMatch) : Type 0 where
  pub job : is_hex_text 16 64 m.job_id ≡ true
  pub provider : is_provider_id m.provider ≡ true
  pub signature : is_hex_text 64 64 m.signature ≡ true

one-append : (c : Char) (s : String) → (String.◌∷◌ c "") <> s ≡ String.◌∷◌ c s
one-append c s = append.cons c "" s ∙ ap (String.◌∷◌ c) (append.nil s)

assemble :
    (path route a b c d e f : String)
    → path ≡ "/j/" <> route
    → route ≡ a <> String.◌∷◌ "~" b
    → b ≡ c <> String.◌∷◌ "~" d
    → d ≡ e <> String.◌∷◌ "/" f
    → f ≡ "inference"
    → path ≡ "/j/" <> (a <> ("~" <> (c <> ("~" <> (e <> "/inference")))))
assemble path route a b c d e f p q r s t =
    p
    ∙ ap (λ x. "/j/" <> x)
        (q
          ∙ ap (λ x. a <> x)
              (after "~" b _
                (r ∙ ap (λ x. c <> x) (after "~" d _ (s ∙ ap (λ x. e <> String.◌∷◌ "/" x) t)))))
  where
    after : (sep : Char) (x y : String) → x ≡ y → String.◌∷◌ sep x ≡ (String.◌∷◌ sep "") <> y
    after sep x y g = ap (String.◌∷◌ sep) g ∙ sym (one-append sep y)

pub match_route-eq-ok :
    (path : String) (m : RouteMatch) → match_route path ≡ ok m → (path ≡ path_of m) × IsRoute m
unfolding match_route
match_route-eq-ok path m h =
    let (route, r, h₁) = >>=-eq-ok (or_raise (after_prefix "/j/" path) unauthorized) _ h in
    let (job, j, h₂) = >>=-eq-ok (or_raise (cut b'~' route) unauthorized) _ h₁ in
    let (provider, p, h₃) = >>=-eq-ok (or_raise (cut b'~' job.1) unauthorized) _ h₂ in
    let (signature, s, h₄) = >>=-eq-ok (or_raise (cut b'/' provider.1) unauthorized) _ h₃ in
    let same : record { job_id = job.0; provider = provider.0; signature = signature.0 } ≡ m =
      ground (arith, h₄) in
    let last : signature.1 ≡ "inference" = ground (arith, h₄) in
    let route_is = after_prefix-eq-some "/j/" path route (or_raise-eq-ok _ unauthorized route r) in
    let job_is = (cut-eq-some "~" route job.0 job.1 (or_raise-eq-ok _ unauthorized job j)).0 in
    let provider_is =
      (cut-eq-some "~" job.1 provider.0 provider.1 (or_raise-eq-ok _ unauthorized provider p)).0 in
    let signature_is =
      (cut-eq-some "/" provider.1 signature.0 signature.1
        (or_raise-eq-ok _ unauthorized signature s)).0 in
    rw (← same) (
      assemble path route job.0 job.1 provider.0 provider.1 signature.0 signature.1 route_is job_is
          provider_is signature_is last,
      record {
        job = ground (arith, h₄);
        provider = ground (arith, h₄);
        signature = ground (arith, h₄);
      },
    )

pub match_route-path_of : (m : RouteMatch) → IsRoute m → match_route (path_of m) ≡ ok m
unfolding match_route
match_route-path_of m r =
    rw
      (
        match_route,
        path_of,
        after_prefix-append "/j/"
            (m.job_id <> ("~" <> (m.provider <> ("~" <> (m.signature <> "/inference"))))),
        one-append "~" (m.provider <> ("~" <> (m.signature <> "/inference"))),
        one-append "~" (m.signature <> "/inference"),
        cut-append "~" m.job_id (m.provider <> String.◌∷◌ "~" (m.signature <> "/inference"))
            (hex_IsFree m.job_id 16 64 b'~' refl r.job),
        cut-append "~" m.provider (m.signature <> "/inference")
            (provider_IsFree m.provider r.provider),
        cut-append "/" m.signature "inference" (hex_IsFree m.signature 64 64 b'/' refl r.signature),
      )
      (ground (arith, r.job, r.provider, r.signature))

hex_IsAscii : (cs : Codes) → all is_hex cs ≡ true → all (λ c. leb c 127) cs ≡ true
hex_IsAscii [] h = refl
hex_IsAscii (c ∷ cs) h = ground (arith, hex_IsAscii cs (ground arith))

abbrev agree : Bool → Option Bool → String × String → Result RouteError (String × String)
agree configured compared found = do
  raise_if (not configured) unauthorized
  same ← or_raise compared type_error
  raise_if (not same) unauthorized
  ok found

pub agreed :
    (configured : Bool) (compared : Option Bool) (found shown : String × String)
    → agree configured compared found ≡ ok shown
    → (configured ≡ true) × (compared ≡ some true) × (found ≡ shown)
agreed configured compared found shown h = ground arith

pub compare_digest_self : (s : String) → is_hex_text 64 64 s ≡ true → compare_digest s s ≡ some true
unfolding compare_digest
compare_digest_self s h = ground (arith, hex_IsAscii (codes s) (ground arith), eq_self s)
