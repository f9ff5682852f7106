-- ===== src/KataSeal/Written.antt =====
-- What the sealing tool leaves in the file system.
use kata_tee_runner.Prelude.{
  ◌*◌, ◌≡◌, ◌≢◌, ◌⊎◌, inl, inr, refl, ◌∙◌, arith, String, Bool, not, Bool-cases, Result, ok, raise,
  true, false, ◌&&◌, Option, none, some, string_eq,
}
use kata_tee_runner.Prelude.Dict.{
  insert, erase, lookup, lookup-insert, lookup-erase, lookup-insert_self, lookup-insert_ne,
}
use kata_tee_runner.KataSeal.Files.{
  File, Files, Calls, private_file, fill, clear, write_atomically, written_as, main_writing,
}
use kata_tee_runner.KataSeal.{SealError}
use kata_tee_runner.KataSeal.Keys.{Sources}
use kata_tee_runner.KataSeal.Room.{World}
use kata_tee_runner.KataSeal.Main.{Args, Encoding, main}
use kata_tee_runner.KataSeal.Verified.{IsSealed, main-IsSealed}

abbrev is_given : Option String → Bool
is_given none = false
is_given (some s) = true

abbrev calls : Bool → Option String → Bool → Bool → Option String → Bool → Bool → Bool → Calls
calls mkdir temporary fchmod fdopen torn fsync replace unlink = record {
  mkdir = mkdir;
  temporary = temporary;
  fchmod = fchmod;
  fdopen = fdopen;
  torn = torn;
  fsync = fsync;
  replace = replace;
  unlink = unlink;
}

-- None of the calls raises but perhaps the one that cleans up.
abbrev pub goes_well : Calls → Bool
goes_well c =
    c.mkdir
    && is_given c.temporary
    && c.fchmod
    && c.fdopen
    && not (is_given c.torn)
    && c.fsync
    && c.replace

module _ (c : Calls) (path text : String) (files : Files) where
  -- The path has the text, for the owner alone, and every other file is as it was.
  abbrev pub IsWritten : Files → Type 0
  IsWritten after =
      (lookup path after ≡ some (record { mode = 6 * 64; text = text }))
      × ((q : String) → q ≢ path → lookup q after ≡ lookup q files)

  -- Every file is as it was, but for a temporary one that could not be removed.
  abbrev pub IsUntouched : Files → Type 0
  IsUntouched after =
      (q : String)
      → (lookup q after ≡ lookup q files) ⊎ ((c.temporary ≡ some q) × (c.unlink ≡ false))

  module _ (t : String) (fresh : lookup t files ≡ none) where
    -- The files are as they were, apart from the temporary one.
    abbrev IsAside : Files → Type 0
    IsAside after = (q : String) → q ≢ t → lookup q after ≡ lookup q files

    insert-IsAside : (f : File) (after : Files) → IsAside after → IsAside (insert t f after)
    insert-IsAside f after aside q other = ground (arith, lookup-insert q t f after, aside q other)

    erase-IsAside :
        (after : Files) → IsAside after → (q : String) → lookup q (erase t after) ≡ lookup q files
    erase-IsAside after aside q = elim (string_eq.dec q t) [
      | yes same ↦ rw same (ground (arith, lookup-erase t t after, fresh))
      | no other ↦ ground (arith, lookup-erase q t after, aside q other)
    ]

    clear-IsUntouched :
        (after : Files)
        → c.temporary ≡ some t
        → IsAside after
        → IsUntouched (clear c t (false, after)).1
    unfolding clear
    clear-IsUntouched after named aside q = elim (Bool-cases c.unlink) [
      | inl can ↦ rw can (inl (erase-IsAside after aside q))
      | inr cannot ↦ elim (string_eq.dec q t) [
        | yes same ↦ inr (rw same named, cannot)
        | no other ↦ rw cannot (inl (aside q other))
      ]
    ]

    erased_IsWritten :
        (after : Files)
        → IsAside after
        → IsWritten (insert path (private_file text) (erase t after))
    erased_IsWritten after aside = (
      lookup-insert_self path (private_file text) (erase t after),
      λ q other.
          lookup-insert_ne q path (private_file text) (erase t after) other
          ∙ erase-IsAside after aside q,
    )

    -- How the `try` ends: well or not, and with which files.
    abbrev IsFilled : Bool → Bool × Files → Type 0
    IsFilled well (true, after) = (well ≡ true) × IsWritten after
    IsFilled well (false, after) = (well ≡ false) × IsAside after

    fill-IsFilled :
        (start : Files) (mkdir : Bool) (temporary : Option String) (fchmod fdopen : Bool)
        (torn : Option String) (fsync replace unlink : Bool)
        → IsAside start
        → IsFilled
            (fchmod && fdopen && not (is_given torn) && fsync && replace)
            (fill (calls mkdir temporary fchmod fdopen torn fsync replace unlink) t path text start)
    unfolding fill
    fill-IsFilled start m n false o w s r u aside = (refl, aside)
    fill-IsFilled start m n true false w s r u aside = (refl, aside)
    fill-IsFilled start m n true true (some part) s r u aside =
        (refl, insert-IsAside (private_file part) start aside)
    fill-IsFilled start m n true true none false r u aside =
        (refl, insert-IsAside (private_file text) start aside)
    fill-IsFilled start m n true true none true false u aside =
        (refl, insert-IsAside (private_file text) start aside)
    fill-IsFilled start m n true true none true true u aside =
        (refl, erased_IsWritten _ (insert-IsAside (private_file text) start aside))

  -- How `write_atomically` ends.
  abbrev pub IsSettled : Bool → Bool × Files → Type 0
  IsSettled well (true, after) = (well ≡ true) × IsWritten after
  IsSettled well (false, after) = (well ≡ false) × IsUntouched after

  clear-IsSettled :
      (t : String) (fresh : lookup t files ≡ none) (well : Bool) (x : Bool × Files)
      → c.temporary ≡ some t
      → IsFilled t fresh well x
      → IsSettled well (clear c t x)
  unfolding clear
  clear-IsSettled t fresh well (true, after) named f = f
  clear-IsSettled t fresh well (false, after) named f =
      (f.0, clear-IsUntouched t fresh after named f.1)

cases-IsSettled :
    (path text : String) (files : Files) (mkdir : Bool) (temporary : Option String)
    (fchmod fdopen : Bool) (torn : Option String) (fsync replace unlink : Bool)
    → ((t : String) → temporary ≡ some t → lookup t files ≡ none)
    → let c = calls mkdir temporary fchmod fdopen torn fsync replace unlink in
      IsSettled c path text files (goes_well c) (write_atomically c path text files)
unfolding write_atomically
cases-IsSettled path text files false n m o w s r u fresh = (refl, λ q. inl refl)
cases-IsSettled path text files true none m o w s r u fresh = (refl, λ q. inl refl)
cases-IsSettled path text files true (some t) m o w s r u fresh =
    let c = calls true (some t) m o w s r u in
    let absent = fresh t refl in
    let aside =
      insert-IsAside c path text files t absent (private_file "") files (λ q other. refl) in
    clear-IsSettled c path text files t absent _ _ refl (
      fill-IsFilled c path text files t absent (insert t (private_file "") files) true (some t) m o
        w s r u aside)

-- Where the temporary name is a new one: the text is written and nothing else has changed, or all is as
-- it was but for the temporary file.
write_atomically-IsSettled :
    (c : Calls) (path text : String) (files : Files)
    → ((t : String) → c.temporary ≡ some t → lookup t files ≡ none)
    → IsSettled c path text files (goes_well c) (write_atomically c path text files)
write_atomically-IsSettled c path text files =
    cases-IsSettled path text files c.mkdir c.temporary c.fchmod c.fdopen c.torn c.fsync c.replace
      c.unlink

module _ (w : World) (e : Encoding) (from : Sources) (args : Args) (c : Calls) (output : String)
    (files : Files) where
  -- What the tool leaves: the sealed text at its path, or everything as it was.
  abbrev pub IsLeft : Result SealError String × Files → Type 0
  IsLeft (ok sealed, after) = IsSealed w e from args sealed × IsWritten c output sealed files after
  IsLeft (raise error, after) =
      IsUntouched c output "" files after
      × ((main w e from args ≡ raise error) ⊎ (goes_well c ≡ false))

  written_as-IsLeft :
      (sealed : String) (x : Bool × Files)
      → IsSealed w e from args sealed
      → IsSettled c output sealed files (goes_well c) x
      → IsLeft (written_as sealed x)
  written_as-IsLeft sealed (true, after) is_sealed settled = (is_sealed, settled.1)
  written_as-IsLeft sealed (false, after) is_sealed settled = (settled.1, inr settled.0)

  -- Where the sealing tool returns, its output path holds the sealed text, readable by the owner
  -- alone, and every other file is as it was; the sealed text is the payload of its mode, encrypted
  -- under the public key that the room published; and unless the check is turned off, the room's
  -- quote is a TDX quote of a healthy platform, states the measurement that the miner has approved,
  -- and binds this public key. Where the tool raises, every file is as it was, but for a temporary
  -- one that could not be removed, and it is an error of the steps before the writing or a call of
  -- the writing raised. It takes that the temporary name is a new one.
  pub main_writing-IsLeft :
      ((t : String) → c.temporary ≡ some t → lookup t files ≡ none)
      → IsLeft (main_writing w e from args c output files)
  unfolding main_writing
  main_writing-IsLeft fresh = split (main w e from args) refl
    where
      split :
          (r : Result SealError String)
          → main w e from args ≡ r
          → IsLeft (main_writing w e from args c output files)
      split (raise error) same = rw (main_writing, same) (λ q. inl refl, inl same)
      split (ok sealed) same =
          rw (main_writing, same)
            (written_as-IsLeft sealed _ (main-IsSealed w e from args sealed same)
              (write_atomically-IsSettled c output sealed files fresh))
