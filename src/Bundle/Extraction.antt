-- ===== src/Bundle/Extraction.antt =====
-- room/bundle.py: the extraction of a bundle under its limits. `Archives` stands for `base64`, `tarfile`
-- and the file system.
use kata_tee_runner.Prelude.{
  ℕ, ◌+◌, ◌*◌, ◌/◌, String, Bool, Option, List, [], ◌∷◌, length, ltb, if◌then◌else◌, ◌==◌,
  string_eq, Result, ok, raise, ◌>>=◌, ◌>>◌, raise_if, or_raise,
}
use kata_tee_runner.Prelude.Numbers.{env_int}
use kata_tee_runner.Prelude.Text.{codes}
use kata_tee_runner.Attest.{Bytes}

-- A member of the archive; `is_file` is `member.isfile()`.
pub record Member : Type 0 where
  pub name : String
  pub is_file : Bool
  pub size : ℕ

-- The `RuntimeError`s, and another exception.
pub data ExtractError : Type 0 where
  missing_bundle compressed_size not_base64 file_count extracted_size unsafe_archive unhandled :
      ExtractError

-- What `tarfile` does: it is done, or it raises a `TarError` or `OSError`, or another exception.
pub data Attempt {ℓ} (A : Type ℓ) : Type ℓ where
  done : A → Attempt A
  refused failed : Attempt A

-- `getmembers` is of the opened archive; `extractall` makes the destination first.
pub record Archives : Type 0 where
  pub b64decode : String → Option Bytes
  pub getmembers : Bytes → Attempt (List Member)
  pub extractall : List Member → Attempt (Unit {0})

pub record Limits : Type 0 where
  pub max_compressed : ℕ
  pub max_extracted : ℕ
  pub max_files : ℕ

-- `_positive_env`, of the three variables
unfoldable pub limits : Option String → Option String → Option String → Limits
limits compressed extracted files = record {
  max_compressed = env_int 1 (512 * 1024) compressed;
  max_extracted = env_int 1 (256 * 1024) extracted;
  max_files = env_int 1 16 files;
}

unfoldable pub regular_members : List Member → List Member
regular_members [] = []
regular_members (m ∷ ms) = let rest = regular_members ms in if m.is_file then m ∷ rest else rest

unfoldable pub total_size : List Member → ℕ
total_size [] = 0
total_size (m ∷ ms) = m.size + total_size ms

abbrev pub attempted {ℓ} : {A : Type ℓ} → Attempt A → Result ExtractError A
attempted (done a) = ok a
attempted refused = raise unsafe_archive
attempted failed = raise unhandled

-- `extract_submission_bundle`, with the members that it has extracted
unfoldable pub extract_submission_bundle :
    Archives → Limits → String → Result ExtractError (List Member)
unfolding regular_members total_size
extract_submission_bundle a l bundle_b64 = do
  raise_if (bundle_b64 == "") missing_bundle
  raise_if (ltb ((l.max_compressed + 2) / 3 * 4) (length (codes bundle_b64))) compressed_size
  raw ← or_raise (a.b64decode bundle_b64) not_base64
  raise_if (ltb l.max_compressed (length raw)) compressed_size
  members ← attempted (a.getmembers raw)
  raise_if (ltb l.max_files (length (regular_members members))) file_count
  raise_if (ltb l.max_extracted (total_size (regular_members members))) extracted_size
  extracted ← attempted (a.extractall members)
  ok members
