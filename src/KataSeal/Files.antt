-- ===== src/KataSeal/Files.antt =====
-- kata_seal.py: `write_atomically`, and what `_seal` writes where. The file system is a dict of files by
-- path. A call raises without effect or has its effect; which of them raise is given as `Calls`.
use kata_tee_runner.Prelude.{
  ℕ, ◌*◌, String, ◌<>◌, Bool, true, false, not, ◌&&◌, Option, none, some, if◌then◌else◌, ◌==◌,
  string_eq, Result, ok, raise,
}
use kata_tee_runner.Prelude.Dict.{Dict, insert, erase}
use kata_tee_runner.KataSeal.{SealError, unhandled}
use kata_tee_runner.KataSeal.Keys.{Sources}
use kata_tee_runner.KataSeal.Room.{World}
use kata_tee_runner.KataSeal.Main.{Args, Encoding, main}

pub record File : Type 0 where
  pub mode : ℕ
  pub text : String

abbrev pub Files : Type 0
Files = Dict String File

-- `temporary` is the name that `mkstemp` finds. `torn` is what stands in the file where `write`, `flush`
-- or the end of the `with` raises; `fsync` is as the calls that a Bool tells of.
pub record Calls : Type 0 where
  pub mkdir : Bool
  pub temporary : Option String
  pub fchmod : Bool
  pub fdopen : Bool
  pub torn : Option String
  pub fsync : Bool
  pub replace : Bool
  pub unlink : Bool

abbrev pub private_file : String → File
private_file text = record { mode = 6 * 64; text = text }

-- The `try` of `write_atomically`: the files after it, and whether it ends without an exception
unfoldable pub fill : Calls → String → String → String → Files → Bool × Files
fill c temporary path text files =
    if not (c.fchmod && c.fdopen) then (false, files) else elim c.torn [
      | some part ↦ (false, insert temporary (private_file part) files)
      | none ↦
          let written = insert temporary (private_file text) files in
          if not (c.fsync && c.replace)
          then (false, written)
          else (true, insert path (private_file text) (erase temporary written))
    ]

-- The `except` of `write_atomically`
unfoldable pub clear : Calls → String → Bool × Files → Bool × Files
clear c temporary (true, files) = (true, files)
clear c temporary (false, files) = (false, if c.unlink then erase temporary files else files)

unfoldable pub write_atomically : Calls → String → String → Files → Bool × Files
unfolding fill clear
write_atomically c path text files = if not c.mkdir then (false, files) else elim c.temporary [
  | none ↦ (false, files)
  | some temporary ↦
      clear c temporary (fill c temporary path text (insert temporary (private_file "") files))
]

-- `resolve` is `Path(out).expanduser().resolve()`.
abbrev pub output_path : (String → String) → String → String → String
output_path resolve bundle out =
    if not (out == "") then resolve out else bundle <> "/sealed_inference_key"

abbrev pub written_as : String → Bool × Files → Result SealError String × Files
written_as sealed (true, files) = (ok sealed, files)
written_as sealed (false, files) = (raise unhandled, files)

-- `main()` with the writing that ends `_seal`, of the given output path
unfoldable pub main_writing :
    World → Encoding → Sources → Args → Calls → String → Files → Result SealError String × Files
main_writing w e from args c output files = elim (main w e from args) [
  | raise error ↦ (raise error, files)
  | ok sealed ↦ written_as sealed (write_atomically c output sealed files)
]
