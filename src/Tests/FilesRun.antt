-- ===== src/Tests/FilesRun.antt =====
-- kata_seal.py: the sealed text is written over an older one, and a disk that is full.
use kata_tee_runner.Prelude.{
  ◌≡◌, refl, String, true, false, none, some, [], ◌∷◌, ok, arith, string_eq,
}
use kata_tee_runner.Prelude.Dict.{lookup, insert, erase}
use kata_tee_runner.KataSeal.Files.{
  Calls, Files, private_file, fill, clear, write_atomically, main_writing,
}
use kata_tee_runner.KataSeal.Written.{IsLeft, main_writing-IsLeft}
use kata_tee_runner.Tests.SealRun.{world, encoding, from, set_args, sealed}

abbrev path : String
path = "bundle/sealed_inference_key"

abbrev files : Files
files = (path, private_file "old") ∷ []

abbrev smooth : Calls
smooth = record {
  mkdir = true;
  temporary = some "bundle/.kata-seal-1";
  fchmod = true;
  fdopen = true;
  torn = none;
  fsync = true;
  replace = true;
  unlink = true;
}

abbrev disk_full : Calls
disk_full = record smooth { torn = some "5e" }

writes : write_atomically smooth path "5ea1" files ≡ (true, (path, private_file "5ea1") ∷ [])
unfolding write_atomically fill clear insert erase string_eq
writes = refl

restores : write_atomically disk_full path "5ea1" files ≡ (false, files)
unfolding write_atomically fill clear insert erase string_eq
restores = refl

fresh : (t : String) → some "bundle/.kata-seal-1" ≡ some t → lookup t files ≡ none
unfolding lookup string_eq
fresh t h = let same : "bundle/.kata-seal-1" ≡ t = ground (arith, h) in rw (← same) refl

leaves :
    main_writing world encoding from set_args smooth path files
    ≡ (ok "5ea1", (path, private_file "5ea1") ∷ [])
unfolding main_writing
leaves = rw (main_writing, sealed, writes) refl

main_writing-IsLeft_example :
    IsLeft world encoding from set_args smooth path files
      (main_writing world encoding from set_args smooth path files)
main_writing-IsLeft_example =
    main_writing-IsLeft world encoding from set_args smooth path files fresh
