-- ===== src/Bundle.antt =====
-- room/bundle.py: the digest to which a miner seals a credential, over the files of a bundle.
-- The root is a directory, and `sorted(bundle_root.rglob("*"))` is given as the list of what it finds.
pub mod Frames
pub mod Binding
pub mod Stable
pub mod Extraction
pub mod Extracted
use kata_tee_runner.Prelude.{
  ℕ, zero, suc, ◌*◌, ◌/◌, ◌%◌, ◌^◌, String, Bool, true, false, ◌&&◌, ◌||◌, List, [], ◌∷◌, ◌++◌,
  length, contains, ltb, if◌then◌else◌, ◌==◌, nat_eq, string_eq, list_eq, Result, ok, raise, ◌>>=◌,
  ◌>>◌, raise_if, not,
}
use kata_tee_runner.Prelude.Text.{Codes, codes}
use kata_tee_runner.Attest.{Bytes, Hashing}
use kata_tee_runner.Attest.Hex.{hex}

-- What stands at a path below the root: its relative path, with the bytes of a regular file.
pub data Entry : Type 0 where
  directory : String → Entry
  regular : String → Bytes → Entry
  special : String → Entry

-- A path other than to a regular file is a `RuntimeError`, a length that does not fit an
-- `OverflowError`.
pub data BindingError : Type 0 where
  irregular too_long : BindingError

-- `n.to_bytes(width, "big")`, where it fits
unfoldable pub to_bytes : ℕ → ℕ → Bytes
to_bytes zero n = []
to_bytes (suc width) n = to_bytes width (n / 256) ++ n % 256 ∷ []

-- The parts of a POSIX path.
unfoldable pub parts : Codes → List Codes
parts [] = [] ∷ []
parts (c ∷ cs) = elim (parts cs) [
  | [] ↦ []
  | p ∷ ps ↦ if c == b'/' then [] ∷ p ∷ ps else (c ∷ p) ∷ ps
]

-- A text from its last dot on.
unfoldable pub from_last_dot : Codes → Codes
from_last_dot [] = []
from_last_dot (c ∷ cs) = elim (from_last_dot cs) [
  | [] ↦ (if c == b'.' then c ∷ cs else [])
  | d ∷ ds ↦ d ∷ ds
]

unfoldable pub last_part : List Codes → Codes
last_part [] = []
last_part (p ∷ []) = p
last_part (p ∷ q ∷ ps) = last_part (q ∷ ps)

-- `Path.suffix` of a file name: a dot that begins or ends the name makes none.
unfoldable pub suffix : Codes → Codes
suffix [] = []
suffix (c ∷ cs) = let found = from_last_dot cs in if length found == 1 then [] else found

unfoldable pub any_transient : List Codes → Bool
any_transient [] = false
any_transient (p ∷ ps) = p == codes ".git" || p == codes "__pycache__" || any_transient ps

-- `_exclude_from_credential_binding(relative_path)`
unfoldable pub excluded : String → Bool
unfolding parts last_part suffix any_transient
excluded path =
    let ps = parts (codes path) in
    let s = suffix (last_part ps) in
    path == "sealed_inference_key" || s == codes ".pyc" || s == codes ".pyo" || any_transient ps

-- What `digest.update` is given for one file.
unfoldable pub frame : Bytes → Bytes → Result BindingError Bytes
frame path content = do
  raise_if (not (ltb (length path) (256 ^ 4))) too_long
  raise_if (not (ltb (length content) (256 ^ 8))) too_long
  ok (to_bytes 4 (length path) ++ (path ++ (to_bytes 8 (length content) ++ content)))

abbrev pub domain : Bytes
domain = codes "kata-miner-credential-bundle-v1" ++ 0 ∷ []

module _ (h : Hashing) where
  -- The loop of `credential_bundle_binding`.
  unfoldable pub frames : List Entry → Result BindingError Bytes
  frames [] = ok []
  frames (directory path ∷ rest) = frames rest
  frames (special path ∷ rest) = raise irregular
  frames (regular path content ∷ rest) =
      let later = frames rest in
      if excluded path
      then later
      else (do first ← frame (h.encode path) content; more ← later; ok (first ++ more))

  unfoldable pub credential_bundle_binding : List Entry → Result BindingError Codes
  credential_bundle_binding entries = do
    stream ← frames entries
    ok (hex (h.sha256 (domain ++ stream)))
