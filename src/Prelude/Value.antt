-- ===== src/Prelude/Value.antt =====
-- What `json.loads` returns: Python objects of the JSON types. A finite float is the fraction that
-- it stands for, `numerator / 2 ^ shift` with a sign.
use Prim.Native.Nat.{ℕ, ◌/◌, ◌%◌, ◌^◌}
use Prim.Native.String.{String}
use mathlib.Core.Bool.{Bool, false, not, ◌&&◌, ◌||◌}
use mathlib.Core.Option.{Option, none, some}
use mathlib.Core.List.{[], ◌∷◌}
use kata_tee_runner.Prelude.Tests.{if◌then◌else◌}
use kata_tee_runner.Prelude.Equality.{◌==◌, nat_eq, string_eq}
use kata_tee_runner.Prelude.Dict.{Dict}
use kata_tee_runner.Prelude.Int.{ℤ, pos, int_eq}

pub data Float : Type 0 where
  finite : Bool → ℕ → ℕ → Float
  infinite : Bool → Float
  nan : Float

mutual
  pub data Value : Type 0 where
    null : Value
    bool : Bool → Value
    int : ℤ → Value
    float : Float → Value
    str : String → Value
    obj : Fields → Value
    arr : Items → Value

  pub data Fields : Type 0 where
    end : Fields
    field : String → Value → Fields → Fields

  pub data Items : Type 0 where
    nil : Items
    cons : Value → Items → Items

abbrev pub entries : Fields → Dict String Value
entries end = []
entries (field k v fs) = (k, v) ∷ entries fs

-- `isinstance(v, str)`, `isinstance(v, dict)`
abbrev pub as_str : Value → Option String
as_str (str s) = some s
as_str _ = none

abbrev pub as_dict : Value → Option (Dict String Value)
as_dict (obj fs) = some (entries fs)
as_dict _ = none

-- `v == n` at an integer n: a bool counts as 0 or 1, and a float compares by value
unfoldable pub equals_int : Value → ℕ → Bool
equals_int (int z) n = z == pos n
equals_int (bool b) n = (if b then 1 else 0) == n
equals_int (float (finite negative m k)) n =
    m % 2 ^ k == 0 && m / 2 ^ k == n && (not negative || n == 0)
equals_int _ n = false
