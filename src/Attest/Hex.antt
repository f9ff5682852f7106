-- ===== src/Attest/Hex.antt =====
-- Bytes in hexadecimal: `bytes.hex()` and `binascii.unhexlify`, as room/server.py and verify_run.py
-- use them, on texts as code points.
use kata_tee_runner.Prelude.{
  ℕ, ◌+◌, ◌-◌, ◌*◌, ◌/◌, ◌%◌, ◌<◌, Bool, true, ◌&&◌, Option, none, some, List, [], ◌∷◌, leb, ltb,
  all, length, if◌then◌else◌, nat_eq, ◌≡◌, refl, ap, arith,
}
use kata_tee_runner.Prelude.Text.{Codes, is_hex}

abbrev hex_code : ℕ → ℕ
hex_code n = if ltb n 10 then 48 + n else 87 + n

unfoldable pub hex : List ℕ → Codes
hex [] = []
hex (b ∷ bs) = hex_code (b / 16) ∷ hex_code (b % 16) ∷ hex bs

abbrev hex_value : ℕ → Option ℕ
hex_value c =
    if leb 48 c && leb c 57
    then some (c - 48)
    else if leb 97 c && leb c 102
    then some (c - 87)
    else if leb 65 c && leb c 70
    then some (c - 55)
    else none

abbrev byte_of : Option ℕ → Option ℕ → Option ℕ
byte_of (some a) (some b) = some (a * 16 + b)
byte_of _ _ = none

abbrev prepend : Option ℕ → Option (List ℕ) → Option (List ℕ)
prepend (some b) (some bs) = some (b ∷ bs)
prepend _ _ = none

-- `none` is the `binascii.Error` or `ValueError`
unfoldable pub unhexlify : Codes → Option (List ℕ)
unhexlify [] = some []
unhexlify (c ∷ []) = none
unhexlify (c ∷ d ∷ s) = prepend (byte_of (hex_value c) (hex_value d)) (unhexlify s)

abbrev pub is_byte : ℕ → Bool
is_byte b = ltb b 256

hex_value-hex_code : (n : ℕ) → n < 16 → hex_value (hex_code n) ≡ some n
hex_value-hex_code n h = ground arith

byte_of-halves : (b : ℕ) → b < 256 → byte_of (some (b / 16)) (some (b % 16)) ≡ some b
byte_of-halves b h = ap some (omega arith)

byte_of-hex_code :
    (b : ℕ)
    → is_byte b ≡ true
    → byte_of (hex_value (hex_code (b / 16))) (hex_value (hex_code (b % 16))) ≡ some b
byte_of-hex_code b h =
    rw (hex_value-hex_code (b / 16) (ground arith), hex_value-hex_code (b % 16) (omega arith))
      (byte_of-halves b (ground arith))

pub unhexlify-hex : (bs : List ℕ) → all is_byte bs ≡ true → unhexlify (hex bs) ≡ some bs
unfolding hex unhexlify
unhexlify-hex [] h = refl
unhexlify-hex (b ∷ bs) h =
    rw (byte_of-hex_code b (ground arith), unhexlify-hex bs (ground arith)) refl

hex_code-IsHex : (n : ℕ) → n < 16 → is_hex (hex_code n) ≡ true
hex_code-IsHex n h = ground arith

pub hex-IsHex : (bs : List ℕ) → all is_byte bs ≡ true → all is_hex (hex bs) ≡ true
unfolding hex
hex-IsHex [] h = refl
hex-IsHex (b ∷ bs) h =
    rw
      (
        hex_code-IsHex (b / 16) (ground arith),
        hex_code-IsHex (b % 16) (omega arith),
        hex-IsHex bs (ground arith),
      )
      refl

pub length-hex : (bs : List ℕ) → length (hex bs) ≡ 2 * length bs
unfolding hex
length-hex [] = omega arith
length-hex (b ∷ bs) = omega (arith, length-hex bs)
