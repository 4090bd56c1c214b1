-- ===== src/Config/Hash.antt =====
-- `configuration_hash` of src/configuration/config.cpp: FNV-1a over the text of a document.
pub mod Bits
pub mod Distinct
use Prim.Native.Nat.{bit_xor}
use Prim.Native.Char.{Char}
use scada_guard.Prelude.{
  ℕ, zero, suc, ◌*◌, ◌/◌, ◌%◌, ◌^◌, String, List, [], ◌∷◌, ltb, ◌==◌, if◌then◌else◌,
}
use scada_guard.Checks.{◌<>◌}

abbrev pub word : ℕ
word = 2 ^ 64

abbrev pub offset_basis : ℕ
offset_basis = 14695981039346656037

abbrev pub prime : ℕ
prime = 1099511628211

-- The body of the loop.
unfoldable pub mix : ℕ → ℕ → ℕ
mix value byte = bit_xor value byte * prime % word

unfoldable pub fnv_from : ℕ → List ℕ → ℕ
fnv_from value [] = value
fnv_from value (byte ∷ bytes) = fnv_from (mix value byte) bytes

-- The digit of `std::hex`.
hex_digit : ℕ → Char
hex_digit d =
    if d == 0
    then "0"
    else if d == 1
    then "1"
    else if d == 2
    then "2"
    else if d == 3
    then "3"
    else if d == 4
    then "4"
    else if d == 5
    then "5"
    else if d == 6
    then "6"
    else if d == 7
    then "7"
    else if d == 8
    then "8"
    else if d == 9
    then "9"
    else if d == 10
    then "a"
    else if d == 11
    then "b"
    else if d == 12
    then "c"
    else if d == 13
    then "d"
    else if d == 14
    then "e"
    else "f"

-- The last `width` digits of a number, filled with zeros, before a text.
unfoldable pub hex_before : ℕ → ℕ → String → String
unfolding hex_digit
hex_before zero value rest = rest
hex_before (suc width) value rest =
    hex_before width (value / 16) (String.◌∷◌ (hex_digit (value % 16)) rest)

-- The argument is what `dump` gives, byte by byte. Its 64-bit values have 16 digits at most.
unfoldable pub configuration_hash : List ℕ → String
configuration_hash canonical = "fnv1a64-" <> hex_before 16 (fnv_from offset_basis canonical) ""
