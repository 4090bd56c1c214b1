-- ===== src/Model/Uuid.antt =====
-- `generate_uuid_v4` of src/model.cpp.
use Prim.Native.Nat.{bit_and, bit_or}
use scada_guard.Prelude.{
  ℕ, zero, suc, ◌+◌, ◌-◌, ◌/◌, ◌%◌, ◌<◌, ◌≡◌, refl, Bool, true, false, ◌||◌, List, [], ◌∷◌, ◌++◌,
  arith, ltb, ◌==◌, if◌then◌else◌, length, ==→eq,
}

-- The sixteen bytes, from sixteen answers of the random device.
set_bits : ℕ → ℕ → ℕ
set_bits index byte =
    if index == 6
    then bit_or (bit_and byte 0x0f) 0x40
    else if index == 8
    then bit_or (bit_and byte 0x3f) 0x80
    else byte

-- A hexadecimal digit of `std::hex`.
hex_digit : ℕ → ℕ
hex_digit d = if ltb d 10 then b'0' + d else b'a' + (d - 10)

-- `std::setw(2)` with fill `0`.
hex_byte : ℕ → List ℕ
unfolding hex_digit
hex_byte byte = hex_digit (byte / 16) ∷ hex_digit (byte % 16) ∷ []

dash_before : ℕ → List ℕ
dash_before index =
    if index == 4 || (index == 6 || (index == 8 || index == 10)) then b'-' ∷ [] else []

-- The rounds of the output loop that are left, from byte `index` on.
print_from : (ℕ → ℕ) → ℕ → ℕ → List ℕ
unfolding set_bits hex_byte dash_before
print_from random index zero = []
print_from random index (suc left) =
    dash_before index
    ++ (hex_byte (set_bits index (random index % 256)) ++ print_from random (index + 1) left)

unfoldable pub generate_uuid_v4 : (ℕ → ℕ) → List ℕ
unfolding print_from
generate_uuid_v4 random = print_from random 0 16

-- A test of the bytes that come before `n`.
on_bytes : (test : ℕ → Bool) → ℕ → Bool
on_bytes test zero = true
on_bytes test (suc last) = let rest = on_bytes test last in if test last then rest else false

module _ (test : ℕ → Bool) where
  on_bytes-test : (byte bound : ℕ) → byte < bound → on_bytes test bound ≡ true → test byte ≡ true
  unfolding on_bytes
  on_bytes-test byte zero small passed = absurd (omega arith)
  on_bytes-test byte (suc last) small passed = ground (arith, on_bytes-test byte last)

version_digit : ℕ → Bool
unfolding hex_digit set_bits
version_digit b = hex_digit (set_bits 6 b / 16) == b'4'

abbrev pub variant_digit : ℕ → Bool
variant_digit d = d == b'8' || (d == b'9' || (d == b'a' || d == b'b'))

version_table : on_bytes version_digit 256 ≡ true
unfolding on_bytes version_digit
version_table = refl

variant_table : on_bytes (λ b. variant_digit (hex_digit (set_bits 8 b / 16))) 256 ≡ true
unfolding on_bytes set_bits hex_digit
variant_table = refl

abbrev pub nth : ℕ → List ℕ → ℕ
nth n [] = 0
nth zero (x ∷ xs) = x
nth (suc n) (x ∷ xs) = nth n xs

version_digit-byte : (b : ℕ) → b < 256 → hex_digit (set_bits 6 b / 16) ≡ b'4'
unfolding version_digit
version_digit-byte b h =
    ==→eq (hex_digit (set_bits 6 b / 16)) b'4' (on_bytes-test version_digit b 256 h version_table)

byte_lt : (n : ℕ) → n % 256 < 256
byte_lt n = omega arith

-- Whatever the random device answers: 36 characters, a dash before bytes 4, 6, 8 and 10, the version
-- digit `4`, and a variant digit `8`, `9`, `a` or `b`, each in its place.
pub generate_uuid_v4_form :
    (random : ℕ → ℕ)
    → let s = generate_uuid_v4 random in
      (length s ≡ 36)
      × (nth 8 s ≡ b'-')
      × (nth 13 s ≡ b'-')
      × (nth 18 s ≡ b'-')
      × (nth 23 s ≡ b'-')
      × (nth 14 s ≡ b'4')
      × (variant_digit (nth 19 s) ≡ true)
unfolding generate_uuid_v4
generate_uuid_v4_form random = (
  refl,
  refl,
  refl,
  refl,
  refl,
  version_digit-byte (random 6 % 256) (byte_lt (random 6)),
  on_bytes-test (λ b. variant_digit (hex_digit (set_bits 8 b / 16))) (random 8 % 256) 256
      (byte_lt (random 8)) variant_table,
)
