-- ===== src/Config/Hash/Bits.antt =====
-- `bit_xor` undoes itself and stays within the width of its arguments.
use Prim.Native.Nat.{bit_xor, bit_xor-bitwise, differ, digits}
use native.Mathlib.Nat.{pow-suc}
use scada_guard.Prelude.{
  ℕ, zero, suc, ◌+◌, ◌*◌, ◌/◌, ◌%◌, ◌^◌, ◌≤◌, ◌<◌, ◌≡◌, ◌⊎◌, inl, inr, refl, arith,
}

abbrev xor_digits : ℕ → ℕ → ℕ → ℕ
xor_digits n a b = digits (λ b. b) differ n a b

xor_digits_fuel : (n m a b : ℕ) → a ≤ n → a ≤ m → xor_digits n a b ≡ xor_digits m a b
xor_digits_fuel zero zero a b p q = refl
xor_digits_fuel zero (suc m) zero b p q = refl
xor_digits_fuel zero (suc m) (suc a) b p q = absurd (omega arith)
xor_digits_fuel (suc n) zero zero b p q = refl
xor_digits_fuel (suc n) zero (suc a) b p q = absurd (omega arith)
xor_digits_fuel (suc n) (suc m) zero b p q = refl
xor_digits_fuel (suc n) (suc m) (suc a) b p q =
    omega (arith, xor_digits_fuel n m (suc a / 2) (b / 2) (omega arith) (omega arith))

zero-bit_xor : (b : ℕ) → bit_xor 0 b ≡ b
zero-bit_xor b = bit_xor-bitwise 0 b

bit_xor_step : (a b : ℕ) → bit_xor a b ≡ bit_xor (a / 2) (b / 2) * 2 + differ (a % 2) (b % 2)
bit_xor_step zero b = omega (arith, zero-bit_xor b, zero-bit_xor (b / 2))
bit_xor_step (suc a) b = omega (
  arith,
  bit_xor-bitwise (suc a) b,
  bit_xor-bitwise (suc a / 2) (b / 2),
  xor_digits_fuel a (suc a / 2) (suc a / 2) (b / 2) (omega arith) (omega arith),
)

-- On the lowest digits.
below_two : (n : ℕ) → n < 2 → (n ≡ 0) ⊎ (n ≡ 1)
below_two zero h = inl refl
below_two (suc zero) h = inr refl
below_two (suc (suc n)) h = absurd (omega arith)

differ_digits : (a b : ℕ) → a < 2 → b < 2 → (differ a b < 2) × (differ (differ a b) b ≡ a)
differ_digits a b ha hb = elim (below_two a ha) [
  | inl e ↦ elim (below_two b hb) [
    | inl e' ↦ rw (e, e') (omega arith, refl)
    | inr e' ↦ rw (e, e') (omega arith, refl)
  ]
  | inr e ↦ elim (below_two b hb) [
    | inl e' ↦ rw (e, e') (omega arith, refl)
    | inr e' ↦ rw (e, e') (omega arith, refl)
  ]
]

digits_of :
    (a b : ℕ)
    → (bit_xor a b / 2 ≡ bit_xor (a / 2) (b / 2)) × (bit_xor a b % 2 ≡ differ (a % 2) (b % 2))
digits_of a b =
    let (small, back) = differ_digits (a % 2) (b % 2) (omega arith) (omega arith) in
    (omega (arith, bit_xor_step a b), omega (arith, bit_xor_step a b))

bit_xor_twice_fuel : (n a b : ℕ) → a ≤ n → b ≤ n → bit_xor (bit_xor a b) b ≡ a
bit_xor_twice_fuel zero a b p q =
    let ea : a ≡ 0 = omega arith in let eb : b ≡ 0 = omega arith in rw (ea, eb) refl
bit_xor_twice_fuel (suc n) a b p q =
    let (half, last) = digits_of a b in
    let (small, back) = differ_digits (a % 2) (b % 2) (omega arith) (omega arith) in
    let ih = bit_xor_twice_fuel n (a / 2) (b / 2) (omega arith) (omega arith) in
    let step = bit_xor_step (bit_xor a b) b in rw (step, half, last, ih, back) (omega arith)

pub bit_xor_twice : (a b : ℕ) → bit_xor (bit_xor a b) b ≡ a
bit_xor_twice a b = bit_xor_twice_fuel (a + b) a b (omega arith) (omega arith)

differ_comm : (a b : ℕ) → a < 2 → b < 2 → differ a b ≡ differ b a
differ_comm a b ha hb = elim (below_two a ha) [
  | inl e ↦ elim (below_two b hb) [ inl e' ↦ rw (e, e') refl | inr e' ↦ rw (e, e') refl ]
  | inr e ↦ elim (below_two b hb) [ inl e' ↦ rw (e, e') refl | inr e' ↦ rw (e, e') refl ]
]

bit_xor_comm_fuel : (n a b : ℕ) → a ≤ n → b ≤ n → bit_xor a b ≡ bit_xor b a
bit_xor_comm_fuel zero a b p q =
    let ea : a ≡ 0 = omega arith in let eb : b ≡ 0 = omega arith in rw (ea, eb) refl
bit_xor_comm_fuel (suc n) a b p q =
    let ih = bit_xor_comm_fuel n (a / 2) (b / 2) (omega arith) (omega arith) in
    let last = differ_comm (a % 2) (b % 2) (omega arith) (omega arith) in
    omega (arith, bit_xor_step a b, bit_xor_step b a)

pub bit_xor_comm : (a b : ℕ) → bit_xor a b ≡ bit_xor b a
bit_xor_comm a b = bit_xor_comm_fuel (a + b) a b (omega arith) (omega arith)

double_power : (n : ℕ) → 2 ^ suc n ≡ 2 * 2 ^ n
double_power n = omega (arith, pow-suc 2 n)

pub bit_xor-lt : (n a b : ℕ) → a < 2 ^ n → b < 2 ^ n → bit_xor a b < 2 ^ n
bit_xor-lt zero a b p q =
    let ea : a ≡ 0 = omega arith in let eb : b ≡ 0 = omega arith in rw (ea, eb) (omega arith)
bit_xor-lt (suc n) a b p q =
    let (half, last) = digits_of a b in
    let (small, back) = differ_digits (a % 2) (b % 2) (omega arith) (omega arith) in
    let double : 2 ^ suc n ≡ 2 * 2 ^ n = double_power n in
    let ih = bit_xor-lt n (a / 2) (b / 2) (omega arith) (omega arith) in omega (arith)
