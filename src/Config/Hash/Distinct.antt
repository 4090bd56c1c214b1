-- ===== src/Config/Hash/Distinct.antt =====
-- Texts that differ in one byte have different hashes.
use Prim.Native.Nat.{bit_xor}
use native.Mathlib.Nat.{pow-suc}
use text.Mathlib.TextLemmas.{append_cancel_left}
use Prim.Native.Char.{Char, code}
use scada_guard.Prelude.{
  ℕ, zero, suc, ◌+◌, ◌-◌, ◌*◌, ◌/◌, ◌%◌, ◌<◌, ◌^◌, ◌≡◌, refl, sym, ap, ◌∙◌, ◌≢◌, Bool, true, String,
  List, [], ◌∷◌, ◌++◌, All, ◌==◌, ==→eq, arith, ltb, if◌then◌else◌, ◌&&◌,
}
use scada_guard.Config.Hash.{
  mix, word, prime, offset_basis, fnv_from, hex_digit, hex_before, configuration_hash,
}
use scada_guard.Config.Hash.Bits.{bit_xor_twice, bit_xor_comm, bit_xor-lt}

abbrev pub IsByte : ℕ → Type 0
IsByte b = b < 256

times-inj : (x y : ℕ) → x < word → y < word → x * prime % word ≡ y * prime % word → x ≡ y
times-inj x y hx hy e = omega arith

xor-lt : (v b : ℕ) → v < word → b < 256 → bit_xor v b < word
xor-lt v b hv hb = bit_xor-lt 64 v b hv (omega arith)

mix-lt : (v b : ℕ) → mix v b < word
unfolding mix
mix-lt v b = omega arith

-- For one byte, the loop body loses nothing of the value, and for one value nothing of the byte.
mix-inj_value : (v w b : ℕ) → v < word → w < word → b < 256 → mix v b ≡ mix w b → v ≡ w
unfolding mix
mix-inj_value v w b hv hw hb e =
    let same = times-inj (bit_xor v b) (bit_xor w b) (xor-lt v b hv hb) (xor-lt w b hw hb) e in
    sym (bit_xor_twice v b) ∙ ap (λ x. bit_xor x b) same ∙ bit_xor_twice w b

mix-inj_byte : (v b c : ℕ) → v < word → b < 256 → c < 256 → mix v b ≡ mix v c → b ≡ c
unfolding mix
mix-inj_byte v b c hv hb hc e =
    let same = times-inj (bit_xor v b) (bit_xor v c) (xor-lt v b hv hb) (xor-lt v c hv hc) e in
    let flipped = sym (bit_xor_comm v b) ∙ same ∙ bit_xor_comm v c in
    sym (bit_xor_twice b v) ∙ ap (λ x. bit_xor x v) flipped ∙ bit_xor_twice c v

fnv_from-lt : (v : ℕ) (bytes : List ℕ) → v < word → fnv_from v bytes < word
unfolding fnv_from
fnv_from-lt v [] h = h
fnv_from-lt v (b ∷ bytes) h = fnv_from-lt (mix v b) bytes (mix-lt v b)

fnv_from-inj :
    (v w : ℕ) (bytes : List ℕ)
    → v < word
    → w < word
    → All IsByte bytes
    → fnv_from v bytes ≡ fnv_from w bytes
    → v ≡ w
unfolding fnv_from
fnv_from-inj v w [] hv hw h e = e
fnv_from-inj v w (b ∷ bytes) hv hw (hb, h) e =
    mix-inj_value v w b hv hw hb
      (fnv_from-inj (mix v b) (mix w b) bytes (mix-lt v b) (mix-lt w b) h e)

fnv_from-one :
    (v b c : ℕ) (before after : List ℕ)
    → v < word
    → b < 256
    → c < 256
    → All IsByte after
    → fnv_from v (before ++ b ∷ after) ≡ fnv_from v (before ++ c ∷ after)
    → b ≡ c
unfolding fnv_from
fnv_from-one v b c [] after hv hb hc h e =
    mix-inj_byte v b c hv hb hc
      (fnv_from-inj (mix v b) (mix v c) after (mix-lt v b) (mix-lt v c) h e)
fnv_from-one v b c (x ∷ before) after hv hb hc h e =
    fnv_from-one (mix v x) b c before after (mix-lt v x) hb hc h e

-- Reading the digits back.
digit_value : Char → ℕ
digit_value c = if ltb (code c) 58 then code c - 48 else code c - 87

read_hex : ℕ → String → ℕ
read_hex value String.[] = value
read_hex value (String.◌∷◌ c s) = read_hex (value * 16 + digit_value c) s

all_below : (ℕ → Bool) → ℕ → Bool
all_below p zero = true
all_below p (suc n) = p n && all_below p n

all_below-lt : (p : ℕ → Bool) (n x : ℕ) → all_below p n ≡ true → x < n → p x ≡ true
unfolding all_below
all_below-lt p zero x h lt = absurd (omega arith)
all_below-lt p (suc n) x h lt = ground (arith, all_below-lt p n x)

digit_table : all_below (λ d. digit_value (hex_digit d) == d) 16 ≡ true
unfolding all_below digit_value hex_digit
digit_table = refl

digit_value-hex_digit : (d : ℕ) → d < 16 → digit_value (hex_digit d) ≡ d
digit_value-hex_digit d h =
    ==→eq (digit_value (hex_digit d)) d
      (all_below-lt (λ d. digit_value (hex_digit d) == d) 16 d digit_table h)

read_hex-hex_before :
    (width value : ℕ) (rest : String)
    → value < 16 ^ width
    → read_hex 0 (hex_before width value rest) ≡ read_hex value rest
unfolding hex_before read_hex
read_hex-hex_before zero value rest h = let e : value ≡ 0 = omega arith in rw (e) refl
read_hex-hex_before (suc width) value rest h =
    let e : 16 ^ suc width ≡ 16 * 16 ^ width = omega (arith, pow-suc 16 width) in
    let digit = digit_value-hex_digit (value % 16) (omega arith) in
    let whole : value / 16 * 16 + value % 16 ≡ value = omega arith in
    read_hex-hex_before width (value / 16) (String.◌∷◌ (hex_digit (value % 16)) rest) (omega arith)
    ∙ rw (digit, whole) refl

-- Two canonical texts that differ in exactly one byte have different hashes, whatever comes before
-- and after that byte.
pub configuration_hash-byte :
    (b c : ℕ) (before after : List ℕ)
    → b < 256
    → c < 256
    → All IsByte after
    → b ≢ c
    → configuration_hash (before ++ b ∷ after) ≢ configuration_hash (before ++ c ∷ after)
unfolding configuration_hash read_hex
configuration_hash-byte b c before after hb hc hy different e =
    let first = fnv_from offset_basis (before ++ b ∷ after) in
    let second = fnv_from offset_basis (before ++ c ∷ after) in
    let digits : hex_before 16 first "" ≡ hex_before 16 second "" =
      append_cancel_left "fnv1a64-" (hex_before 16 first "") (hex_before 16 second "") e in
    let same : first ≡ second =
      sym (
        read_hex-hex_before 16 first ""
          (fnv_from-lt offset_basis (before ++ b ∷ after) (omega arith)))
      ∙ ap (read_hex 0) digits
      ∙ read_hex-hex_before 16 second ""
          (fnv_from-lt offset_basis (before ++ c ∷ after) (omega arith)) in
    different (fnv_from-one offset_basis b c before after (omega arith) hb hc hy same)
