-- ===== src/Base/Bits.antt =====
-- Binary digits of native numbers, for the bit tests of eeprom.c.
use Prim.Native.Nat.{
  ℕ, zero, suc, ◌+◌, ◌-◌, ◌*◌, ◌/◌, ◌%◌, ◌≤◌, ◌<◌, min, bit_and, bit_xor, bitwise, digits, differ,
  bit_and-bitwise, bit_xor-bitwise,
}
use mathlib.Core.Path.{◌≡◌, refl, ap, sym, ◌∙◌}
use native.Mathlib.Omega.{arith}

-- An operation on digits takes one digit off each number, whatever count of digits it started from.
module _ (past_end : ℕ → ℕ) (op : ℕ → ℕ → ℕ) where
  one_more : (n a b : ℕ) → a ≤ n → digits past_end op (suc n) a b ≡ digits past_end op n a b
  one_more zero zero b h = refl
  one_more (suc n) zero b h = refl
  one_more zero (suc a) b h = absurd (omega arith)
  one_more (suc n) (suc a) b h =
      let upper = one_more n (suc a / 2) (b / 2) (omega arith) in
      ap (λ u. u * 2 + op (suc a % 2) (b % 2)) upper

  many_more : (k n a b : ℕ) → n ≡ k + a → digits past_end op n a b ≡ bitwise past_end op a b
  many_more zero n a b h = ap (λ n. digits past_end op n a b) (omega arith)
  many_more (suc k) zero a b h = absurd (omega arith)
  many_more (suc k) (suc n) a b h = one_more n a b (omega arith) ∙ many_more k n a b (omega arith)

  by_halves :
      ((b : ℕ) → past_end b ≡ past_end (b / 2) * 2 + op 0 (b % 2))
      → (a b : ℕ)
      → bitwise past_end op a b ≡ bitwise past_end op (a / 2) (b / 2) * 2 + op (a % 2) (b % 2)
  by_halves low zero b = low b
  by_halves low (suc a) b =
      let half = suc a / 2 in
      ap (λ u. u * 2 + op (suc a % 2) (b % 2)) (many_more (a - half) a half (b / 2) (omega arith))

differ_lem : (x y : ℕ) → x < 2 → y < 2 → differ x y ≡ (x + y) % 2
differ_lem zero y p q = omega arith
differ_lem (suc zero) zero p q = refl
differ_lem (suc zero) (suc zero) p q = refl
differ_lem (suc zero) (suc (suc y)) p q = absurd (omega arith)
differ_lem (suc (suc x)) y p q = absurd (omega arith)

digits-differ : (x y : ℕ) → differ (x % 2) (y % 2) ≡ (x + y) % 2
digits-differ x y = omega (arith, differ_lem (x % 2) (y % 2) (omega arith) (omega arith))

pub bit_and-halves : (a b : ℕ) → bit_and a b ≡ bit_and (a / 2) (b / 2) * 2 + min (a % 2) (b % 2)
bit_and-halves a b =
    bit_and-bitwise a b
    ∙ by_halves (λ b. zero) min (λ b. omega arith) a b
    ∙ ap (λ u. u * 2 + min (a % 2) (b % 2)) (sym (bit_and-bitwise (a / 2) (b / 2)))

pub bit_xor-halves : (a b : ℕ) → bit_xor a b ≡ bit_xor (a / 2) (b / 2) * 2 + (a + b) % 2
bit_xor-halves a b =
    bit_xor-bitwise a b
    ∙ by_halves (λ b. b) differ (λ b. omega arith) a b
    ∙ (ap (λ u. u * 2 + differ (a % 2) (b % 2)) (sym (bit_xor-bitwise (a / 2) (b / 2)))
        ∙ ap (λ d. bit_xor (a / 2) (b / 2) * 2 + d) (digits-differ a b))

bit_xor-half : (a b : ℕ) → bit_xor a b / 2 ≡ bit_xor (a / 2) (b / 2)
bit_xor-half a b = omega (arith, bit_xor-halves a b)

-- No bit of `b` is set that `a` lacks, so `b` is what they share.
pub bit_and-no_new : (n a b : ℕ) → a + b ≤ n → bit_and (bit_xor a b) b ≡ 0 → bit_and a b ≡ b
bit_and-no_new zero a b h e =
    omega (arith, ap (λ x. bit_and x b) {x = a} {y = 0} (omega arith), bit_and-bitwise 0 b)
bit_and-no_new (suc n) a b h e =
    let halves = ap (λ q. bit_and q (b / 2)) (bit_xor-half a b) in
    omega (
      arith,
      bit_and-halves a b,
      bit_and-halves (bit_xor a b) b,
      bit_xor-halves a b,
      halves,
      bit_and-no_new n (a / 2) (b / 2) (omega arith)
          (omega (arith, bit_and-halves (bit_xor a b) b, halves)),
    )

-- Numbers that differ in no bit are equal.
pub bit_xor-zero : (n a b : ℕ) → a + b ≤ n → bit_xor a b ≡ 0 → a ≡ b
bit_xor-zero zero a b h e = omega arith
bit_xor-zero (suc n) zero b h e = omega (arith, bit_xor-bitwise 0 b)
bit_xor-zero (suc n) (suc a) b h e = omega (
  arith,
  bit_xor-halves (suc a) b,
  bit_xor-zero n (suc a / 2) (b / 2) (omega arith) (omega (arith, bit_xor-halves (suc a) b)),
)
