-- ===== src/Converter/Bits.antt =====
-- Bits put together by `or`.
use reverse_engineearing.Base.{
  ℕ, zero, suc, ◌+◌, ◌*◌, ◌/◌, ◌%◌, ◌≤◌, ◌<◌, bit_or, ◌≡◌, refl, ◌∙◌, arith,
}
use Prim.Native.Nat.{max, digits, bit_or-bitwise}

-- The lowest binary digit of `or`; the count of digits that its definition runs on may be any that is enough.
or_enough : (n m a b : ℕ) → a ≤ n → a ≤ m → digits (λ b. b) max n a b ≡ digits (λ b. b) max m a b
or_enough zero zero a b p q = refl
or_enough zero (suc m) zero b p q = refl
or_enough zero (suc m) (suc a) b p q = absurd (omega arith)
or_enough (suc n) zero zero b p q = refl
or_enough (suc n) zero (suc a) b p q = absurd (omega arith)
or_enough (suc n) (suc m) zero b p q = refl
or_enough (suc n) (suc m) (suc a) b p q =
    omega (arith, or_enough n m (suc a / 2) (b / 2) (omega arith) (omega arith))

pub or_nothing : (b : ℕ) → bit_or 0 b ≡ b
or_nothing b = bit_or-bitwise 0 b

or_step : (a b : ℕ) → bit_or a b ≡ bit_or (a / 2) (b / 2) * 2 + max (a % 2) (b % 2)
or_step zero b = omega (arith, or_nothing b, or_nothing (b / 2))
or_step (suc a) b = omega (
  arith,
  bit_or-bitwise (suc a) b,
  bit_or-bitwise (suc a / 2) (b / 2),
  or_enough a (suc a / 2) (suc a / 2) (b / 2) (omega arith) (omega arith),
)

nothing_or_fuel : (n a : ℕ) → a ≤ n → bit_or a 0 ≡ a
nothing_or_fuel n zero h = refl
nothing_or_fuel zero (suc a) h = absurd (omega arith)
nothing_or_fuel (suc n) (suc a) h =
    omega (arith, or_step (suc a) 0, nothing_or_fuel n (suc a / 2) (omega arith))

doubled : (k d : ℕ) → bit_or k (d / 2) ≡ k + d / 2 → bit_or (2 * k) d ≡ 2 * k + d
doubled k d e =
    let q : 2 * k / 2 ≡ k = omega arith in
    let s = or_step (2 * k) d in
    let t : bit_or (2 * k / 2) (d / 2) ≡ k + d / 2 = rw q e in omega arith

shifted : ℕ → ℕ → ℕ
shifted zero k = k
shifted (suc n) k = 2 * shifted n k

-- A digit fills the empty bits at the end of the register, one after the other.
or_bits : (n k d : ℕ) → d < shifted n 1 → bit_or (shifted n k) d ≡ shifted n k + d
unfolding shifted
or_bits zero k d h =
    let z : d ≡ 0 = omega arith in rw z (nothing_or_fuel k k (omega arith) ∙ omega arith)
or_bits (suc n) k d h = doubled (shifted n k) d (or_bits n k (d / 2) (omega arith))

pub or_digit : (k d : ℕ) → d < 64 → bit_or (k * 64) d ≡ k * 64 + d
unfolding shifted
or_digit k d h = let q : k * 64 ≡ shifted 6 k = omega arith in rw q (or_bits 6 k d (omega arith))
