-- ===== src/Wire/Mask.antt =====
-- The masks of the packed forms as arithmetic; each law is a table checked by evaluation.
use reverse_engineearing.Base.{
  ℕ, zero, suc, ◌+◌, ◌*◌, ◌/◌, ◌%◌, ◌<◌, ◌≡◌, refl, Bool, true, ◌&&◌, arith, bit_and, bit_or, ◌==◌,
  ==_iff, Bool-cases, inl, inr,
}

-- Do `f` and `g` have one value at each of the first `bound` numbers?
same_table : (f g : ℕ → ℕ) → ℕ → Bool
same_table f g zero = true
same_table f g (suc bound) = same_table f g bound && f bound == g bound

agree :
    (bound : ℕ) (f g : ℕ → ℕ)
    → same_table f g bound ≡ true
    → (value : ℕ) → value < bound
    → f value ≡ g value
unfolding same_table
agree zero f g table value small = absurd (omega arith)
agree (suc bound) f g table value small =
    let earlier = agree bound f g in
    let last : f bound ≡ g bound = (==_iff (f bound) (g bound)).0 (ground (arith, table)) in
    elim (Bool-cases (value == bound)) [
      | inl y ↦ rw ((==_iff value bound).0 y) last
      | inr n ↦ earlier (ground (arith, table)) value (ground (arith, n))
    ]

pub top_bit : (b : ℕ) → b < 256 → bit_and b 0x80 ≡ b / 128 * 128
unfolding same_table
top_bit = agree 256 (λ b. bit_and b 0x80) (λ b. b / 128 * 128) refl

-- The masked byte is never the sign-extended constant that it is compared with.
pub top_two_bits : (b : ℕ) → b < 256 → bit_and b 0xC0 ≡ b / 64 * 64
unfolding same_table
top_two_bits = agree 256 (λ b. bit_and b 0xC0) (λ b. b / 64 * 64) refl

pub clear_top_bit : (b : ℕ) → b < 256 → bit_and b 0xFFFFFF7F ≡ b % 128
unfolding same_table
clear_top_bit = agree 256 (λ b. bit_and b 0xFFFFFF7F) (λ b. b % 128) refl

pub set_short : (x : ℕ) → x < 0x4000 → bit_or x 0x8000 ≡ x + 0x8000
unfolding same_table
set_short = agree 0x4000 (λ x. bit_or x 0x8000) (λ x. x + 0x8000) refl

pub set_long : (x : ℕ) → x < 0x2000 → bit_or x 0xC000 ≡ x + 0xC000
unfolding same_table
set_long = agree 0x2000 (λ x. bit_or x 0xC000) (λ x. x + 0xC000) refl

pub or_zero_left : (x : ℕ) → x < 0x4000 → bit_or 0 x ≡ x
unfolding same_table
or_zero_left = agree 0x4000 (λ x. bit_or 0 x) (λ x. x) refl

or_nibbles_table : (x : ℕ) → x < 256 → bit_or (x % 16) (x / 16 * 16) ≡ x
unfolding same_table
or_nibbles_table = agree 256 (λ x. bit_or (x % 16) (x / 16 * 16)) (λ x. x) refl

pub or_nibbles : (a b : ℕ) → a < 16 → b < 16 → bit_or a (b * 16) ≡ a + 16 * b
or_nibbles a b ha hb =
    let e1 : (a + 16 * b) % 16 ≡ a = omega arith in
    let e2 : (a + 16 * b) / 16 ≡ b = omega arith in
    rw (e1, e2) at (or_nibbles_table (a + 16 * b) (omega arith))
