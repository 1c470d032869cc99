-- ===== src/Converter/Decode.antt =====
-- What `translate2` makes of the digits of the base 64.
use reverse_engineearing.Base.{
  ℕ, zero, suc, ◌+◌, ◌*◌, ◌%◌, ◌^◌, ◌<◌, bit_or, ◌≡◌, refl, sym, ap, ◌∙◌, inl, inr, Bool, true,
  false, ◌&&◌, Option, none, some, List, [], ◌∷◌, arith, ◌==◌, ==_iff, Bool-cases, length,
  get_elem?,
}
use reverse_engineearing.Converter.Bits.{or_nothing, or_digit}
use reverse_engineearing.Converter.{equals_sign, changer, xlat, value_of, all_zero, shifts, group}
use reverse_engineearing.Converter.Encode.{digit}

-- The characters of the table, from the value `i` on.
values_from : ℕ → List ℕ → Bool
values_from i [] = true
values_from i (c ∷ cs) =
    let rest = values_from (i + 1) cs in
    (elim (value_of c) [ none ↦ false | some v ↦ v == i ]) && rest

values_table : values_from 0 changer ≡ true
unfolding values_from value_of
values_table = refl

first_value :
    (x : Option ℕ) (i : ℕ) (r : Bool)
    → ((elim x [ none ↦ false | some v ↦ v == i ]) && r) ≡ true
    → (x ≡ some i) × (r ≡ true)
first_value none i r e = cc
first_value (some v) i r e = ground arith

value_at :
    (cs : List ℕ) (i j : ℕ)
    → values_from i cs ≡ true
    → j < length cs
    → value_of (elim (get_elem? cs j) [ none ↦ 0 | some c ↦ c ]) ≡ some (i + j)
unfolding values_from
value_at [] i j e h = absurd (omega arith)
value_at (c ∷ cs) i zero e h = (first_value (value_of c) i _ e).0 ∙ ap some (omega arith)
value_at (c ∷ cs) i (suc j) e h =
    value_at cs (i + 1) j (first_value (value_of c) i _ e).1 (omega arith) ∙ ap some (omega arith)

value_of-digit : (i : ℕ) → i < 64 → value_of (digit i) ≡ some i
unfolding xlat
value_of-digit i h = value_at changer 0 i values_table h ∙ ap some (omega arith)

zero_value : value_of 0 ≡ none
unfolding value_of
zero_value = refl

-- No character of the table is zero, since zero has no value.
digit_nonzero : (i : ℕ) → i < 64 → (digit i == 0) ≡ false
digit_nonzero i h = elim (Bool-cases (digit i == 0)) [
  | inl z ↦
      let e : value_of 0 ≡ some i =
        ap value_of (sym ((==_iff (digit i) 0).0 z)) ∙ value_of-digit i h in
      let f : none ≡ some i = sym zero_value ∙ e in cc
  | inr p ↦ p
]

more_follow : (i : ℕ) (bs : List ℕ) → i < 64 → all_zero (digit i ∷ bs) ≡ false
unfolding all_zero
more_follow i bs h = rw (digit_nonzero i h) refl

group-digit :
    (edx i : ℕ) (bs : List ℕ)
    → i < 64
    → all_zero bs ≡ false
    → group edx (digit i ∷ bs) ≡ group (bit_or edx i * 64 % 2 ^ 32) bs
unfolding group
group-digit edx i bs h z = rw (group, value_of-digit i h, z) refl

group_last :
    (edx i : ℕ)
    → i < 64
    → group edx (digit i ∷ []) ≡ (bit_or edx i * 64 % 2 ^ 32 * 4 % 2 ^ 32, none)
unfolding all_zero group
group_last edx i h = rw (group, value_of-digit i h) refl

pub four_bytes :
    {a b c d a' b' c' d' : ℕ}
    → a ≡ a'
    → b ≡ b'
    → c ≡ c'
    → d ≡ d'
    → a ∷ b ∷ c ∷ d ∷ [] ≡ a' ∷ b' ∷ c' ∷ d' ∷ []
four_bytes p q r s = cc

-- One digit behind those that the register holds.
push :
    (k i : ℕ)
    → i < 64
    → (k * 64 + i) * 64 < 2 ^ 32
    → bit_or (k * 64) i * 64 % 2 ^ 32 ≡ (k * 64 + i) * 64
push k i h b = rw (or_digit k i h) (omega arith)

first_digit : (i : ℕ) → i < 64 → bit_or 0 i * 64 % 2 ^ 32 ≡ i * 64
first_digit i h = rw (or_nothing i) (omega arith)

group_two :
    (i0 i1 : ℕ) (bs : List ℕ)
    → i0 < 64
    → i1 < 64
    → all_zero bs ≡ false
    → group 0 (digit i0 ∷ digit i1 ∷ bs) ≡ group ((i0 * 64 + i1) * 64) bs
group_two i0 i1 bs h0 h1 z =
    group-digit 0 i0 (digit i1 ∷ bs) h0 (more_follow i1 bs h1)
    ∙ ap (λ e. group e (digit i1 ∷ bs)) (first_digit i0 h0)
    ∙ group-digit (i0 * 64) i1 bs h1 z
    ∙ ap (λ e. group e bs) (push i0 i1 h1 (omega arith))

group_three :
    (i0 i1 i2 : ℕ) (bs : List ℕ)
    → i0 < 64
    → i1 < 64
    → i2 < 64
    → all_zero bs ≡ false
    → group 0 (digit i0 ∷ digit i1 ∷ digit i2 ∷ bs) ≡ group (((i0 * 64 + i1) * 64 + i2) * 64) bs
group_three i0 i1 i2 bs h0 h1 h2 z =
    group_two i0 i1 (digit i2 ∷ bs) h0 h1 (more_follow i2 bs h2)
    ∙ group-digit ((i0 * 64 + i1) * 64) i2 bs h2 z
    ∙ ap (λ e. group e bs) (push (i0 * 64 + i1) i2 h2 (omega arith))

pub group_four :
    (i0 i1 i2 i3 : ℕ)
    → i0 < 64
    → i1 < 64
    → i2 < 64
    → i3 < 64
    → group 0 (digit i0 ∷ digit i1 ∷ digit i2 ∷ digit i3 ∷ [])
      ≡ ((((i0 * 64 + i1) * 64 + i2) * 64 + i3) * 256, none)
group_four i0 i1 i2 i3 h0 h1 h2 h3 =
    let k = (i0 * 64 + i1) * 64 + i2 in
    let q : (k * 64 + i3) * 64 % 2 ^ 32 * 4 % 2 ^ 32 ≡ (k * 64 + i3) * 256 = omega arith in
    group_three i0 i1 i2 (digit i3 ∷ []) h0 h1 h2 (more_follow i3 [] h3)
    ∙ group_last (k * 64) i3 h3
    ∙ ap (λ e. (e * 64 % 2 ^ 32 * 4 % 2 ^ 32, none)) (or_digit k i3 h3)
    ∙ ap (λ e. (e, none)) q

-- A group with one equals sign, and one with two.
pub group_one_sign :
    (i0 i1 i2 : ℕ)
    → i0 < 64
    → i1 < 64
    → i2 < 64
    → group 0 (digit i0 ∷ digit i1 ∷ digit i2 ∷ equals_sign ∷ [])
      ≡ (((i0 * 64 + i1) * 64 + i2) * 2 ^ 14, some 1)
unfolding group value_of shifts all_zero
group_one_sign i0 i1 i2 h0 h1 h2 =
    group_three i0 i1 i2 (equals_sign ∷ []) h0 h1 h2 refl ∙ ap (λ e. (e, some 1)) (omega arith)

pub group_two_signs :
    (i0 i1 : ℕ)
    → i0 < 64
    → i1 < 64
    → group 0 (digit i0 ∷ digit i1 ∷ equals_sign ∷ equals_sign ∷ [])
      ≡ ((i0 * 64 + i1) * 2 ^ 20, some 2)
unfolding group value_of shifts all_zero
group_two_signs i0 i1 h0 h1 =
    group_two i0 i1 (equals_sign ∷ equals_sign ∷ []) h0 h1 refl
    ∙ ap (λ e. (e, some 2)) (omega arith)

zero_only : (z : ℕ) → (z == 0) ≡ false → all_zero (z ∷ []) ≡ false
unfolding all_zero
zero_only z h = rw h refl

zero_last : (b : Bool) (bs : List ℕ) → all_zero bs ≡ false → (b && all_zero bs) ≡ false
zero_last true bs e = e
zero_last false bs e = refl

not_all_zero : (x : ℕ) (bs : List ℕ) → all_zero bs ≡ false → all_zero (x ∷ bs) ≡ false
unfolding all_zero
not_all_zero x bs e = zero_last (x == 0) bs e

shifts_more : (x : ℕ) (bs : List ℕ) → all_zero bs ≡ false → shifts (x ∷ bs) ≡ suc (shifts bs)
unfolding shifts
shifts_more x bs e = rw (shifts, e) refl

-- Four bytes of which the last one is not zero are shifted four times.
shifts_four : (b x y z : ℕ) → (z == 0) ≡ false → shifts (b ∷ x ∷ y ∷ z ∷ []) ≡ 4
unfolding shifts
shifts_four b x y z h =
    let e1 : all_zero (z ∷ []) ≡ false = zero_only z h in
    let e2 = not_all_zero y (z ∷ []) e1 in
    shifts_more b (x ∷ y ∷ z ∷ []) (not_all_zero x (y ∷ z ∷ []) e2)
    ∙ ap suc (shifts_more x (y ∷ z ∷ []) e2 ∙ ap suc (shifts_more y (z ∷ []) e1))

group_stop :
    (edx b : ℕ) (bs : List ℕ)
    → value_of b ≡ none
    → group edx (b ∷ bs)
      ≡ (edx * 64 ^ shifts (b ∷ bs) % 2 ^ 32 * 4 % 2 ^ 32, some (shifts (b ∷ bs)))
unfolding group
group_stop edx b bs e = rw (group, e) refl

-- Behind the end of the text: a zero, and three bytes of which the last one is not.
pub group_end : (x y z : ℕ) → (z == 0) ≡ false → group 0 (0 ∷ x ∷ y ∷ z ∷ []) ≡ (0, some 4)
group_end x y z h =
    group_stop 0 0 (x ∷ y ∷ z ∷ []) zero_value
    ∙ ap (λ k. (0 * 64 ^ k % 2 ^ 32 * 4 % 2 ^ 32, some k)) (shifts_four 0 x y z h)
