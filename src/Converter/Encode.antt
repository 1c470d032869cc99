-- ===== src/Converter/Encode.antt =====
-- What `translate1` makes of bytes, said by the digits of the base 64.
use reverse_engineearing.Base.{
  ℕ, zero, suc, ◌+◌, ◌*◌, ◌/◌, ◌%◌, ◌^◌, ◌<◌, ◌≡◌, refl, ap, ◌∙◌, Bool, true, ◌&&◌, none, some,
  List, [], ◌∷◌, ◌++◌, arith, ltb, length, get_elem?, take, replicate, All,
}
use reverse_engineearing.Wire.Format.{IsByte}
use reverse_engineearing.Converter.{
  equals_sign, changer, xlat, rol6, with_al, emit, emit_four, load, translate_rest, translate1,
}

-- The character of a digit.
abbrev pub digit : ℕ → ℕ
digit i = xlat i

-- Three bytes are four digits; two are three and one is two, and equals signs fill the rest up.
unfoldable pub encode : List ℕ → List ℕ
encode [] = []
encode (a ∷ []) = digit (a / 4) ∷ digit (a % 4 * 16) ∷ equals_sign ∷ equals_sign ∷ []
encode (a ∷ b ∷ []) =
    digit (a / 4) ∷ digit (a % 4 * 16 + b / 16) ∷ digit (b % 16 * 4) ∷ equals_sign ∷ []
encode (a ∷ b ∷ c ∷ rest) =
    digit (a / 4)
    ∷ digit (a % 4 * 16 + b / 16)
    ∷ digit (b % 16 * 4 + c / 64)
    ∷ digit (c % 64)
    ∷ encode rest

all_bytes : List ℕ → Bool
all_bytes [] = true
all_bytes (c ∷ cs) = ltb c 256 && all_bytes cs

entry_small :
    (cs : List ℕ) (i : ℕ)
    → all_bytes cs ≡ true
    → (elim (get_elem? cs i) [ none ↦ 0 | some c ↦ c ]) < 256
unfolding all_bytes
entry_small [] i e = omega arith
entry_small (c ∷ cs) zero e = ground arith
entry_small (c ∷ cs) (suc i) e = entry_small cs i (ground (arith, e))

xlat_small : (i : ℕ) → xlat i < 256
unfolding xlat all_bytes
xlat_small i = entry_small changer i refl

rol6_upper : (x : ℕ) → x < 2 ^ 32 → rol6 x / 256 ≡ x % 2 ^ 26 / 4
unfolding rol6
rol6_upper x h = omega arith

rol6_lower : (x : ℕ) → x < 2 ^ 32 → rol6 x % 64 ≡ x / 2 ^ 26
unfolding rol6
rol6_lower x h = omega arith

rol6_small : (x : ℕ) → rol6 x < 2 ^ 32
unfolding rol6
rol6_small x = omega arith

pub with_al_upper :
    (r c : ℕ) → c < 256 → r < 2 ^ 32 → (with_al r c / 256 ≡ r / 256) × (with_al r c < 2 ^ 32)
unfolding with_al
with_al_upper r c h k = (omega arith, omega arith)

-- The upper bits of the register move up, and the character below them does not reach them.
emit_upper :
    (eax : ℕ)
    → eax < 2 ^ 32
    → ((emit eax).0 ≡ xlat (eax / 2 ^ 26))
      × ((emit eax).1 / 256 ≡ eax % 2 ^ 26 / 4)
      × ((emit eax).1 < 2 ^ 32)
unfolding emit with_al
emit_upper eax h =
    let w =
      with_al_upper (rol6 eax) (xlat (rol6 eax % 64)) (xlat_small (rol6 eax % 64))
        (rol6_small eax) in
    (ap xlat (rol6_lower eax h), w.0 ∙ rol6_upper eax h, w.1)

four_same :
    {a b c d a' b' c' d' : ℕ}
    → a ≡ a'
    → b ≡ b'
    → c ≡ c'
    → d ≡ d'
    → a ∷ b ∷ c ∷ d ∷ [] ≡ a' ∷ b' ∷ c' ∷ d' ∷ []
four_same p q r s = cc

-- The upper 24 bits of the register are the four digits.
pub emit_four_lem :
    (x : ℕ)
    → x < 2 ^ 32
    → (emit_four x).0
      ≡ digit (x / 2 ^ 26)
        ∷ digit (x / 2 ^ 20 % 64)
        ∷ digit (x / 2 ^ 14 % 64)
        ∷ digit (x / 256 % 64)
        ∷ []
unfolding emit_four
emit_four_lem x h =
    let (e0, u0, s0) = emit_upper x h in
    let x1 = (emit x).1 in
    let (e1, u1, s1) = emit_upper x1 s0 in
    let x2 = (emit x1).1 in
    let (e2, u2, s2) = emit_upper x2 s1 in
    let x3 = (emit x2).1 in
    let (e3, u3, s3) = emit_upper x3 s2 in
    let q1 : x1 / 2 ^ 26 ≡ x / 2 ^ 20 % 64 = omega arith in
    let q2 : x2 / 2 ^ 26 ≡ x / 2 ^ 14 % 64 = omega arith in
    let q3 : x3 / 2 ^ 26 ≡ x / 256 % 64 = omega arith in
    four_same e0 (e1 ∙ ap xlat q1) (e2 ∙ ap xlat q2) (e3 ∙ ap xlat q3)

-- A word of three bytes at the top gives their digits, whatever is below them.
emit_three :
    (a b c d : ℕ)
    → IsByte a
    → IsByte b
    → IsByte c
    → IsByte d
    → (emit_four (a * 2 ^ 24 + b * 65536 + c * 256 + d)).0
      ≡ digit (a / 4)
        ∷ digit (a % 4 * 16 + b / 16)
        ∷ digit (b % 16 * 4 + c / 64)
        ∷ digit (c % 64)
        ∷ []
emit_three a b c d ha hb hc hd =
    let x = a * 2 ^ 24 + b * 65536 + c * 256 + d in
    let p0 : x / 2 ^ 26 ≡ a / 4 = omega arith in
    let p1 : x / 2 ^ 20 % 64 ≡ a % 4 * 16 + b / 16 = omega arith in
    let p2 : x / 2 ^ 14 % 64 ≡ b % 16 * 4 + c / 64 = omega arith in
    let p3 : x / 256 % 64 ≡ c % 64 = omega arith in
    emit_four_lem x (omega arith) ∙ four_same (ap xlat p0) (ap xlat p1) (ap xlat p2) (ap xlat p3)

-- The bytes at the end are shifted to the top, and what the register held before leaves it.
load_three :
    (eax a b c : ℕ)
    → IsByte a
    → IsByte b
    → IsByte c
    → load (load (load eax a) b) c ≡ a * 2 ^ 24 + b * 65536 + c * 256 + 0
unfolding load with_al
load_three eax a b c ha hb hc = omega arith

load_two :
    (eax a b : ℕ)
    → IsByte a
    → IsByte b
    → load (load eax a) b * 256 % 2 ^ 32 ≡ a * 2 ^ 24 + b * 65536 + 0 * 256 + 0
unfolding load with_al
load_two eax a b ha hb = omega arith

load_one :
    (eax a : ℕ) → IsByte a → load eax a * 65536 % 2 ^ 32 ≡ a * 2 ^ 24 + 0 * 65536 + 0 * 256 + 0
unfolding load with_al
load_one eax a ha = omega arith

rest_one : (eax a : ℕ) → IsByte a → translate_rest eax (a ∷ []) ≡ encode (a ∷ [])
unfolding translate_rest encode
rest_one eax a ha =
    let q : a % 4 * 16 + 0 / 16 ≡ a % 4 * 16 = omega arith in
    ap (λ w. take 2 (emit_four w).0 ++ replicate 2 equals_sign) (load_one eax a ha)
    ∙ ap (λ t. take 2 t ++ replicate 2 equals_sign)
        (emit_three a 0 0 0 ha (omega arith) (omega arith) (omega arith))
    ∙ ap (λ i. digit (a / 4) ∷ digit i ∷ equals_sign ∷ equals_sign ∷ []) q

rest_two :
    (eax a b : ℕ) → IsByte a → IsByte b → translate_rest eax (a ∷ b ∷ []) ≡ encode (a ∷ b ∷ [])
unfolding translate_rest encode
rest_two eax a b ha hb =
    let q : b % 16 * 4 + 0 / 64 ≡ b % 16 * 4 = omega arith in
    ap (λ w. take 3 (emit_four w).0 ++ replicate 1 equals_sign) (load_two eax a b ha hb)
    ∙ ap (λ t. take 3 t ++ replicate 1 equals_sign)
        (emit_three a b 0 0 ha hb (omega arith) (omega arith))
    ∙ ap (λ i. digit (a / 4) ∷ digit (a % 4 * 16 + b / 16) ∷ digit i ∷ equals_sign ∷ []) q

rest_three :
    (eax a b c : ℕ)
    → IsByte a
    → IsByte b
    → IsByte c
    → translate_rest eax (a ∷ b ∷ c ∷ []) ≡ encode (a ∷ b ∷ c ∷ [])
unfolding translate_rest encode
rest_three eax a b c ha hb hc =
    ap (λ w. (emit_four w).0) (load_three eax a b c ha hb hc)
    ∙ emit_three a b c 0 ha hb hc (omega arith)

-- The registers of `translate1` compute the base 64 of every byte string that is not empty, with equals signs
-- at its end, whatever the register holds before.
pub translate1-encode :
    (eax : ℕ) (bs : List ℕ) → 0 < length bs → All IsByte bs → translate1 eax bs ≡ encode bs
unfolding translate1 encode
translate1-encode eax [] some_bytes h = absurd (omega arith)
translate1-encode eax (a ∷ []) some_bytes h = rest_one eax a h.0
translate1-encode eax (a ∷ b ∷ []) some_bytes h = rest_two eax a b h.0 h.1.0
translate1-encode eax (a ∷ b ∷ c ∷ []) some_bytes h = rest_three eax a b c h.0 h.1.0 h.1.1.0
translate1-encode eax (a ∷ b ∷ c ∷ d ∷ rest) some_bytes h =
    let (ha, (hb, (hc, hrest))) = h in
    let eax' = (emit_four (a * 2 ^ 24 + b * 65536 + c * 256 + d)).1 in
    ap (λ t. t ++ translate1 eax' (d ∷ rest)) (emit_three a b c d ha hb hc hrest.0)
    ∙ ap
        (λ t.
          digit (a / 4)
          ∷ digit (a % 4 * 16 + b / 16)
          ∷ digit (b % 16 * 4 + c / 64)
          ∷ digit (c % 64)
          ∷ t)
        (translate1-encode eax' (d ∷ rest) (omega arith) hrest)
