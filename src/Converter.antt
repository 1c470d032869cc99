-- ===== src/Converter.antt =====
-- 专用地址转换器/专用地址转换器Dlg.cpp: `translate1` and `translate2`, written in assembly, which turn bytes into
-- the text of a download address and back. A 32-bit register is a number below 2^32.
pub mod Bits
pub mod Encode
pub mod Decode
pub mod RoundTrip
pub mod Addresses
pub mod Examples
use reverse_engineearing.Base.{
  ℕ, zero, suc, ◌+◌, ◌-◌, ◌*◌, ◌/◌, ◌%◌, ◌^◌, ◌≤◌, ◌<◌, bit_and, bit_or, ◌≡◌, refl, sym, ap, ◌∙◌,
  ◌≢◌, ◌↔◌, ◌⊎◌, inl, inr, Bool, true, false, not, ◌&&◌, ◌||◌, Option, none, some, List, [], ◌∷◌,
  ◌++◌, append_assoc, append-nil, arith, ltb, leb, ◌==◌, if◌then◌else◌, of_bool, ==_iff, Bool-cases,
  Option-cases, length, get_elem?, set, take, drop, replicate, All, length-append, length-take,
  length-drop, take-append-drop, take-length-append, drop-length-append, take_all, All-append,
  codes, take_pieces, drop_pieces,
}

abbrev pub equals_sign : ℕ
equals_sign = 61

-- The table `changer`.
abbrev pub changer : List ℕ
changer = codes "ABCDEFGHIJKLMNOPQRSTUVWXYZabcdefghijklmnopqrstuvwxyz0123456789+/"

pub xlat : ℕ → ℕ
xlat i = elim (get_elem? changer i) [ none ↦ 0 | some c ↦ c ]

-- `rol eax, 6`
pub rol6 : ℕ → ℕ
rol6 eax = (eax * 64 + eax / 2 ^ 26) % 2 ^ 32

-- `eax` with `al` set to `c`.
pub with_al : ℕ → ℕ → ℕ
with_al eax c = eax - eax % 256 + c

-- Each of the four times that the code takes the upper six bits: the character, and the register with it.
pub emit : ℕ → ℕ × ℕ
unfolding xlat rol6 with_al
emit eax = let r = rol6 eax in let c = xlat (r % 64) in (c, with_al r c)

pub emit_four : ℕ → List ℕ × ℕ
unfolding emit
emit_four eax =
    let (c0, eax0) = emit eax in
    let (c1, eax1) = emit eax0 in
    let (c2, eax2) = emit eax1 in let (c3, eax3) = emit eax2 in (c0 ∷ c1 ∷ c2 ∷ c3 ∷ [], eax3)

-- `lodsb` and `shl eax, 8`
load : ℕ → ℕ → ℕ
unfolding with_al
load eax b = with_al eax b * 256 % 2 ^ 32

-- The bytes at the end, three at most, shifted up to the top of the register; the characters past the data are
-- overwritten with equals signs.
pub translate_rest : ℕ → List ℕ → List ℕ
unfolding emit_four load
translate_rest eax [] = take 1 (emit_four (eax * 2 ^ 24 % 2 ^ 32)).0 ++ replicate 3 equals_sign
translate_rest eax (a ∷ []) =
    take 2 (emit_four (load eax a * 65536 % 2 ^ 32)).0 ++ replicate 2 equals_sign
translate_rest eax (a ∷ b ∷ []) =
    take 3 (emit_four (load (load eax a) b * 256 % 2 ^ 32)).0 ++ replicate 1 equals_sign
translate_rest eax (a ∷ b ∷ c ∷ rest) = (emit_four (load (load (load eax a) b) c)).0

-- `translate1`: while there are four bytes or more, they are loaded, and three of them are translated. `eax` is
-- what the register holds before. The text stands without its NUL; its length is what is returned.
pub translate1 : ℕ → List ℕ → List ℕ
unfolding emit_four translate_rest
translate1 eax (a ∷ b ∷ c ∷ d ∷ rest) =
    let (text, eax') = emit_four (a * 2 ^ 24 + b * 65536 + c * 256 + d) in
    text ++ translate1 eax' (d ∷ rest)
translate1 eax [] = translate_rest eax []
translate1 eax (a ∷ []) = translate_rest eax (a ∷ [])
translate1 eax (a ∷ b ∷ []) = translate_rest eax (a ∷ b ∷ [])
translate1 eax (a ∷ b ∷ c ∷ []) = translate_rest eax (a ∷ b ∷ c ∷ [])

-- What a character stands for. The bounds above are compared with a sign, so that a byte from 128 on is taken
-- for a letter.
pub value_of : ℕ → Option ℕ
value_of al =
    if ltb al 65
    then (if ltb al 48
        then (if al == 43 then some 62 else (if al == 47 then some 63 else none))
        else (if ltb 57 al then none else some (al + 4)))
    else (if ltb 90 al && ltb al 128
        then (if ltb al 97 then none else (if ltb 122 al then none else some (al - 71)))
        else some (al - 65))

pub all_zero : List ℕ → Bool
all_zero [] = true
all_zero (b ∷ bs) = (b == 0) && all_zero bs

-- `flag8`: how many times `eax`, with these bytes, is shifted right by eight until it is zero.
pub shifts : List ℕ → ℕ
unfolding all_zero
shifts [] = 0
shifts (b ∷ bs) = if all_zero bs then 1 else suc (shifts bs)

-- Four characters: the word that they make, and how many shifts the end took, or none if it goes on.
pub group : ℕ → List ℕ → ℕ × Option ℕ
unfolding value_of all_zero shifts
group edx [] = (edx * 4 % 2 ^ 32, none)
group edx (b ∷ bs) =
    let k = shifts (b ∷ bs) in
    let on : ℕ → ℕ × Option ℕ = λ d. group (bit_or edx d * 64 % 2 ^ 32) bs in
    let last : ℕ → ℕ × Option ℕ = λ d. (bit_or edx d * 64 % 2 ^ 32 * 4 % 2 ^ 32, none) in
    elim (value_of b) [
      | none ↦ (edx * 64 ^ k % 2 ^ 32 * 4 % 2 ^ 32, some k)
      | some d ↦ if all_zero bs then last d else on d
    ]

-- `bswap` and `stosd`
pub stored : ℕ → List ℕ
stored w = (w / 2 ^ 24 % 256) ∷ (w / 65536 % 256) ∷ (w / 256 % 256) ∷ (w % 256) ∷ []

after_group : (List ℕ → Option (List ℕ × ℕ)) → List ℕ → ℕ × Option ℕ → Option (List ℕ × ℕ)
unfolding stored
after_group more out (w, none) = more (out ++ take 3 (stored w))
after_group more out (w, some k) =
    some (out ++ stored w, (length out + 4 + 2 ^ 32 - k - 1) % 2 ^ 32)

-- `translate2`, for `n` groups: the bytes that it stores behind `out`, and the length that it returns; none: the
-- source is read behind its end. The bytes of a group that is not the last one are three, and a zero that the
-- next group overwrites.
pub translate2 : ℕ → List ℕ → List ℕ → Option (List ℕ × ℕ)
unfolding group after_group
translate2 zero out s = some (out, length out)
translate2 (suc n) out (b0 ∷ b1 ∷ b2 ∷ b3 ∷ rest) =
    after_group (λ out'. translate2 n out' rest) out (group 0 (b0 ∷ b1 ∷ b2 ∷ b3 ∷ []))
translate2 (suc n) out s = none
