-- ===== src/Converter/RoundTrip.antt =====
-- Bytes through `translate1` and `translate2`.
use reverse_engineearing.Base.{
  ℕ, zero, suc, ◌+◌, ◌-◌, ◌*◌, ◌/◌, ◌%◌, ◌^◌, ◌<◌, ◌≡◌, refl, ap, ◌∙◌, false, Option, none, some,
  List, [], ◌∷◌, ◌++◌, append_assoc, arith, ◌==◌, if◌then◌else◌, length, take, All, length-append,
}
use reverse_engineearing.Wire.Format.{IsByte}
use reverse_engineearing.Converter.{translate1, group, stored, after_group, translate2}
use reverse_engineearing.Converter.Encode.{encode, translate1-encode}
use reverse_engineearing.Converter.Decode.{
  four_bytes, group_four, group_one_sign, group_two_signs, group_end,
}

-- Three bytes, from the word that their digits make.
stored_three :
    (a b c : ℕ)
    → IsByte a
    → IsByte b
    → IsByte c
    → stored
        ((((a / 4 * 64 + (a % 4 * 16 + b / 16)) * 64 + (b % 16 * 4 + c / 64)) * 64 + c % 64) * 256)
      ≡ a ∷ b ∷ c ∷ 0 ∷ []
unfolding stored
stored_three a b c ha hb hc = four_bytes (omega arith) (omega arith) (omega arith) (omega arith)

stored_two :
    (a b : ℕ)
    → IsByte a
    → IsByte b
    → stored (((a / 4 * 64 + (a % 4 * 16 + b / 16)) * 64 + b % 16 * 4) * 2 ^ 14)
      ≡ a ∷ b ∷ 0 ∷ 0 ∷ []
unfolding stored
stored_two a b ha hb = four_bytes (omega arith) (omega arith) (omega arith) (omega arith)

stored_one : (a : ℕ) → IsByte a → stored ((a / 4 * 64 + a % 4 * 16) * 2 ^ 20) ≡ a ∷ 0 ∷ 0 ∷ 0 ∷ []
unfolding stored
stored_one a ha = four_bytes (omega arith) (omega arith) (omega arith) (omega arith)

stored_none : stored 0 ≡ 0 ∷ 0 ∷ 0 ∷ 0 ∷ []
unfolding stored
stored_none = refl

quarter : (a : ℕ) → IsByte a → a / 4 < 64
quarter a h = omega arith

middle : (a b : ℕ) → IsByte b → a % 4 * 16 + b / 16 < 64
middle a b h = omega arith

upper : (b c : ℕ) → IsByte c → b % 16 * 4 + c / 64 < 64
upper b c h = omega arith

-- The groups of four characters that a number of bytes takes.
unfoldable pub groups : List ℕ → ℕ
groups [] = 0
groups (a ∷ []) = 1
groups (a ∷ b ∷ []) = 1
groups (a ∷ b ∷ c ∷ rest) = suc (groups rest)

-- What stands behind the bytes: the last group is stored whole.
unfoldable pub tail_zeros : List ℕ → List ℕ
tail_zeros [] = 0 ∷ 0 ∷ 0 ∷ 0 ∷ []
tail_zeros (a ∷ []) = 0 ∷ 0 ∷ 0 ∷ []
tail_zeros (a ∷ b ∷ []) = 0 ∷ 0 ∷ []
tail_zeros (a ∷ b ∷ c ∷ rest) = tail_zeros rest

-- The length that is returned for these bytes, when more groups are looked for than the text has.
returned : ℕ → List ℕ → ℕ
returned n [] = (n + 2 ^ 32 - 1) % 2 ^ 32
returned n (a ∷ []) = (n + 1) % 2 ^ 32
returned n (a ∷ b ∷ []) = (n + 2) % 2 ^ 32
returned n (a ∷ b ∷ c ∷ rest) = returned (n + 3) rest

-- A group that the text ends in.
decode_last :
    (n : ℕ) (out : List ℕ) (c0 c1 c2 c3 : ℕ) (rest : List ℕ) (w k : ℕ)
    → group 0 (c0 ∷ c1 ∷ c2 ∷ c3 ∷ []) ≡ (w, some k)
    → translate2 (suc n) out (c0 ∷ c1 ∷ c2 ∷ c3 ∷ rest)
      ≡ some (out ++ stored w, (length out + 4 + 2 ^ 32 - k - 1) % 2 ^ 32)
unfolding translate2 after_group
decode_last n out c0 c1 c2 c3 rest w k e = ap (after_group (λ out'. translate2 n out' rest) out) e

decode_next :
    (n : ℕ) (out : List ℕ) (c0 c1 c2 c3 : ℕ) (rest : List ℕ) (w : ℕ)
    → group 0 (c0 ∷ c1 ∷ c2 ∷ c3 ∷ []) ≡ (w, none)
    → translate2 (suc n) out (c0 ∷ c1 ∷ c2 ∷ c3 ∷ rest)
      ≡ translate2 n (out ++ take 3 (stored w)) rest
unfolding translate2 after_group
decode_next n out c0 c1 c2 c3 rest w e = ap (after_group (λ out'. translate2 n out' rest) out) e

-- Text of whole bytes, a zero, and three bytes of which the last one is not zero.
unfoldable pub Follows : List ℕ → List ℕ → Type 0
Follows [] rest =
    (x : ℕ) × (y : ℕ) × (z : ℕ) × (more : List ℕ) × ((z == 0) ≡ false)
    × (rest ≡ 0 ∷ x ∷ y ∷ z ∷ more)
Follows (a ∷ []) rest = Unit
Follows (a ∷ b ∷ []) rest = Unit
Follows (a ∷ b ∷ c ∷ bs) rest = Follows bs rest

result : List ℕ → ℕ → Option (List ℕ × ℕ)
result s n = some (s, n)

same_result : {s t : List ℕ} {m n : ℕ} → s ≡ t → m ≡ n → result s m ≡ result t n
same_result p q = cc

-- With more groups asked for than the text has, the bytes come back and the zeros of the last group behind them.
translate2_lem :
    (n : ℕ) (out bs rest : List ℕ)
    → All IsByte bs
    → groups bs < n
    → Follows bs rest
    → translate2 n out (encode bs ++ rest)
      ≡ some (out ++ (bs ++ tail_zeros bs), returned (length out) bs)
unfolding encode groups tail_zeros returned Follows result
translate2_lem zero out bs rest h g f = absurd (omega arith)
translate2_lem (suc n) out [] rest h g (x, y, z, more, last, e) =
    ap (translate2 (suc n) out) e
    ∙ decode_last n out 0 x y z more 0 4 (group_end x y z last)
    ∙ same_result (ap (◌++◌ out) stored_none) (omega arith)
translate2_lem (suc n) out (a ∷ []) rest h g f =
    decode_last n out _ _ _ _ rest _ 2
      (group_two_signs (a / 4) (a % 4 * 16) (quarter a h.0) (omega arith))
    ∙ same_result (ap (◌++◌ out) (stored_one a h.0)) (omega arith)
translate2_lem (suc n) out (a ∷ b ∷ []) rest h g f =
    decode_last n out _ _ _ _ rest _ 1 (
      group_one_sign (a / 4) (a % 4 * 16 + b / 16) (b % 16 * 4) (quarter a h.0) (middle a b h.1.0)
        (omega arith))
    ∙ same_result (ap (◌++◌ out) (stored_two a b h.0 h.1.0)) (omega arith)
translate2_lem (suc n) out (a ∷ b ∷ c ∷ bs) rest h g f =
    let (ha, (hb, (hc, hbs))) = h in
    let w =
      (((a / 4 * 64 + (a % 4 * 16 + b / 16)) * 64 + (b % 16 * 4 + c / 64)) * 64 + c % 64) * 256 in
    let out' = out ++ (a ∷ b ∷ c ∷ []) in
    let len : length out' ≡ length out + 3 = length-append out (a ∷ b ∷ c ∷ []) in
    decode_next n out _ _ _ _ (encode bs ++ rest) w (
      group_four (a / 4) (a % 4 * 16 + b / 16) (b % 16 * 4 + c / 64) (c % 64) (quarter a ha)
        (middle a b hb) (upper b c hc) (omega arith))
    ∙ ap (λ s. translate2 n (out ++ take 3 s) (encode bs ++ rest)) (stored_three a b c ha hb hc)
    ∙ translate2_lem n out' bs rest hbs (omega arith) f
    ∙ same_result (append_assoc out (a ∷ b ∷ c ∷ []) (bs ++ tail_zeros bs))
        (ap (λ k. returned k bs) len)

returned_lem :
    (n : ℕ) (bs : List ℕ)
    → n + length bs < 2 ^ 32
    → 0 < n + length bs
    → returned n bs ≡ (if length bs % 3 == 0 then n + length bs - 1 else n + length bs)
unfolding returned
returned_lem n [] h k = omega arith
returned_lem n (a ∷ []) h k = omega arith
returned_lem n (a ∷ b ∷ []) h k = omega arith
returned_lem n (a ∷ b ∷ c ∷ bs) h k =
    let q : suc (suc (suc (length bs))) % 3 ≡ length bs % 3 = omega arith in
    let r : n + 3 + length bs ≡ n + suc (suc (suc (length bs))) = omega arith in
    returned_lem (n + 3) bs (omega arith) (omega arith) ∙ rw (q, r) refl

-- The text that `translate1` makes of bytes, one at least, is turned back into them by `translate2`, with zeros behind
-- them, when more groups of four characters are asked for than it has. The length that is returned is that of the
-- bytes if the text ends in equals signs. If it does not, because the number of bytes is divisible by three, the text
-- must be followed by a zero and three bytes of which the last one is not zero, and the length is one less.
pub translate2-translate1 :
    (eax n : ℕ) (bs rest : List ℕ)
    → 0 < length bs
    → length bs < 2 ^ 32
    → All IsByte bs
    → groups bs < n
    → Follows bs rest
    → translate2 n [] (translate1 eax bs ++ rest)
      ≡ some (bs ++ tail_zeros bs, if length bs % 3 == 0 then length bs - 1 else length bs)
unfolding result
translate2-translate1 eax n bs rest nonempty small h g f =
    let q : 0 + length bs ≡ length bs = omega arith in
    ap (λ t. translate2 n [] (t ++ rest)) (translate1-encode eax bs nonempty h)
    ∙ translate2_lem n [] bs rest h g f
    ∙ same_result {s = bs ++ tail_zeros bs} refl (
        returned_lem 0 bs (omega arith) (omega arith)
        ∙ ap (λ k. if length bs % 3 == 0 then k - 1 else k) q)
