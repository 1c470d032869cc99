-- ===== src/Wire/RoundTrip.antt =====
-- Reading back what the writers of kernwin.cpp store.
use reverse_engineearing.Base.{
  ℕ, ◌+◌, ◌-◌, ◌*◌, ◌/◌, ◌%◌, ◌^◌, ◌≤◌, ◌<◌, bit_or, ◌≡◌, ◌∙◌, inl, inr, false, List, [], ◌∷◌, ◌++◌,
  append_assoc, arith, ltb, if◌then◌else◌, Bool-cases, length, All,
}
use reverse_engineearing.Wire.{pack_dd, append_dd, append_dq, unpack_dd, unpack_dq}
use reverse_engineearing.Wire.Mask.{top_bit, top_two_bits, clear_top_bit, or_zero_left}
use reverse_engineearing.Wire.Format.{
  IsByte, IsU32, dd_bytes, dq_bytes, pack_dd_format, append_dd_lem, append_dq_lem,
}

-- The reader that the four forms call for: the top bits of the first byte choose the form.
read_tail : ℕ → List ℕ → ℕ × List ℕ
read_tail b (c ∷ d ∷ e ∷ f ∷ rest) =
    if ltb b 0xE0
    then ((b - 192) * 2 ^ 24 + c * 65536 + d * 256 + e, f ∷ rest)
    else (c * 2 ^ 24 + d * 65536 + e * 256 + f, rest)
read_tail b (c ∷ d ∷ e ∷ []) =
    if ltb b 0xE0 then ((b - 192) * 2 ^ 24 + c * 65536 + d * 256 + e, []) else (0, [])
read_tail b _ = (0, [])

read_two : ℕ → List ℕ → ℕ × List ℕ
read_two b [] = (b, [])
read_two b (c ∷ rest) = ((b - 128) * 256 + c, rest)

unfoldable pub read_dd : List ℕ → ℕ × List ℕ
unfolding read_tail read_two
read_dd [] = (0, [])
read_dd (b ∷ rest) =
    if ltb b 0x80 then (b, rest) else (if ltb b 0xC0 then read_two b rest else read_tail b rest)

-- The two longest forms, in front of any rest.
read_dd-long :
    (x : ℕ) (rest : List ℕ)
    → IsU32 x
    → ltb x 0x4000 ≡ false
    → read_dd (dd_bytes x ++ rest) ≡ (x, rest)
unfolding read_dd dd_bytes
read_dd-long x [] h big = ground arith
read_dd-long x (r ∷ rest) h big = ground arith

-- Every 32-bit number is determined by its packed form, and the form says where it ends: the forms
-- are uniquely decodable in front of any rest.
pub read_dd-pack_dd : (x : ℕ) (rest : List ℕ) → IsU32 x → read_dd (pack_dd 5 x ++ rest) ≡ (x, rest)
read_dd-pack_dd x rest h = rw (pack_dd_format x h) (elim (Bool-cases (ltb x 0x4000)) [
  | inr big ↦ read_dd-long x rest h big
  | inl small ↦ unfold read_dd dd_bytes in ground arith
])

-- A first byte below 0x80 is the number itself.
unpack_one : (b : ℕ) (rest : List ℕ) → b < 128 → unpack_dd (b ∷ rest) ≡ (b, rest)
unfolding unpack_dd
unpack_one b rest h = ground (arith, top_bit b)

-- Any other first byte is read as the first of two.
pub unpack_two :
    (b c : ℕ) (rest : List ℕ)
    → 128 ≤ b
    → IsByte b
    → IsByte c
    → unpack_dd (b ∷ c ∷ rest) ≡ (c + b % 128 * 256, rest)
unfolding unpack_dd
unpack_two b c rest h hb hc = ground (arith, top_bit b, top_two_bits b, clear_top_bit b)

abbrev pub IsShort : ℕ → Type 0
IsShort x = x < 0x4000

pub unpack-dd_bytes :
    (x : ℕ) (rest : List ℕ) → IsShort x → unpack_dd (dd_bytes x ++ rest) ≡ (x, rest)
unfolding dd_bytes
unpack-dd_bytes x rest h = elim (Bool-cases (ltb x 0x80)) [
  | inl one ↦ rw one (unpack_one x rest (ground arith))
  | inr two ↦ ground (arith, unpack_two (x / 256 + 128) (x % 256) rest)
]

-- A number below 2^14 that `append_dd` stored is read back by `unpack_dd`, which stops behind it.
unpack_dd-append_dd :
    (x : ℕ) (rest : List ℕ) → IsShort x → unpack_dd (append_dd [] x ++ rest) ≡ (x, rest)
unpack_dd-append_dd x rest h = rw (append_dd_lem [] x (omega arith)) (unpack-dd_bytes x rest h)

-- On bytes, `unpack_dd` takes at most two of them, one at least where there is one, and returns less than 2^15.
pub unpack_dd_takes :
    (s : List ℕ)
    → All IsByte s
    → ((unpack_dd s).0 < 0x8000)
      × (length (unpack_dd s).1 ≤ length s)
      × (length s ≤ length (unpack_dd s).1 + 2)
      × All IsByte (unpack_dd s).1
unfolding unpack_dd
unpack_dd_takes [] h = ground arith
unpack_dd_takes (b ∷ []) h = ground (arith, top_bit b, top_two_bits b)
unpack_dd_takes (b ∷ c ∷ rest) h = ground (arith, top_bit b, top_two_bits b, clear_top_bit b, h.1.1)

-- The two halves of a packed 64-bit number, each below 2^14, come back through the target's shift.
pub unpack-dq_bytes :
    (shl32 : ℕ → ℕ) (x : ℕ) (rest : List ℕ)
    → IsShort (x % 2 ^ 32)
    → IsShort (x / 2 ^ 32 % 2 ^ 32)
    → unpack_dq shl32 (dq_bytes x ++ rest)
      ≡ (bit_or (shl32 (x / 2 ^ 32 % 2 ^ 32) % 2 ^ 32) (x % 2 ^ 32), rest)
unfolding unpack_dq dq_bytes
unpack-dq_bytes shl32 x rest hl hh = rw (
  append_assoc (dd_bytes (x % 2 ^ 32)) (dd_bytes (x / 2 ^ 32 % 2 ^ 32)) rest,
  unpack-dd_bytes (x % 2 ^ 32) (dd_bytes (x / 2 ^ 32 % 2 ^ 32) ++ rest) hl,
  unpack-dd_bytes (x / 2 ^ 32 % 2 ^ 32) rest hh,
)

-- A number below 2^14 that `append_dq` stored is read back by `unpack_dq` on every target that
-- shifts zero to zero.
pub unpack_dq-append_dq :
    (shl32 : ℕ → ℕ) (x : ℕ) (rest : List ℕ)
    → shl32 0 ≡ 0
    → IsShort x
    → unpack_dq shl32 (append_dq [] x ++ rest) ≡ (x, rest)
unpack_dq-append_dq shl32 x rest z h =
    rw (append_dq_lem [] x) (
      unpack-dq_bytes shl32 x rest (omega arith) (omega arith)
      ∙ ground (arith, or_zero_left x h, z))
