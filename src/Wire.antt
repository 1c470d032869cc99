-- ===== src/Wire.antt =====
-- kernwin.cpp: the packed integers of the debugger protocol. A buffer is the list of the bytes
-- stored from the pointer on; `room` is `end - ptr`. A read pointer is the list of the bytes before
-- `end`.
pub mod Mask
pub mod Format
pub mod RoundTrip
pub mod Defects
pub mod Examples
use reverse_engineearing.Base.{
  ℕ, zero, suc, ◌+◌, ◌-◌, ◌*◌, ◌/◌, ◌%◌, ◌^◌, bit_and, bit_or, Bool, List, [], ◌∷◌, ◌++◌, ltb, ◌==◌,
  if◌then◌else◌, length,
}

-- `HIBYTE`: the second byte.
abbrev pub hibyte : ℕ → ℕ
hibyte x = x / 256 % 256

-- `HIWORD`: the upper half of a 32-bit word.
abbrev pub hiword : ℕ → ℕ
hiword x = x / 65536 % 65536

-- Two bytes, the higher first, as far as there is room.
pub put_dw : ℕ → ℕ → List ℕ
put_dw zero v = []
put_dw (suc zero) v = hibyte v ∷ []
put_dw (suc (suc room)) v = hibyte v ∷ (v % 256) ∷ []

-- The byte 0xFF of the widest form is stored whether or not there is room for it.
pub pack_dd : ℕ → ℕ → List ℕ
unfolding put_dw
pack_dd room x =
    if ltb 0x7F x
    then (if ltb 0x3FFF x
        then (if ltb 0x1FFFFFFF x
            then (let v4 = put_dw (room - 1) (hiword x) in
                0xFF ∷ (v4 ++ put_dw (room - 1 - length v4) (x % 65536)))
            else (let v4 = put_dw room (bit_or (hiword x) 0xC000) in
                v4 ++ put_dw (room - length v4) (x % 65536)))
        else put_dw room (bit_or x 0x8000 % 65536))
    else (if ltb 0 room then (x % 256) ∷ [] else [])

-- The low half first, then the high half in the room that is left.
pub pack_dq : ℕ → ℕ → List ℕ
pack_dq room x =
    let low = pack_dd room (x % 2 ^ 32) in low ++ pack_dd (room - length low) (x / 2 ^ 32 % 2 ^ 32)

pub unpack_db : List ℕ → ℕ × List ℕ
unpack_db [] = (0, [])
unpack_db (b ∷ rest) = (b, rest)

pub get_dw : List ℕ → ℕ × List ℕ
get_dw [] = (0, [])
get_dw (a ∷ []) = (a * 256 % 65536, [])
get_dw (a ∷ b ∷ rest) = (bit_or b (a * 256 % 65536), rest)

-- The 16-bit word of the four-byte form: the low six bits of the first byte, then one more byte.
long_word : ℕ → List ℕ → ℕ × List ℕ
long_word b [] = (0, [])
long_word b (c ∷ rest) = ((c + bit_and b 0x3F * 256) % 65536, rest)

-- `v7 + (v6 << 16)`, as a 32-bit word.
abbrev join_words : ℕ → ℕ → ℕ
join_words v6 v7 = (v7 + v6 * 65536) % 2 ^ 32

-- The widest form: two words follow the first byte.
five_bytes : List ℕ → ℕ × List ℕ
unfolding get_dw
five_bytes rest = let (v6, r) = get_dw rest in let (v7, r') = get_dw r in (join_words v6 v7, r')

four_bytes : ℕ → List ℕ → ℕ × List ℕ
unfolding get_dw long_word
four_bytes b rest =
    let (v6, r) = long_word b rest in let (v7, r') = get_dw r in (join_words v6 v7, r')

two_bytes : ℕ → List ℕ → ℕ × List ℕ
two_bytes b [] = (b, [])
two_bytes b (c ∷ rest) = ((c + bit_and b 0xFFFFFF7F * 256) % 2 ^ 32, rest)

-- `result` is unsigned, so the constants -64 and -32 that the masks are compared with are the words
-- 0xFFFFFFC0 and 0xFFFFFFE0.
unpack_form : ℕ → List ℕ → ℕ × List ℕ
unfolding two_bytes four_bytes five_bytes
unpack_form b rest =
    if bit_and b 0x80 == 0
    then (b, rest)
    else (if bit_and b 0xC0 == 0xFFFFFFC0
        then (if bit_and b 0xE0 == 0xFFFFFFE0 then five_bytes rest else four_bytes b rest)
        else two_bytes b rest)

pub unpack_dd : List ℕ → ℕ × List ℕ
unfolding unpack_form
unpack_dd [] = (0, [])
unpack_dd (b ∷ rest) = unpack_form b rest

-- `MAKEQWORD` shifts a 32-bit word left by 32, which C++ leaves undefined: `shl32` is what the
-- target does.
pub unpack_dq : (ℕ → ℕ) → List ℕ → ℕ × List ℕ
unfolding unpack_dd
unpack_dq shl32 s =
    let (low, r) = unpack_dd s in
    let (high, r') = unpack_dd r in (bit_or (shl32 high % 2 ^ 32) low, r')

pub append_dd : List ℕ → ℕ → List ℕ
unfolding pack_dd
append_dd v x = v ++ pack_dd 5 x

pub append_dq : List ℕ → ℕ → List ℕ
unfolding pack_dq pack_dd
append_dq v x = v ++ pack_dq 10 x

-- `append_db` is a stub: it prints a message and stores nothing.
pub append_db : List ℕ → ℕ → List ℕ
append_db v x = v
