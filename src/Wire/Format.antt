-- ===== src/Wire/Format.antt =====
-- What the writers of kernwin.cpp store, in plain arithmetic, and a reader of the four forms.
use reverse_engineearing.Base.{
  ℕ, zero, suc, ◌+◌, ◌-◌, ◌/◌, ◌%◌, ◌^◌, ◌≤◌, ◌<◌, ◌≡◌, refl, ap, List, [], ◌∷◌, ◌++◌, arith, ltb,
  if◌then◌else◌, length, All,
}
use reverse_engineearing.Wire.{pack_dd, pack_dq, append_dd, append_dq, hiword}
use reverse_engineearing.Wire.Mask.{set_short, set_long}

abbrev pub IsByte : ℕ → Type 0
IsByte b = b < 256

abbrev pub IsU32 : ℕ → Type 0
IsU32 x = x < 2 ^ 32

-- One byte below 2^7, two below 2^14, four below 2^29, else five.
unfoldable pub dd_bytes : ℕ → List ℕ
dd_bytes x =
    if ltb x 0x80
    then x ∷ []
    else (if ltb x 0x4000
        then (x / 256 + 128) ∷ (x % 256) ∷ []
        else (if ltb x 0x20000000
            then (x / 2 ^ 24 + 192) ∷ (x / 65536 % 256) ∷ (x / 256 % 256) ∷ (x % 256) ∷ []
            else 255 ∷ (x / 2 ^ 24) ∷ (x / 65536 % 256) ∷ (x / 256 % 256) ∷ (x % 256) ∷ []))

-- Into five bytes of room `pack_dd` stores exactly the form that the size of the number asks for.
pub pack_dd_format : (x : ℕ) → IsU32 x → pack_dd 5 x ≡ dd_bytes x
unfolding pack_dd dd_bytes
pack_dd_format x h = ground (arith, set_short x, set_long (hiword x))

-- More room changes nothing.
pack_dd_room : (k x : ℕ) → IsU32 x → pack_dd (suc (suc (suc (suc (suc k))))) x ≡ dd_bytes x
unfolding pack_dd dd_bytes
pack_dd_room k x h = ground (arith, set_short x, set_long (hiword x))

pub dd_bytes-IsByte : (x : ℕ) → IsU32 x → All IsByte (dd_bytes x)
unfolding dd_bytes
dd_bytes-IsByte x h = ground arith

pub length-dd_bytes : (x : ℕ) → (1 ≤ length (dd_bytes x)) × (length (dd_bytes x) ≤ 5)
unfolding dd_bytes
length-dd_bytes x = ground arith

pub append_dd_lem : (v : List ℕ) (x : ℕ) → IsU32 x → append_dd v x ≡ v ++ dd_bytes x
unfolding append_dd
append_dd_lem v x h = ap (◌++◌ v) (pack_dd_format x h)

-- A 64-bit number is its low half followed by its high half.
unfoldable pub dq_bytes : ℕ → List ℕ
dq_bytes x = dd_bytes (x % 2 ^ 32) ++ dd_bytes (x / 2 ^ 32 % 2 ^ 32)

pack_dd_room_5 : (room x : ℕ) → 5 ≤ room → IsU32 x → pack_dd room x ≡ dd_bytes x
pack_dd_room_5 (suc (suc (suc (suc (suc k))))) x r h = pack_dd_room k x h
pack_dd_room_5 zero x r h = absurd (omega arith)
pack_dd_room_5 (suc zero) x r h = absurd (omega arith)
pack_dd_room_5 (suc (suc zero)) x r h = absurd (omega arith)
pack_dd_room_5 (suc (suc (suc zero))) x r h = absurd (omega arith)
pack_dd_room_5 (suc (suc (suc (suc zero)))) x r h = absurd (omega arith)

-- Ten bytes hold the two halves of any 64-bit number.
pub append_dq_lem : (v : List ℕ) (x : ℕ) → append_dq v x ≡ v ++ dq_bytes x
unfolding append_dq pack_dq dq_bytes
append_dq_lem v x = rw (pack_dd_room 5 (x % 2 ^ 32) (omega arith)) (
    rw (
      pack_dd_room_5 (10 - length (dd_bytes (x % 2 ^ 32))) (x / 2 ^ 32 % 2 ^ 32)
        (omega (arith, length-dd_bytes (x % 2 ^ 32))) (omega arith)))

-- With at least one byte of room the writer stays inside its buffer, whatever the number.
pub pack_dd_fits : (room x : ℕ) → 1 ≤ room → length (pack_dd room x) ≤ room
unfolding pack_dd
pack_dd_fits zero x h = absurd (omega arith)
pack_dd_fits (suc zero) x h = ground arith
pack_dd_fits (suc (suc zero)) x h = ground arith
pack_dd_fits (suc (suc (suc zero))) x h = ground arith
pack_dd_fits (suc (suc (suc (suc zero)))) x h = ground arith
pack_dd_fits (suc (suc (suc (suc (suc k))))) x h = ground arith

pub append_dd-append : (v : List ℕ) (x : ℕ) → append_dd v x ≡ v ++ pack_dd 5 x
unfolding append_dd
append_dd-append v x = refl

pub append_dq-append : (v : List ℕ) (x : ℕ) → append_dq v x ≡ v ++ dq_bytes x
append_dq-append v x = append_dq_lem v x
