-- ===== src/Wire/Defects.antt =====
-- Where the reader of kernwin.cpp parts from its writer: the masks of `unpack_dd` are compared with
-- sign-extended constants, so the forms of four and five bytes are never recognised.
use reverse_engineearing.Base.{
  ◌≡◌, refl, ℕ, ◌+◌, ◌/◌, ◌%◌, ◌^◌, ◌≤◌, List, [], ◌∷◌, ◌++◌, arith, length,
}
use reverse_engineearing.Wire.{append_db, append_dd, unpack_dd}
use reverse_engineearing.Wire.Format.{IsU32, dd_bytes, append_dd_lem}
use reverse_engineearing.Wire.RoundTrip.{unpack_two}

-- The first two bytes of a long form are all that the reader takes.
unpack-long_form :
    (x : ℕ) (rest : List ℕ)
    → IsU32 x
    → 0x4000 ≤ x
    → length rest + 2 ≤ length (unpack_dd (dd_bytes x ++ rest)).1
unfolding dd_bytes
unpack-long_form x rest h big = ground (
  arith,
  unpack_two (x / 2 ^ 24 + 192) (x / 65536 % 256) ((x / 256 % 256) ∷ (x % 256) ∷ rest),
  unpack_two 255 (x / 2 ^ 24) ((x / 65536 % 256) ∷ (x / 256 % 256) ∷ (x % 256) ∷ rest),
)

-- For every 32-bit number from 2^14 on, `unpack_dd` stops inside what `append_dd` stored: at least
-- two of its bytes are left in front of the next field.
pub unpack_dd_stops_early :
    (x : ℕ) (rest : List ℕ)
    → IsU32 x
    → 0x4000 ≤ x
    → length rest + 2 ≤ length (unpack_dd (append_dd [] x ++ rest)).1
unpack_dd_stops_early x rest h big = rw (append_dd_lem [] x h) (unpack-long_form x rest h big)

-- `append_db` leaves the packet as it was.
pub append_db_lem : (v : List ℕ) (x : ℕ) → append_db v x ≡ v
unfolding append_db
append_db_lem v x = refl
