-- ===== src/Wire/Examples.antt =====
-- The theorems on packed numbers at concrete numbers.
use reverse_engineearing.Base.{ℕ, ◌≤◌, ◌≡◌, List, [], ◌∷◌, ◌++◌, arith, length}
use reverse_engineearing.Wire.{pack_dd, unpack_dd, append_dd}
use reverse_engineearing.Wire.RoundTrip.{read_dd, read_dd-pack_dd}
use reverse_engineearing.Wire.Defects.{unpack_dd_stops_early}

-- A shift that gives zero for every number.
abbrev no_high : ℕ → ℕ
no_high x = 0

abbrev follows : List ℕ
follows = 9 ∷ 200 ∷ []

read_dd-pack_dd_example : read_dd (pack_dd 5 0x12345678 ++ follows) ≡ (0x12345678, follows)
read_dd-pack_dd_example = read_dd-pack_dd 0x12345678 follows (omega arith)

unpack_dd_stops_early_example : 4 ≤ length (unpack_dd (append_dd [] 0x4000 ++ follows)).1
unpack_dd_stops_early_example = unpack_dd_stops_early 0x4000 follows (omega arith) (omega arith)
