-- ===== src/Codec.antt =====
-- rpc_hlp.h: the fields of a packet. A request under construction is the list of its bytes. A
-- reader takes the bytes before `end` and returns its value with the bytes that it leaves; `none`
-- is a failed QASSERT or an allocation that cannot be met, after which the process ends.
pub mod Records
pub mod Event
pub mod Registers
pub mod Fields
pub mod Extends
pub mod Header
pub mod Names
pub mod Examples
use reverse_engineearing.Base.{
  ℕ, zero, suc, ◌+◌, ◌-◌, ◌*◌, ◌/◌, ◌%◌, ◌^◌, ◌≤◌, ◌<◌, bit_and, bit_or, ◌≡◌, refl, sym, ap, ◌∙◌,
  ◌≢◌, ◌↔◌, ◌⊎◌, inl, inr, Bool, true, false, not, ◌&&◌, ◌||◌, Option, none, some, List, [], ◌∷◌,
  ◌++◌, append_assoc, append-nil, arith, ltb, leb, ◌==◌, if◌then◌else◌, of_bool, ==_iff, Bool-cases,
  Option-cases, length, get_elem?, set, take, drop, replicate, All, length-append, length-take,
  length-drop, take-append-drop, take-length-append, drop-length-append, take_all, All-append,
}
use reverse_engineearing.Wire.{append_dd, append_dq, unpack_db, unpack_dd, unpack_dq}

abbrev pub Reader : Type 0 → Type 0
Reader A = List ℕ → Option (A × List ℕ)

abbrev pub pure : {A : Type 0} → A → Reader A
pure a s = some (a, s)

infixl 5 ◌>>=◌
abbrev pub ◌>>=◌ : {A B : Type 0} → Reader A → (A → Reader B) → Reader B
◌>>=◌ m f s = elim (m s) [ none ↦ none | some (a, r) ↦ f a r ]

-- A C string inside a buffer: the bytes before the first NUL.
pub c_str : List ℕ → List ℕ
c_str [] = []
c_str (zero ∷ bs) = []
c_str (suc b ∷ bs) = suc b ∷ c_str bs

-- `rpc_packet_t`: the length in network order, then the code.
abbrev pub header_size : ℕ
header_size = 5

unfoldable pub prepare_rpc_packet : ℕ → List ℕ
prepare_rpc_packet code = 0 ∷ 0 ∷ 0 ∷ 0 ∷ (code % 256) ∷ []

-- `qhtonl`, as the four bytes that it puts into memory.
abbrev pub net_bytes : ℕ → List ℕ
net_bytes n = (n / 2 ^ 24 % 256) ∷ (n / 65536 % 256) ∷ (n / 256 % 256) ∷ (n % 256) ∷ []

-- Overwrites the length field; a packet always holds at least its header.
unfoldable pub finalize_packet : List ℕ → List ℕ
finalize_packet s = net_bytes ((length s + 2 ^ 32 - header_size) % 2 ^ 32) ++ drop 4 s

pub append_str : List ℕ → List ℕ → List ℕ
append_str s str = s ++ (c_str str ++ 0 ∷ [])

-- A null pointer stands for the empty string.
pub append_str_ptr : List ℕ → Option (List ℕ) → List ℕ
append_str_ptr s none = append_str s []
append_str_ptr s (some str) = append_str s str

pub extract_str : Reader (List ℕ)
extract_str [] = none
extract_str (zero ∷ rest) = some ([], rest)
extract_str (suc b ∷ rest) = elim (extract_str rest) [
  | none ↦ none
  | some (str, r) ↦ some (suc b ∷ str, r)
]

pub append_memory : List ℕ → List ℕ → List ℕ
append_memory s buf = s ++ buf

pub extract_memory : ℕ → Reader (List ℕ)
extract_memory size s = if leb size (length s) then some (take size s, drop size s) else none

-- `qstrncpy` of pro.cpp is `strncpy`. The result is what the array holds up to its first NUL, or all
-- of the array where it holds none.
unfoldable pub qstrncpy : ℕ → List ℕ → List ℕ
qstrncpy dstsize src = take dstsize (c_str src)

pub extract_byte : Reader ℕ
extract_byte s = some (unpack_db s)

pub extract_long : Reader ℕ
extract_long s = some (unpack_dd s)

-- Addresses have 32 bits; one is added so that BADADDR passes between servers of both widths.
pub append_ea64 : List ℕ → ℕ → List ℕ
append_ea64 s ea = append_dq s ((ea + 1) % 2 ^ 64)

abbrev pub badaddr : ℕ
badaddr = 0xFFFFFFFF

-- `sub_words a b` is `a - b` on 32-bit words.
abbrev pub sub_words : ℕ → ℕ → ℕ
sub_words a b = (a + 2 ^ 32 - b) % 2 ^ 32

abbrev pub add_words : ℕ → ℕ → ℕ
add_words a b = (a + b) % 2 ^ 32

-- An `int` taken from the wire is the count of a loop and of an allocation: a negative one asks for
-- more memory than a 32-bit process has.
pub extract_count : Reader ℕ
unfolding extract_long
extract_count = do n ← extract_long; λ s. (if ltb n 0x80000000 then some (n, s) else none)

-- The body of a counted loop, run for each element in turn.
pub extract_list : {A : Type 0} → ℕ → Reader A → Reader (List A)
extract_list zero item = pure []
extract_list (suc n) item = do x ← item; xs ← extract_list n item; pure (x ∷ xs)

pub append_list : {A : Type 0} → (List ℕ → A → List ℕ) → List ℕ → List A → List ℕ
append_list item s [] = s
append_list item s (x ∷ xs) = append_list item (item s x) xs

module _ (shl32 : ℕ → ℕ) where
  pub extract_uint64 : Reader ℕ
  extract_uint64 s = some (unpack_dq shl32 s)

  pub extract_ea64 : Reader ℕ
  extract_ea64 s = let (v, r) = unpack_dq shl32 s in some ((v + 2 ^ 64 - 1) % 2 ^ 64 % 2 ^ 32, r)
