-- ===== src/Server/DebugNames.antt =====
-- rpc_server.cpp: `send_debug_names_to_ida`, which sends the names of addresses in packets of limited size. An
-- address is sent as the distance from the one before, and a name without the prefix that it shares with the
-- one before.
pub mod Bytes
pub mod Sending
pub mod Size
use reverse_engineearing.Base.{
  ℕ, zero, suc, ◌+◌, ◌-◌, ◌*◌, ◌/◌, ◌%◌, ◌^◌, ◌≤◌, ◌<◌, bit_and, bit_or, ◌≡◌, refl, sym, ap, ◌∙◌,
  ◌≢◌, ◌↔◌, ◌⊎◌, inl, inr, Bool, true, false, not, ◌&&◌, ◌||◌, Option, none, some, List, [], ◌∷◌,
  ◌++◌, append_assoc, append-nil, arith, ltb, leb, ◌==◌, if◌then◌else◌, of_bool, ==_iff, Bool-cases,
  Option-cases, length, get_elem?, set, take, drop, replicate, All, length-append, length-take,
  length-drop, take-append-drop, take-length-append, drop-length-append, take_all, All-append,
  codes, take_pieces, drop_pieces,
}
use reverse_engineearing.Wire.{append_dd}
use reverse_engineearing.Codec.{
  Reader, pure, ◌>>=◌, extract_long, extract_ea64, extract_str, append_ea64, append_str,
  append_memory, prepare_rpc_packet, header_size, sub_words, add_words, c_str,
}
use reverse_engineearing.Engine.{rpc_ok, rpc_unk}

abbrev pub rpc_set_debug_names : ℕ
rpc_set_debug_names = 50

abbrev pub packet_limit : ℕ
packet_limit = 1300

-- A name and its address.
abbrev pub Names : Type 0
Names = List (ℕ × List ℕ)

-- The distance from `old` to `ea` as a sign and a size. The size of -2^31, whose negation the language leaves
-- undefined, is taken as 2^31.
pub is_backward : ℕ → ℕ → Bool
is_backward old ea = leb 0x80000000 (sub_words ea old)

pub distance : ℕ → ℕ → ℕ
unfolding is_backward
distance old ea = if is_backward old ea then sub_words old ea else sub_words ea old

-- How much of a name the one before begins with too.
pub shared_prefix : List ℕ → List ℕ → ℕ
shared_prefix [] optr = 0
shared_prefix (c ∷ cs) [] = 0
shared_prefix (zero ∷ cs) (d ∷ ds) = 0
shared_prefix (suc c ∷ cs) (d ∷ ds) = let n = shared_prefix cs ds in if suc c == d then suc n else 0

pub append_name : List ℕ → ℕ → List ℕ → ℕ × List ℕ → List ℕ
unfolding distance is_backward shared_prefix
append_name buf old optr (ea, nptr) =
    let buf1 = append_dd (append_ea64 buf (distance old ea)) (of_bool (is_backward old ea)) in
    let len = shared_prefix nptr optr in append_str (append_dd buf1 len) (drop len nptr)

-- One packet: what it holds, how many names that is, and the names left.
pub fill_packet : List ℕ → ℕ → List ℕ → ℕ → Names → List ℕ × ℕ × Names
unfolding append_name
fill_packet buf old optr i [] = (buf, i, [])
fill_packet buf old optr i ((ea, nptr) ∷ names) =
    let buf' = append_name buf old optr (ea, nptr) in
    let more = fill_packet buf' ea nptr (i + 1) names in
    if ltb packet_limit (length buf') then (buf', i + 1, names) else more

pub names_request : ℕ → List ℕ → List ℕ
names_request i buf = append_memory (append_dd (prepare_rpc_packet rpc_set_debug_names) i) buf

-- `ask` stands for `process_long` on a connection in the state `S`.
module _ {S : Type 0} (ask : List ℕ → S → Option (ℕ × S)) where
  -- The names left after a packet that held `i` names, once the client has answered.
  unfoldable after_packet : ℕ → (S → Option (ℕ × S)) → Option (ℕ × S) → Option (ℕ × S)
  after_packet i more none = none
  after_packet i more (some (n, s)) = if i == n then more s else some (rpc_unk, s)

  -- Fuel: a packet for each name is enough.
  pub send_names_from : ℕ → Names → S → Option (ℕ × S)
  unfolding fill_packet names_request after_packet
  send_names_from fuel [] s = some (rpc_ok, s)
  send_names_from zero (p ∷ names) s = none
  send_names_from (suc fuel) (p ∷ names) s =
      let (buf, i, left) = fill_packet [] 0 [] 0 (p ∷ names) in
      after_packet i (send_names_from fuel left) (ask (names_request i buf) s)

  pub send_debug_names_to_ida : Names → S → Option (ℕ × S)
  unfolding send_names_from
  send_debug_names_to_ida names s = send_names_from (length names) names s
