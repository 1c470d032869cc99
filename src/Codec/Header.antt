-- ===== src/Codec/Header.antt =====
-- The header of a packet.
use reverse_engineearing.Base.{ℕ, ◌+◌, ◌-◌, ◌%◌, ◌^◌, ◌<◌, ◌≡◌, List, ◌∷◌, ◌++◌, arith, length}
use reverse_engineearing.Codec.{prepare_rpc_packet, finalize_packet, net_bytes}

-- A finalized packet is the length of its body in network order, its code, and its body.
pub finalize_packet_lem :
    (code : ℕ) (body : List ℕ)
    → code < 256
    → length body < 2 ^ 32
    → finalize_packet (prepare_rpc_packet code ++ body) ≡ net_bytes (length body) ++ (code ∷ body)
unfolding finalize_packet prepare_rpc_packet
finalize_packet_lem code body hc hb =
    let e : code % 256 ≡ code = omega arith in
    let l : (length (prepare_rpc_packet code ++ body) + 2 ^ 32 - 5) % 2 ^ 32 ≡ length body =
      omega arith in
    rw (e, l)
