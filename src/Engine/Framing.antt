-- ===== src/Engine/Framing.antt =====
-- A packet across the connection: the header that `send_request` fills in is the one that
-- `recv_request` reads.
use reverse_engineearing.Base.{
  ℕ, ◌+◌, ◌/◌, ◌%◌, ◌^◌, ◌<◌, ◌≡◌, refl, ◌∙◌, true, false, ◌&&◌, some, List, [], ◌∷◌, ◌++◌, arith,
  leb, length, take, length-append, take-length-append, drop-length-append,
}
use reverse_engineearing.Codec.{prepare_rpc_packet, finalize_packet, net_bytes}
use reverse_engineearing.Codec.Header.{finalize_packet_lem}
use reverse_engineearing.Engine.{
  Engine, reply, Host, is_down, net_word, Report, recv_body, recv_header, recv_request,
}
use reverse_engineearing.Engine.Transfer.{Delivers, received_state, recv_all_all}

module _ {W : Type 0} (h : Host W) (pending : W → List ℕ) (law : Delivers h pending) where
  -- The state of the transport behind a packet with `size` bytes.
  pub behind_packet : ℕ → ℕ → W → W
  behind_packet fuel size w =
      received_state h pending law fuel size (received_state h pending law fuel 5 w)

net_word_back :
    (n : ℕ)
    → n < 2 ^ 32
    → net_word (n / 2 ^ 24 % 256) (n / 65536 % 256) (n / 256 % 256) (n % 256) ≡ n
net_word_back n l = omega arith

-- If a finalized packet is on its way to an engine that is up and does not poll, `recv_request` returns its code
-- and its body, and leaves what follows the packet to the next call.
pub recv_request-finalize_packet :
    {W : Type 0} (h : Host W) (pending : W → List ℕ) (law : Delivers h pending) (fuel : ℕ)
    (report : Report h) (code : ℕ) (body rest : List ℕ) (e : Engine) (w : W)
    → is_down e ≡ false
    → e.poll_debug_events ≡ false
    → code < 256
    → length body < 0x80000000
    → h.qalloc (length body + 5) ≡ true
    → length body + 5 < fuel
    → pending w ≡ finalize_packet (prepare_rpc_packet code ++ body) ++ rest
    → (recv_request h fuel report e w
        ≡ some (
          reply (record { code = code; body = body }),
          e,
          behind_packet h pending law fuel (length body) w,
        ))
      × (pending (behind_packet h pending law fuel (length body) w) ≡ rest)
unfolding recv_request recv_header recv_body behind_packet
recv_request-finalize_packet h pending law fuel report code body rest e w up np hc hb ha f hp =
    let n = length body in
    let w1 = received_state h pending law fuel 5 w in
    let whole : pending w ≡ net_bytes n ++ (code ∷ (body ++ rest)) =
      hp ∙ rw (finalize_packet_lem code body hc (omega arith)) refl in
    let no_poll : (e.is_server && (e.poll_debug_events && e.poll_debug_events)) ≡ false =
      ground arith in
    let header =
      recv_all_all h pending law fuel 5 e.poll_debug_events e w no_poll (omega arith)
        (rw whole (omega (arith, length-append body rest))) in
    let first : take 5 (pending w) ≡ net_bytes n ++ (code ∷ []) = rw whole in
    let behind : pending w1 ≡ body ++ rest = header.1 ∙ rw whole in
    let no_poll2 : (e.is_server && (false && e.poll_debug_events)) ≡ false = ground arith in
    let tail =
      recv_all_all h pending law fuel n false e w1 no_poll2 (omega arith)
        (rw behind (omega (arith, length-append body rest))) in
    let body_all : take n (pending w1) ≡ body = rw behind (take-length-append body rest) in
    let size_ok : leb 0x80000000 n ≡ false = ground arith in
    (
      rw (up, header.0, first, net_word_back n (omega arith), size_ok, ha, tail.0, body_all),
      tail.1 ∙ rw behind (drop-length-append body rest),
    )
