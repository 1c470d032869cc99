-- ===== src/Server/DebugNames/Size.antt =====
-- rpc_server.cpp: how large the packets of `send_debug_names_to_ida` grow.
use reverse_engineearing.Base.{
  ℕ, ◌+◌, ◌/◌, ◌%◌, ◌^◌, ◌≤◌, ◌≡◌, ap, ◌∙◌, inl, inr, List, [], ◌∷◌, ◌++◌, arith, ltb, of_bool,
  Bool-cases, length, drop, All, length-append, length-drop,
}
use reverse_engineearing.Wire.{pack_dd}
use reverse_engineearing.Wire.Format.{dd_bytes, dq_bytes, length-dd_bytes, pack_dd_fits}
use reverse_engineearing.Codec.{c_str}
use reverse_engineearing.Codec.Fields.{ea_bytes, str_bytes, length-c_str}
use reverse_engineearing.Server.DebugNames.{
  Names, packet_limit, is_backward, distance, shared_prefix, append_name, fill_packet,
}
use reverse_engineearing.Server.DebugNames.Bytes.{name_bytes, append_name-append}

length-ea_bytes : (ea : ℕ) → length (ea_bytes ea) ≤ 10
unfolding ea_bytes dq_bytes
length-ea_bytes ea =
    let x = (ea + 1) % 2 ^ 64 in
    let lo = length-dd_bytes (x % 2 ^ 32) in
    let hi = length-dd_bytes (x / 2 ^ 32 % 2 ^ 32) in
    rw (length-append (dd_bytes (x % 2 ^ 32)) (dd_bytes (x / 2 ^ 32 % 2 ^ 32))) (omega arith)

length-str_bytes : (s : List ℕ) → (1 ≤ length (str_bytes s)) × (length (str_bytes s) ≤ length s + 1)
unfolding str_bytes
length-str_bytes s =
    let e = length-append (c_str s) (0 ∷ []) in let h = length-c_str s in (omega arith, omega arith)

length-four :
    (a b c d : List ℕ) → length (a ++ b ++ c ++ d) ≡ length a + length b + length c + length d
length-four a b c d =
    length-append (a ++ b ++ c) d
    ∙ ap (λ n. n + length d) (length-append (a ++ b) c ∙ ap (λ n. n + length c) (length-append a b))

-- A name takes a byte at least, and at most 21 more than it has.
pub length-name_bytes :
    (old : ℕ) (optr : List ℕ) (p : ℕ × List ℕ)
    → (1 ≤ length (name_bytes old optr p)) × (length (name_bytes old optr p) ≤ length p.1 + 21)
unfolding name_bytes
length-name_bytes old optr (ea, nptr) =
    let n = shared_prefix nptr optr in
    let a = length-ea_bytes (distance old ea) in
    let b = pack_dd_fits 5 (of_bool (is_backward old ea)) (omega arith) in
    let c = pack_dd_fits 5 n (omega arith) in
    let d = length-str_bytes (drop n nptr) in
    let e = length-drop n nptr in
    let q =
      length-four (ea_bytes (distance old ea)) (pack_dd 5 (of_bool (is_backward old ea)))
        (pack_dd 5 n) (str_bytes (drop n nptr)) in
    (omega arith, omega arith)

-- No packet is larger than its limit and one name more.
pub length-fill_packet :
    (size : ℕ) (buf : List ℕ) (old : ℕ) (optr : List ℕ) (i : ℕ) (names : Names)
    → length buf ≤ packet_limit
    → All (λ p. length p.1 ≤ size) names
    → length (fill_packet buf old optr i names).0 ≤ packet_limit + size + 21
unfolding fill_packet
length-fill_packet size buf old optr i [] room h = omega arith
length-fill_packet size buf old optr i ((ea, nptr) ∷ names) room h =
    let buf' = append_name buf old optr (ea, nptr) in
    let grows : length buf' ≤ packet_limit + size + 21 =
      (let n = length-name_bytes old optr (ea, nptr) in
        let le = h.0 in
        rw
          (
            append_name-append buf old optr (ea, nptr),
            length-append buf (name_bytes old optr (ea, nptr)),
          )
          (omega arith)) in
    elim (Bool-cases (ltb packet_limit (length buf'))) [
      | inl full ↦ rw full grows
      | inr room' ↦ rw room' (length-fill_packet size buf' ea nptr (i + 1) names (ground arith) h.1)
    ]
