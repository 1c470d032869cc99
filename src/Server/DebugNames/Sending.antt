-- ===== src/Server/DebugNames/Sending.antt =====
-- rpc_server.cpp: `send_debug_names_to_ida` puts the names into packets, and ends.
use reverse_engineearing.Base.{
  ℕ, zero, suc, ◌+◌, ◌≤◌, ◌≡◌, refl, inl, inr, Option, some, List, [], ◌∷◌, ◌++◌, arith, ltb, ◌==◌,
  Bool-cases, length,
}
use reverse_engineearing.Engine.{rpc_ok, rpc_unk}
use reverse_engineearing.Server.DebugNames.{
  Names, packet_limit, append_name, fill_packet, names_request, after_packet, send_names_from,
  send_debug_names_to_ida,
}
use reverse_engineearing.Server.DebugNames.Bytes.{names_bytes}

-- What one packet took of the names: those at the front, each written behind the one before.
pub record Filled (buf : List ℕ) (old : ℕ) (optr : List ℕ) (i : ℕ) (names : Names)
    (r : List ℕ × ℕ × Names) : Type 0 where
  pub taken : Names
  pub split : names ≡ taken ++ r.2
  pub counted : r.1 ≡ i + length taken
  pub written : r.0 ≡ buf ++ names_bytes old optr taken
  pub few : r.1 ≤ packet_limit + 1

fill_packet_left :
    (buf : List ℕ) (old : ℕ) (optr : List ℕ) (i : ℕ) (names : Names)
    → length (fill_packet buf old optr i names).2 ≤ length names
unfolding fill_packet
fill_packet_left buf old optr i [] = omega arith
fill_packet_left buf old optr i ((ea, nptr) ∷ names) =
    let buf' = append_name buf old optr (ea, nptr) in
    let ih = fill_packet_left buf' ea nptr (i + 1) names in
    elim (Bool-cases (ltb packet_limit (length buf'))) [
      | inl full ↦ rw full (omega arith)
      | inr room ↦ rw room (omega arith)
    ]

-- A packet takes a name, if there is one.
pub fill_packet_takes :
    (p : ℕ × List ℕ) (names : Names) → length (fill_packet [] 0 [] 0 (p ∷ names)).2 ≤ length names
unfolding fill_packet
fill_packet_takes (ea, nptr) names =
    let buf' = append_name [] 0 [] (ea, nptr) in
    let ih = fill_packet_left buf' ea nptr 1 names in
    elim (Bool-cases (ltb packet_limit (length buf'))) [
      | inl full ↦ rw full (omega arith)
      | inr room ↦ rw room ih
    ]

module _ {S : Type 0} (ask : List ℕ → S → Option (ℕ × S)) where
  after_packet_ends :
      (i : ℕ) (more : S → Option (ℕ × S)) (a : ℕ × S)
      → ((s : S) → (r : ℕ × S) × (more s ≡ some r))
      → (r : ℕ × S) × (after_packet ask i more (some a) ≡ some r)
  unfolding after_packet
  after_packet_ends i more (n, s) each = elim (Bool-cases (i == n)) [
    | inl e ↦ rw e (each s)
    | inr e ↦ rw e ((rpc_unk, s), refl)
  ]

  pub send_names_from_ends :
      ((req : List ℕ) (s : S) → (a : ℕ × S) × (ask req s ≡ some a))
      → (fuel : ℕ) (names : Names) → length names ≤ fuel
      → (s : S) → (r : ℕ × S) × (send_names_from ask fuel names s ≡ some r)
  unfolding send_names_from
  send_names_from_ends answers fuel [] h s = ((rpc_ok, s), refl)
  send_names_from_ends answers zero (p ∷ names) h s = absurd (omega arith)
  send_names_from_ends answers (suc fuel) (p ∷ names) h s =
      let (buf, i, left) = fill_packet [] 0 [] 0 (p ∷ names) in
      let (a, e) = answers (names_request i buf) s in
      let enough : length left ≤ fuel = (let t = fill_packet_takes p names in omega arith) in
      rw e (
        after_packet_ends i (send_names_from ask fuel left) a
          (send_names_from_ends answers fuel left enough))

-- Whatever the client answers, `send_debug_names_to_ida` comes to an end with a result once each of its packets
-- is answered: as many rounds as there are names are enough.
pub send_debug_names_to_ida_ends :
    {S : Type 0} (ask : List ℕ → S → Option (ℕ × S)) (names : Names) (s : S)
    → ((req : List ℕ) (s' : S) → (a : ℕ × S) × (ask req s' ≡ some a))
    → (r : ℕ × S) × (send_debug_names_to_ida ask names s ≡ some r)
unfolding send_debug_names_to_ida
send_debug_names_to_ida_ends ask names s answers =
    send_names_from_ends ask answers (length names) names (omega arith) s
