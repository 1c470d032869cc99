-- ===== src/Engine/Transfer.antt =====
-- What the loops of `send_request` and `recv_all` do, whatever pieces the transport works in.
use reverse_engineearing.Base.{
  ℕ, zero, suc, ◌-◌, ◌≤◌, ◌<◌, ◌≡◌, refl, sym, ap, ◌∙◌, ◌≢◌, ◌⊎◌, inl, inr, Bool, false, ◌&&◌, some,
  List, [], ◌∷◌, ◌++◌, append_assoc, append-nil, arith, Option-cases, length, take, drop,
  length-take, length-drop, take-append-drop, take_pieces, drop_pieces,
}
use reverse_engineearing.Codec.{finalize_packet}
use reverse_engineearing.Engine.{
  SendAnswer, took, send_failed, got, Engine, Result, Host, minus_one, break_off, is_down,
  after_send, send_loop, send_request, recv_all_from, recv_all,
}

-- A transport that takes at least one byte of each call, and delivers the bytes in their order:
-- `sent` is what it has taken so far.
pub record Accepts {W : Type 0} (h : Host W) (sent : W → List ℕ) : Type 0 where
  pub amount : W → List ℕ → ℕ
  pub after : W → List ℕ → W
  pub accepts :
      (w : W) (b : ℕ) (bs : List ℕ)
      → h.irs_send w (b ∷ bs) ≡ (took (amount w (b ∷ bs)), after w (b ∷ bs))
  pub progress : (w : W) (b : ℕ) (bs : List ℕ) → 1 ≤ amount w (b ∷ bs)
  pub keeps :
      (w : W) (b : ℕ) (bs : List ℕ)
      → sent (after w (b ∷ bs)) ≡ sent w ++ take (amount w (b ∷ bs)) (b ∷ bs)

module _ {W : Type 0} (h : Host W) (sent : W → List ℕ) (law : Accepts h sent) where
  open law use {amount, after, accepts, progress, keeps}

  -- The state of the transport when all of the bytes are out.
  unfoldable pub final : ℕ → List ℕ → W → W
  final zero left w = w
  final (suc fuel) [] w = w
  final (suc fuel) (b ∷ bs) w = final fuel (drop (amount w (b ∷ bs)) (b ∷ bs)) (after w (b ∷ bs))

  send_loop-all :
      (fuel : ℕ) (left : List ℕ) (e : Engine) (w : W)
      → length left < fuel
      → (send_loop h fuel left e w ≡ some (0, e, final fuel left w))
        × (sent (final fuel left w) ≡ sent w ++ left)
  unfolding send_loop final
  send_loop-all zero left e w f = absurd (omega arith)
  send_loop-all (suc fuel) [] e w f = (refl, sym (append-nil (sent w)))
  send_loop-all (suc fuel) (b ∷ bs) e w f =
      let n = amount w (b ∷ bs) in
      let ih =
        send_loop-all fuel (drop n (b ∷ bs)) e (after w (b ∷ bs))
          (omega (arith, length-drop n (b ∷ bs), progress w b bs)) in
      (
        rw (send_loop, accepts w b bs) ih.0,
        ih.1
            ∙ rw (keeps w b bs, append_assoc (sent w) (take n (b ∷ bs)) (drop n (b ∷ bs)))
                (ap (◌++◌ (sent w)) (take-append-drop n (b ∷ bs))),
      )

-- The state of the transport after a whole request.
unfoldable pub sent_state :
    {W : Type 0} (h : Host W) (sent : W → List ℕ) → Accepts h sent → ℕ → List ℕ → W → W
unfolding final
sent_state h sent law fuel s w = final h sent law fuel (finalize_packet s) w

-- While the connection is up, `send_request` sends the finalized packet whole and in order, whatever pieces the
-- transport takes, returns 0, and leaves the engine as it was. One round more than the packet has bytes is
-- fuel enough.
pub send_request_all :
    {W : Type 0} (h : Host W) (sent : W → List ℕ) (law : Accepts h sent) (fuel : ℕ) (s : List ℕ)
    (e : Engine) (w : W)
    → is_down e ≡ false
    → length (finalize_packet s) < fuel
    → (send_request h fuel s e w ≡ some ((0, finalize_packet s), e, sent_state h sent law fuel s w))
      × (sent (sent_state h sent law fuel s w) ≡ sent w ++ finalize_packet s)
unfolding send_request sent_state
send_request_all h sent law fuel s e w up f =
    let loop = send_loop-all h sent law fuel (finalize_packet s) e w f in (rw (up, loop.0), loop.1)

-- What a round leaves, by the answer of the transport.
send_round :
    {W : Type 0} (e : Engine) (rest : ℕ → W → Result W ℕ) (a : SendAnswer × W) {code : ℕ}
    {e' : Engine} {w' : W}
    → ((n : ℕ) (w1 : W) → rest n w1 ≡ some (code, e', w') → (code ≡ 0) ⊎ (e' ≡ break_off code e))
    → after_send e rest a ≡ some (code, e', w')
    → (code ≡ 0) ⊎ (e' ≡ break_off code e)
send_round e rest (took n, w1) ih p = ih n w1 p
send_round e rest (send_failed err, w1) ih p = inr (ground arith)

-- The code that the loop returns is 0, or the error that it left in the engine.
send_loop-code :
    {W : Type 0} (h : Host W) (fuel : ℕ) (left : List ℕ) (e : Engine) (w : W) {code : ℕ}
    {e' : Engine} {w' : W}
    → send_loop h fuel left e w ≡ some (code, e', w')
    → (code ≡ 0) ⊎ (e' ≡ break_off code e)
unfolding send_loop
send_loop-code h zero left e w p = cc
send_loop-code h (suc fuel) [] e w p = inl (ground arith)
send_loop-code h (suc fuel) (b ∷ bs) e w p =
    send_round e (λ n w1. send_loop h fuel (drop n (b ∷ bs)) e w1) (h.irs_send w (b ∷ bs))
      (λ n w1 q. send_loop-code h fuel (drop n (b ∷ bs)) e w1 q) p

-- After a `send_request` that failed for a transport error, every later `send_request` returns -1 at once
-- and leaves engine and transport alone.
pub send_request_latch :
    {W : Type 0} (h : Host W) (fuel later : ℕ) (s t packet : List ℕ) (e : Engine) (w : W) {code : ℕ}
    {e' : Engine} {w' : W}
    → is_down e ≡ false
    → send_request h fuel s e w ≡ some ((code, packet), e', w')
    → code ≢ 0
    → send_request h later t e' w' ≡ some ((minus_one, t), e', w')
unfolding send_request
send_request_latch h fuel later s t packet e w {code} {e'} {w'} up p bad =
    elim (Option-cases (send_loop h fuel (finalize_packet s) e w)) [
      | inl q ↦ ground (arith, q)
      | inr ((c, e1, w1), q) ↦ ground (arith, q, send_loop-code h fuel (finalize_packet s) e w q)
    ]

-- A transport that delivers the bytes `pending` in their order, at least one at each call while there are some.
pub record Delivers {W : Type 0} (h : Host W) (pending : W → List ℕ) : Type 0 where
  pub amount : W → ℕ → ℕ
  pub after : W → ℕ → W
  pub delivers :
      (w : W) (n : ℕ)
      → 1 ≤ length (pending w)
      → h.irs_recv w (suc n) ≡ (got (take (amount w n) (pending w)), after w n)
  pub progress : (w : W) (n : ℕ) → 1 ≤ amount w n
  pub within : (w : W) (n : ℕ) → amount w n ≤ suc n
  pub keeps : (w : W) (n : ℕ) → pending (after w n) ≡ drop (amount w n) (pending w)

module _ {W : Type 0} (h : Host W) (pending : W → List ℕ) (law : Delivers h pending) where
  open law use {amount, after, delivers, progress, within, keeps}

  received_from : ℕ → ℕ → W → W
  received_from zero left w = w
  received_from (suc fuel) zero w = w
  received_from (suc fuel) (suc left) w =
      received_from fuel (suc left - length (take (amount w left) (pending w))) (after w left)

  -- Reading in pieces: with one round of fuel more than there are bytes to read, and that many
  -- bytes pending, the loop returns exactly those.
  recv_all_from-all :
      (fuel : ℕ) (acc : List ℕ) (left : ℕ) (poll : Bool) (e : Engine) (w : W)
      → (e.is_server && (poll && e.poll_debug_events)) ≡ false
      → left < fuel
      → left ≤ length (pending w)
      → (recv_all_from h fuel acc left poll e w
          ≡ some ((0, acc ++ take left (pending w)), e, received_from fuel left w))
        × (pending (received_from fuel left w) ≡ drop left (pending w))
  unfolding recv_all_from received_from
  recv_all_from-all zero acc left poll e w np f l = absurd (omega arith)
  recv_all_from-all (suc fuel) acc zero poll e w np f l = (rw (append-nil acc), refl)
  recv_all_from-all (suc fuel) acc (suc left) poll e w np f l =
      let k = amount w left in
      let bs = take k (pending w) in
      let pos : 1 ≤ length bs = omega (arith, length-take k (pending w), progress w left) in
      let ih =
        recv_all_from-all fuel (acc ++ bs) (suc left - length bs) poll e (after w left) np
          (omega arith)
          (rw (keeps w left)
            (omega (arith, length-drop k (pending w), length-take k (pending w), within w left))) in
      let whole : acc ++ bs ++ take (suc left - length bs) (pending (after w left))
          ≡ acc ++ take (suc left) (pending w) =
        append_assoc acc bs _
        ∙ ap (◌++◌ acc)
            (rw (keeps w left) (take_pieces k (suc left) (pending w) (within w left))) in
      (
        rw (recv_all_from, np, delivers w left (omega arith)) (ih.0 ∙ rw whole),
        ih.1 ∙ rw (keeps w left) (drop_pieces k (suc left) (pending w) (within w left)),
      )

-- The state of the transport after `left` bytes were received.
pub received_state :
    {W : Type 0} (h : Host W) (pending : W → List ℕ) → Delivers h pending → ℕ → ℕ → W → W
unfolding received_from
received_state h pending law fuel left w = received_from h pending law fuel left w

-- With no polling to do and enough bytes on their way, `recv_all` receives exactly the bytes asked for, in
-- order and whatever pieces the transport delivers, returns 0, and leaves the rest and the engine as they were.
pub recv_all_all :
    {W : Type 0} (h : Host W) (pending : W → List ℕ) (law : Delivers h pending) (fuel left : ℕ)
    (poll : Bool) (e : Engine) (w : W)
    → (e.is_server && (poll && e.poll_debug_events)) ≡ false
    → left < fuel
    → left ≤ length (pending w)
    → (recv_all h fuel left poll e w
        ≡ some ((0, take left (pending w)), e, received_state h pending law fuel left w))
      × (pending (received_state h pending law fuel left w) ≡ drop left (pending w))
unfolding recv_all received_state
recv_all_all h pending law fuel left poll e w np f l =
    recv_all_from-all h pending law fuel [] left poll e w np f l
