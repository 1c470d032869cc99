-- ===== src/Engine/Process/Requests.antt =====
-- What a request comes to.
use reverse_engineearing.Base.{
  ℕ, suc, ◌+◌, ◌<◌, ◌≡◌, ◌∙◌, Bool, true, false, some, List, ◌∷◌, ◌++◌, arith, ◌==◌, length,
}
use reverse_engineearing.Codec.{finalize_packet, prepare_rpc_packet}
use reverse_engineearing.Engine.{
  Host, Engine, reply, null_reply, packet_code, is_down, send_request, rpc_ok, rpc_mem, rpc_error,
}
use reverse_engineearing.Engine.Transfer.{Accepts, Delivers, sent_state, send_request_all}
use reverse_engineearing.Engine.Framing.{behind_packet, recv_request-finalize_packet}
use reverse_engineearing.Engine.Process.{dispatch, await, sent, process_loop, process_request}

module _ {W : Type 0} (h : Host W) where
  -- The first round of `process_request` on a request that goes out: it waits for what comes in.
  process_request_sent :
      (fuel : ℕ) (b : ℕ) (bs packet : List ℕ) (must_login : Bool) (e : Engine) (w w1 : W)
      → send_request h fuel (b ∷ bs) e w ≡ some ((0, packet), e, w1)
      → (packet_code packet == rpc_error) ≡ false
      → process_request h (suc fuel) (b ∷ bs) must_login e w
        ≡ await h fuel
            (λ r. process_loop h fuel false false r)
            (process_loop h fuel false must_login)
            must_login
            e
            w1
  unfolding process_request process_loop sent
  process_request_sent fuel b bs packet must_login e w w1 s c =
      rw (process_request, process_loop, s, sent, c)

-- A request goes out whole, and the answer RPC_OK on its way is returned: for an engine that is up and does not
-- poll, over a transport that sends and delivers in any pieces. Other requests are left for later.
pub process_request_reply :
    {W : Type 0} (h : Host W) (out pending : W → List ℕ) (sends : Accepts h out)
    (delivers : Delivers h pending) (fuel b : ℕ) (bs body rest : List ℕ) (must_login : Bool)
    (e : Engine) (w : W)
    → is_down e ≡ false
    → e.poll_debug_events ≡ false
    → (packet_code (finalize_packet (b ∷ bs)) == rpc_error) ≡ false
    → length (finalize_packet (b ∷ bs)) < fuel
    → length body < 0x80000000
    → h.qalloc (length body + 5) ≡ true
    → length body + 5 < fuel
    → pending (sent_state h out sends fuel (b ∷ bs) w)
      ≡ finalize_packet (prepare_rpc_packet rpc_ok ++ body) ++ rest
    → (process_request h (suc fuel) (b ∷ bs) must_login e w
        ≡ some (
          reply (record { code = rpc_ok; body = body }),
          e,
          behind_packet h pending delivers fuel
              (length body)
              (sent_state h out sends fuel (b ∷ bs) w),
        ))
      × (out (sent_state h out sends fuel (b ∷ bs) w) ≡ out w ++ finalize_packet (b ∷ bs))
      × (pending (
            behind_packet h pending delivers fuel
              (length body)
              (sent_state h out sends fuel (b ∷ bs) w))
          ≡ rest)
unfolding await dispatch
process_request_reply h out pending sends delivers fuel b bs body rest must_login e w up np c f hb
      ha g hp =
    let w1 = sent_state h out sends fuel (b ∷ bs) w in
    let goes = send_request_all h out sends fuel (b ∷ bs) e w up f in
    let comes =
      recv_request-finalize_packet h pending delivers fuel (λ r. process_loop h fuel false false r)
        rpc_ok body rest e w1 up np (omega arith) hb ha g hp in
    (
      process_request_sent h fuel b bs (finalize_packet (b ∷ bs)) must_login e w w1 goes.0 c
          ∙ rw (await, comes.0, dispatch),
      goes.1,
      comes.1,
    )

-- Before the login is over, a request of the other side is not performed: with `must_login`, what comes in
-- with another code than RPC_OK, RPC_UNK and RPC_MEM makes `process_request` return a null pointer, and only the receiver
-- has changed the state.
pub process_request_login :
    {W : Type 0} (h : Host W) (out pending : W → List ℕ) (sends : Accepts h out)
    (delivers : Delivers h pending) (fuel b : ℕ) (bs body rest : List ℕ) (code : ℕ) (e : Engine)
    (w : W)
    → is_down e ≡ false
    → e.poll_debug_events ≡ false
    → (packet_code (finalize_packet (b ∷ bs)) == rpc_error) ≡ false
    → length (finalize_packet (b ∷ bs)) < fuel
    → rpc_mem < code
    → code < 256
    → length body < 0x80000000
    → h.qalloc (length body + 5) ≡ true
    → length body + 5 < fuel
    → pending (sent_state h out sends fuel (b ∷ bs) w)
      ≡ finalize_packet (prepare_rpc_packet code ++ body) ++ rest
    → process_request h (suc fuel) (b ∷ bs) true e w
      ≡ some (
        null_reply,
        e,
        behind_packet h pending delivers fuel
            (length body)
            (sent_state h out sends fuel (b ∷ bs) w),
      )
unfolding await dispatch
process_request_login h out pending sends delivers fuel b bs body rest code e w up np c f new small
      hb ha g hp =
    let w1 = sent_state h out sends fuel (b ∷ bs) w in
    let goes = send_request_all h out sends fuel (b ∷ bs) e w up f in
    let comes =
      recv_request-finalize_packet h pending delivers fuel (λ r. process_loop h fuel false false r)
        code body rest e w1 up np small hb ha g hp in
    process_request_sent h fuel b bs (finalize_packet (b ∷ bs)) true e w w1 goes.0 c
    ∙ rw (await, comes.0, dispatch) (ground arith)

-- Outside the login, a request of the other side that comes in while a reply is awaited is performed at once, and
-- `process_request` goes on as if it were called with the answer, if that is a packet: it sends the answer and
-- waits again.
pub process_request_serves :
    {W : Type 0} (h : Host W) (out pending : W → List ℕ) (sends : Accepts h out)
    (delivers : Delivers h pending) (fuel b : ℕ) (bs body rest : List ℕ) (code : ℕ) (e : Engine)
    (w : W) (b' : ℕ) (bs' : List ℕ) (e' : Engine) (w' : W)
    → is_down e ≡ false
    → e.poll_debug_events ≡ false
    → (packet_code (finalize_packet (b ∷ bs)) == rpc_error) ≡ false
    → length (finalize_packet (b ∷ bs)) < fuel
    → rpc_mem < code
    → code < 256
    → length body < 0x80000000
    → h.qalloc (length body + 5) ≡ true
    → length body + 5 < fuel
    → pending (sent_state h out sends fuel (b ∷ bs) w)
      ≡ finalize_packet (prepare_rpc_packet code ++ body) ++ rest
    → h.perform_request
        (record { code = code; body = body })
        e
        (behind_packet h pending delivers fuel
          (length body)
          (sent_state h out sends fuel (b ∷ bs) w))
      ≡ (b' ∷ bs', e', w')
    → process_request h (suc fuel) (b ∷ bs) false e w
      ≡ process_request h fuel (b' ∷ bs') false e' w'
unfolding await dispatch process_request
process_request_serves h out pending sends delivers fuel b bs body rest code e w b' bs' e' w' up np
      c f new small hb ha g hp hr =
    let w1 = sent_state h out sends fuel (b ∷ bs) w in
    let goes = send_request_all h out sends fuel (b ∷ bs) e w up f in
    let comes =
      recv_request-finalize_packet h pending delivers fuel (λ r. process_loop h fuel false false r)
        code body rest e w1 up np small hb ha g hp in
    process_request_sent h fuel b bs (finalize_packet (b ∷ bs)) false e w w1 goes.0 c
    ∙ rw (await, comes.0, dispatch, hr) (ground arith)
