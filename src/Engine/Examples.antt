-- ===== src/Engine/Examples.antt =====
-- The theorems on the connection over a transport that moves one byte at each call.
use reverse_engineearing.Base.{
  ℕ, ◌≡◌, refl, true, false, none, some, List, [], ◌∷◌, ◌++◌, arith, take, drop,
}
use reverse_engineearing.Codec.{finalize_packet, prepare_rpc_packet}
use reverse_engineearing.Engine.{
  Host, reply, null_reply, took, send_failed, got, send_request, send_loop, recv_all, recv_request,
  new_engine, rpc_ok, minus_one, break_off,
}
use reverse_engineearing.Engine.Transfer.{
  Accepts, Delivers, sent_state, final, received_state, send_request_all, send_request_latch,
  recv_all_all,
}
use reverse_engineearing.Engine.Framing.{behind_packet, recv_request-finalize_packet}
use reverse_engineearing.Engine.Process.{process_request}
use reverse_engineearing.Engine.Process.Requests.{
  process_request_reply, process_request_login, process_request_serves,
}
use reverse_engineearing.Engine.Ioctl.{
  IoctlHandler, handle_ioctl_packet, ioctl_request, ioctl_reply,
}
use reverse_engineearing.Engine.Ioctl.Exchange.{ioctl_exchange}

-- What waits to be received, and what was sent.
record Net : Type 0 where
  inbox : List ℕ
  outbox : List ℕ

-- It performs every request with the answer RPC_OK and one byte.
abbrev net_host : Host Net
net_host = record {
  irs_send = λ w bs. (took 1, record w { outbox = w.outbox ++ take 1 bs });
  irs_recv = λ w n. (got (take 1 w.inbox), record w { inbox = drop 1 w.inbox });
  irs_ready = λ w. (true, w);
  qalloc = λ n. true;
  poll_events = λ e w. (0, e, w);
  perform_request = λ p e w. (0 ∷ 0 ∷ 0 ∷ 0 ∷ 0 ∷ 42 ∷ [], e, w);
}

abbrev net_out : Net → List ℕ
net_out w = w.outbox

abbrev net_in : Net → List ℕ
net_in w = w.inbox

abbrev net_Accepts : Accepts net_host net_out
net_Accepts = record {
  amount = λ w bs. 1;
  after = λ w bs. record w { outbox = w.outbox ++ take 1 bs };
  accepts = λ w b bs. refl;
  progress = λ w b bs. omega arith;
  keeps = λ w b bs. refl;
}

abbrev net_Delivers : Delivers net_host net_in
net_Delivers = record {
  amount = λ w n. 1;
  after = λ w n. record w { inbox = drop 1 w.inbox };
  delivers = λ w n h. refl;
  progress = λ w n. omega arith;
  within = λ w n. omega arith;
  keeps = λ w n. refl;
}

abbrev request : List ℕ
request = 0 ∷ 0 ∷ 0 ∷ 0 ∷ 15 ∷ 7 ∷ []

-- A reply with the body [1, 2], and behind it a byte of something else.
abbrev with_reply : Net
with_reply = record { inbox = 0 ∷ 0 ∷ 0 ∷ 2 ∷ 0 ∷ 1 ∷ 2 ∷ 77 ∷ []; outbox = [] }

-- A request of the other side, with the code 11.
abbrev with_request : Net
with_request = record { inbox = 0 ∷ 0 ∷ 0 ∷ 2 ∷ 11 ∷ 1 ∷ 2 ∷ 77 ∷ []; outbox = [] }

send_request_all_example :
    (send_request net_host 10 request new_engine with_reply
      ≡ some (
        (0, finalize_packet request),
        new_engine,
        sent_state net_host net_out net_Accepts 10 request with_reply,
      ))
    × (net_out (sent_state net_host net_out net_Accepts 10 request with_reply)
        ≡ net_out with_reply ++ finalize_packet request)
unfolding new_engine finalize_packet
send_request_all_example =
    send_request_all net_host net_out net_Accepts 10 request new_engine with_reply refl
      (omega arith)

recv_all_all_example :
    (recv_all net_host 10 5 false new_engine with_reply
      ≡ some (
        (0, 0 ∷ 0 ∷ 0 ∷ 2 ∷ 0 ∷ []),
        new_engine,
        received_state net_host net_in net_Delivers 10 5 with_reply,
      ))
    × (net_in (received_state net_host net_in net_Delivers 10 5 with_reply) ≡ 1 ∷ 2 ∷ 77 ∷ [])
unfolding new_engine
recv_all_all_example =
    recv_all_all net_host net_in net_Delivers 10 5 false new_engine with_reply refl (omega arith)
      (omega arith)

recv_request-finalize_packet_example :
    (recv_request net_host 10 (λ r e w. none) new_engine with_reply
      ≡ some (
        reply (record { code = 0; body = 1 ∷ 2 ∷ [] }),
        new_engine,
        behind_packet net_host net_in net_Delivers 10 2 with_reply,
      ))
    × (net_in (behind_packet net_host net_in net_Delivers 10 2 with_reply) ≡ 77 ∷ [])
unfolding new_engine finalize_packet prepare_rpc_packet
recv_request-finalize_packet_example =
    recv_request-finalize_packet net_host net_in net_Delivers 10 (λ r e w. none) 0 (1 ∷ 2 ∷ [])
      (77 ∷ []) new_engine with_reply refl refl (omega arith) (omega arith) refl (omega arith) refl

process_request_reply_example :
    (process_request net_host 11 request false new_engine with_reply
      ≡ some (
        reply (record { code = rpc_ok; body = 1 ∷ 2 ∷ [] }),
        new_engine,
        behind_packet net_host net_in net_Delivers 10 2
            (sent_state net_host net_out net_Accepts 10 request with_reply),
      ))
    × (net_out (sent_state net_host net_out net_Accepts 10 request with_reply)
        ≡ net_out with_reply ++ finalize_packet request)
    × (net_in (
          behind_packet net_host net_in net_Delivers 10 2
            (sent_state net_host net_out net_Accepts 10 request with_reply))
        ≡ 77 ∷ [])
unfolding new_engine finalize_packet prepare_rpc_packet sent_state final
process_request_reply_example =
    process_request_reply net_host net_out net_in net_Accepts net_Delivers 10 0
      (0 ∷ 0 ∷ 0 ∷ 15 ∷ 7 ∷ []) (1 ∷ 2 ∷ []) (77 ∷ []) false new_engine with_reply refl refl refl
      (omega arith) (omega arith) refl (omega arith) refl

process_request_login_example :
    process_request net_host 11 request true new_engine with_request
    ≡ some (
      null_reply,
      new_engine,
      behind_packet net_host net_in net_Delivers 10 2
          (sent_state net_host net_out net_Accepts 10 request with_request),
    )
unfolding new_engine finalize_packet prepare_rpc_packet sent_state final
process_request_login_example =
    process_request_login net_host net_out net_in net_Accepts net_Delivers 10 0
      (0 ∷ 0 ∷ 0 ∷ 15 ∷ 7 ∷ []) (1 ∷ 2 ∷ []) (77 ∷ []) 11 new_engine with_request refl refl refl
      (omega arith) (omega arith) (omega arith) (omega arith) refl (omega arith) refl

process_request_serves_example :
    process_request net_host 11 request false new_engine with_request
    ≡ process_request net_host 10 (0 ∷ 0 ∷ 0 ∷ 0 ∷ 0 ∷ 42 ∷ []) false new_engine (
        behind_packet net_host net_in net_Delivers 10 2
          (sent_state net_host net_out net_Accepts 10 request with_request))
unfolding new_engine finalize_packet prepare_rpc_packet sent_state final
process_request_serves_example =
    process_request_serves net_host net_out net_in net_Accepts net_Delivers 10 0
      (0 ∷ 0 ∷ 0 ∷ 15 ∷ 7 ∷ []) (1 ∷ 2 ∷ []) (77 ∷ []) 11 new_engine with_request 0
      (0 ∷ 0 ∷ 0 ∷ 0 ∷ 42 ∷ []) new_engine
      (behind_packet net_host net_in net_Delivers 10 2
        (sent_state net_host net_out net_Accepts 10 request with_request))
      refl refl refl (omega arith) (omega arith) (omega arith) (omega arith) refl (omega arith) refl
      refl

-- The transport fails with the error 104.
abbrev broken_host : Host Net
broken_host = record net_host { irs_send = λ w bs. (send_failed 104, w) }

send_request_latch_example :
    send_request broken_host 3 (5 ∷ []) (break_off 104 new_engine) with_reply
    ≡ some ((minus_one, 5 ∷ []), break_off 104 new_engine, with_reply)
unfolding new_engine finalize_packet send_request send_loop
send_request_latch_example =
    send_request_latch broken_host 10 3 request (5 ∷ []) (finalize_packet request) new_engine
      with_reply {code = 104} {e' = break_off 104 new_engine} {w' = with_reply} refl refl
      (λ e. ground (arith, e))

-- A handler that answers with the function's number and the input reversed in its first two bytes.
abbrev swap_handler : IoctlHandler
swap_handler fn (a ∷ b ∷ bs) = (fn, b ∷ a ∷ bs)
swap_handler fn bs = (fn, bs)

ioctl_exchange_example :
    (answer : List ℕ) × (handle_ioctl_packet
        (λ n. true)
        (some swap_handler)
        (prepare_rpc_packet rpc_ok)
        (drop 5 (ioctl_request 300 (1 ∷ 2 ∷ [])))
      ≡ some (record { code = rpc_ok; req = answer }))
    × (ioctl_reply (λ n. true) (reply (record { code = rpc_ok; body = drop 5 answer }))
        ≡ some (300, 2 ∷ 1 ∷ []))
ioctl_exchange_example =
    ioctl_exchange (λ n. true) swap_handler 300 (1 ∷ 2 ∷ []) 300 (2 ∷ 1 ∷ []) (omega arith)
      (omega arith) (omega arith) (omega arith) refl refl refl
