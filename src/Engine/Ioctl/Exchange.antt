-- ===== src/Engine/Ioctl/Exchange.antt =====
-- An ioctl request through its handler and its reply.
use mathlib.Core.Path.{subst}
use reverse_engineearing.Base.{
  ℕ, ◌%◌, ◌^◌, ◌≡◌, ap, ◌∙◌, Bool, true, some, List, [], ◌∷◌, ◌++◌, append_assoc, append-nil, arith,
  length, drop,
}
use reverse_engineearing.Wire.{pack_dd}
use reverse_engineearing.Wire.Format.{append_dd-append}
use reverse_engineearing.Wire.RoundTrip.{IsShort}
use reverse_engineearing.Codec.{prepare_rpc_packet, ◌>>=◌}
use reverse_engineearing.Codec.Fields.{
  append_memory-append, extract_long-Reads, extract_memory-Reads,
}
use reverse_engineearing.Engine.{reply, rpc_ok, rpc_ioctl}
use reverse_engineearing.Engine.Ioctl.{
  IoctlHandler, append_output, run_handler, ioctl_buffer, handle_ioctl_packet, ioctl_request,
  read_ioctl, ioctl_reply,
}

-- The bytes of a request behind its header, and those of an answer.
unfoldable pub ioctl_body : ℕ → List ℕ → List ℕ
ioctl_body fn buf = pack_dd 5 fn ++ (pack_dd 5 (length buf) ++ buf)

ioctl_request_lem :
    (fn : ℕ) (buf : List ℕ)
    → ioctl_request fn buf ≡ prepare_rpc_packet rpc_ioctl ++ ioctl_body fn buf
unfolding ioctl_request ioctl_body
ioctl_request_lem fn buf = simp (append_memory-append, append_dd-append, append_assoc)

-- The answer of a handler that is called.
run_handler_lem :
    (handler : IoctlHandler) (req : List ℕ) (fn : ℕ) (buf : List ℕ) (code : ℕ) (out : List ℕ)
    → handler fn buf ≡ (code, out)
    → run_handler handler req fn buf
      ≡ record { code = rpc_ok; req = req ++ ioctl_body (code % 2 ^ 32) out }
unfolding run_handler ioctl_body append_output
run_handler_lem handler req fn buf code [] e =
    rw e (simp (append_dd-append, append_assoc, append-nil))
run_handler_lem handler req fn buf code (b ∷ bs) e =
    rw e (simp (append_memory-append, append_dd-append, append_assoc))

handle_ioctl_packet_lem :
    (qalloc : ℕ → Bool) (handler : IoctlHandler) (req rest : List ℕ) (fn : ℕ) (buf : List ℕ)
    → IsShort fn
    → IsShort (length buf)
    → qalloc (length buf) ≡ true
    → handle_ioctl_packet qalloc (some handler) req (ioctl_body fn buf ++ rest)
      ≡ some (run_handler handler req fn buf)
unfolding handle_ioctl_packet ioctl_body ioctl_buffer
handle_ioctl_packet_lem qalloc handler req rest fn buf hf hl ha = simp append_assoc (
    rw
      (
        handle_ioctl_packet,
        extract_long-Reads fn hf,
        extract_long-Reads (length buf) hl,
        ioctl_buffer,
        ha,
        extract_memory-Reads buf rest,
      )
      (ground arith))

read_ioctl-Reads :
    (qalloc : ℕ → Bool) (code : ℕ) (out rest : List ℕ)
    → IsShort code
    → IsShort (length out)
    → qalloc (length out) ≡ true
    → read_ioctl qalloc (ioctl_body code out ++ rest) ≡ some ((code, out), rest)
unfolding ioctl_body read_ioctl
read_ioctl-Reads qalloc code [] rest hc hl ha =
    simp append_assoc
      (rw (read_ioctl, extract_long-Reads code hc, ◌>>=◌, extract_long-Reads 0 hl, ◌>>=◌))
read_ioctl-Reads qalloc code (b ∷ bs) rest hc hl ha = simp append_assoc (
    rw
      (
        read_ioctl,
        extract_long-Reads code hc,
        ◌>>=◌,
        extract_long-Reads (length (b ∷ bs)) hl,
        ◌>>=◌,
        ha,
        extract_memory-Reads (b ∷ bs) rest,
        ◌>>=◌,
      )
      (ground arith))

-- An ioctl request, handled and answered: what `send_ioctl` reads in the reply is the code and the output of the handler
-- for the function and the input that it sent, given that the numbers are short and the allocations succeed.
pub ioctl_exchange :
    (qalloc : ℕ → Bool) (handler : IoctlHandler) (fn : ℕ) (buf : List ℕ) (code : ℕ) (out : List ℕ)
    → IsShort fn
    → IsShort (length buf)
    → IsShort code
    → IsShort (length out)
    → qalloc (length buf) ≡ true
    → qalloc (length out) ≡ true
    → handler fn buf ≡ (code, out)
    → (answer : List ℕ) × (handle_ioctl_packet qalloc
          (some handler)
          (prepare_rpc_packet rpc_ok)
          (drop 5 (ioctl_request fn buf))
        ≡ some (record { code = rpc_ok; req = answer }))
      × (ioctl_reply qalloc (reply (record { code = rpc_ok; body = drop 5 answer }))
          ≡ some (code, out))
unfolding ioctl_reply prepare_rpc_packet
ioctl_exchange qalloc handler fn buf code out hf hb hc ho ab ao e =
    let word : code % 2 ^ 32 ≡ code = omega arith in
    let body = ioctl_body code out in
    let handled =
      handle_ioctl_packet_lem qalloc handler (prepare_rpc_packet rpc_ok) [] fn buf hf hb ab in
    let read = read_ioctl-Reads qalloc code out [] hc ho ao in
    (
      prepare_rpc_packet rpc_ok ++ body,
      rw (ioctl_request_lem fn buf) (
          subst
            (λ bs.
              handle_ioctl_packet qalloc (some handler) (prepare_rpc_packet rpc_ok) bs
              ≡ some (record { code = rpc_ok; req = prepare_rpc_packet rpc_ok ++ body }))
            (append-nil (ioctl_body fn buf))
            (handled
              ∙ ap some (
                  run_handler_lem handler (prepare_rpc_packet rpc_ok) fn buf code out e
                  ∙ rw word))),
      rw (← append-nil body) (rw (ioctl_reply, read)),
    )
