-- ===== src/Engine/Ioctl.antt =====
-- rpc_engine.cpp: ioctl requests, in both directions.
pub mod Exchange
pub mod Answers
use reverse_engineearing.Base.{
  ℕ, zero, suc, ◌+◌, ◌-◌, ◌*◌, ◌/◌, ◌%◌, ◌^◌, ◌≤◌, ◌<◌, bit_and, bit_or, ◌≡◌, refl, sym, ap, ◌∙◌,
  ◌≢◌, ◌↔◌, ◌⊎◌, inl, inr, Bool, true, false, not, ◌&&◌, ◌||◌, Option, none, some, List, [], ◌∷◌,
  ◌++◌, append_assoc, append-nil, arith, ltb, leb, ◌==◌, if◌then◌else◌, of_bool, ==_iff, Bool-cases,
  Option-cases, length, get_elem?, set, take, drop, replicate, All, length-append, length-take,
  length-drop, take-append-drop, take-length-append, drop-length-append, take_all, All-append,
  codes,
}
use reverse_engineearing.Wire.{append_dd}
use reverse_engineearing.Codec.{
  Reader, prepare_rpc_packet, extract_long, extract_memory, append_memory, ◌>>=◌, pure,
}
use reverse_engineearing.Engine.{
  Host, Engine, Packet, Reply, reply, null_reply, exited, Result, rpc_ok, rpc_unk, rpc_mem,
  rpc_ioctl, minus_one,
}
use reverse_engineearing.Engine.Process.{process_request}

-- The reply code of an ioctl and the request as it is then, or a failed QASSERT.
pub record IoctlAnswer : Type 0 where
  pub code : ℕ
  pub req : List ℕ

-- `ioctl_handler`: the handler's code with its output buffer and the size that it claims.
abbrev pub IoctlHandler : Type 0
IoctlHandler = ℕ → List ℕ → ℕ × List ℕ

-- An output size of zero or less is an empty output.
append_output : List ℕ → List ℕ → List ℕ
append_output req [] = req
append_output req (b ∷ bs) = append_memory req (b ∷ bs)

run_handler : IoctlHandler → List ℕ → ℕ → List ℕ → IoctlAnswer
unfolding append_output
run_handler handler req fn buf =
    let (code, out) = handler fn buf in
    record {
      code = rpc_ok;
      req = append_output (append_dd (append_dd req (code % 2 ^ 32)) (length out)) out;
    }

-- The buffer is allocated before the packet is seen to hold that many bytes.
ioctl_buffer : (ℕ → Bool) → IoctlHandler → List ℕ → ℕ → ℕ → List ℕ → Option IoctlAnswer
unfolding run_handler
ioctl_buffer qalloc handler req fn size s =
    if ltb 0 size && not (qalloc size)
    then some (record { code = rpc_mem; req = req })
    else elim (extract_memory size s) [
      | none ↦ none
      | some (buf, rest) ↦ some (run_handler handler req fn buf)
    ]

pub handle_ioctl_packet : (ℕ → Bool) → Option IoctlHandler → List ℕ → List ℕ → Option IoctlAnswer
unfolding ioctl_buffer
handle_ioctl_packet qalloc none req s = some (record { code = rpc_unk; req = req })
handle_ioctl_packet qalloc (some handler) req s = elim (extract_long s) [
  | none ↦ none
  | some (fn, s1) ↦ elim (extract_long s1) [
    | none ↦ none
    | some (size, s2) ↦ ioctl_buffer qalloc handler req fn size s2
  ]
]

-- `send_ioctl` builds this request.
pub ioctl_request : ℕ → List ℕ → List ℕ
ioctl_request fn buf =
    append_memory (append_dd (append_dd (prepare_rpc_packet rpc_ioctl) fn) (length buf)) buf

-- The code, and the output if there is one and memory for it.
read_ioctl : (ℕ → Bool) → Reader (ℕ × List ℕ)
read_ioctl qalloc = do
  code ← extract_long
  outsize ← extract_long
  λ s.
      (if ltb 0 outsize && qalloc outsize
        then (do out ← extract_memory outsize; pure (code, out)) s
        else some ((code, []), s))

pub ioctl_reply : (ℕ → Bool) → Reply → Option (ℕ × List ℕ)
unfolding read_ioctl
ioctl_reply qalloc (reply p) = elim (read_ioctl qalloc p.body) [
  | none ↦ none
  | some (r, rest) ↦ some r
]
ioctl_reply qalloc null_reply = some (minus_one, [])
ioctl_reply qalloc exited = none

module _ {W : Type 0} (h : Host W) where
  pub send_ioctl : ℕ → ℕ → List ℕ → Engine → W → Result W (Option (ℕ × List ℕ))
  unfolding ioctl_reply ioctl_request
  send_ioctl fuel fn buf e w = elim (process_request h fuel (ioctl_request fn buf) false e w) [
    | none ↦ none
    | some (r, e', w') ↦ some (ioctl_reply h.qalloc r, e', w')
  ]
