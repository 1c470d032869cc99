-- ===== src/Engine/Ioctl/Answers.antt =====
-- rpc_engine.cpp: what `handle_ioctl_packet` replies.
use reverse_engineearing.Base.{
  ℕ, Bool, true, false, not, ◌&&◌, Option, none, some, List, [], ◌∷◌, ltb, if◌then◌else◌,
}
use reverse_engineearing.Codec.{extract_long, extract_memory}
use reverse_engineearing.Codec.Extends.{Extends, Extends-dd, Extends-memory, Extends-refl}
use reverse_engineearing.Engine.{rpc_ok, rpc_unk, rpc_mem}
use reverse_engineearing.Engine.Ioctl.{
  IoctlAnswer, IoctlHandler, append_output, run_handler, ioctl_buffer, handle_ioctl_packet,
}

-- RPC_OK comes with the request and something behind it.
pub data AnswerOf (req : List ℕ) : IoctlAnswer → Type 0 where
  code_ok : (t : List ℕ) → Extends req t → AnswerOf req (record { code = rpc_ok; req = t })
  code_unk : (t : List ℕ) → AnswerOf req (record { code = rpc_unk; req = t })
  code_mem : (t : List ℕ) → AnswerOf req (record { code = rpc_mem; req = t })

pub data Answered (req : List ℕ) : Option IoctlAnswer → Type 0 where
  no_answer : Answered req none
  answered : {a : IoctlAnswer} → AnswerOf req a → Answered req (some a)

append_output-Extends :
    {s t : List ℕ} (out : List ℕ) → Extends s t → Extends s (append_output t out)
unfolding append_output
append_output-Extends [] e = e
append_output-Extends (b ∷ bs) e = Extends-memory (b ∷ bs) e

run_handler-AnswerOf :
    (handler : IoctlHandler) (req : List ℕ) (fn : ℕ) (buf : List ℕ)
    → AnswerOf req (run_handler handler req fn buf)
unfolding run_handler
run_handler-AnswerOf handler req fn buf =
    let (code, out) = handler fn buf in
    code_ok _ (append_output-Extends out (Extends-dd _ (Extends-dd _ (Extends-refl req))))

ioctl_buffer-Answered :
    (qalloc : ℕ → Bool) (handler : IoctlHandler) (req : List ℕ) (fn size : ℕ) (s : List ℕ)
    → Answered req (ioctl_buffer qalloc handler req fn size s)
unfolding ioctl_buffer
ioctl_buffer-Answered qalloc handler req fn size s =
    when (ltb 0 size && not (qalloc size)) (extract_memory size s)
  where
    when :
        (c : Bool) (x : Option (List ℕ × List ℕ))
        → Answered req (
            if c
            then some (record { code = rpc_mem; req = req })
            else elim x [ none ↦ none | some (buf, rest) ↦ some (run_handler handler req fn buf) ])
    when true x = answered (code_mem req)
    when false none = no_answer
    when false (some (buf, rest)) = answered (run_handler-AnswerOf handler req fn buf)

pub handle_ioctl_packet-Answered :
    (qalloc : ℕ → Bool) (handler : Option IoctlHandler) (req s : List ℕ)
    → Answered req (handle_ioctl_packet qalloc handler req s)
unfolding handle_ioctl_packet
handle_ioctl_packet-Answered qalloc none req s = answered (code_unk req)
handle_ioctl_packet-Answered qalloc (some handler) req s = number (extract_long s)
  where
    sized :
        (fn : ℕ) (x : Option (ℕ × List ℕ))
        → Answered req (elim x [
          | none ↦ none
          | some (size, rest) ↦ ioctl_buffer qalloc handler req fn size rest
        ])
    sized fn none = no_answer
    sized fn (some (size, rest)) = ioctl_buffer-Answered qalloc handler req fn size rest

    number :
        (x : Option (ℕ × List ℕ))
        → Answered req (elim x [
          | none ↦ none
          | some (fn, s1) ↦ elim (extract_long s1) [
            | none ↦ none
            | some (size, s2) ↦ ioctl_buffer qalloc handler req fn size s2
          ]
        ])
    number none = no_answer
    number (some (fn, s1)) = sized fn (extract_long s1)
