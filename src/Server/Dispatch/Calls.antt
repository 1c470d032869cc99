-- ===== src/Server/Dispatch/Calls.antt =====
-- rpc_server.cpp: a client's calls of the debugger module. What they promise is the call itself, made on the
-- module where it runs; `perform_request` stands between the packets.
pub mod Serving
pub mod Refinement
use reverse_engineearing.Base.{
  ℕ, zero, suc, ◌+◌, ◌-◌, ◌*◌, ◌/◌, ◌%◌, ◌^◌, ◌≤◌, ◌<◌, bit_and, bit_or, ◌≡◌, refl, sym, ap, ◌∙◌,
  ◌≢◌, ◌↔◌, ◌⊎◌, inl, inr, Bool, true, false, not, ◌&&◌, ◌||◌, Option, none, some, List, [], ◌∷◌,
  ◌++◌, append_assoc, append-nil, arith, ltb, leb, ◌==◌, if◌then◌else◌, of_bool, ==_iff, Bool-cases,
  Option-cases, length, get_elem?, set, take, drop, replicate, All, length-append, length-take,
  length-drop, take-append-drop, take-length-append, drop-length-append, take_all, All-append,
  codes, take_pieces, drop_pieces,
}
use reverse_engineearing.Wire.{append_dd}
use reverse_engineearing.Codec.{
  Reader, pure, ◌>>=◌, extract_long, extract_memory, extract_ea64, append_ea64, append_str,
  append_memory, header_size, c_str,
}
use reverse_engineearing.Codec.Fields.{IsText, IsWireEa}
use reverse_engineearing.Wire.RoundTrip.{IsShort}
use reverse_engineearing.Engine.{Packet}
use reverse_engineearing.Server.Interface.{Debugger, Session, is_positive}
use reverse_engineearing.Server.Dispatch.{perform_request}

-- The calls whose arguments are numbers, addresses, bytes and text.
pub data Call : Type 0 where
  detach prepare_to_pause exit_process : Call
  suspend resume cleanup_appcall : ℕ → Call
  set_resume_mode sreg_base eval_lowcnd read_memory : ℕ → ℕ → Call
  is_ok_bpt : ℕ → ℕ → ℕ → Call
  write_memory : ℕ → List ℕ → Call
  rexec : List ℕ → Call

-- What a call gives: a code, a code with bytes, or a code with a base address unless the code is 0.
pub data Result : Type 0 where
  number : ℕ → Result
  bytes : ℕ → List ℕ → Result
  no_base : Result
  base : ℕ → ℕ → Result

module _ {W : Type 0} (m : Debugger W) where
  unfoldable pub code_of : ℕ × W → Result × W
  code_of (r, w) = (number r, w)

  unfoldable pub bytes_of : (ℕ × List ℕ) × W → Result × W
  bytes_of ((r, buf), w) = (bytes r (if is_positive r then take r buf else []), w)

  unfoldable pub base_of : (ℕ × ℕ) × W → Result × W
  base_of ((r, ea), w) = (if r == 0 then no_base else base r ea, w)

  -- The call on the module itself.
  unfoldable pub call_locally : Call → W → Result × W
  unfolding code_of bytes_of base_of
  call_locally detach w = code_of (m.dbg_detach_process w)
  call_locally prepare_to_pause w = code_of (m.dbg_prepare_to_pause_process w)
  call_locally exit_process w = code_of (m.dbg_exit_process w)
  call_locally (suspend tid) w = code_of (m.dbg_thread_suspend tid w)
  call_locally (resume tid) w = code_of (m.dbg_thread_continue tid w)
  call_locally (cleanup_appcall tid) w = code_of (m.dbg_cleanup_appcall tid w)
  call_locally (set_resume_mode tid resmod) w = code_of (m.dbg_set_resume_mode tid resmod w)
  call_locally (sreg_base tid reg) w = base_of (m.dbg_thread_get_sreg_base tid reg w)
  call_locally (eval_lowcnd tid ea) w = code_of (m.dbg_eval_lowcnd tid ea w)
  call_locally (read_memory ea size) w = bytes_of (m.dbg_read_memory ea size w)
  call_locally (is_ok_bpt type ea len) w = code_of (m.dbg_is_ok_bpt type ea len w)
  call_locally (write_memory ea buf) w = code_of (m.dbg_write_memory ea buf w)
  call_locally (rexec cmdline) w = code_of (m.dbg_rexec cmdline w)

  -- The request that asks for a call, with the fields in the order in which the server reads them.
  pub request_of : Call → Packet
  request_of detach = record { code = 16; body = [] }
  request_of prepare_to_pause = record { code = 18; body = [] }
  request_of exit_process = record { code = 14; body = [] }
  request_of (suspend tid) = record { code = 21; body = append_dd [] tid }
  request_of (resume tid) = record { code = 22; body = append_dd [] tid }
  request_of (cleanup_appcall tid) = record { code = 42; body = append_dd [] tid }
  request_of (set_resume_mode tid resmod) = record {
    code = 23;
    body = append_dd (append_dd [] tid) resmod;
  }
  request_of (sreg_base tid reg) = record { code = 33; body = append_dd (append_dd [] tid) reg }
  request_of (eval_lowcnd tid ea) = record { code = 29; body = append_ea64 (append_dd [] tid) ea }
  request_of (read_memory ea size) = record { code = 25; body = append_dd (append_ea64 [] ea) size }
  request_of (is_ok_bpt type ea len) = record {
    code = 30;
    body = append_dd (append_ea64 (append_dd [] type) ea) (len + 1);
  }
  request_of (write_memory ea buf) = record {
    code = 26;
    body = append_memory (append_dd (append_ea64 [] ea) (length buf)) buf;
  }
  request_of (rexec cmdline) = record { code = 43; body = append_str [] cmdline }

  module _ (shl32 : ℕ → ℕ) where
    read_bytes : Reader Result
    read_bytes = do
      r ← extract_long
      buf ← (if is_positive r then extract_memory r else pure [])
      pure (bytes r buf)

    read_base : Reader Result
    read_base = do
      r ← extract_long
      (if r == 0 then pure no_base else (do ea ← extract_ea64 shl32; pure (base r ea)))

    read_number : Reader Result
    read_number = do r ← extract_long; pure (number r)

    -- The fields of the reply behind its header.
    pub read_reply : Call → Reader Result
    unfolding read_bytes read_base read_number
    read_reply (read_memory ea size) = read_bytes
    read_reply (sreg_base tid reg) = read_base
    read_reply c = read_number

    -- The call through packets, if the reply is complete.
    pub call_remotely : ℕ → Call → Session → W → Option (Result × Session × W)
    call_remotely insn_size c session w =
        elim (perform_request m shl32 insn_size (request_of c) session w) [
          | none ↦ none
          | some (req, session', w') ↦ elim (read_reply c (drop header_size req)) [
            | none ↦ none
            | some (r, rest) ↦ some (r, session', w')
          ]
        ]

    -- The arguments that come across the wire, and the sizes for which there is memory.
    unfoldable pub IsWireCall : Call → Type 0
    IsWireCall detach = Unit
    IsWireCall prepare_to_pause = Unit
    IsWireCall exit_process = Unit
    IsWireCall (suspend tid) = IsShort tid
    IsWireCall (resume tid) = IsShort tid
    IsWireCall (cleanup_appcall tid) = IsShort tid
    IsWireCall (set_resume_mode tid resmod) = IsShort tid × IsShort resmod
    IsWireCall (sreg_base tid reg) = IsShort tid × IsShort reg
    IsWireCall (eval_lowcnd tid ea) = IsShort tid × IsWireEa shl32 ea
    IsWireCall (read_memory ea size) = IsWireEa shl32 ea × IsShort size × (m.can_new size ≡ true)
    IsWireCall (is_ok_bpt type ea len) = IsShort type × IsWireEa shl32 ea × IsShort (len + 1)
    IsWireCall (write_memory ea buf) =
        IsWireEa shl32 ea × IsShort (length buf) × (m.can_new (length buf) ≡ true)
    IsWireCall (rexec cmdline) = IsText cmdline

    -- The results that come across the wire; bytes come as many as the code says.
    unfoldable pub IsWireResult : Result → Type 0
    IsWireResult (number r) = IsShort r
    IsWireResult (bytes r buf) = IsShort r × (length buf ≡ r)
    IsWireResult no_base = Unit
    IsWireResult (base r ea) = IsShort r × (0 < r) × IsWireEa shl32 ea
