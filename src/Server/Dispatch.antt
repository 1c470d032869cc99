-- ===== src/Server/Dispatch.antt =====
-- rpc_server.cpp: `perform_request`, which serves every request of the client.
pub mod Reply
pub mod Polling
pub mod Calls
use reverse_engineearing.Base.{
  ℕ, zero, suc, ◌+◌, ◌-◌, ◌*◌, ◌/◌, ◌%◌, ◌^◌, ◌≤◌, ◌<◌, bit_and, bit_or, ◌≡◌, refl, sym, ap, ◌∙◌,
  ◌≢◌, ◌↔◌, ◌⊎◌, inl, inr, Bool, true, false, not, ◌&&◌, ◌||◌, Option, none, some, List, [], ◌∷◌,
  ◌++◌, append_assoc, append-nil, arith, ltb, leb, ◌==◌, if◌then◌else◌, of_bool, ==_iff, Bool-cases,
  Option-cases, length, get_elem?, set, take, drop, replicate, All, length-append, length-take,
  length-drop, take-append-drop, take-length-append, drop-length-append, take_all, All-append,
  codes, take_pieces, drop_pieces,
}
use reverse_engineearing.Codec.{prepare_rpc_packet}
use reverse_engineearing.Engine.{Packet, rpc_ok, rpc_unk}
use reverse_engineearing.Server.Interface.{Debugger, Session, Outcome}
use reverse_engineearing.Server.Cases.Process.{
  on_init, on_get_process_info, on_start, on_exit, on_attach, on_detach, on_get_debug_event,
  on_prepare_to_pause, on_stopped, on_continue, on_appcall, on_cleanup_appcall, on_rexec,
}
use reverse_engineearing.Server.Cases.Threads.{
  on_suspend, on_thread_continue, on_set_resume_mode, on_read_regs, on_write_reg, on_get_sreg_base,
  on_set_exception_info, on_update_call_stack,
}
use reverse_engineearing.Server.Cases.Memory.{
  on_get_memory_info, on_read_memory, on_write_memory, on_update_bpts, on_update_lowcnds,
  on_eval_lowcnd, on_isok_bpt,
}
use reverse_engineearing.Server.Cases.FileIo.{
  on_open_file, on_close_file, on_read_file, on_write_file, on_ioctl,
}

-- The cases of the switch.
pub data RequestCase : Type 0 where
  c_init c_term c_get_process_info c_start c_exit : RequestCase
  c_attach c_detach c_get_debug_event c_prepare_to_pause c_stopped : RequestCase
  c_continue c_suspend c_thread_continue c_set_resume_mode c_get_memory_info : RequestCase
  c_read_memory c_write_memory c_update_bpts c_update_lowcnds c_eval_lowcnd : RequestCase
  c_isok_bpt c_read_regs c_write_reg c_get_sreg_base c_set_exception_info : RequestCase
  c_open_file c_close_file c_read_file c_write_file c_ioctl : RequestCase
  c_update_call_stack c_appcall c_cleanup_appcall c_rexec c_evok : RequestCase
  c_unknown : RequestCase

-- The codes of consts.h.
abbrev pub request_codes : List (ℕ × RequestCase)
request_codes =
    (5, c_evok)
    ∷ (10, c_init)
    ∷ (11, c_term)
    ∷ (12, c_get_process_info)
    ∷ (13, c_start)
    ∷ (14, c_exit)
    ∷ (15, c_attach)
    ∷ (16, c_detach)
    ∷ (17, c_get_debug_event)
    ∷ (18, c_prepare_to_pause)
    ∷ (19, c_stopped)
    ∷ (20, c_continue)
    ∷ (21, c_suspend)
    ∷ (22, c_thread_continue)
    ∷ (23, c_set_resume_mode)
    ∷ (24, c_get_memory_info)
    ∷ (25, c_read_memory)
    ∷ (26, c_write_memory)
    ∷ (27, c_update_bpts)
    ∷ (28, c_update_lowcnds)
    ∷ (29, c_eval_lowcnd)
    ∷ (30, c_isok_bpt)
    ∷ (31, c_read_regs)
    ∷ (32, c_write_reg)
    ∷ (33, c_get_sreg_base)
    ∷ (34, c_set_exception_info)
    ∷ (35, c_open_file)
    ∷ (36, c_close_file)
    ∷ (37, c_read_file)
    ∷ (38, c_write_file)
    ∷ (39, c_ioctl)
    ∷ (40, c_update_call_stack)
    ∷ (41, c_appcall)
    ∷ (42, c_cleanup_appcall)
    ∷ (43, c_rexec)
    ∷ []

unfoldable pub case_in : ℕ → List (ℕ × RequestCase) → RequestCase
case_in code [] = c_unknown
case_in code ((n, c) ∷ cs) = if n == code then c else case_in code cs

unfoldable pub case_of : ℕ → RequestCase
unfolding case_in
case_of code = case_in code request_codes

module _ {W : Type 0} (m : Debugger W) (shl32 : ℕ → ℕ) (insn_size : ℕ) where
  unfoldable pub serve : RequestCase → Outcome W → List ℕ → Option (Outcome W)
  serve c_init o s = on_init m o s
  serve c_term o s = some o
  serve c_get_process_info o s = on_get_process_info m o s
  serve c_start o s = on_start m o s
  serve c_exit o s = on_exit m o s
  serve c_attach o s = on_attach m o s
  serve c_detach o s = on_detach m o s
  serve c_get_debug_event o s = on_get_debug_event m o s
  serve c_prepare_to_pause o s = on_prepare_to_pause m o s
  serve c_stopped o s = on_stopped m o s
  serve c_continue o s = on_continue m shl32 o s
  serve c_suspend o s = on_suspend m o s
  serve c_thread_continue o s = on_thread_continue m o s
  serve c_set_resume_mode o s = on_set_resume_mode m o s
  serve c_get_memory_info o s = on_get_memory_info m o s
  serve c_read_memory o s = on_read_memory m shl32 o s
  serve c_write_memory o s = on_write_memory m shl32 o s
  serve c_update_bpts o s = on_update_bpts m shl32 o s
  serve c_update_lowcnds o s = on_update_lowcnds m shl32 insn_size o s
  serve c_eval_lowcnd o s = on_eval_lowcnd m shl32 o s
  serve c_isok_bpt o s = on_isok_bpt m shl32 o s
  serve c_read_regs o s = on_read_regs m o s
  serve c_write_reg o s = on_write_reg m shl32 o s
  serve c_get_sreg_base o s = on_get_sreg_base m o s
  serve c_set_exception_info o s = on_set_exception_info m o s
  serve c_open_file o s = on_open_file m o s
  serve c_close_file o s = on_close_file m o s
  serve c_read_file o s = on_read_file m o s
  serve c_write_file o s = on_write_file m o s
  serve c_ioctl o s = on_ioctl m o s
  serve c_update_call_stack o s = on_update_call_stack m o s
  serve c_appcall o s = on_appcall m shl32 o s
  serve c_cleanup_appcall o s = on_cleanup_appcall m o s
  serve c_rexec o s = on_rexec m o s
  serve c_evok o s = some (record o { req = [] })
  serve c_unknown o s = some (record o { req = prepare_rpc_packet rpc_unk })

  -- While a request is performed, the server does not poll for events.
  unfoldable pub at_start : Session → W → Outcome W
  at_start session w = record {
    req = prepare_rpc_packet rpc_ok;
    saved_poll_mode = session.poll_debug_events;
    session = record session { poll_debug_events = false };
    world = w;
  }

  -- The poll mode is only ever switched on again.
  unfoldable pub at_end : Outcome W → Outcome W
  at_end o =
      if o.saved_poll_mode
      then record o { session = record o.session { poll_debug_events = true } }
      else o

  unfoldable pub finish : Option (Outcome W) → Option (List ℕ × Session × W)
  unfolding at_end
  finish none = none
  finish (some o) = let e = at_end o in some (e.req, e.session, e.world)

  unfoldable pub perform_request : Packet → Session → W → Option (List ℕ × Session × W)
  unfolding serve finish at_start case_of
  perform_request rp session w = finish (serve (case_of rp.code) (at_start session w) rp.body)
