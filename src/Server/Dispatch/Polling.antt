-- ===== src/Server/Dispatch/Polling.antt =====
-- rpc_server.cpp: the reply to a request.
use reverse_engineearing.Base.{ℕ, ◌≡◌, refl, inl, inr, Option, some, List, [], Bool-cases}
use mathlib.Core.Path.{subst}
use reverse_engineearing.Base.{some-injective}
use reverse_engineearing.Engine.{Packet, rpc_ok}
use reverse_engineearing.Codec.{prepare_rpc_packet}
use reverse_engineearing.Codec.Extends.{Extends-refl}
use reverse_engineearing.Server.Interface.{Debugger, Session, Outcome}
use reverse_engineearing.Server.Dispatch.{
  RequestCase, c_init, c_get_process_info, c_start, c_exit, c_attach, c_detach, c_prepare_to_pause,
  c_stopped, c_continue, c_suspend, c_thread_continue, c_set_resume_mode, c_get_memory_info,
  c_read_memory, c_write_memory, c_update_bpts, c_eval_lowcnd, c_isok_bpt, c_read_regs, c_write_reg,
  c_get_sreg_base, c_set_exception_info, c_open_file, c_close_file, c_read_file, c_write_file,
  c_ioctl, c_update_call_stack, c_appcall, c_cleanup_appcall, c_rexec, c_term, c_get_debug_event,
  c_update_lowcnds, c_evok, c_unknown, case_of, serve, at_start, at_end, finish, perform_request,
}
use reverse_engineearing.Server.Dispatch.Reply.{
  ReplyOf, continued, refused, silent, Keeps, stopped, ended, kept,
}
use reverse_engineearing.Server.Dispatch.Reply.Process.{
  on_init-Keeps, on_get_process_info-Keeps, on_start-Keeps, on_exit-Keeps, on_attach-Keeps,
  on_detach-Keeps, on_prepare_to_pause-Keeps, on_stopped-Keeps, on_continue-Keeps, on_appcall-Keeps,
  on_cleanup_appcall-Keeps, on_rexec-Keeps, on_get_debug_event-Keeps,
}
use reverse_engineearing.Server.Dispatch.Reply.Threads.{
  on_suspend-Keeps, on_thread_continue-Keeps, on_set_resume_mode-Keeps, on_read_regs-Keeps,
  on_write_reg-Keeps, on_get_sreg_base-Keeps, on_set_exception_info-Keeps,
  on_update_call_stack-Keeps,
}
use reverse_engineearing.Server.Dispatch.Reply.Memory.{
  on_get_memory_info-Keeps, on_read_memory-Keeps, on_write_memory-Keeps, on_update_bpts-Keeps,
  on_eval_lowcnd-Keeps, on_isok_bpt-Keeps, on_update_lowcnds-Keeps,
}
use reverse_engineearing.Server.Dispatch.Reply.FileIo.{
  on_open_file-Keeps, on_close_file-Keeps, on_read_file-Keeps, on_write_file-Keeps, on_ioctl-Keeps,
}

module _ {W : Type 0} (m : Debugger W) (shl32 : ℕ → ℕ) (insn_size : ℕ) where
  serve-Keeps :
      (c : RequestCase) (o : Outcome W) (s : List ℕ) → Keeps o (serve m shl32 insn_size c o s)
  unfolding serve
  serve-Keeps c_term o s = ended (kept o o.req o.world (continued (Extends-refl o.req)))
  serve-Keeps c_get_debug_event o s = on_get_debug_event-Keeps m o s
  serve-Keeps c_update_lowcnds o s = on_update_lowcnds-Keeps m o s shl32 insn_size
  serve-Keeps c_evok o s = ended (kept o [] o.world (silent refl))
  serve-Keeps c_unknown o s = ended (kept o _ o.world (refused refl))
  serve-Keeps c_init o s = on_init-Keeps m o s
  serve-Keeps c_get_process_info o s = on_get_process_info-Keeps m o s
  serve-Keeps c_start o s = on_start-Keeps m o s
  serve-Keeps c_exit o s = on_exit-Keeps m o s
  serve-Keeps c_attach o s = on_attach-Keeps m o s
  serve-Keeps c_detach o s = on_detach-Keeps m o s
  serve-Keeps c_prepare_to_pause o s = on_prepare_to_pause-Keeps m o s
  serve-Keeps c_stopped o s = on_stopped-Keeps m o s
  serve-Keeps c_continue o s = on_continue-Keeps m o s shl32
  serve-Keeps c_suspend o s = on_suspend-Keeps m o s
  serve-Keeps c_thread_continue o s = on_thread_continue-Keeps m o s
  serve-Keeps c_set_resume_mode o s = on_set_resume_mode-Keeps m o s
  serve-Keeps c_get_memory_info o s = on_get_memory_info-Keeps m o s
  serve-Keeps c_read_memory o s = on_read_memory-Keeps m o s shl32
  serve-Keeps c_write_memory o s = on_write_memory-Keeps m o s shl32
  serve-Keeps c_update_bpts o s = on_update_bpts-Keeps m o s shl32
  serve-Keeps c_eval_lowcnd o s = on_eval_lowcnd-Keeps m o s shl32
  serve-Keeps c_isok_bpt o s = on_isok_bpt-Keeps m o s shl32
  serve-Keeps c_read_regs o s = on_read_regs-Keeps m o s
  serve-Keeps c_write_reg o s = on_write_reg-Keeps m o s shl32
  serve-Keeps c_get_sreg_base o s = on_get_sreg_base-Keeps m o s
  serve-Keeps c_set_exception_info o s = on_set_exception_info-Keeps m o s
  serve-Keeps c_open_file o s = on_open_file-Keeps m o s
  serve-Keeps c_close_file o s = on_close_file-Keeps m o s
  serve-Keeps c_read_file o s = on_read_file-Keeps m o s
  serve-Keeps c_write_file o s = on_write_file-Keeps m o s
  serve-Keeps c_ioctl o s = on_ioctl-Keeps m o s
  serve-Keeps c_update_call_stack o s = on_update_call_stack-Keeps m o s
  serve-Keeps c_appcall o s = on_appcall-Keeps m o s shl32
  serve-Keeps c_cleanup_appcall o s = on_cleanup_appcall-Keeps m o s
  serve-Keeps c_rexec o s = on_rexec-Keeps m o s

module _ {W : Type 0} (m : Debugger W) (shl32 : ℕ → ℕ) (insn_size : ℕ) where
  at_end-req : (o : Outcome W) → (at_end m shl32 insn_size o).req ≡ o.req
  unfolding at_end
  at_end-req o = elim (Bool-cases o.saved_poll_mode) [ inl on ↦ rw on refl | inr off ↦ rw off refl ]

  finish-ReplyOf :
      (session : Session) (w : W) {x : Option (Outcome W)} {r : List ℕ × Session × W}
      → Keeps (at_start m shl32 insn_size session w) x
      → finish m shl32 insn_size x ≡ some r
      → ReplyOf (prepare_rpc_packet rpc_ok) r.0
  unfolding finish at_start
  finish-ReplyOf session w stopped e = cc
  finish-ReplyOf session w (ended {o'} k) e =
      subst (λ (r : List ℕ × Session × W). ReplyOf (prepare_rpc_packet rpc_ok) r.0)
        (some-injective e) (rw (at_end-req o') k.reply)

-- Whatever a request asks for, its reply is a packet of the code RPC_OK that begins as `prepare_rpc_packet`
-- made it and only has fields behind it, a packet of the code RPC_UNK or RPC_MEM alone, or no packet.
pub perform_request-ReplyOf :
    {W : Type 0} (m : Debugger W) (shl32 : ℕ → ℕ) (insn_size : ℕ) (rp : Packet) (session : Session)
    (w : W) {req : List ℕ} {session' : Session} {w' : W}
    → perform_request m shl32 insn_size rp session w ≡ some (req, session', w')
    → ReplyOf (prepare_rpc_packet rpc_ok) req
unfolding perform_request at_start
perform_request-ReplyOf m shl32 insn_size rp session w e =
    finish-ReplyOf m shl32 insn_size session w
      (serve-Keeps m shl32 insn_size (case_of rp.code) (at_start m shl32 insn_size session w)
        rp.body)
      e
