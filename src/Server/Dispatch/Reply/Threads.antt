-- ===== src/Server/Dispatch/Reply/Threads.antt =====
-- The cases of `perform_request` on threads, registers and exceptions.
use reverse_engineearing.Base.{ℕ, refl, Option, none, some, List, ◌==◌}
use reverse_engineearing.Codec.Extends.{Extends-dd, Extends-ea64, Extends-if, Extends-refl}
use reverse_engineearing.Codec.Records.{CallStack}
use reverse_engineearing.Codec.Records.Written.{append_call_stack-Extends}
use reverse_engineearing.Codec.Registers.{RegVal}
use reverse_engineearing.Codec.Registers.Written.{append_regvals-Extends}
use reverse_engineearing.Server.Interface.{Debugger, Outcome}
use reverse_engineearing.Server.Cases.Threads.{
  no_memory, registers_reply, sreg_reply, trace_reply, on_suspend, on_thread_continue,
  on_set_resume_mode, on_read_regs, on_write_reg, on_get_sreg_base, on_set_exception_info,
  on_update_call_stack,
}
use reverse_engineearing.Server.Dispatch.Reply.{
  continued, out_of_memory, Kept, Keeps, ended, kept, answer-Kept, run-Keeps, if-Keeps,
}

module _ {W : Type 0} (m : Debugger W) (o : Outcome W) (s : List ℕ) where
  pub on_suspend-Keeps : Keeps o (on_suspend m o s)
  unfolding on_suspend
  on_suspend-Keeps = run-Keeps o _ s λ tid. ended (answer-Kept o _)

  pub on_thread_continue-Keeps : Keeps o (on_thread_continue m o s)
  unfolding on_thread_continue
  on_thread_continue-Keeps = run-Keeps o _ s λ tid. ended (answer-Kept o _)

  pub on_set_resume_mode-Keeps : Keeps o (on_set_resume_mode m o s)
  unfolding on_set_resume_mode
  on_set_resume_mode-Keeps = run-Keeps o _ s λ a. ended (answer-Kept o _)

  pub no_memory-Kept : Kept o (no_memory o)
  no_memory-Kept = kept o _ o.world (out_of_memory refl)

  registers_reply-Kept :
      (regmap : List ℕ) (r : (ℕ × List RegVal) × W) → Kept o (registers_reply m o regmap r)
  registers_reply-Kept regmap ((r, values), w) = kept o _ w (
      continued (
        Extends-if (r == 0) (Extends-dd r (Extends-refl o.req))
          (append_regvals-Extends values (some regmap) (Extends-dd r (Extends-refl o.req)))))

  pub on_read_regs-Keeps : Keeps o (on_read_regs m o s)
  unfolding on_read_regs
  on_read_regs-Keeps = run-Keeps o _ s λ a.
      if-Keeps o (m.can_new a.2)
        (ended (registers_reply-Kept a.3 (m.dbg_read_registers a.0 a.1 a.2 o.world)))
        (ended no_memory-Kept)

  sreg_reply-Kept : (r : (ℕ × ℕ) × W) → Kept o (sreg_reply m o r)
  sreg_reply-Kept ((r, ea), w) = kept o _ w (
      continued (
        Extends-if (r == 0) (Extends-dd r (Extends-refl o.req))
          (Extends-ea64 ea (Extends-dd r (Extends-refl o.req)))))

  pub on_get_sreg_base-Keeps : Keeps o (on_get_sreg_base m o s)
  unfolding on_get_sreg_base
  on_get_sreg_base-Keeps =
      run-Keeps o _ s λ a. ended (sreg_reply-Kept (m.dbg_thread_get_sreg_base a.0 a.1 o.world))

  pub on_set_exception_info-Keeps : Keeps o (on_set_exception_info m o s)
  unfolding on_set_exception_info
  on_set_exception_info-Keeps =
      run-Keeps o _ s λ table. ended (kept o o.req _ (continued (Extends-refl o.req)))

  trace_reply-Kept : (r : Option CallStack × W) → Kept o (trace_reply m o r)
  trace_reply-Kept (none, w) = kept o _ w (continued (Extends-dd 0 (Extends-refl o.req)))
  trace_reply-Kept (some trace, w) =
      kept o _ w (continued (append_call_stack-Extends trace (Extends-dd 1 (Extends-refl o.req))))

  pub on_update_call_stack-Keeps : Keeps o (on_update_call_stack m o s)
  unfolding on_update_call_stack
  on_update_call_stack-Keeps =
      run-Keeps o _ s λ tid. ended (trace_reply-Kept (m.dbg_update_call_stack tid o.world))

  pub on_write_reg-Keeps : (shl32 : ℕ → ℕ) → Keeps o (on_write_reg m shl32 o s)
  unfolding on_write_reg
  on_write_reg-Keeps shl32 = run-Keeps o _ s λ a. ended (answer-Kept o _)
