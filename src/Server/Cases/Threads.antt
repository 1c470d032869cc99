-- ===== src/Server/Cases/Threads.antt =====
-- rpc_server.cpp: the cases of `perform_request` on threads, registers and exceptions.
use reverse_engineearing.Base.{
  ℕ, ◌+◌, ◌-◌, ◌/◌, ◌^◌, Option, none, some, List, [], ◌∷◌, ◌==◌, if◌then◌else◌, get_elem?,
}
use reverse_engineearing.Wire.{append_dd}
use reverse_engineearing.Codec.{
  Reader, pure, ◌>>=◌, extract_long, extract_count, extract_memory, append_ea64, prepare_rpc_packet,
}
use reverse_engineearing.Codec.Records.{
  CallStack, append_call_stack, ExceptionInfo, extract_exception_info,
}
use reverse_engineearing.Codec.Registers.{RegVal, int_val, append_regvals, extract_regvals}
use reverse_engineearing.Engine.{rpc_mem}
use reverse_engineearing.Server.Interface.{Debugger, Outcome, run}
use reverse_engineearing.Server.Cases.Process.{answer}

-- An allocation failed: the reply is RPC_MEM.
abbrev pub no_memory : {W : Type 0} → Outcome W → Outcome W
no_memory o = record o { req = prepare_rpc_packet rpc_mem }

unfoldable pub read_mode : Reader (ℕ × ℕ)
read_mode = do tid ← extract_long; resmod ← extract_long; pure (tid, resmod)

-- The thread, the classes of registers, how many registers there are, and the map of those asked for.
read_query : Reader (ℕ × ℕ × ℕ × List ℕ)
read_query = do
  tid ← extract_long
  clsmask ← extract_long
  nregs ← extract_count
  regmap ← extract_memory ((nregs + 7) / 8)
  pure (tid, clsmask, nregs, regmap)

-- A table with its size in front.
read_table : Reader (List ExceptionInfo)
read_table = do qty ← extract_long; extract_exception_info qty

module _ {W : Type 0} (m : Debugger W) where
  -- RPC_TH_SUSPEND, RPC_TH_CONTINUE and RPC_SET_RESUME_MODE
  unfoldable pub on_suspend : Outcome W → List ℕ → Option (Outcome W)
  on_suspend o s = run extract_long s λ tid. some (answer o (m.dbg_thread_suspend tid o.world))

  unfoldable pub on_thread_continue : Outcome W → List ℕ → Option (Outcome W)
  on_thread_continue o s =
      run extract_long s λ tid. some (answer o (m.dbg_thread_continue tid o.world))

  unfoldable pub on_set_resume_mode : Outcome W → List ℕ → Option (Outcome W)
  unfolding read_mode
  on_set_resume_mode o s =
      run read_mode s λ a. some (answer o (m.dbg_set_resume_mode a.0 a.1 o.world))

  abbrev pub registers_reply : Outcome W → List ℕ → (ℕ × List RegVal) × W → Outcome W
  registers_reply o regmap ((r, values), w) =
      let req = append_dd o.req r in
      record o { req = if r == 0 then req else append_regvals req values (some regmap); world = w }

  -- RPC_READ_REGS
  unfoldable pub on_read_regs : Outcome W → List ℕ → Option (Outcome W)
  unfolding read_query
  on_read_regs o s = run read_query s λ a.
      if m.can_new a.2
      then some (registers_reply o a.3 (m.dbg_read_registers a.0 a.1 a.2 o.world))
      else some (no_memory o)

  abbrev pub sreg_reply : Outcome W → (ℕ × ℕ) × W → Outcome W
  sreg_reply o ((r, ea), w) =
      let req = append_dd o.req r in
      record o { req = if r == 0 then req else append_ea64 req ea; world = w }

  -- RPC_GET_SREG_BASE
  unfoldable pub on_get_sreg_base : Outcome W → List ℕ → Option (Outcome W)
  unfolding read_mode
  on_get_sreg_base o s =
      run read_mode s λ a. some (sreg_reply o (m.dbg_thread_get_sreg_base a.0 a.1 o.world))

  -- RPC_SET_EXCEPTION_INFO
  unfoldable pub on_set_exception_info : Outcome W → List ℕ → Option (Outcome W)
  unfolding read_table
  on_set_exception_info o s =
      run read_table s λ table. some (record o { world = m.dbg_set_exception_info table o.world })

  abbrev pub trace_reply : Outcome W → Option CallStack × W → Outcome W
  trace_reply o (none, w) = record o { req = append_dd o.req 0; world = w }
  trace_reply o (some trace, w) = record o {
    req = append_call_stack (append_dd o.req 1) trace;
    world = w;
  }

  -- RPC_UPDATE_CALL_STACK
  unfoldable pub on_update_call_stack : Outcome W → List ℕ → Option (Outcome W)
  on_update_call_stack o s =
      run extract_long s λ tid. some (trace_reply o (m.dbg_update_call_stack tid o.world))

  module _ (shl32 : ℕ → ℕ) where
    -- One register value, which is ~0 where the packet has none.
    read_write_reg : Reader (ℕ × ℕ × RegVal)
    read_write_reg = do
      tid ← extract_long
      reg_idx ← extract_long
      values ← extract_regvals shl32 (int_val (2 ^ 64 - 1) ∷ []) none
      pure (tid, reg_idx, elim (get_elem? values 0) [ none ↦ int_val (2 ^ 64 - 1) | some v ↦ v ])

    -- RPC_WRITE_REG
    unfoldable pub on_write_reg : Outcome W → List ℕ → Option (Outcome W)
    unfolding read_write_reg
    on_write_reg o s =
        run read_write_reg s λ a. some (answer o (m.dbg_write_register a.0 a.1 a.2 o.world))
