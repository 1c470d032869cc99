-- ===== src/Server/Cases/Memory.antt =====
-- rpc_server.cpp: the cases of `perform_request` on memory and on breakpoints.
use reverse_engineearing.Base.{
  ℕ, zero, suc, ◌+◌, ◌-◌, ◌%◌, ◌^◌, Option, none, some, List, [], ◌∷◌, ◌==◌, if◌then◌else◌, length,
  take,
}
use reverse_engineearing.Wire.{append_dd}
use reverse_engineearing.Codec.{
  Reader, pure, ◌>>=◌, extract_long, extract_count, extract_byte, extract_str, extract_memory,
  extract_ea64, append_memory, append_list, badaddr,
}
use reverse_engineearing.Codec.Records.{MemoryInfo, append_memory_info}
use reverse_engineearing.Debmod.HwBpts.{bpt_soft}
use reverse_engineearing.Server.{rpc_update_bpts}
use reverse_engineearing.Server.Interface.{Lowcnd, Debugger, Outcome, is_positive, run}
use reverse_engineearing.Server.Cases.Process.{answer}
use reverse_engineearing.Server.Cases.Threads.{no_memory}

module _ (shl32 : ℕ → ℕ) where
  unfoldable pub read_range : Reader (ℕ × ℕ)
  read_range = do ea ← extract_ea64 shl32; size ← extract_long; pure (ea, size)

  unfoldable pub read_isok : Reader (ℕ × ℕ × ℕ)
  read_isok = do
    type ← extract_long
    ea ← extract_ea64 shl32
    len ← extract_long
    pure (type, ea, (len + 2 ^ 32 - 1) % 2 ^ 32)

  unfoldable pub read_eval : Reader (ℕ × ℕ)
  read_eval = do tid ← extract_long; ea ← extract_ea64 shl32; pure (tid, ea)

  -- `rpc_update_lowcnds`: a condition with an empty text is removed, and has no other fields. `insn_size` is
  -- the size of a decoded instruction, which is sent unless its address is BADADDR.
  module _ (insn_size : ℕ) where
    read_insn : ℕ → Reader (List ℕ)
    read_insn ea = if ea == badaddr then pure [] else extract_memory insn_size

    read_condition : ℕ → List ℕ → Reader Lowcnd
    unfolding read_insn
    read_condition ea cndbody = do
      type ← extract_long
      size ← (if type == bpt_soft then pure 0 else extract_long)
      norg ← extract_byte
      orgbytes ← extract_memory norg
      cmd_ea ← extract_ea64 shl32
      cmd ← read_insn cmd_ea
      pure (record {
        ea = ea;
        cndbody = cndbody;
        bpttype = type;
        size = size;
        orgbytes = orgbytes;
        cmd_ea = cmd_ea;
        cmd = cmd;
      })

    read_lowcnd_body : ℕ → List ℕ → Reader Lowcnd
    unfolding read_condition
    read_lowcnd_body ea [] = pure (record {
      ea = ea;
      cndbody = [];
      bpttype = 0;
      size = 0;
      orgbytes = [];
      cmd_ea = badaddr;
      cmd = [];
    })
    read_lowcnd_body ea (c ∷ cs) = read_condition ea (c ∷ cs)

    pub read_lowcnds : ℕ → ℕ → Reader (List Lowcnd)
    unfolding read_lowcnd_body
    read_lowcnds zero ea = pure []
    read_lowcnds (suc n) ea = do
      diff ← extract_ea64 shl32
      cndbody ← extract_str
      lc ← read_lowcnd_body ((ea + diff) % 2 ^ 32) cndbody
      lcs ← read_lowcnds n ((ea + diff) % 2 ^ 32)
      pure (lc ∷ lcs)

    read_conditions : Reader (List Lowcnd)
    unfolding read_lowcnds
    read_conditions = do n ← extract_count; read_lowcnds n 0

module _ {W : Type 0} (m : Debugger W) where
  abbrev pub areas_reply : Outcome W → (ℕ × List MemoryInfo) × W → Outcome W
  areas_reply o ((r, areas), w) =
      let req = append_dd o.req ((r + 2) % 2 ^ 32) in
      record o {
        req =
            if is_positive r
            then append_list append_memory_info (append_dd req (length areas)) areas
            else req;
        world = w;
      }

  -- RPC_GET_MEMORY_INFO
  unfoldable pub on_get_memory_info : Outcome W → List ℕ → Option (Outcome W)
  on_get_memory_info o s = some (areas_reply o (m.dbg_get_memory_info o.world))

  abbrev pub memory_reply : Outcome W → (ℕ × List ℕ) × W → Outcome W
  memory_reply o ((r, buf), w) =
      let req = append_dd o.req r in
      record o { req = if is_positive r then append_memory req (take r buf) else req; world = w }

  module _ (shl32 : ℕ → ℕ) where
    -- RPC_READ_MEMORY
    unfoldable pub on_read_memory : Outcome W → List ℕ → Option (Outcome W)
    unfolding read_range
    on_read_memory o s = run (read_range shl32) s λ a.
        if m.can_new a.1
        then some (memory_reply o (m.dbg_read_memory a.0 a.1 o.world))
        else some (no_memory o)

    -- The bytes to write: the buffer is allocated before the packet is seen to hold as many.
    abbrev pub write_bytes : Outcome W → ℕ → Option (List ℕ × List ℕ) → Option (Outcome W)
    write_bytes o ea none = none
    write_bytes o ea (some (buf, rest)) = some (answer o (m.dbg_write_memory ea buf o.world))

    -- RPC_WRITE_MEMORY
    unfoldable pub on_write_memory : Outcome W → List ℕ → Option (Outcome W)
    unfolding read_range
    on_write_memory o s = elim (read_range shl32 s) [
      | none ↦ none
      | some ((ea, size), rest) ↦
          if m.can_new size then write_bytes o ea (extract_memory size rest) else some (no_memory o)
    ]

    -- RPC_ISOK_BPT
    unfoldable pub on_isok_bpt : Outcome W → List ℕ → Option (Outcome W)
    unfolding read_isok
    on_isok_bpt o s =
        run (read_isok shl32) s λ a. some (answer o (m.dbg_is_ok_bpt a.0 a.1 a.2 o.world))

    abbrev pub updated_reply : Outcome W → Option (List ℕ × W) → Option (Outcome W)
    updated_reply o none = none
    updated_reply o (some (req, w)) = some (record o { req = req; world = w })

    -- RPC_UPDATE_BPTS
    unfoldable pub on_update_bpts : Outcome W → List ℕ → Option (Outcome W)
    on_update_bpts o s = updated_reply o (rpc_update_bpts shl32 m.breakpoints o.req s o.world)

    -- RPC_EVAL_LOWCND
    unfoldable pub on_eval_lowcnd : Outcome W → List ℕ → Option (Outcome W)
    unfolding read_eval
    on_eval_lowcnd o s =
        run (read_eval shl32) s λ a. some (answer o (m.dbg_eval_lowcnd a.0 a.1 o.world))

    -- RPC_UPDATE_LOWCNDS
    unfoldable pub on_update_lowcnds : ℕ → Outcome W → List ℕ → Option (Outcome W)
    unfolding read_conditions
    on_update_lowcnds insn_size o s =
        run (read_conditions shl32 insn_size) s
          λ lcs. some (answer o (m.dbg_update_lowcnds lcs o.world))
