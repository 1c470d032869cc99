-- ===== src/Server/Dispatch/Reply/Memory.antt =====
-- The cases of `perform_request` on memory and on breakpoints.
use reverse_engineearing.Base.{
  ℕ, ◌+◌, ◌%◌, ◌^◌, Option, none, some, List, if◌then◌else◌, length, take,
}
use reverse_engineearing.Codec.{extract_memory}
use reverse_engineearing.Codec.Extends.{
  Extends-dd, Extends-memory, Extends-list, Extends-if, Extends-refl,
}
use reverse_engineearing.Codec.Records.{MemoryInfo}
use reverse_engineearing.Codec.Records.Memory.{append_memory_info-append}
use reverse_engineearing.Server.Extends.{Grown, failed, grown, rpc_update_bpts-Grown}
use reverse_engineearing.Server.Interface.{Debugger, Outcome, is_positive}
use reverse_engineearing.Server.Cases.Memory.{
  areas_reply, memory_reply, write_bytes, updated_reply, read_range, on_get_memory_info,
  on_read_memory, on_write_memory, on_update_bpts, on_update_lowcnds, on_eval_lowcnd, on_isok_bpt,
}
use reverse_engineearing.Server.Cases.Threads.{no_memory}
use reverse_engineearing.Server.Dispatch.Reply.{
  continued, Kept, Keeps, stopped, ended, kept, answer-Kept, run-Keeps, if-Keeps,
}
use reverse_engineearing.Server.Dispatch.Reply.Threads.{no_memory-Kept}

module _ {W : Type 0} (m : Debugger W) (o : Outcome W) (s : List ℕ) where
  areas_reply-Kept : (r : (ℕ × List MemoryInfo) × W) → Kept o (areas_reply m o r)
  areas_reply-Kept ((r, areas), w) =
      let e = Extends-dd ((r + 2) % 2 ^ 32) (Extends-refl o.req) in
      kept o _ w (
        continued (
          Extends-if (is_positive r)
            (Extends-list append_memory_info-append areas (Extends-dd (length areas) e)) e))

  pub on_get_memory_info-Keeps : Keeps o (on_get_memory_info m o s)
  unfolding on_get_memory_info
  on_get_memory_info-Keeps = ended (areas_reply-Kept (m.dbg_get_memory_info o.world))

  memory_reply-Kept : (r : (ℕ × List ℕ) × W) → Kept o (memory_reply m o r)
  memory_reply-Kept ((r, buf), w) =
      let e = Extends-dd r (Extends-refl o.req) in
      kept o _ w (continued (Extends-if (is_positive r) (Extends-memory (take r buf) e) e))

  updated_reply-Keeps :
      {x : Option (List ℕ × W)} (shl32 : ℕ → ℕ)
      → Grown (λ r. r.0) o.req x
      → Keeps o (updated_reply m shl32 o x)
  updated_reply-Keeps shl32 failed = stopped
  updated_reply-Keeps shl32 (grown (t, w) e) = ended (kept o t w (continued e))

  module _ (shl32 : ℕ → ℕ) where
    pub on_read_memory-Keeps : Keeps o (on_read_memory m shl32 o s)
    unfolding on_read_memory
    on_read_memory-Keeps = run-Keeps o _ s λ a.
        if-Keeps o (m.can_new a.1) (ended (memory_reply-Kept (m.dbg_read_memory a.0 a.1 o.world)))
          (ended (no_memory-Kept m o s))

    write_bytes-Keeps :
        (ea : ℕ) (x : Option (List ℕ × List ℕ)) → Keeps o (write_bytes m shl32 o ea x)
    write_bytes-Keeps ea none = stopped
    write_bytes-Keeps ea (some (buf, rest)) = ended (answer-Kept o _)

    pub on_write_memory-Keeps : Keeps o (on_write_memory m shl32 o s)
    unfolding on_write_memory
    on_write_memory-Keeps =
        elim (read_range shl32 s)
          as (λ x. Keeps o (elim x [
            | none ↦ none
            | some ((ea, size), rest) ↦
                if m.can_new size
                then write_bytes m shl32 o ea (extract_memory size rest)
                else some (no_memory o)
          ])) [
            | none ↦ stopped
            | some ((ea, size), rest) ↦
                if-Keeps o (m.can_new size) (write_bytes-Keeps ea _) (ended (no_memory-Kept m o s))
          ]

    pub on_isok_bpt-Keeps : Keeps o (on_isok_bpt m shl32 o s)
    unfolding on_isok_bpt
    on_isok_bpt-Keeps = run-Keeps o _ s λ a. ended (answer-Kept o _)

    pub on_update_bpts-Keeps : Keeps o (on_update_bpts m shl32 o s)
    unfolding on_update_bpts
    on_update_bpts-Keeps =
        updated_reply-Keeps shl32 (rpc_update_bpts-Grown shl32 m.breakpoints o.req s o.world)

    pub on_eval_lowcnd-Keeps : Keeps o (on_eval_lowcnd m shl32 o s)
    unfolding on_eval_lowcnd
    on_eval_lowcnd-Keeps = run-Keeps o _ s λ a. ended (answer-Kept o _)

    pub on_update_lowcnds-Keeps :
        (insn_size : ℕ) → Keeps o (on_update_lowcnds m shl32 insn_size o s)
    unfolding on_update_lowcnds
    on_update_lowcnds-Keeps insn_size = run-Keeps o _ s λ lcs. ended (answer-Kept o _)
