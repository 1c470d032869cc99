-- ===== src/Server/Dispatch/Calls/Serving.antt =====
-- rpc_server.cpp: the server reads a call from its request, makes it, and writes its result behind the header.
use reverse_engineearing.Base.{
  ℕ, ◌+◌, ◌-◌, ◌%◌, ◌^◌, ◌≡◌, refl, sym, ap, ◌∙◌, inl, inr, Option, some, List, [], ◌++◌,
  append_assoc, append-nil, arith, ◌==◌, if◌then◌else◌, ==_iff, Bool-cases, length,
}
use reverse_engineearing.Wire.{append_dd, pack_dd}
use reverse_engineearing.Wire.Format.{append_dd-append}
use reverse_engineearing.Wire.RoundTrip.{IsShort}
use reverse_engineearing.Codec.{
  Reader, ◌>>=◌, extract_long, extract_memory, extract_str, append_ea64, append_memory,
}
use reverse_engineearing.Codec.Fields.{
  append_str-append, Reads, IsWireEa, appended, ea_bytes, str_bytes, append_memory-append,
  extract_long-Reads, extract_ea64-Reads, extract_memory-Reads, extract_str-Reads, c_str_text,
}
use reverse_engineearing.Server.Interface.{Debugger, Outcome, run, is_positive}
use reverse_engineearing.Server.Cases.Process.{
  on_detach, on_prepare_to_pause, on_exit, on_cleanup_appcall, on_rexec,
}
use reverse_engineearing.Server.Cases.Threads.{
  read_mode, sreg_reply, on_suspend, on_thread_continue, on_set_resume_mode, on_get_sreg_base,
}
use reverse_engineearing.Server.Cases.Memory.{
  read_range, read_isok, read_eval, memory_reply, on_read_memory, on_write_memory, on_isok_bpt,
  on_eval_lowcnd,
}
use reverse_engineearing.Server.Dispatch.{serve, case_of}
use reverse_engineearing.Server.Dispatch.Calls.{
  Call, detach, prepare_to_pause, exit_process, suspend, resume, cleanup_appcall, set_resume_mode,
  sreg_base, eval_lowcnd, read_memory, is_ok_bpt, write_memory, rexec, Result, number, bytes,
  no_base, base, code_of, bytes_of, base_of, call_locally, request_of, IsWireCall,
}

-- A case whose reader takes the whole request goes on with the arguments.
run-Reads :
    {A B : Type 0} (m : Reader A) (bs : List ℕ) {a : A}
    → Reads m bs a
    → (f : A → Option B) → run m bs f ≡ f a
unfolding run
run-Reads m bs {a} law f = rw (run, ap m (sym (append-nil bs)) ∙ law [])

ruleset request_fields = (appended, append_memory-append)

ea_long-Reads :
    (shl32 : ℕ → ℕ) (a b : ℕ)
    → IsWireEa shl32 a
    → IsShort b
    → Reads (read_range shl32) (ea_bytes a ++ pack_dd 5 b) (a, b)
unfolding read_range
ea_long-Reads shl32 a b ha hb rest =
    simp append_assoc (rw (extract_ea64-Reads shl32 a ha, ◌>>=◌, extract_long-Reads b hb, ◌>>=◌))

read_mode-Reads :
    (a b : ℕ) → IsShort a → IsShort b → Reads read_mode (pack_dd 5 a ++ pack_dd 5 b) (a, b)
unfolding read_mode
read_mode-Reads a b ha hb rest =
    simp append_assoc (rw (extract_long-Reads a ha, ◌>>=◌, extract_long-Reads b hb, ◌>>=◌))

read_eval-Reads :
    (shl32 : ℕ → ℕ) (a b : ℕ)
    → IsShort a
    → IsWireEa shl32 b
    → Reads (read_eval shl32) (pack_dd 5 a ++ ea_bytes b) (a, b)
unfolding read_eval
read_eval-Reads shl32 a b ha hb rest =
    simp append_assoc (rw (extract_long-Reads a ha, ◌>>=◌, extract_ea64-Reads shl32 b hb, ◌>>=◌))

read_isok-Reads :
    (shl32 : ℕ → ℕ) (a b c : ℕ)
    → IsShort a
    → IsWireEa shl32 b
    → IsShort (c + 1)
    → Reads (read_isok shl32) (pack_dd 5 a ++ ea_bytes b ++ pack_dd 5 (c + 1)) (a, b, c)
unfolding read_isok
read_isok-Reads shl32 a b c ha hb hc rest =
    let e : (c + 1 + 2 ^ 32 - 1) % 2 ^ 32 ≡ c = omega arith in
    simp append_assoc (
      rw (
        extract_long-Reads a ha,
        ◌>>=◌,
        extract_ea64-Reads shl32 b hb,
        ◌>>=◌,
        extract_long-Reads (c + 1) hc,
        ◌>>=◌,
        e,
      ))

write_request :
    (ea : ℕ) (buf : List ℕ)
    → append_memory (append_dd (append_ea64 [] ea) (length buf)) buf
      ≡ (ea_bytes ea ++ pack_dd 5 (length buf)) ++ buf
write_request ea buf = simp request_fields refl

memory_end : (buf : List ℕ) → extract_memory (length buf) buf ≡ some (buf, [])
memory_end buf =
    ap (extract_memory (length buf)) (sym (append-nil buf)) ∙ extract_memory-Reads buf []

-- The result behind what the reply holds already.
unfoldable pub append_result : List ℕ → Result → List ℕ
append_result req (number r) = append_dd req r
append_result req (bytes r buf) =
    if is_positive r then append_memory (append_dd req r) buf else append_dd req r
append_result req no_base = append_dd req 0
append_result req (base r ea) = append_ea64 (append_dd req r) ea

module _ {W : Type 0} (m : Debugger W) (shl32 : ℕ → ℕ) (insn_size : ℕ) (o : Outcome W) where
  unfoldable pub served : Result × W → Outcome W
  unfolding append_result
  served (r, w) = record o { req = append_result o.req r; world = w }

  memory_reply-served : (r : (ℕ × List ℕ) × W) → memory_reply m o r ≡ served (bytes_of m r)
  unfolding served append_result bytes_of
  memory_reply-served ((r, buf), w) = elim (Bool-cases (is_positive r)) [
    | inl p ↦ rw p refl
    | inr p ↦ rw p refl
  ]

  sreg_reply-served : (r : (ℕ × ℕ) × W) → sreg_reply m o r ≡ served (base_of m r)
  unfolding served append_result base_of
  sreg_reply-served ((r, ea), w) = elim (Bool-cases (r == 0)) [
    | inl z ↦ rw (z, (==_iff r 0).0 z) refl
    | inr z ↦ rw z refl
  ]

  unfoldable pub serve_request : Call → Option (Outcome W)
  unfolding serve case_of request_of
  serve_request c = serve m shl32 insn_size (case_of (request_of m c).code) o (request_of m c).body

  pub serve_request_lem :
      (c : Call) → IsWireCall m shl32 c → serve_request c ≡ some (served (call_locally m c o.world))
  unfolding serve_request served append_result call_locally code_of IsWireCall on_suspend on_detach
      on_prepare_to_pause on_exit on_thread_continue on_cleanup_appcall on_set_resume_mode
      on_get_sreg_base on_eval_lowcnd on_read_memory on_isok_bpt on_write_memory on_rexec
  serve_request_lem detach h = refl
  serve_request_lem prepare_to_pause h = refl
  serve_request_lem exit_process h = refl
  serve_request_lem (suspend tid) h =
      ap (on_suspend m o) (append_dd-append [] tid)
      ∙ run-Reads extract_long (pack_dd 5 tid) (extract_long-Reads tid h) _
  serve_request_lem (resume tid) h =
      ap (on_thread_continue m o) (append_dd-append [] tid)
      ∙ run-Reads extract_long (pack_dd 5 tid) (extract_long-Reads tid h) _
  serve_request_lem (cleanup_appcall tid) h =
      ap (on_cleanup_appcall m o) (append_dd-append [] tid)
      ∙ run-Reads extract_long (pack_dd 5 tid) (extract_long-Reads tid h) _
  serve_request_lem (set_resume_mode tid resmod) h =
      ap (on_set_resume_mode m o) (simp request_fields refl)
      ∙ run-Reads read_mode (pack_dd 5 tid ++ pack_dd 5 resmod) (read_mode-Reads tid resmod h.0 h.1)
          _
  serve_request_lem (sreg_base tid reg) h =
      ap (on_get_sreg_base m o) (simp request_fields refl)
      ∙ run-Reads read_mode (pack_dd 5 tid ++ pack_dd 5 reg) (read_mode-Reads tid reg h.0 h.1) _
      ∙ ap some (sreg_reply-served (m.dbg_thread_get_sreg_base tid reg o.world))
  serve_request_lem (eval_lowcnd tid ea) h =
      ap (on_eval_lowcnd m shl32 o) (simp request_fields refl)
      ∙ run-Reads (read_eval shl32) (pack_dd 5 tid ++ ea_bytes ea)
          (read_eval-Reads shl32 tid ea h.0 h.1) _
  serve_request_lem (read_memory ea size) h =
      ap (on_read_memory m shl32 o) (simp request_fields refl)
      ∙ run-Reads (read_range shl32) (ea_bytes ea ++ pack_dd 5 size)
          (ea_long-Reads shl32 ea size h.0 h.1) _
      ∙ rw h.2 (ap some (memory_reply-served (m.dbg_read_memory ea size o.world)))
  serve_request_lem (is_ok_bpt type ea len) h =
      ap (on_isok_bpt m shl32 o) (simp request_fields refl)
      ∙ run-Reads (read_isok shl32) (pack_dd 5 type ++ ea_bytes ea ++ pack_dd 5 (len + 1))
          (read_isok-Reads shl32 type ea len h.0 h.1 h.2) _
  serve_request_lem (write_memory ea buf) h =
      ap (on_write_memory m shl32 o) (write_request ea buf)
      ∙ rw (on_write_memory, ea_long-Reads shl32 ea (length buf) h.0 h.1 buf, h.2, memory_end buf)
          refl
  serve_request_lem (rexec cmdline) h =
      ap (on_rexec m o) (append_str-append [] cmdline)
      ∙ run-Reads extract_str (str_bytes cmdline) (extract_str-Reads cmdline) _
      ∙ rw (c_str_text cmdline h) refl
