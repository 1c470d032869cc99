-- ===== src/Server/Dispatch/Calls/Refinement.antt =====
-- rpc_server.cpp: a call through packets is the call on the module itself.
use reverse_engineearing.Base.{
  ℕ, ◌<◌, ◌≡◌, refl, sym, ap, ◌∙◌, inl, inr, Bool, true, false, some, List, [], ◌∷◌, ◌++◌,
  append_assoc, append-nil, arith, ◌==◌, if◌then◌else◌, Bool-cases, length, drop,
}
use reverse_engineearing.Wire.{pack_dd}
use reverse_engineearing.Wire.Format.{append_dd-append}
use reverse_engineearing.Wire.RoundTrip.{IsShort}
use reverse_engineearing.Engine.{rpc_ok}
use reverse_engineearing.Codec.{
  Reader, ◌>>=◌, extract_long, extract_memory, prepare_rpc_packet, header_size,
}
use reverse_engineearing.Codec.Fields.{
  Reads, IsWireEa, appended, ea_bytes, append_memory-append, extract_long-Reads, extract_ea64-Reads,
  extract_memory-Reads,
}
use reverse_engineearing.Server.Interface.{Debugger, Session, is_positive}
use reverse_engineearing.Server.Dispatch.{at_start, at_end, finish, perform_request}
use reverse_engineearing.Server.Dispatch.Calls.{
  Call, detach, prepare_to_pause, exit_process, suspend, resume, cleanup_appcall, set_resume_mode,
  sreg_base, eval_lowcnd, read_memory, is_ok_bpt, write_memory, rexec, Result, number, bytes,
  no_base, base, code_of, bytes_of, base_of, call_locally, request_of, IsWireCall, IsWireResult,
  read_number, read_bytes, read_base, read_reply, call_remotely,
}
use reverse_engineearing.Server.Dispatch.Calls.Serving.{
  append_result, served, serve_request, serve_request_lem,
}

-- The bytes of a result.
result_bytes : Result → List ℕ
result_bytes (number r) = pack_dd 5 r
result_bytes (bytes r buf) = if is_positive r then pack_dd 5 r ++ buf else pack_dd 5 r
result_bytes no_base = pack_dd 5 0
result_bytes (base r ea) = pack_dd 5 r ++ ea_bytes ea

append_result-append : (req : List ℕ) (r : Result) → append_result req r ≡ req ++ result_bytes r
unfolding append_result result_bytes
append_result-append req (number r) = append_dd-append req r
append_result-append req (bytes r buf) = elim (Bool-cases (is_positive r)) [
  | inl p ↦ rw p (simp (appended, append_memory-append) refl)
  | inr p ↦ rw p (append_dd-append req r)
]
append_result-append req no_base = append_dd-append req 0
append_result-append req (base r ea) = simp appended refl

no_bytes : (buf : List ℕ) → length buf ≡ 0 → buf ≡ []
no_bytes [] e = refl
no_bytes (b ∷ bs) e = absurd (omega arith)

not_positive : (r : ℕ) → IsShort r → is_positive r ≡ false → r ≡ 0
not_positive r h p = ground arith

module _ {W : Type 0} (m : Debugger W) (shl32 : ℕ → ℕ) where
  read_number-Reads :
      (r : ℕ) → IsShort r → Reads (read_number m shl32) (result_bytes (number r)) (number r)
  unfolding read_number result_bytes
  read_number-Reads r h rest = rw (extract_long-Reads r h, ◌>>=◌)

  read_bytes-Reads :
      (r : ℕ) (buf : List ℕ)
      → IsShort r
      → length buf ≡ r
      → Reads (read_bytes m shl32) (result_bytes (bytes r buf)) (bytes r buf)
  unfolding read_bytes result_bytes
  read_bytes-Reads r buf h e rest = elim (Bool-cases (is_positive r)) [
    | inl p ↦
        let q : extract_memory r (buf ++ rest) ≡ some (buf, rest) =
          rw (← e) (extract_memory-Reads buf rest) in
        rw (p, append_assoc (pack_dd 5 r) buf rest, extract_long-Reads r h, ◌>>=◌, p, q)
    | inr p ↦
        let none_left : buf ≡ [] = no_bytes buf (e ∙ not_positive r h p) in
        rw (p, extract_long-Reads r h, ◌>>=◌, p, none_left)
  ]

  read_base-Reads :
      (r ea : ℕ)
      → IsShort r
      → 0 < r
      → IsWireEa shl32 ea
      → Reads (read_base m shl32) (result_bytes (base r ea)) (base r ea)
  unfolding read_base result_bytes
  read_base-Reads r ea h p e rest =
      let nz : (r == 0) ≡ false = ground arith in
      rw (
        append_assoc (pack_dd 5 r) (ea_bytes ea) rest,
        extract_long-Reads r h,
        ◌>>=◌,
        nz,
        extract_ea64-Reads shl32 ea e rest,
      )

  finish-served :
      (insn_size : ℕ) (session : Session) (w : W) (r : Result × W)
      → finish m shl32 insn_size
          (some (served m shl32 insn_size (at_start m shl32 insn_size session w) r))
        ≡ some (append_result (prepare_rpc_packet rpc_ok) r.0, session, r.1)
  unfolding finish served at_start at_end
  finish-served insn_size session w (r, w') = elim (Bool-cases session.poll_debug_events) [
    | inl on ↦ rw on refl
    | inr off ↦ rw off refl
  ]

  -- What the reader of a call makes of the bytes of a result.
  ReadsBack : Reader Result → Result → Type 0
  ReadsBack reader r = reader (result_bytes r) ≡ some (r, [])

  Reads-end :
      (reader : Reader Result) (r : Result) → Reads reader (result_bytes r) r → ReadsBack reader r
  unfolding ReadsBack
  Reads-end reader r law = ap reader (sym (append-nil (result_bytes r))) ∙ law []

  read_code : (r : ℕ) → IsWireResult m shl32 (number r) → ReadsBack (read_number m shl32) (number r)
  unfolding IsWireResult
  read_code r h = Reads-end _ (number r) (read_number-Reads r h)

  read_buf :
      (r : ℕ) (buf : List ℕ)
      → IsWireResult m shl32 (bytes r buf)
      → ReadsBack (read_bytes m shl32) (bytes r buf)
  unfolding IsWireResult
  read_buf r buf h = Reads-end _ (bytes r buf) (read_bytes-Reads r buf h.0 h.1)

  read_no_base : ReadsBack (read_base m shl32) no_base
  unfolding ReadsBack read_base result_bytes
  read_no_base = rw (
    ap extract_long (sym (append-nil (pack_dd 5 0))) ∙ extract_long-Reads 0 (omega arith) [],
    ◌>>=◌,
  )

  read_sreg :
      (r ea : ℕ)
      → IsWireResult m shl32 (if r == 0 then no_base else base r ea)
      → ReadsBack (read_base m shl32) (if r == 0 then no_base else base r ea)
  unfolding IsWireResult
  read_sreg r ea h = by_base (r == 0) h
    where
      by_base :
          (c : Bool)
          → IsWireResult m shl32 (if c then no_base else base r ea)
          → ReadsBack (read_base m shl32) (if c then no_base else base r ea)
      by_base true h = read_no_base
      by_base false h = Reads-end _ (base r ea) (read_base-Reads r ea h.0 h.1 h.2)

  read_reply-result :
      (c : Call) (w : W)
      → IsWireResult m shl32 (call_locally m c w).0
      → ReadsBack (read_reply m shl32 c) (call_locally m c w).0
  unfolding call_locally read_reply code_of bytes_of base_of
  read_reply-result detach w h = read_code _ h
  read_reply-result prepare_to_pause w h = read_code _ h
  read_reply-result exit_process w h = read_code _ h
  read_reply-result (suspend tid) w h = read_code _ h
  read_reply-result (resume tid) w h = read_code _ h
  read_reply-result (cleanup_appcall tid) w h = read_code _ h
  read_reply-result (set_resume_mode tid resmod) w h = read_code _ h
  read_reply-result (sreg_base tid reg) w h = read_sreg _ _ h
  read_reply-result (eval_lowcnd tid ea) w h = read_code _ h
  read_reply-result (read_memory ea size) w h = read_buf _ _ h
  read_reply-result (is_ok_bpt type ea len) w h = read_code _ h
  read_reply-result (write_memory ea buf) w h = read_code _ h
  read_reply-result (rexec cmdline) w h = read_code _ h

  reply_bytes :
      (r : Result) → drop header_size (append_result (prepare_rpc_packet rpc_ok) r) ≡ result_bytes r
  unfolding prepare_rpc_packet
  reply_bytes r = rw (append_result-append (prepare_rpc_packet rpc_ok) r) refl

  perform_request-request_of :
      (insn_size : ℕ) (c : Call) (session : Session) (w : W)
      → IsWireCall m shl32 c
      → perform_request m shl32 insn_size (request_of m c) session w
        ≡ some (
          append_result (prepare_rpc_packet rpc_ok) (call_locally m c w).0,
          session,
          (call_locally m c w).1,
        )
  unfolding perform_request serve_request
  perform_request-request_of insn_size c session w h =
      ap (finish m shl32 insn_size)
        (serve_request_lem m shl32 insn_size (at_start m shl32 insn_size session w) c h)
      ∙ finish-served insn_size session w (call_locally m c w)

-- A call that goes through the packets of a request and of its reply is the call made on the module itself:
-- the result and the module's state are those of the call, and the session is as before. This holds where the
-- arguments and the result come across the wire and there is memory for the bytes.
pub call_remotely-call_locally :
    {W : Type 0} (m : Debugger W) (shl32 : ℕ → ℕ) (insn_size : ℕ) (c : Call) (session : Session)
    (w : W)
    → IsWireCall m shl32 c
    → IsWireResult m shl32 (call_locally m c w).0
    → call_remotely m shl32 insn_size c session w
      ≡ some ((call_locally m c w).0, session, (call_locally m c w).1)
unfolding call_remotely ReadsBack
call_remotely-call_locally m shl32 insn_size c session w hc hr =
    rw
      (
        call_remotely,
        perform_request-request_of m shl32 insn_size c session w hc,
        reply_bytes m shl32 (call_locally m c w).0,
        read_reply-result m shl32 c w hr,
      )
      refl
