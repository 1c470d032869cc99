-- ===== src/Server/Cases/Process.antt =====
-- rpc_server.cpp: the cases of `perform_request` on the process and on its events.
use reverse_engineearing.Base.{
  ℕ, bit_and, Bool, true, false, not, ◌||◌, Option, none, some, List, ◌==◌, if◌then◌else◌, of_bool,
}
use reverse_engineearing.Wire.{append_dd}
use reverse_engineearing.Codec.{
  Reader, pure, ◌>>=◌, extract_str, extract_long, append_str, append_ea64, badaddr, extract_ea64,
}
use reverse_engineearing.Codec.Records.{ProcessInfo, append_process_info, append_debapp_attrs}
use reverse_engineearing.Codec.Event.{DebugEvent, append_debug_event, extract_debug_event}
use reverse_engineearing.Codec.Registers.{append_regobjs, extract_appcall}
use reverse_engineearing.Server.Interface.{
  Session, AppcallResult, AppcallRequest, StartRequest, Debugger, Outcome, is_positive, run,
}

abbrev pub appcall_manual : ℕ
appcall_manual = 1

abbrev pub appcall_debev : ℕ
appcall_debev = 2

-- The result of a call is the reply.
abbrev pub answer : {W : Type 0} → Outcome W → ℕ × W → Outcome W
answer o (r, w) = record o { req = append_dd o.req r; world = w }

-- The number of a process, with the input file if the number is 0.
read_process_query : Reader (ℕ × Option (List ℕ))
read_process_query = do
  n ← extract_long
  λ s. if n == 0 then (do input ← extract_str; pure (n, some input)) s else some ((n, none), s)

read_start : Reader StartRequest
read_start = do
  path ← extract_str
  args ← extract_str
  sdir ← extract_str
  flags ← extract_long
  input ← extract_str
  crc32 ← extract_long
  pure (record {
    path = path;
    args = args;
    sdir = sdir;
    flags = flags;
    input = input;
    crc32 = crc32;
  })

unfoldable pub read_two : Reader (ℕ × ℕ)
read_two = do a ← extract_long; b ← extract_long; pure (a, b)

module _ {W : Type 0} (m : Debugger W) where
  -- RPC_INIT
  unfoldable pub on_init : Outcome W → List ℕ → Option (Outcome W)
  unfolding read_two
  on_init o s = run read_two s λ a.
      let debug = not (a.1 == 0) in
      some (
        answer (record o { session = record o.session { verbose = debug || o.session.verbose } })
          (m.dbg_init a.0 debug o.world))

  abbrev pub process_reply : Outcome W → (ℕ × ProcessInfo) × W → Outcome W
  process_reply o ((r, info), w) =
      let req = append_dd o.req (of_bool (is_positive r)) in
      record o { req = if is_positive r then append_process_info req info else req; world = w }

  -- RPC_GET_PROCESS_INFO
  unfoldable pub on_get_process_info : Outcome W → List ℕ → Option (Outcome W)
  unfolding read_process_query
  on_get_process_info o s =
      run read_process_query s λ a. some (process_reply o (m.dbg_process_get_info a.0 a.1 o.world))

  -- RPC_DETACH_PROCESS, RPC_PREPARE_TO_PAUSE_PROCESS and RPC_EXIT_PROCESS
  unfoldable pub on_detach : Outcome W → List ℕ → Option (Outcome W)
  on_detach o s = some (answer o (m.dbg_detach_process o.world))

  unfoldable pub on_prepare_to_pause : Outcome W → List ℕ → Option (Outcome W)
  on_prepare_to_pause o s = some (answer o (m.dbg_prepare_to_pause_process o.world))

  unfoldable pub on_exit : Outcome W → List ℕ → Option (Outcome W)
  on_exit o s = some (answer o (m.dbg_exit_process o.world))

  -- `append_start_or_attach`
  unfoldable pub append_start_or_attach : Outcome W → ℕ × W → Outcome W
  append_start_or_attach o (r, w) =
      let req = append_dd o.req r in
      record o {
        req = if is_positive r then append_debapp_attrs req (m.dbg_get_debapp_attrs w) else req;
        world = w;
      }

  -- RPC_START_PROCESS
  unfoldable pub on_start : Outcome W → List ℕ → Option (Outcome W)
  unfolding read_start append_start_or_attach
  on_start o s =
      run read_start s λ a. some (append_start_or_attach o (m.dbg_start_process a o.world))

  -- `rpc_attach_process`, when the search for a broken session is over
  unfoldable pub attach_unless : ℕ → ℕ → Bool × W → ℕ × W
  attach_unless pid event_id (true, w) = (1, w)
  attach_unless pid event_id (false, w) =
      let (r, w') = m.dbg_attach_process pid event_id w in (of_bool (is_positive r), w')

  -- RPC_ATTACH_PROCESS
  unfoldable pub on_attach : Outcome W → List ℕ → Option (Outcome W)
  unfolding read_two attach_unless append_start_or_attach
  on_attach o s = run read_two s λ a.
      some
        (append_start_or_attach o (attach_unless a.0 a.1 (m.check_broken_connection a.0 o.world)))

  abbrev pub event_reply : Outcome W → (ℕ × DebugEvent) × W → Outcome W
  event_reply o ((r, ev), w) =
      let req = append_dd o.req r in
      let seen = record o { session = record o.session { ev = ev }; world = w } in
      if is_positive r
      then record seen { req = append_debug_event req ev }
      else record seen { req = req; saved_poll_mode = true }

  -- RPC_GET_DEBUG_EVENT: with an event pending, the module is not asked and the mode stays.
  unfoldable pub on_get_debug_event : Outcome W → List ℕ → Option (Outcome W)
  on_get_debug_event o s = run extract_long s λ timeout.
      if o.session.has_pending_event
      then some (record o { req = append_dd o.req 0 })
      else some (event_reply o (m.dbg_get_debug_event o.session.ev timeout o.world))

  -- RPC_STOPPED_AT_DEBUG_EVENT: the names are sent while the request is performed, which may change the session.
  abbrev pub send_out : Option (List (ℕ × List ℕ)) → Session → W → Session × W
  send_out none session w = (session, w)
  send_out (some names) session w =
      let (session', w') = m.send_names names session w in (session', m.clear_debug_names w')

  unfoldable pub on_stopped : Outcome W → List ℕ → Option (Outcome W)
  on_stopped o s =
      let w = m.dbg_stopped_at_debug_event o.world in
      let (session', w') = send_out (m.get_debug_names w) o.session w in
      some (record o { session = session'; world = w' })

  -- RPC_CLEANUP_APPCALL and RPC_REXEC
  unfoldable pub on_cleanup_appcall : Outcome W → List ℕ → Option (Outcome W)
  on_cleanup_appcall o s =
      run extract_long s λ tid. some (answer o (m.dbg_cleanup_appcall tid o.world))

  unfoldable pub on_rexec : Outcome W → List ℕ → Option (Outcome W)
  on_rexec o s = run extract_str s λ cmdline. some (answer o (m.dbg_rexec cmdline o.world))

  module _ (shl32 : ℕ → ℕ) where
    -- RPC_CONTINUE_AFTER_EVENT
    unfoldable pub on_continue : Outcome W → List ℕ → Option (Outcome W)
    on_continue o s = run (extract_debug_event shl32 o.session.ev) s λ ev. some (
        answer (record o { session = record o.session { ev = ev } })
          (m.dbg_continue_after_event ev o.world))

    read_appcall : Reader AppcallRequest
    read_appcall = do
      func_ea ← extract_ea64 shl32
      tid ← extract_long
      stkarg_nbytes ← extract_long
      flags ← extract_long
      call ← extract_appcall shl32 (bit_and flags appcall_manual == 0)
      pure (record {
        func_ea = func_ea;
        tid = tid;
        stkarg_nbytes = stkarg_nbytes;
        flags = flags;
        regargs = call.0;
        stkargs = call.1;
      })

    abbrev pub appcall_reply : Outcome W → ℕ → AppcallResult × W → Outcome W
    appcall_reply o flags (r, w) =
        let req = append_ea64 o.req r.sp in
        let failed : List ℕ =
          append_str
            (if bit_and flags appcall_debev == 0 then req else append_debug_event req r.event)
            r.errbuf in
        let returned : List ℕ =
          if bit_and flags appcall_manual == 0 then append_regobjs true req r.retregs else req in
        record o { req = if r.sp == badaddr then failed else returned; world = w }

    -- RPC_APPCALL
    unfoldable pub on_appcall : Outcome W → List ℕ → Option (Outcome W)
    unfolding read_appcall
    on_appcall o s =
        run read_appcall s λ a. some (appcall_reply o a.flags (m.dbg_appcall a o.world))
