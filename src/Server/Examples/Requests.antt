-- ===== src/Server/Examples/Requests.antt =====
-- The requests of a client and of the server at concrete inputs.
use reverse_engineearing.Base.{
  ℕ, ◌+◌, ◌≤◌, ◌≡◌, refl, inl, true, false, none, some, [], ◌∷◌, arith, length, replicate,
}
use reverse_engineearing.Codec.{prepare_rpc_packet}
use reverse_engineearing.Codec.Event.{DebugEvent}
use reverse_engineearing.Engine.{Packet, rpc_ok, rpc_unk}
use reverse_engineearing.Server.Interface.{Debugger, Session}
use reverse_engineearing.Server.Dispatch.{
  case_in, case_of, serve, finish, at_start, at_end, perform_request,
}
use reverse_engineearing.Server.Dispatch.Polling.{perform_request-ReplyOf}
use reverse_engineearing.Server.Dispatch.Reply.{ReplyOf}
use reverse_engineearing.Server.Dispatch.Calls.{
  read_memory, IsWireCall, IsWireResult, bytes_of, call_locally, call_remotely, bytes,
}
use reverse_engineearing.Server.Dispatch.Calls.Refinement.{call_remotely-call_locally}
use reverse_engineearing.Server.DebugNames.{Names, fill_packet, send_debug_names_to_ida}
use reverse_engineearing.Server.DebugNames.Size.{length-fill_packet}
use reverse_engineearing.Server.DebugNames.Sending.{send_debug_names_to_ida_ends}
use reverse_engineearing.Server.Polls.{polled, poll_events, poll_events_lem, Polled}
use reverse_engineearing.Server.Broken.{
  Clients, Reused, check_broken_connection, check_broken_connection_lem,
}

abbrev no_high : ℕ → ℕ
no_high x = 0

-- An event with nothing in it, as it stands in a session before any event.
abbrev quiet : DebugEvent
quiet = record {
  eid = 0;
  pid = 0;
  tid = 0;
  ea = 0;
  handled = false;
  modinfo = record { name = []; base = 0; size = 0; rebase_to = 0 };
  exit_code = 0;
  info = [];
  bpt = record { hea = 0; kea = 0 };
  exc = record { code = 0; can_cont = false; ea = 0; info = [] };
}

-- A module that counts the calls and succeeds in each, with no event.
abbrev counting : Debugger ℕ
counting = record {
  can_new = λ n. true;
  qalloc = λ n. true;
  ioctl_handler = none;
  breakpoints = record {
    can_cont = false;
    bpt_code = 0xCC ∷ [];
    dbg_read_memory = λ w ea len. some (replicate len 0);
    dbg_add_bpt = λ w type ea len. some (1, w);
    dbg_del_bpt = λ w type ea org len. some (1, w);
  };
  files = record {
    fopen = λ f readonly name. (some 5, f);
    qfsize = λ f file. 100;
    qerrcode = λ f. 0;
    qfclose = λ f file. f;
  };
  qfread = λ w file off size. ([], w);
  qfwrite = λ w file off buf. (length buf, w);
  dbg_init = λ flags debug w. (1, w + 1);
  dbg_process_get_info = λ n input w. ((0, record { pid = 0; name = [] }), w + 1);
  dbg_detach_process = λ w. (1, w + 1);
  dbg_start_process = λ a w. (1, w + 1);
  dbg_get_debapp_attrs = λ w. record { addrsize = 4; platform = [] };
  dbg_get_debug_event = λ ev timeout w. ((0, ev), w + 1);
  check_broken_connection = λ pid w. (false, w);
  dbg_attach_process = λ pid event w. (1, w + 1);
  dbg_prepare_to_pause_process = λ w. (1, w + 1);
  dbg_exit_process = λ w. (1, w + 1);
  dbg_continue_after_event = λ ev w. (1, w + 1);
  dbg_stopped_at_debug_event = λ w. w + 1;
  get_debug_names = λ w. none;
  clear_debug_names = λ w. w;
  send_names = λ names session w. (session, w);
  dbg_thread_suspend = λ tid w. (1, w + 1);
  dbg_thread_continue = λ tid w. (1, w + 1);
  dbg_set_resume_mode = λ tid resmod w. (1, w + 1);
  dbg_read_registers = λ tid mask n w. ((1, []), w + 1);
  dbg_write_register = λ tid reg v w. (1, w + 1);
  dbg_thread_get_sreg_base = λ tid reg w. ((0, 0), w + 1);
  dbg_set_exception_info = λ table w. w + 1;
  dbg_get_memory_info = λ w. ((0, []), w + 1);
  dbg_read_memory = λ ea size w. ((2, 7 ∷ 8 ∷ []), w + 1);
  dbg_write_memory = λ ea buf w. (length buf, w + 1);
  dbg_is_ok_bpt = λ type ea len w. (0, w + 1);
  dbg_update_lowcnds = λ lcs w. (1, w + 1);
  dbg_eval_lowcnd = λ tid ea w. (0, w + 1);
  dbg_update_call_stack = λ tid w. (none, w + 1);
  dbg_appcall = λ a w. (record { sp = 0; retregs = []; errbuf = []; event = quiet }, w + 1);
  dbg_cleanup_appcall = λ tid w. (1, w + 1);
  dbg_rexec = λ cmdline w. (1, w + 1);
}

abbrev a_session : Session
a_session = record {
  poll_debug_events = true;
  has_pending_event = false;
  verbose = false;
  ev = quiet;
  pending_event = quiet;
  channels = [];
}

call_remotely-call_locally_example :
    call_remotely counting no_high 0 (read_memory 0x1000 2) a_session 5
    ≡ some (bytes 2 (7 ∷ 8 ∷ []), a_session, 6)
unfolding call_locally bytes_of IsWireCall IsWireResult
call_remotely-call_locally_example =
    call_remotely-call_locally counting no_high 0 (read_memory 0x1000 2) a_session 5
      (inl (omega arith, refl), omega arith, refl) (omega arith, refl)

-- A request with the code 99, which no case is for.
abbrev strange : Packet
strange = record { code = 99; body = [] }

strange_performed :
    perform_request counting no_high 0 strange a_session 5
    ≡ some (prepare_rpc_packet rpc_unk, a_session, 5)
unfolding perform_request serve finish case_of case_in at_start at_end
strange_performed = refl

perform_request-ReplyOf_example : ReplyOf (prepare_rpc_packet rpc_ok) (prepare_rpc_packet rpc_unk)
perform_request-ReplyOf_example =
    perform_request-ReplyOf counting no_high 0 strange a_session 5 strange_performed

abbrev two_names : Names
two_names = (0x1000, 97 ∷ 98 ∷ []) ∷ (0x0F00, 97 ∷ 99 ∷ []) ∷ []

send_debug_names_to_ida_ends_example :
    (r : ℕ × ℕ) × (send_debug_names_to_ida (λ req s. some (1, s + 1)) two_names 0 ≡ some r)
send_debug_names_to_ida_ends_example =
    send_debug_names_to_ida_ends (λ req s. some (1, s + 1)) two_names 0
      (λ req s. ((1, s + 1), refl))

length-fill_packet_example : length (fill_packet [] 0 [] 0 two_names).0 ≤ 1323
length-fill_packet_example =
    length-fill_packet 2 [] 0 [] 0 two_names (omega arith) (omega arith, (omega arith, tt))

no_event_polled :
    poll_events counting (λ req w. some (0, w)) 10 a_session 5 ≡ some (0, a_session, 6)
unfolding poll_events polled
no_event_polled = refl

poll_events_lem_example : Polled counting (λ req w. some (0, w)) ((0, quiet), 6) (0, a_session, 6)
poll_events_lem_example =
    poll_events_lem counting (λ req w. some (0, w)) 10 a_session 5 no_event_polled

abbrev clients : Clients
clients =
    record { server = 1; dbg_mod = 11; broken = false; pid = 0 }
    ∷ record { server = 2; dbg_mod = 12; broken = true; pid = 77 }
    ∷ []

check_broken_connection_lem_example :
    Reused 1 77 clients (
      check_broken_connection
        (λ d pid w. (true, w + 1))
        (λ d w. w + d)
        (λ n w. w)
        1
        11
        77
        clients
        0)
check_broken_connection_lem_example =
    check_broken_connection_lem (λ d pid w. (true, w + 1)) (λ d w. w + d) (λ n w. w) 1 11 77 clients
      0
