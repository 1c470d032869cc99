-- ===== src/Server/Interface.antt =====
-- rpc_server.cpp and debmod.h: what the requests of a client work on. The virtual functions of the debugger
-- module are parameters, over a state `W` that holds the module and the files of the platform.
use reverse_engineearing.Base.{ℕ, Bool, ◌&&◌, Option, none, some, List, ltb}
use reverse_engineearing.Codec.{Reader}
use reverse_engineearing.Codec.Records.{
  MemoryInfo, ProcessInfo, ExceptionInfo, CallStack, DebappAttrs,
}
use reverse_engineearing.Codec.Event.{DebugEvent}
use reverse_engineearing.Codec.Registers.{RegVal, RegObj, RelObj}
use reverse_engineearing.Engine.Ioctl.{IoctlHandler}
use reverse_engineearing.Debmod.UpdateBpts.{Module}
use reverse_engineearing.Server.{Channels, Files}

-- `lowcnd_t`; `cmd` holds the bytes of the decoded instruction, if they were sent.
pub record Lowcnd : Type 0 where
  pub ea : ℕ
  pub cndbody : List ℕ
  pub bpttype : ℕ
  pub size : ℕ
  pub orgbytes : List ℕ
  pub cmd_ea : ℕ
  pub cmd : List ℕ

-- What `dbg_appcall` gives: the stack pointer or BADADDR, with its output parameters.
pub record AppcallResult : Type 0 where
  pub sp : ℕ
  pub retregs : List RegObj
  pub errbuf : List ℕ
  pub event : DebugEvent

pub record AppcallRequest : Type 0 where
  pub func_ea : ℕ
  pub tid : ℕ
  pub stkarg_nbytes : ℕ
  pub flags : ℕ
  pub regargs : List RegObj
  pub stkargs : RelObj

pub record StartRequest : Type 0 where
  pub path : List ℕ
  pub args : List ℕ
  pub sdir : List ℕ
  pub flags : ℕ
  pub input : List ℕ
  pub crc32 : ℕ

-- `rpc_server_t`.
pub record Session : Type 0 where
  pub poll_debug_events : Bool
  pub has_pending_event : Bool
  pub verbose : Bool
  pub ev : DebugEvent
  pub pending_event : DebugEvent
  pub channels : Channels

-- The virtual functions of `debmod_t`. An `int` result is its 32-bit pattern. `check_broken_connection` is the
-- server's search for a session to go on with; `send_names` is its `send_debug_names_to_ida`, which waits for
-- the client's answer and performs the client's requests until it comes, so that it may change the session; `can_new` says whether an allocation succeeds.
pub record Debugger (W : Type 0) : Type 0 where
  pub can_new : ℕ → Bool
  pub qalloc : ℕ → Bool
  pub ioctl_handler : Option IoctlHandler
  pub breakpoints : Module W
  pub files : Files W
  pub qfread : W → ℕ → ℕ → ℕ → List ℕ × W
  pub qfwrite : W → ℕ → ℕ → List ℕ → ℕ × W
  pub dbg_init : ℕ → Bool → W → ℕ × W
  pub dbg_process_get_info : ℕ → Option (List ℕ) → W → (ℕ × ProcessInfo) × W
  pub dbg_detach_process : W → ℕ × W
  pub dbg_start_process : StartRequest → W → ℕ × W
  pub dbg_get_debapp_attrs : W → DebappAttrs
  pub dbg_get_debug_event : DebugEvent → ℕ → W → (ℕ × DebugEvent) × W
  pub check_broken_connection : ℕ → W → Bool × W
  pub dbg_attach_process : ℕ → ℕ → W → ℕ × W
  pub dbg_prepare_to_pause_process : W → ℕ × W
  pub dbg_exit_process : W → ℕ × W
  pub dbg_continue_after_event : DebugEvent → W → ℕ × W
  pub dbg_stopped_at_debug_event : W → W
  pub get_debug_names : W → Option (List (ℕ × List ℕ))
  pub clear_debug_names : W → W
  pub send_names : List (ℕ × List ℕ) → Session → W → Session × W
  pub dbg_thread_suspend : ℕ → W → ℕ × W
  pub dbg_thread_continue : ℕ → W → ℕ × W
  pub dbg_set_resume_mode : ℕ → ℕ → W → ℕ × W
  pub dbg_read_registers : ℕ → ℕ → ℕ → W → (ℕ × List RegVal) × W
  pub dbg_write_register : ℕ → ℕ → RegVal → W → ℕ × W
  pub dbg_thread_get_sreg_base : ℕ → ℕ → W → (ℕ × ℕ) × W
  pub dbg_set_exception_info : List ExceptionInfo → W → W
  pub dbg_get_memory_info : W → (ℕ × List MemoryInfo) × W
  pub dbg_read_memory : ℕ → ℕ → W → (ℕ × List ℕ) × W
  pub dbg_write_memory : ℕ → List ℕ → W → ℕ × W
  pub dbg_is_ok_bpt : ℕ → ℕ → ℕ → W → ℕ × W
  pub dbg_update_lowcnds : List Lowcnd → W → ℕ × W
  pub dbg_eval_lowcnd : ℕ → ℕ → W → ℕ × W
  pub dbg_update_call_stack : ℕ → W → Option CallStack × W
  pub dbg_appcall : AppcallRequest → W → AppcallResult × W
  pub dbg_cleanup_appcall : ℕ → W → ℕ × W
  pub dbg_rexec : List ℕ → W → ℕ × W

-- What a case of the switch leaves: the reply, `saved_poll_mode`, and the state.
pub record Outcome (W : Type 0) : Type 0 where
  pub req : List ℕ
  pub saved_poll_mode : Bool
  pub session : Session
  pub world : W

-- An `int` is greater than zero.
abbrev pub is_positive : ℕ → Bool
is_positive r = ltb 0 r && ltb r 0x80000000

-- What a case does with the arguments that it reads; `none`: a failed QASSERT, or undefined behaviour.
unfoldable pub run : {A B : Type 0} → Reader A → List ℕ → (A → Option B) → Option B
run m s f = elim (m s) [ none ↦ none | some (a, rest) ↦ f a ]
