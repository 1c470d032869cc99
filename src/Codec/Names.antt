-- ===== src/Codec/Names.antt =====
-- rpc_hlp.cpp: the names of the packet codes, for messages. `printed` is what `qsnprintf` makes of a
-- code that has no name.
use reverse_engineearing.Base.{ℕ, Option, none, some, List, [], ◌∷◌, get_elem?, codes}

abbrev rpc_names : List (Option (List ℕ))
rpc_names =
    some (codes "RPC_OK")
    ∷ some (codes "RPC_UNK")
    ∷ some (codes "RPC_MEM")
    ∷ some (codes "RPC_OPEN")
    ∷ some (codes "RPC_EVENT")
    ∷ some (codes "RPC_EVOK")
    ∷ none
    ∷ none
    ∷ none
    ∷ none
    ∷ some (codes "RPC_INIT")
    ∷ some (codes "RPC_TERM")
    ∷ some (codes "RPC_GET_PROCESS_INFO")
    ∷ some (codes "RPC_START_PROCESS")
    ∷ some (codes "RPC_EXIT_PROCESS")
    ∷ some (codes "RPC_ATTACH_PROCESS")
    ∷ some (codes "RPC_DETACH_PROCESS")
    ∷ some (codes "RPC_GET_DEBUG_EVENT")
    ∷ some (codes "RPC_PREPARE_TO_PAUSE_PROCESS")
    ∷ some (codes "RPC_STOPPED_AT_DEBUG_EVENT")
    ∷ some (codes "RPC_CONTINUE_AFTER_EVENT")
    ∷ some (codes "RPC_TH_SUSPEND")
    ∷ some (codes "RPC_TH_CONTINUE")
    ∷ some (codes "RPC_SET_RESUME_MODE")
    ∷ some (codes "RPC_GET_MEMORY_INFO")
    ∷ some (codes "RPC_READ_MEMORY")
    ∷ some (codes "RPC_WRITE_MEMORY")
    ∷ some (codes "RPC_UPDATE_BPTS")
    ∷ some (codes "RPC_UPDATE_LOWCNDS")
    ∷ some (codes "RPC_EVAL_LOWCND")
    ∷ some (codes "RPC_ISOK_BPT")
    ∷ some (codes "RPC_READ_REGS")
    ∷ some (codes "RPC_WRITE_REG")
    ∷ some (codes "RPC_GET_SREG_BASE")
    ∷ some (codes "RPC_SET_EXCEPTION_INFO")
    ∷ some (codes "RPC_OPEN_FILE")
    ∷ some (codes "RPC_CLOSE_FILE")
    ∷ some (codes "RPC_READ_FILE")
    ∷ some (codes "RPC_WRITE_FILE")
    ∷ some (codes "RPC_IOCTL")
    ∷ some (codes "RPC_UPDATE_CALL_STACK")
    ∷ some (codes "RPC_APPCALL")
    ∷ some (codes "RPC_CLEANUP_APPCALL")
    ∷ some (codes "RPC_REXEC")
    ∷ none
    ∷ none
    ∷ none
    ∷ none
    ∷ none
    ∷ none
    ∷ some (codes "RPC_SET_DEBUG_NAMES")
    ∷ some (codes "RPC_SYNC_STUB")
    ∷ some (codes "RPC_ERROR")
    ∷ some (codes "RPC_MSG")
    ∷ some (codes "RPC_WARNING")
    ∷ some (codes "RPC_HANDLE_DEBUG_EVENT")
    ∷ some (codes "RPC_REPORT_IDC_ERROR")
    ∷ []

pub get_rpc_name : (ℕ → List ℕ) → ℕ → List ℕ
get_rpc_name printed code = elim (get_elem? rpc_names code) [
  | none ↦ printed code
  | some none ↦ printed code
  | some (some name) ↦ name
]
