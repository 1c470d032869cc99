-- ===== src/Debmod/Threads.antt =====
-- linux_debmod.cpp and linux_threads.cpp: the threads of the debugged process. What the kernel answers to a
-- request about a thread is a parameter, and `calls` lists the requests made, the oldest first. A session of
-- the server is a `Session`, the pointers into its map of threads are the numbers of the threads.

pub mod Freeze
pub mod Thaw
pub mod Control
pub mod Arrival
pub mod Traps
pub mod Poll
pub mod Examples
use reverse_engineearing.Base.{
  ℕ, zero, suc, ◌+◌, ◌-◌, ◌*◌, ◌/◌, ◌%◌, ◌^◌, ◌≤◌, ◌<◌, bit_and, bit_or, ◌≡◌, refl, sym, ap, ◌∙◌,
  ◌≢◌, ◌↔◌, ◌⊎◌, inl, inr, Bool, true, false, not, ◌&&◌, ◌||◌, Option, none, some, List, [], ◌∷◌,
  ◌++◌, append_assoc, append-nil, arith, ltb, leb, ◌==◌, if◌then◌else◌, of_bool, ==_iff, Bool-cases,
  Option-cases, length, get_elem?, set, take, drop, replicate, All, length-append, length-take,
  length-drop, take-append-drop, take-length-append, drop-length-append, take_all, All-append,
  codes, take_pieces, drop_pieces,
}
use reverse_engineearing.Codec.{badaddr}
use reverse_engineearing.Codec.Event.{DebugEvent, thread_exit}
use reverse_engineearing.Debmod.EventQueue.{Queue, enqueue_event, in_back}
use reverse_engineearing.Debmod.Signals.{
  WaitStatus, ThreadInfo, ThreadState, running, stopped, dying, dead, Process, Visit, goes_on,
  stores, resumes_dying, asserts, find_thread, put_thread, contains, visit,
}
use reverse_engineearing.Debmod.UpdateBpts.Linux.{SavedBpt}

-- The result of `qkill` and `errno`: sent, ESRCH, or another error.
pub data Sent : Type 0 where
  sent no_process refused : Sent

-- `kill_traced` is PTRACE_KILL, `eflags` the flags that PTRACE_GETREGS reads. `fresh` is what the fields of an event hold that nothing has been stored into.
pub record Kernel : Type 0 where
  pub status : WaitStatus
  pub kill : ℕ → ℕ → Sent
  pub cont : ℕ → Bool
  pub is_zombie : ℕ → Bool
  pub kill_traced : ℕ → Sent
  pub eflags : ℕ → Option ℕ
  pub sigkill : ℕ
  pub fresh : DebugEvent

-- `qkill`, PTRACE_KILL, PTRACE_CONT and PTRACE_SINGLESTEP, with the thread and the signal, PTRACE_SETREGS for
-- new flags, PTRACE_POKEUSER for a debug register, and PTRACE_SETOPTIONS.
pub data Call : Type 0 where
  sends : ℕ → ℕ → Call
  kills : ℕ → Call
  continues : ℕ → ℕ → Call
  steps : ℕ → ℕ → Call
  sets_flags : ℕ → ℕ → Call
  sets_dr : ℕ → ℕ → ℕ → Call
  sets_options : ℕ → Call

-- A result: `waits` if the signals that arrive do not suffice for a loop that waits for them, `fails` at a
-- failed QASSERT or where the behaviour is undefined.
pub data Run {ℓ} (A : Type ℓ) : Type ℓ where
  done : A → Run A
  waits : Run A
  fails : Run A

infixl 5 ◌>>=◌
abbrev pub ◌>>=◌ {ℓ κ} : {A : Type ℓ} {B : Type κ} → Run A → (A → Run B) → Run B
done a >>= f = f a
waits >>= f = waits
fails >>= f = fails

-- The other sessions of the server stand before and after this one in the list of clients.
pub record Session : Type 0 where
  pub process : Process
  pub queue : Queue
  pub seen_threads : List ℕ
  pub before : List Process
  pub after : List Process
  pub process_handle : ℕ
  pub in_event : Bool
  pub requested_to_suspend : Bool
  pub handling_lowcnds : List ℕ
  pub bpts : List SavedBpt
  pub removed_bpts : List ℕ
  pub last_event : DebugEvent
  pub calls : List Call

abbrev pub is_state_running : ThreadState → Bool
is_state_running running = true
is_state_running stopped = false
is_state_running dying = false
is_state_running dead = false

abbrev pub is_running : ThreadInfo → Bool
is_running t = is_state_running t.state && (not t.waiting_sigstop && not t.got_pending_status)

abbrev pub with_threads : List ThreadInfo → Session → Session
with_threads ts s = record s { process = record s.process { threads = ts } }

abbrev pub call : Call → Session → Session
call c s = record s { calls = s.calls ++ c ∷ [] }

-- Taken out of the map, with its pending signal counted off; the list of deleted threads holds ten.
pub erase_thread : ℕ → List ThreadInfo → List ThreadInfo
erase_thread tid [] = []
erase_thread tid (t ∷ ts) = if t.tid == tid then ts else t ∷ erase_thread tid ts

pub del_thread : ℕ → Session → Run Session
unfolding erase_thread
del_thread tid s = elim (find_thread tid s.process.threads) [
  | none ↦ fails
  | some t ↦ done (record s {
    process = record s.process {
      threads = erase_thread tid s.process.threads;
      npending_signals =
          if t.got_pending_status
          then s.process.npending_signals - 1
          else s.process.npending_signals;
      deleted_threads =
          drop (of_bool (leb 10 (length s.process.deleted_threads))) s.process.deleted_threads
          ++ tid ∷ [];
    };
  })
]

-- The event that tells of a thread's end.
pub exit_event : Kernel → ℕ → ℕ → DebugEvent
exit_event k pid tid = record k.fresh {
  eid = thread_exit;
  pid = pid;
  tid = tid;
  ea = badaddr;
  handled = true;
  exit_code = 0;
}

-- `for_all_debuggers` over a part of the sessions.
data Visits : Type 0 where
  nobody : Visits
  stored_by : List Process → Visits
  resumed : Visits
  asserted : Visits

not_here : Process → Visits → Visits
not_here p nobody = nobody
not_here p (stored_by ps) = stored_by (p ∷ ps)
not_here p resumed = resumed
not_here p asserted = asserted

module _ (k : Kernel) where
  pub dead_thread : ℕ → ThreadState → Session → Run Session
  unfolding exit_event del_thread find_thread put_thread enqueue_event
  dead_thread tid state s = elim (find_thread tid s.process.threads) [
    | none ↦ done s
    | some t ↦
        let s' : Session = record s {
          process = record s.process {
            threads = put_thread (record t { state = state }) s.process.threads;
          };
          queue = enqueue_event (exit_event k s.process_handle tid) in_back s.queue;
        } in
        elim state [ dead ↦ del_thread tid s' | other ↦ done s' ]
  ]

  visit_all : ℕ → ℕ → List Process → Visits
  unfolding not_here
  visit_all pid status [] = nobody
  visit_all pid status (p ∷ ps) = elim (visit k.status pid status p) [
    | goes_on ↦ not_here p (visit_all pid status ps)
    | stores p' ↦ stored_by (p' ∷ ps)
    | resumes_dying ↦ resumed
    | asserts ↦ asserted
  ]

  -- A status that no session took.
  unclaimed : ℕ → ℕ → Session → Session
  unclaimed pid status s =
      if k.status.is_stopped status
      then record s { seen_threads = s.seen_threads ++ pid ∷ [] }
      else (if not (k.status.is_signaled status) then call (kills pid) s else s)

  -- The sessions behind this one.
  visit_after : ℕ → ℕ → Session → Run Session
  unfolding visit_all unclaimed
  visit_after pid status s = elim (visit_all pid status s.after) [
    | nobody ↦ done (unclaimed pid status s)
    | stored_by ps ↦ done (record s { after = ps })
    | resumed ↦ done (call (continues pid 0) s)
    | asserted ↦ fails
  ]

  visit_own : ℕ → ℕ → Session → Run Session
  unfolding visit_after
  visit_own pid status s = elim (visit k.status pid status s.process) [
    | goes_on ↦ visit_after pid status s
    | stores p ↦ done (record s { process = p })
    | resumes_dying ↦ done (call (continues pid 0) s)
    | asserts ↦ fails
  ]

  pub store_pending_signal : ℕ → ℕ → Session → Run Session
  unfolding visit_own visit_all visit
  store_pending_signal pid status s = elim (visit_all pid status s.before) [
    | nobody ↦ visit_own pid status s
    | stored_by ps ↦ done (record s { before = ps })
    | resumed ↦ done (call (continues pid 0) s)
    | asserted ↦ fails
  ]
