-- ===== src/Debmod/Threads/Examples.antt =====
-- The theorems on threads at concrete processes.
use reverse_engineearing.Base.{
  ℕ, ◌/◌, ◌%◌, ◌≡◌, refl, ◌≢◌, Bool, true, false, not, ◌&&◌, Option, none, some, List, [], ◌∷◌,
  arith, ◌==◌, All,
}
use reverse_engineearing.Codec.Event.{DebugEvent, breakpoint}
use reverse_engineearing.Debmod.Signals.{ThreadInfo, running, stopped, find_thread, put_thread}
use reverse_engineearing.Debmod.Threads.{
  Kernel, sent, done, waits, ◌>>=◌, Session, with_threads, sends,
}
use reverse_engineearing.Debmod.Threads.Control.{after_state, no_thread, dbg_continue_after_event}
use reverse_engineearing.Debmod.Threads.Control.Continuing.{
  GoesOn, signal_dropped, dbg_continue_after_event-GoesOn,
}
use reverse_engineearing.Debmod.Threads.Control.Suspending.{
  suspend_times, continue_times, dbg_thread_continue-dbg_thread_suspend,
}
use reverse_engineearing.Debmod.Threads.Freeze.{stop_all, dbg_freeze_threads}
use reverse_engineearing.Debmod.Threads.Freeze.Ending.{dbg_freeze_threads_ends}
use reverse_engineearing.Debmod.Threads.Freeze.Suspensions.{suspensions}
use reverse_engineearing.Debmod.Threads.Freeze.Unsuspended.{IsUnsuspended}
use reverse_engineearing.Debmod.Threads.Thaw.{dbg_thaw_threads}
use reverse_engineearing.Debmod.Threads.Thaw.Balance.{dbg_thaw_threads-dbg_freeze_threads}
use reverse_engineearing.Debmod.Threads.Thaw.Unsuspended.{freeze_and_thaw-Unsuspended}

abbrev blank_event : DebugEvent
blank_event = record {
  eid = 0;
  pid = 0;
  tid = 0;
  ea = 0;
  handled = false;
  modinfo = record { name = []; base = 0; size = 0; rebase_to = 0 };
  exit_code = 0;
  info = [];
  bpt = record { hea = 0; kea = 0 };
  exc = record { code = 0; can_cont = false; ea = 0; info = [] };
}

-- Linux, where every request succeeds.
abbrev linux : Kernel
linux = record {
  status = record {
    is_stopped = λ s. s % 256 == 0x7F;
    stop_sig = λ s. s / 256 % 256;
    is_exited = λ s. s % 128 == 0;
    is_signaled = λ s. not (s % 128 == 0) && not (s % 128 == 127);
    sigtrap = 5;
    sigstop = 19;
  };
  kill = λ t sig. sent;
  cont = λ t. true;
  is_zombie = λ t. false;
  kill_traced = λ t. sent;
  eflags = λ t. some 0x246;
  sigkill = 9;
  fresh = blank_event;
}

abbrev runner : ThreadInfo
runner = record {
  tid = 100;
  suspend_count = 0;
  user_suspend = 0;
  child_signum = 0;
  single_step = false;
  state = running;
  waiting_sigstop = false;
  got_pending_status = false;
  pending_status = 0;
}

-- Two threads that run, and a session of the server that has no other.
abbrev two_run : Session
two_run = record {
  process = record {
    threads = runner ∷ record runner { tid = 101 } ∷ [];
    deleted_threads = [];
    npending_signals = 0;
    exited = false;
  };
  queue = record { events = []; may_run = true };
  seen_threads = [];
  before = [];
  after = [];
  process_handle = 100;
  in_event = false;
  requested_to_suspend = false;
  handling_lowcnds = [];
  bpts = record { ea = 0x1000; saved = 0x55 ∷ []; nsaved = 1 } ∷ [];
  removed_bpts = [];
  last_event = blank_event;
  calls = [];
}

-- The second thread's SIGSTOP comes first, and another signal before that of the first.
abbrev answers : List (Option (ℕ × ℕ))
answers = some (101, 0x137F) ∷ none ∷ some (100, 0xB7F) ∷ []

dbg_freeze_threads_ends_example : dbg_freeze_threads linux no_thread true answers two_run ≢ waits
unfolding stop_all
dbg_freeze_threads_ends_example =
    dbg_freeze_threads_ends linux no_thread true answers two_run (λ a. omega arith)

-- The session when both threads are frozen, and the kernel's requests for it.
abbrev both_frozen : Session
both_frozen = record two_run {
  process = record two_run.process {
    threads =
        record runner {
          suspend_count = 1;
          waiting_sigstop = true;
          got_pending_status = true;
          pending_status = 0xB7F;
        }
        ∷ record runner { tid = 101; suspend_count = 1; state = stopped }
        ∷ [];
    npending_signals = 1;
  };
  calls = sends 100 19 ∷ sends 101 19 ∷ [];
}

dbg_thaw_threads-dbg_freeze_threads_example :
    (ok : Bool) × (s2 : Session) × (dbg_thaw_threads linux no_thread true both_frozen
      ≡ done (ok, s2))
    × (suspensions s2.process.threads ≡ suspensions two_run.process.threads)
unfolding dbg_freeze_threads put_thread
dbg_thaw_threads-dbg_freeze_threads_example =
    dbg_thaw_threads-dbg_freeze_threads linux linux no_thread true answers [] two_run both_frozen
      (λ t. refl) refl

freeze_and_thaw-Unsuspended_example :
    All IsUnsuspended both_frozen.process.threads
    × ((ok : Bool) × (s2 : Session) × (dbg_thaw_threads linux 101 false both_frozen ≡ done (ok, s2))
        × All IsUnsuspended s2.process.threads)
unfolding dbg_freeze_threads put_thread
freeze_and_thaw-Unsuspended_example =
    freeze_and_thaw-Unsuspended linux linux no_thread 101 true false answers [] two_run both_frozen
      ((λ _. refl), ((λ _. refl), tt)) refl

-- The second thread stopped at a breakpoint, and the first held with it.
abbrev at_stop : ThreadInfo
at_stop = record runner { tid = 101; suspend_count = 1; state = stopped; child_signum = 5 }

abbrev first_held : ThreadInfo
first_held = record runner { suspend_count = 1; state = stopped }

abbrev both_stopped : Session
both_stopped = record (with_threads (first_held ∷ at_stop ∷ []) two_run) { in_event = true }

abbrev bpt_event : DebugEvent
bpt_event = record blank_event { eid = breakpoint; pid = 100; tid = 101; ea = 0x1000 }

dbg_continue_after_event-GoesOn_example :
    (ok : Bool) × (s' : Session) × (dbg_continue_after_event linux bpt_event both_stopped
      ≡ done (ok, s'))
    × GoesOn [] (signal_dropped bpt_event at_stop both_stopped) s'
unfolding find_thread after_state
dbg_continue_after_event-GoesOn_example =
    dbg_continue_after_event-GoesOn linux bpt_event at_stop both_stopped (λ u. refl) refl refl
      ((λ h. cc), ((λ h. cc), tt))

-- Suspended three times and let continue three times, the thread has two suspensions too many.
dbg_thread_continue-dbg_thread_suspend_example :
    (suspend_times linux 101 [] 3 (with_threads (first_held ∷ at_stop ∷ []) both_stopped)
      >>= continue_times linux 101 3)
    ≡ done (with_threads (first_held ∷ record at_stop { suspend_count = 3 } ∷ []) both_stopped)
dbg_thread_continue-dbg_thread_suspend_example =
    dbg_thread_continue-dbg_thread_suspend linux both_stopped (first_held ∷ []) [] at_stop
      (refl, tt) tt refl [] 2 refl (omega arith)
