-- ===== src/Debmod/Signals/Examples.antt =====
-- The theorems on pending signals at concrete processes.
use reverse_engineearing.Base.{
  ◌/◌, ◌%◌, ◌≡◌, refl, true, false, not, ◌&&◌, some, [], ◌∷◌, arith, ◌==◌,
}
use reverse_engineearing.Debmod.Signals.{
  WaitStatus, ThreadInfo, running, Process, visit, find_pending, retrieve_pending_signal,
  find_thread, last_thread, store_in, put_thread, run_passes, find_in_pass, take_signal,
}
use reverse_engineearing.Debmod.Signals.Count.{
  IsCounted, count_pending, visit-IsCounted, retrieve_pending_signal-IsCounted,
}
use reverse_engineearing.Debmod.Signals.Priority.{find_pending_first}

-- The macros of Linux.
abbrev linux_status : WaitStatus
linux_status = record {
  is_stopped = λ s. s % 256 == 0x7F;
  stop_sig = λ s. s / 256 % 256;
  is_exited = λ s. s % 128 == 0;
  is_signaled = λ s. not (s % 128 == 0) && not (s % 128 == 127);
  sigtrap = 5;
  sigstop = 19;
}

abbrev idle : ThreadInfo
idle = record {
  tid = 100;
  suspend_count = 0;
  user_suspend = 0;
  child_signum = 0;
  single_step = false;
  state = running;
  waiting_sigstop = false;
  got_pending_status = false;
  pending_status = 0;
}

-- Stopped at a breakpoint, and by another signal.
abbrev at_bpt : ThreadInfo
at_bpt = record idle { tid = 102; got_pending_status = true; pending_status = 0x57F }

abbrev at_signal : ThreadInfo
at_signal = record idle { tid = 101; got_pending_status = true; pending_status = 0xB7F }

abbrev quiet : Process
quiet = record {
  threads = idle ∷ at_bpt ∷ [];
  deleted_threads = [];
  npending_signals = 1;
  exited = false;
}

abbrev stored : Process
stored = record quiet {
  threads = record idle { got_pending_status = true; pending_status = 0xB7F } ∷ at_bpt ∷ [];
  npending_signals = 2;
}

visit-IsCounted_example : IsCounted stored
unfolding count_pending visit store_in find_thread put_thread
visit-IsCounted_example = visit-IsCounted linux_status 100 0xB7F quiet stored refl refl refl refl

retrieve_pending_signal-IsCounted_example :
    IsCounted (record quiet {
      threads = idle ∷ record at_bpt { got_pending_status = false } ∷ [];
      npending_signals = 0;
    })
    × ((t : ThreadInfo) × (find_thread 102 quiet.threads ≡ some t)
        × (t.got_pending_status ≡ true)
        × (t.pending_status ≡ 0x57F))
unfolding count_pending retrieve_pending_signal find_pending run_passes find_in_pass find_thread
    put_thread last_thread take_signal
retrieve_pending_signal-IsCounted_example =
    retrieve_pending_signal-IsCounted linux_status 7 quiet
      (record quiet {
        threads = idle ∷ record at_bpt { got_pending_status = false } ∷ [];
        npending_signals = 0;
      })
      102 0x57F (omega arith, (omega arith, tt)) refl refl

-- The thread at a breakpoint has to wait for the one before it.
find_pending_first_example :
    find_pending linux_status (idle ∷ at_signal ∷ at_bpt ∷ []) ≡ some at_signal
find_pending_first_example =
    find_pending_first linux_status (idle ∷ []) (at_bpt ∷ []) at_signal (refl, tt) refl
