-- ===== src/Debmod/Threads/Arrival.antt =====
-- linux_debmod.cpp and linux_threads.cpp: the next signal to handle. `ws` are the answers of `check_for_signal`,
-- `none` for a number that is not positive; a round takes at least one of them.
pub mod Taking
use reverse_engineearing.Base.{
  ℕ, zero, suc, ◌/◌, ◌^◌, Bool, true, false, not, ◌&&◌, ◌||◌, Option, none, some, List, [], ◌∷◌,
  ◌++◌, ltb, ◌==◌, if◌then◌else◌, length,
}
use reverse_engineearing.Codec.Event.{thread_start}
use reverse_engineearing.Debmod.EventQueue.{enqueue_event, in_front}
use reverse_engineearing.Debmod.Signals.{
  Process, ThreadInfo, stopped, find_thread, put_thread, contains, retrieve_pending_signal,
}
use reverse_engineearing.Debmod.Threads.{
  Kernel, continues, sets_options, Run, done, waits, fails, ◌>>=◌, Session, with_threads, call,
  store_pending_signal,
}
use reverse_engineearing.Debmod.UpdateBpts.Linux.{erase_ea}

-- What the kernel tells of a thread: PTRACE_GETEVENTMSG, the program counter, and whether a wait for a new thread
-- that gives no positive number gives -1, rather than 0.
pub record ThreadFacts : Type 0 where
  pub new_thread : ℕ → ℕ
  pub get_ip : ℕ → ℕ
  pub wait_fails : ℕ → Bool

abbrev pub ptrace_event_clone : ℕ
ptrace_event_clone = 3

abbrev pub new_thread_info : ℕ → ThreadInfo
new_thread_info tid = record {
  tid = tid;
  suspend_count = 0;
  user_suspend = 0;
  child_signum = 0;
  single_step = false;
  state = stopped;
  waiting_sigstop = false;
  got_pending_status = false;
  pending_status = 0;
}

-- `threads.insert`, which leaves a thread alone that is there.
pub add_thread : ℕ → List ThreadInfo → List ThreadInfo
add_thread tid [] = new_thread_info tid ∷ []
add_thread tid (t ∷ ts) =
    if t.tid == tid
    then t ∷ ts
    else (if ltb tid t.tid then new_thread_info tid ∷ (t ∷ ts) else t ∷ add_thread tid ts)

-- A signal that came now is for this session to handle, or the round is over.
pub data Signal : Type 0 where
  handles : ℕ → ℕ → Bool → Session → List (Option (ℕ × ℕ)) → Signal
  again : Session → List (Option (ℕ × ℕ)) → Signal
  none_came : Session → List (Option (ℕ × ℕ)) → Signal

module _ (k : Kernel) (th : ThreadFacts) where
  -- The new thread's SIGSTOP is still to come.
  still_due : ℕ → Session → Run Session
  still_due new_pid s = elim (find_thread new_pid s.process.threads) [
    | none ↦ fails
    | some t ↦
        done (with_threads (put_thread (record t { waiting_sigstop = true }) s.process.threads) s)
  ]

  -- A signal came while the new thread was waited for.
  other_came : ℕ → ℕ → ℕ → Session → Run Session
  unfolding still_due
  other_came new_pid tid2 status s =
      if not (tid2 == new_pid)
        || (not (k.status.is_stopped status) || not (k.status.stop_sig status == k.status.sigstop))
      then still_due new_pid s >>= store_pending_signal k tid2 status
      else done s

  await_new : ℕ → List (Option (ℕ × ℕ)) → Session → Run (Session × List (Option (ℕ × ℕ)))
  unfolding other_came
  await_new new_pid ws s =
      if contains new_pid s.seen_threads
      then done (record s { seen_threads = erase_ea new_pid s.seen_threads }, ws)
      else elim ws [
        | [] ↦ waits
        | w ∷ rest ↦ elim w [
          | none ↦
              if th.wait_fails new_pid then fails else still_due new_pid s >>= λ s'. done (s', rest)
          | some (tid2, status) ↦ other_came new_pid tid2 status s >>= λ s'. done (s', rest)
        ]
      ]

  started : ℕ → Session → Session
  started new_pid s = record s {
    queue =
        enqueue_event
          (record k.fresh {
            eid = thread_start;
            pid = s.process_handle;
            tid = new_pid;
            ea = th.get_ip new_pid;
            handled = true;
          })
          in_front s.queue;
    calls = s.calls ++ sets_options new_pid ∷ [];
  }

  -- Whether an event was prepared, the session, and the answers left.
  pub handle_extended_wait :
      ℕ → ℕ → List (Option (ℕ × ℕ)) → Session → Run (Bool × Session × List (Option (ℕ × ℕ)))
  unfolding await_new started add_thread
  handle_extended_wait pid status ws s =
      if k.status.is_stopped status
        && (k.status.stop_sig status == k.status.sigtrap && status / 2 ^ 16 == ptrace_event_clone)
      then (let new_pid = th.new_thread pid in
          await_new new_pid ws (with_threads (add_thread new_pid s.process.threads) s) >>= λ r.
          done (true, started new_pid r.0, r.1))
      else done (false, s, ws)

  came_now : ℕ → ℕ → List (Option (ℕ × ℕ)) → Session → Run Signal
  unfolding handle_extended_wait find_thread contains store_pending_signal
  came_now pid status ws s = handle_extended_wait pid status ws s >>= λ r.
      elim (find_thread pid r.1.process.threads) [
        | some _ ↦ done (handles pid status r.0 r.1 r.2)
        | none ↦
            if contains pid r.1.process.deleted_threads
            then done (again (call (continues pid 0) r.1) r.2)
            else store_pending_signal k pid status r.1 >>= λ s'. done (again s' r.2)
      ]

  -- A signal that waits, or one that comes in time.
  came_before : Bool → List (Option (ℕ × ℕ)) → Session → Option ((ℕ × ℕ) × Process) → Run Signal
  unfolding came_now
  came_before timed ws s (some ((pid, status), p)) =
      handle_extended_wait pid status ws (record s { process = p }) >>= λ r.
      done (handles pid status r.0 r.1 r.2)
  came_before false ws s none = done (none_came s ws)
  came_before true [] s none = waits
  came_before true (none ∷ ws) s none = done (none_came s ws)
  came_before true (some (pid, status) ∷ ws) s none = came_now pid status ws s

  -- One round; `timed` if the timeout is not zero.
  pub next_signal : Bool → List (Option (ℕ × ℕ)) → Session → Run Signal
  unfolding came_before came_now
  next_signal timed [] s = waits
  next_signal timed (some (pid, status) ∷ ws) s = came_now pid status ws s
  next_signal timed (none ∷ ws) s =
      came_before timed ws s (retrieve_pending_signal k.status s.last_event.tid s.process)

  -- The loop, on fuel.
  pub new_events : ℕ → Bool → List (Option (ℕ × ℕ)) → Session → Run Signal
  new_events zero timed ws s = waits
  new_events (suc fuel) timed ws s = next_signal timed ws s >>= λ r. elim r [
    | again s' ws' ↦ new_events fuel false ws' s'
    | other ↦ done other
  ]

  unfoldable pub check_for_new_events : Bool → List (Option (ℕ × ℕ)) → Session → Run Signal
  unfolding new_events next_signal
  check_for_new_events timed ws s = new_events (suc (length ws)) timed ws s
