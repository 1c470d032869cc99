-- ===== src/Debmod/Threads/Poll.antt =====
-- linux_debmod.cpp: how signals become debug events.
pub mod Ending
use reverse_engineearing.Base.{
  ℕ, zero, suc, ◌+◌, ◌-◌, ◌*◌, ◌/◌, ◌%◌, ◌^◌, ◌≤◌, ◌<◌, bit_and, bit_or, ◌≡◌, refl, sym, ap, ◌∙◌,
  ◌≢◌, ◌↔◌, ◌⊎◌, inl, inr, Bool, true, false, not, ◌&&◌, ◌||◌, Option, none, some, List, [], ◌∷◌,
  ◌++◌, append_assoc, append-nil, arith, ltb, leb, ◌==◌, if◌then◌else◌, of_bool, ==_iff, Bool-cases,
  Option-cases, length, get_elem?, set, take, drop, replicate, All, length-append, length-take,
  length-drop, take-append-drop, take-length-append, drop-length-append, take_all, All-append,
  codes, take_pieces, drop_pieces,
}
use reverse_engineearing.Codec.{badaddr}
use reverse_engineearing.Codec.Event.{
  DebugEvent, no_event, process_exit, breakpoint, step, exception,
}
use reverse_engineearing.Codec.Records.{ExceptionInfo}
use reverse_engineearing.Debmod.EventQueue.{Queue, enqueue_event, in_back}
use reverse_engineearing.Debmod.Signals.{
  Process, ThreadInfo, ThreadState, stopped, dead, find_thread, put_thread, contains,
}
use reverse_engineearing.Debmod.Threads.{
  Kernel, Call, continues, sets_dr, Run, done, waits, fails, ◌>>=◌, Session, with_threads, call,
  dead_thread,
}
use reverse_engineearing.Debmod.Threads.Arrival.{
  ThreadFacts, Signal, handles, again, none_came, check_for_new_events,
}
use reverse_engineearing.Debmod.Threads.Control.{no_thread, is_empty, resume_app}
use reverse_engineearing.Debmod.Threads.Freeze.{dbg_freeze_threads}
use reverse_engineearing.Debmod.Threads.Thaw.{is_stopped_state}
use reverse_engineearing.Debmod.Threads.Traps.{
  SignalFacts, Neighbours, ModuleFields, Polled, process_suspend, autoresume, report, after_stop,
  at_bpt, find_exception, calc_bpt_event_ea, suspends, is_handled,
}
use reverse_engineearing.Debmod.UpdateBpts.Linux.{SavedBpt}

module _ (k : Kernel) (th : ThreadFacts) (sf : SignalFacts) (nb : Neighbours)
    (fs : ModuleFields) where
  -- The thread was stopped by the signal `code`.
  was_stopped : ThreadInfo → ℕ → DebugEvent → Session → Run Polled
  unfolding at_bpt autoresume after_stop find_exception calc_bpt_event_ea
  was_stopped t code ev s =
      let ei = find_exception code fs.exceptions in
      let plain : DebugEvent = record ev {
        eid = exception;
        exc = record ev.exc { code = code; can_cont = true; ea = badaddr };
      } in
      let told : DebugEvent = record plain {
        exc = record plain.exc { info = sf.signal_text ei code };
      } in
      let proc_ip = calc_bpt_event_ea k.status.sigtrap told in
      if code == k.status.sigstop && t.waiting_sigstop
      then autoresume k sf nb fs plain
          (with_threads (put_thread (record t { waiting_sigstop = false }) s.process.threads) s)
      else (if not (proc_ip == badaddr)
          then at_bpt k sf nb fs t proc_ip ei told s
          else after_stop k sf nb fs t.tid (suspends ei)
              (if not (suspends ei) && is_handled ei then 0 else code) told s)

  -- The thread or the process is gone.
  was_ended : ThreadInfo → ℕ → DebugEvent → Session → Run Polled
  unfolding report
  was_ended t status ev s =
      let code =
        if k.status.is_signaled status then sf.term_sig status else sf.exit_status status in
      let over : DebugEvent = record ev { exit_code = code } in
      if leb (length s.process.threads) 1 || t.tid == s.process_handle
      then done (
          report k sf nb fs t.tid (record over { eid = process_exit })
            (record s { process = record s.process { exited = true } }))
      else (dead_thread k t.tid dead s >>= λ s'.
          done (report k sf nb fs t.tid (record over { eid = no_event }) s'))

  -- All threads are frozen.
  frozen : DebugEvent → ℕ → ℕ → Bool → Session → Run Polled
  unfolding was_stopped was_ended report
  frozen ev tid status ready s = elim (find_thread tid s.process.threads) [
    | none ↦ fails
    | some t ↦
        let filled : DebugEvent = record ev {
          pid = s.process_handle;
          tid = tid;
          ea =
              if s.process.exited
              then badaddr
              else (if k.status.is_signaled status then sf.si_addr tid else th.get_ip tid);
          handled = false;
        } in
        if ready
        then done (report k sf nb fs tid (record ev { tid = no_event }) s)
        else (if k.status.is_stopped status
            then was_stopped t (k.status.stop_sig status) filled s
            else was_ended t status filled s)
  ]

  freeze_all :
      DebugEvent
      → ℕ
      → ℕ
      → Bool
      → List (Option (ℕ × ℕ))
      → Session
      → Run (Polled × List (Option (ℕ × ℕ)))
  unfolding frozen dbg_freeze_threads
  freeze_all ev tid status ready ws s = dbg_freeze_threads k no_thread true ws s >>= λ r.
      frozen ev tid status ready (record r.0 { queue = record r.0.queue { may_run = false } })
      >>= λ p. done (p, r.1)

  -- A signal of one of the threads, which is stopped now, and so are the others.
  take_over :
      DebugEvent
      → ℕ
      → ℕ
      → Bool
      → List (Option (ℕ × ℕ))
      → Session
      → ThreadInfo
      → Run (Polled × List (Option (ℕ × ℕ)))
  unfolding freeze_all put_thread
  take_over ev tid status ready ws s t =
      if is_stopped_state t.state
        && not (s.process.exited || (k.status.is_exited status || k.status.is_signaled status))
      then fails
      else freeze_all ev tid status ready ws
          (with_threads (put_thread (record t { state = stopped }) s.process.threads) s)

  on_signal : DebugEvent → Signal → Run (Polled × List (Option (ℕ × ℕ)))
  unfolding take_over
  on_signal ev (none_came s ws) = done ((none, s), ws)
  on_signal ev (again s ws) = waits
  on_signal ev (handles tid status ready s ws) = elim (find_thread tid s.process.threads) [
    | none ↦
        let sig = if k.status.is_stopped status then k.status.stop_sig status else 0 in
        done ((none, call (continues tid sig) s), ws)
    | some t ↦ take_over ev tid status ready ws s t
  ]

  unfoldable pub get_debug_event :
      Bool → List (Option (ℕ × ℕ)) → Session → Run (Polled × List (Option (ℕ × ℕ)))
  unfolding on_signal check_for_new_events
  get_debug_event timed ws s =
      check_for_new_events k th timed ws s >>= on_signal (record k.fresh { eid = no_event })

  -- The first event of the queue, and whether there are more.
  pub hand_out : Session → DebugEvent → List DebugEvent → (Option (DebugEvent × Bool)) × Session
  hand_out s ev events = (
    some (ev, not (is_empty events)),
    record s {
      queue = record s.queue { events = events };
      in_event = true;
      requested_to_suspend = s.requested_to_suspend && not (is_empty s.handling_lowcnds);
    },
  )

  -- The loop, on fuel.
  pub next_event :
      ℕ
      → Bool
      → List (Option (ℕ × ℕ))
      → Session
      → List DebugEvent
      → Run (Option (DebugEvent × Bool) × Session)
  unfolding hand_out
  next_event fuel timed ws s (ev ∷ events) = done (hand_out s ev events)
  next_event zero timed ws s [] = waits
  next_event (suc fuel) timed ws s [] = get_debug_event timed ws s >>= λ r. elim r.0.0 [
    | none ↦ done (none, r.0.1)
    | some ev ↦
        let s' : Session = record r.0.1 { queue = enqueue_event ev in_back r.0.1.queue } in
        next_event fuel timed r.1 s' s'.queue.events
  ]

  pub dbg_get_debug_event :
      Bool → List (Option (ℕ × ℕ)) → Session → Run (Option (DebugEvent × Bool) × Session)
  unfolding next_event get_debug_event
  dbg_get_debug_event timed ws s =
      if s.in_event && not s.process.exited
      then fails
      else next_event (suc (length ws)) timed ws s s.queue.events
