-- ===== src/Debmod/Threads/Control/Continuing.antt =====
-- How the process goes on after an event.
use reverse_engineearing.Base.{
  ℕ, ◌≡◌, refl, sym, ap, ◌++◌, ◌∙◌, Bool, true, false, not, ◌||◌, some, List, arith, if◌then◌else◌,
  All,
}
use mathlib.Core.Path.{subst}
use reverse_engineearing.Codec.Event.{DebugEvent}
use reverse_engineearing.Debmod.Signals.{
  Process, ThreadInfo, ThreadState, stopped, find_thread, put_thread,
}
use reverse_engineearing.Debmod.Threads.{Kernel, done, ◌>>=◌, Session, with_threads, Call}
use reverse_engineearing.Debmod.EventQueue.{Queue}
use reverse_engineearing.Debmod.Threads.Freeze.Halted.{All-put_thread}
use reverse_engineearing.Debmod.Threads.Freeze.Unsuspended.{IsUnsuspended}
use reverse_engineearing.Debmod.Threads.Thaw.Unsuspended.{dbg_thaw_threads-Unsuspended}
use reverse_engineearing.Debmod.Threads.Thaw.Requests.{requests_of, dbg_thaw_threads-calls}
use reverse_engineearing.Debmod.Threads.Thaw.Resume.{
  Pairwise, Resumes, dbg_thaw_threads-Resumes, dbg_thaw_threads-in_event,
}
use reverse_engineearing.Debmod.Threads.Control.{
  no_thread, is_empty, has_pending_events, allow_run, resume_app, drops_signal, by_state, of_thread,
  after_state, clear_tbit, dbg_continue_after_event,
}

-- The process may run if a low-level condition is being handled, or nothing is pending.
abbrev pub may_go_on : Session → Bool
may_go_on s = not (is_empty s.handling_lowcnds) || not (has_pending_events s)

-- The threads when the event's thread has its signal, or none.
abbrev pub signal_dropped : DebugEvent → ThreadInfo → Session → Session
signal_dropped ev t s =
    with_threads
      (put_thread (if drops_signal ev then record t { child_signum = 0 } else t) s.process.threads)
      s

allow_run_lem :
    (s : Session)
    → ((allow_run s).process ≡ s.process)
      × ((allow_run s).queue.may_run ≡ may_go_on s)
      × ((allow_run s).in_event ≡ s.in_event)
      × ((allow_run s).queue.events ≡ s.queue.events)
      × ((allow_run s).calls ≡ s.calls)
unfolding allow_run
allow_run_lem s = ground arith

after_state_lem :
    (k : Kernel) (ev : DebugEvent) (t : ThreadInfo) (s : Session)
    → after_state k ev t s ≡ record s { calls = (after_state k ev t s).calls }
unfolding after_state clear_tbit
after_state_lem k ev t s = ground arith

of_thread_lem :
    (k : Kernel) (ev : DebugEvent) (t : ThreadInfo) (s : Session)
    → t.state ≡ stopped
    → of_thread k ev t s
      ≡ done (record (signal_dropped ev t s) {
        calls = (after_state k ev t (signal_dropped ev t s)).calls;
      })
unfolding of_thread by_state
of_thread_lem k ev t s st =
    let before : Session = signal_dropped ev t s in
    let t' : ThreadInfo = if drops_signal ev then record t { child_signum = 0 } else t in
    ap (λ (z : ThreadState). by_state k t' z before >>= λ s'. done (after_state k ev t s')) st
    ∙ ap done (after_state_lem k ev t before)

-- The threads that run, as `dbg_continue_after_event` leaves them behind, and the requests made for it after
-- `calls`.
abbrev pub GoesOn : List Call → Session → Session → Type 0
GoesOn calls before after =
    Pairwise (Resumes (may_go_on before) before.process.exited no_thread true)
      before.process.threads after.process.threads
    × (after.in_event ≡ false)
    × (after.queue.may_run ≡ may_go_on before)
    × (after.calls ≡ calls ++ requests_of before.process.threads after.process.threads)

went_on :
    (k : Kernel) (before : Session) (calls : List Call)
    → ((u : ℕ) → k.cont u ≡ true)
    → All IsUnsuspended before.process.threads
    → (ok : Bool) × (s' : Session) × (resume_app k no_thread
          (record before { calls = calls; in_event = false })
        ≡ done (ok, s'))
      × GoesOn calls before s'
unfolding resume_app has_pending_events
went_on k before calls resumes a =
    let quiet : Session = record before { calls = calls; in_event = false } in
    let (same, runs, event, events, made) = allow_run_lem quiet in
    let (ok, s', e, b) =
      dbg_thaw_threads-Unsuspended k no_thread true (allow_run quiet)
        (subst (λ (p : Process). All IsUnsuspended p.threads) (sym same) a) in
    let (pairs, queue) =
      dbg_thaw_threads-Resumes k no_thread true (allow_run quiet) s' ok resumes e in
    let allowed =
      subst
        (λ (x : Bool).
          Pairwise (Resumes x (allow_run quiet).process.exited no_thread true)
            (allow_run quiet).process.threads s'.process.threads)
        runs pairs in
    (
      ok,
      s',
      e,
      (
        subst
            (λ (p : Process).
              Pairwise (Resumes (may_go_on before) p.exited no_thread true) p.threads
                s'.process.threads)
            same allowed,
        dbg_thaw_threads-in_event k no_thread true (allow_run quiet) s' ok e ∙ event,
        ap (λ (x : Queue). x.may_run) queue ∙ runs,
        dbg_thaw_threads-calls k no_thread true (allow_run quiet) s' ok resumes e
            ∙ ap (λ cs. cs ++ requests_of (allow_run quiet).process.threads s'.process.threads) made
            ∙ ap (λ (p : Process). calls ++ requests_of p.threads s'.process.threads) same,
      ),
    )

-- While no running thread is suspended, and the kernel resumes every thread that it is asked to,
-- `dbg_continue_after_event` comes through after an event of a thread that is stopped. It drops the thread's signal,
-- unless the event is an exception that was not handled or tells of a thread or a library. The threads that run are
-- then those that ran and those that are ready, or none of the latter while an event or a signal is pending and no
-- low-level condition is handled. The kernel was asked, after a request to clear the trap flag if there was one, to
-- resume the threads whose state became RUNNING or that were about to exit, and no others, each with the signal that
-- it has, and to step those that single step. No event is being handled then.
pub dbg_continue_after_event-GoesOn :
    (k : Kernel) (ev : DebugEvent) (t : ThreadInfo) (s : Session)
    → ((u : ℕ) → k.cont u ≡ true)
    → find_thread ev.tid s.process.threads ≡ some t
    → t.state ≡ stopped
    → All IsUnsuspended s.process.threads
    → (ok : Bool) × (s' : Session) × (dbg_continue_after_event k ev s ≡ done (ok, s'))
      × GoesOn (after_state k ev t (signal_dropped ev t s)).calls (signal_dropped ev t s) s'
unfolding dbg_continue_after_event
dbg_continue_after_event-GoesOn k ev t s resumes f st a =
    let calls = (after_state k ev t (signal_dropped ev t s)).calls in
    let q = of_thread_lem k ev t s st in
    let t' : ThreadInfo = if drops_signal ev then record t { child_signum = 0 } else t in
    let same : t'.state ≡ t.state = ground arith in
    let (ok, s', e, g) =
      went_on k (signal_dropped ev t s) calls resumes
        (All-put_thread IsUnsuspended s.process.threads t' (λ y. ground (arith, same)) a) in
    let rest = λ (r : Session). resume_app k no_thread (record r { in_event = false }) in
    let at_thread : dbg_continue_after_event k ev s ≡ (of_thread k ev t s >>= rest) =
      rw (f, dbg_continue_after_event) refl in
    (ok, s', at_thread ∙ ap (λ m. m >>= rest) q ∙ e, g)
