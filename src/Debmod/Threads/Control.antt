-- ===== src/Debmod/Threads/Control.antt =====
-- linux_debmod.cpp: what the client's requests do with the threads. The event to continue after is given, and
-- the number NO_THREAD is no thread's.
pub mod Continuing
pub mod Suspending
pub mod Killing
use reverse_engineearing.Base.{
  ℕ, zero, suc, ◌+◌, ◌-◌, ◌*◌, ◌/◌, ◌%◌, ◌^◌, ◌≤◌, ◌<◌, bit_and, bit_or, ◌≡◌, refl, sym, ap, ◌∙◌,
  ◌≢◌, ◌↔◌, ◌⊎◌, inl, inr, Bool, true, false, not, ◌&&◌, ◌||◌, Option, none, some, List, [], ◌∷◌,
  ◌++◌, append_assoc, append-nil, arith, ltb, leb, ◌==◌, if◌then◌else◌, of_bool, ==_iff, Bool-cases,
  Option-cases, length, get_elem?, set, take, drop, replicate, All, length-append, length-take,
  length-drop, take-append-drop, take-length-append, drop-length-append, take_all, All-append,
  codes, take_pieces, drop_pieces,
}
use reverse_engineearing.Codec.Event.{
  DebugEvent, thread_start, thread_exit, library_load, library_unload, exception,
}
use reverse_engineearing.Debmod.EventQueue.{Queue}
use reverse_engineearing.Debmod.Signals.{
  Process, ThreadInfo, ThreadState, running, stopped, dying, dead, is_free, find_thread, put_thread,
  contains,
}
use reverse_engineearing.Debmod.Threads.{
  Kernel, Sent, sent, no_process, refused, Call, sends, kills, sets_flags, Run, done, waits, fails,
  ◌>>=◌, Session, with_threads, call, del_thread,
}
use reverse_engineearing.Debmod.Threads.Freeze.{dbg_freeze_threads}
use reverse_engineearing.Debmod.Threads.Thaw.{dbg_thaw_threads, is_stopped_state}
use reverse_engineearing.Debmod.UpdateBpts.Linux.{SavedBpt}

abbrev pub no_thread : ℕ
no_thread = 0

abbrev pub is_empty {ℓ} : {A : Type ℓ} → List A → Bool
is_empty [] = true
is_empty (x ∷ xs) = false

pub has_waiting : List ThreadInfo → Bool
has_waiting [] = false
has_waiting (t ∷ ts) = t.got_pending_status && is_free t || has_waiting ts

pub has_pending_events : Session → Bool
unfolding has_waiting
has_pending_events s = not (is_empty s.queue.events) || has_waiting s.process.threads

-- The map of breakpoints less those that were removed.
pub left_over : List ℕ → List SavedBpt → List SavedBpt
left_over removed [] = []
left_over removed (b ∷ bs) =
    let rest = left_over removed bs in if contains b.ea removed then rest else b ∷ rest

-- `resume_app` up to its return.
pub allow_run : Session → Session
unfolding has_pending_events left_over
allow_run s =
    let lowcnd = not (is_empty s.handling_lowcnds) in
    let may_run = lowcnd || not (has_pending_events s) in
    let s' : Session = record s { queue = record s.queue { may_run = may_run } } in
    if may_run && not lowcnd
    then record s' { bpts = left_over s.removed_bpts s.bpts; removed_bpts = [] }
    else s'

unfoldable pub resume_app : Kernel → ℕ → Session → Run (Bool × Session)
unfolding allow_run dbg_thaw_threads
resume_app k tid s = dbg_thaw_threads k tid (tid == no_thread) (allow_run s)

-- The signal that the thread goes on with is dropped, unless the event says that it is to be delivered.
abbrev pub drops_signal : DebugEvent → Bool
drops_signal ev =
    not (ev.eid == thread_start)
    && (not (ev.eid == thread_exit)
        && (not (ev.eid == library_load)
            && (not (ev.eid == library_unload) && (not (ev.eid == exception) || ev.handled))))

module _ (k : Kernel) where
  pub clear_tbit : ℕ → Session → Session
  clear_tbit tid s = elim (k.eflags tid) [
    | none ↦ s
    | some flags ↦ if flags / 0x100 % 2 == 1 then call (sets_flags tid (flags - 0x100)) s else s
  ]

  -- A thread that is about to exit is resumed, one that is dead is forgotten.
  by_state : ThreadInfo → ThreadState → Session → Run Session
  by_state t dying s =
      let ts = put_thread (record t { suspend_count = 0; user_suspend = 0 }) s.process.threads in
      dbg_thaw_threads k t.tid false (with_threads ts s) >>= λ r. done r.1
  by_state t dead s = del_thread t.tid s
  by_state t running s = done s
  by_state t stopped s = done s

  unfoldable pub after_state : DebugEvent → ThreadInfo → Session → Session
  unfolding clear_tbit
  after_state ev t s =
      if ev.eid == exception
        && (not t.single_step && (ev.exc.code == k.status.sigtrap && ev.handled))
      then clear_tbit ev.tid s
      else s

  of_thread : DebugEvent → ThreadInfo → Session → Run Session
  unfolding by_state after_state
  of_thread ev t s =
      let t' : ThreadInfo = if drops_signal ev then record t { child_signum = 0 } else t in
      by_state t' t.state (with_threads (put_thread t' s.process.threads) s) >>= λ s'.
      done (after_state ev t s')

  unfoldable pub dbg_continue_after_event : DebugEvent → Session → Run (Bool × Session)
  unfolding of_thread resume_app
  dbg_continue_after_event ev s = elim (find_thread ev.tid s.process.threads) [
    | none ↦
        if not (ev.eid == thread_exit) && not s.process.exited
        then done (false, s)
        else resume_app k no_thread (record s { in_event = false })
    | some t ↦ of_thread ev t s >>= λ s'. resume_app k no_thread (record s' { in_event = false })
  ]

  -- The thread may have died while it was frozen, and then the source writes to freed memory.
  held_by_user : ℕ → Session × List (Option (ℕ × ℕ)) → Run (Bool × Session × List (Option (ℕ × ℕ)))
  held_by_user tid (s, ws) = elim (find_thread tid s.process.threads) [
    | none ↦ fails
    | some t ↦
        let held : ThreadInfo = record t { user_suspend = t.user_suspend + 1 } in
        done (true, with_threads (put_thread held s.process.threads) s, ws)
  ]

  -- `dbg_freeze_threads` always succeeds.
  pub dbg_thread_suspend :
      ℕ → List (Option (ℕ × ℕ)) → Session → Run (Bool × Session × List (Option (ℕ × ℕ)))
  unfolding held_by_user
  dbg_thread_suspend tid ws s = elim (find_thread tid s.process.threads) [
    | none ↦ done (false, s, ws)
    | some _ ↦ dbg_freeze_threads k tid false ws s >>= held_by_user tid
  ]

  pub dbg_thread_continue : ℕ → Session → Run (Bool × Session)
  dbg_thread_continue tid s = elim (find_thread tid s.process.threads) [
    | none ↦ done (false, s)
    | some t ↦
        let s' : Session =
          with_threads
            (put_thread (record t { user_suspend = t.user_suspend - 1 }) s.process.threads) s in
        if ltb 1 t.user_suspend then done (true, s') else dbg_thaw_threads k tid false s'
  ]

  -- With no thread the source writes through the end of the map.
  pub dbg_prepare_to_pause_process : Session → Option Session
  dbg_prepare_to_pause_process s =
      let paused = λ (r : Session). record r {
        queue = record r.queue { may_run = false };
        requested_to_suspend = true;
      } in
      if not (is_empty s.queue.events) then some (paused s) else elim s.process.threads [
        | [] ↦ none
        | t ∷ ts ↦ some (
            paused (
              call (sends s.process_handle k.status.sigstop)
                (with_threads (record t { waiting_sigstop = true } ∷ ts) s)))
      ]

-- `RESMOD_INTO` is the only mode that is supported.
abbrev pub resmod_into : ℕ
resmod_into = 1

pub dbg_set_resume_mode : ℕ → ℕ → Session → Bool × Session
dbg_set_resume_mode tid resmod s =
    if resmod == resmod_into
    then elim (find_thread tid s.process.threads) [
      | none ↦ (false, s)
      | some t ↦
          (true, with_threads (put_thread (record t { single_step = true }) s.process.threads) s)
    ]
    else (false, s)
