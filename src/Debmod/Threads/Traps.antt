-- ===== src/Debmod/Threads/Traps.antt =====
-- linux_debmod.cpp, on a PC and with the low-level conditions of debmod.cpp left out, as the build has it: what a
-- thread that was stopped by a signal reports. The libraries of the process and the thread library's messages are `Neighbours`.
use reverse_engineearing.Base.{
  ℕ, ◌+◌, ◌-◌, ◌/◌, ◌%◌, ◌^◌, Bool, true, false, not, ◌&&◌, ◌||◌, Option, none, some, List, [], ◌∷◌,
  ◌==◌, if◌then◌else◌, length,
}
use reverse_engineearing.Codec.{badaddr}
use reverse_engineearing.Codec.Event.{DebugEvent, no_event, breakpoint, step, exception}
use reverse_engineearing.Codec.Records.{ExceptionInfo}
use reverse_engineearing.Debmod.Signals.{ThreadInfo, find_thread, put_thread, contains}
use reverse_engineearing.Debmod.Threads.{
  Kernel, sets_dr, Run, done, fails, ◌>>=◌, Session, with_threads, call,
}
use reverse_engineearing.Debmod.Threads.Control.{no_thread, resume_app}
use reverse_engineearing.Debmod.UpdateBpts.Linux.{SavedBpt}

-- The fields of the module that are only read here.
pub record ModuleFields : Type 0 where
  pub exceptions : List ExceptionInfo
  pub shlib_bpt : ℕ
  pub birth_bpt : ℕ
  pub death_bpt : ℕ
  pub interp_empty : Bool
  pub hwbpt_ea : List ℕ

-- The kernel's answers on a thread that got a signal: `si_addr`, the debug registers and whether `emulate_retn`
-- succeeds; WTERMSIG and WEXITSTATUS; and the text for a signal, which the C library formats.
pub record SignalFacts : Type 0 where
  pub si_addr : ℕ → ℕ
  pub dr : ℕ → ℕ → ℕ
  pub emulate_retn : ℕ → Bool
  pub term_sig : ℕ → ℕ
  pub exit_status : ℕ → ℕ
  pub signal_text : Option ExceptionInfo → ℕ → List ℕ

-- `get_memory_info` with `handle_dll_movements`, and `tdb_handle_messages`.
pub record Neighbours : Type 0 where
  pub dll_movements : Session → Session
  pub tdb_handle_messages : ℕ → Session → Session

abbrev pub process_suspend : ℕ
process_suspend = 0x4000

unfoldable pub find_exception : ℕ → List ExceptionInfo → Option ExceptionInfo
find_exception code [] = none
find_exception code (ei ∷ eis) = if ei.code == code then some ei else find_exception code eis

-- EXC_BREAK and EXC_HANDLE.
abbrev pub break_on : ExceptionInfo → Bool
break_on ei = ei.flags % 2 == 1

abbrev pub handle : ExceptionInfo → Bool
handle ei = ei.flags / 2 % 2 == 1

abbrev pub suspends : Option ExceptionInfo → Bool
suspends none = true
suspends (some ei) = break_on ei

abbrev pub is_handled : Option ExceptionInfo → Bool
is_handled none = false
is_handled (some ei) = handle ei

pub has_bpt : ℕ → List SavedBpt → Bool
has_bpt ea [] = false
has_bpt ea (b ∷ bs) = b.ea == ea || has_bpt ea bs

-- The address of the breakpoint: the PC is behind it.
unfoldable pub calc_bpt_event_ea : ℕ → DebugEvent → ℕ
calc_bpt_event_ea sigtrap ev =
    if ev.exc.code == sigtrap then (ev.ea + 2 ^ 32 - 1) % 2 ^ 32 else badaddr

-- The slot whose bit is set in DR6 and whose register holds its address, from slot `i` on.
pub hit_slot : (ℕ → ℕ) → ℕ → List ℕ → Option ℕ
hit_slot dr i [] = none
hit_slot dr i (ea ∷ eas) =
    if dr 6 / 2 ^ i % 2 == 1 && ea == dr i then some ea else hit_slot dr (i + 1) eas

-- What `get_debug_event` returns and writes, with the session.
abbrev pub Polled : Type 0
Polled = Option DebugEvent × Session

module _ (k : Kernel) (sf : SignalFacts) (nb : Neighbours) (fs : ModuleFields) where
  -- `RESUME`: the application goes on by itself, or the event only tells that it is suspended.
  unfoldable pub autoresume : DebugEvent → Session → Run Polled
  autoresume ev s =
      if not s.requested_to_suspend && not s.in_event
      then (resume_app k no_thread s >>= λ r. done (none, r.1))
      else done (some (record ev { eid = process_suspend }), s)

  -- `EVENT_READY`. Where the thread was just deleted, the source writes to freed memory.
  unfoldable pub report : ℕ → DebugEvent → Session → Polled
  report tid ev s =
      let seen : Session = record s { last_event = ev } in
      (
        some ev,
        elim (find_thread tid s.process.threads) [
          | none ↦ seen
          | some t ↦
              with_threads (put_thread (record t { single_step = false }) s.process.threads) seen
        ],
      )

  -- `evaluate_and_handle_lowcnd` without low-level conditions: true at its QASSERT.
  lowcnd_fails : DebugEvent → Session → Bool
  lowcnd_fails ev s =
      ev.eid == breakpoint
      && contains
          (if not (ev.bpt.kea == badaddr)
            then ev.bpt.kea
            else (if not (ev.bpt.hea == badaddr) then ev.bpt.hea else ev.ea))
          s.handling_lowcnds

  -- The end of the case of a stopped thread, which keeps the signal to go on with.
  unfoldable pub after_stop : ℕ → Bool → ℕ → DebugEvent → Session → Run Polled
  unfolding autoresume report lowcnd_fails
  after_stop tid suspend code ev s = elim (find_thread tid s.process.threads) [
    | none ↦ fails
    | some t ↦
        let s' : Session =
          with_threads (put_thread (record t { child_signum = code }) s.process.threads) s in
        if not s.requested_to_suspend && lowcnd_fails ev s'
        then fails
        else (if not suspend && ev.eid == exception
            then autoresume ev s'
            else done (report tid ev s'))
  ]

  abbrev gen_library_events : Session → Bool × Session
  gen_library_events s =
      let s' = nb.dll_movements s in (not (length s'.queue.events == length s.queue.events), s')

  -- A trap that is neither a shared library's nor a new or dead thread's.
  pub at_trap : ThreadInfo → ℕ → Option ExceptionInfo → DebugEvent → Session → Run Polled
  unfolding after_stop hit_slot has_bpt
  at_trap t proc_ip ei ev s =
      let s' = if fs.interp_empty then nb.dll_movements s else s in
      let end = after_stop t.tid (suspends ei) in
      elim (hit_slot (sf.dr t.tid) 0 fs.hwbpt_ea) [
        | some ea ↦
            end 0 (record ev { eid = breakpoint; bpt = record { hea = ea; kea = badaddr } })
              (call (sets_dr t.tid 6 0) s')
        | none ↦
            if has_bpt proc_ip s'.bpts && not (contains proc_ip s'.handling_lowcnds)
            then end 0
                (record ev {
                  eid = breakpoint;
                  bpt = record { hea = badaddr; kea = badaddr };
                  ea = proc_ip;
                })
                s'
            else (if t.single_step
                then end 0 (record ev { eid = step }) s'
                else end (if is_handled ei then 0 else ev.exc.code) ev s')
      ]

  -- After an internal breakpoint; `changed` if it brought events.
  pub after_internal : ℕ → Bool → Bool × Session → DebugEvent → Run Polled
  unfolding after_stop autoresume
  after_internal tid suspend (changed, s) ev =
      if changed then after_stop tid suspend 0 (record ev { eid = no_event }) s else autoresume ev s

  abbrev is_internal : ℕ → ℕ → Bool
  is_internal proc_ip bpt_addr = proc_ip == bpt_addr && not (bpt_addr == 0)

  unfoldable pub at_bpt : ThreadInfo → ℕ → Option ExceptionInfo → DebugEvent → Session → Run Polled
  unfolding at_trap after_internal
  at_bpt t proc_ip ei ev s =
      if is_internal proc_ip fs.shlib_bpt
      then (if sf.emulate_retn t.tid
          then after_internal t.tid (suspends ei) (gen_library_events s) ev
          else done (some ev, s))
      else (if is_internal proc_ip fs.birth_bpt || is_internal proc_ip fs.death_bpt
          then (let s' = nb.tdb_handle_messages t.tid s in
              if sf.emulate_retn t.tid
              then after_internal t.tid (suspends ei)
                  (not (length s'.queue.events == length s.queue.events), s') ev
              else done (some ev, s'))
          else at_trap t proc_ip ei ev s)
