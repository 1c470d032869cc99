-- ===== src/Debmod/Threads/Control/Killing.antt =====
-- linux_debmod.cpp: `dbg_exit_process`, which kills the threads of the process.
use reverse_engineearing.Base.{
  ℕ, ◌≡◌, refl, inl, inr, Bool, true, false, not, ◌&&◌, Option, List, [], ◌∷◌, ◌++◌, arith, ◌==◌,
  if◌then◌else◌, Bool-cases, All,
}
use mathlib.Core.Path.{subst}
use reverse_engineearing.Debmod.Threads.Freeze.Waiting.{>>=-eq-done}
use reverse_engineearing.Debmod.Signals.{ThreadInfo, running}
use reverse_engineearing.Debmod.Threads.{
  Kernel, Sent, sent, no_process, refused, Call, sends, kills, Run, done, ◌>>=◌, Session,
}
use reverse_engineearing.Debmod.Threads.Freeze.{dbg_freeze_threads}
use reverse_engineearing.Debmod.Threads.Thaw.{is_stopped_state}
use reverse_engineearing.Debmod.Threads.Control.{no_thread}

-- INVALID_HANDLE_VALUE, the pattern of -1.
abbrev invalid_handle_value : ℕ
invalid_handle_value = 0xFFFFFFFF

-- What is left of the loop that kills the threads: `ok` stays false once a thread could not be killed, and the
-- threads behind it are killed but not marked.
record Killed : Type 0 where
  threads : List ThreadInfo
  ok : Bool
  calls : List Call

abbrev pub is_refused : Sent → Bool
is_refused refused = true
is_refused sent = false
is_refused no_process = false

module _ (k : Kernel) where
  kill_thread : ThreadInfo → Bool × List Call
  kill_thread t =
      if is_stopped_state t.state
      then (is_refused (k.kill_traced t.tid), kills t.tid ∷ [])
      else (if t.tid == invalid_handle_value
          then (false, [])
          else (is_refused (k.kill t.tid k.sigkill), sends t.tid k.sigkill ∷ []))

  kill_all : Bool → List ThreadInfo → Killed
  unfolding kill_thread
  kill_all ok [] = record { threads = []; ok = ok; calls = [] }
  kill_all ok (t ∷ ts) =
      let killed = kill_thread t in
      let ok' = ok && not killed.0 in
      let rest = kill_all ok' ts in
      record {
        threads =
            (if ok' then record t { state = running; suspend_count = 0 } else t) ∷ rest.threads;
        ok = rest.ok;
        calls = killed.1 ++ rest.calls;
      }

  pub dbg_exit_process :
      List (Option (ℕ × ℕ)) → Session → Run (Bool × Session × List (Option (ℕ × ℕ)))
  unfolding kill_all
  dbg_exit_process ws s = dbg_freeze_threads k no_thread true ws s >>= λ r.
      let killed = kill_all true r.0.process.threads in
      done (
        killed.ok,
        record r.0 {
          process = record r.0.process { threads = killed.threads; exited = true };
          process_handle = if killed.ok then invalid_handle_value else r.0.process_handle;
          queue = record r.0.queue { may_run = true };
          calls = r.0.calls ++ killed.calls;
        },
        r.1,
      )

  abbrev IsResumed : ThreadInfo → Type 0
  IsResumed t = (t.state ≡ running) × (t.suspend_count ≡ 0)

  kill_all-failed : (ts : List ThreadInfo) → (kill_all false ts).ok ≡ false
  unfolding kill_all
  kill_all-failed [] = refl
  kill_all-failed (t ∷ ts) = kill_all-failed ts

  kill_all-IsResumed :
      (ts : List ThreadInfo)
      → (kill_all true ts).ok ≡ true
      → All IsResumed (kill_all true ts).threads
  unfolding kill_all
  kill_all-IsResumed [] e = tt
  kill_all-IsResumed (t ∷ ts) e = elim (Bool-cases (kill_thread t).0) [
    | inl y ↦ ground (arith, kill_all-failed ts, rw y at e)
    | inr n ↦ rw n ((refl, refl), kill_all-IsResumed ts (rw n at e))
  ]

  -- If `dbg_exit_process` reports that it killed the process, every thread is marked as running and without
  -- suspension, and the process as exited.
  dbg_exit_process-IsResumed :
      (ws ws' : List (Option (ℕ × ℕ))) (s s' : Session)
      → dbg_exit_process ws s ≡ done (true, s', ws')
      → All IsResumed s'.process.threads × (s'.process.exited ≡ true)
  unfolding dbg_exit_process
  dbg_exit_process-IsResumed ws ws' s s' e =
      let (r, e1, e2) = >>=-eq-done (dbg_freeze_threads k no_thread true ws s) _ e in
      let killed = kill_all true r.0.process.threads in
      let ok : killed.ok ≡ true = ground arith in
      let same : killed.threads ≡ s'.process.threads = ground arith in
      (subst (All IsResumed) same (kill_all-IsResumed r.0.process.threads ok), ground arith)
