-- ===== src/Debmod/Signals.antt =====
-- linux_debmod.cpp: signals that arrived for a thread and wait to be handled. The macros of
-- <sys/wait.h> are parameters; a platform other than ARM is modelled.
pub mod Priority
pub mod Count
pub mod Changes
pub mod Examples
use reverse_engineearing.Base.{
  ℕ, zero, suc, ◌+◌, ◌-◌, ◌*◌, ◌/◌, ◌%◌, ◌^◌, ◌≤◌, ◌<◌, bit_and, bit_or, ◌≡◌, refl, sym, ap, ◌∙◌,
  ◌≢◌, ◌↔◌, ◌⊎◌, inl, inr, Bool, true, false, not, ◌&&◌, ◌||◌, Option, none, some, List, [], ◌∷◌,
  ◌++◌, append_assoc, append-nil, arith, ltb, leb, ◌==◌, if◌then◌else◌, of_bool, ==_iff, Bool-cases,
  Option-cases, length, get_elem?, set, take, drop, replicate, All, length-append, length-take,
  length-drop, take-append-drop, take-length-append, drop-length-append, take_all, All-append,
  codes, take_pieces, drop_pieces,
}

-- `WIFSTOPPED`, `WSTOPSIG`, `WIFEXITED` and `WIFSIGNALED`, with the numbers of two signals.
pub record WaitStatus : Type 0 where
  pub is_stopped : ℕ → Bool
  pub stop_sig : ℕ → ℕ
  pub is_exited : ℕ → Bool
  pub is_signaled : ℕ → Bool
  pub sigtrap : ℕ
  pub sigstop : ℕ

pub data ThreadState : Type 0 where
  running stopped dying dead : ThreadState

pub record ThreadInfo : Type 0 where
  pub tid : ℕ
  pub suspend_count : ℕ
  pub user_suspend : ℕ
  pub child_signum : ℕ
  pub single_step : Bool
  pub state : ThreadState
  pub waiting_sigstop : Bool
  pub got_pending_status : Bool
  pub pending_status : ℕ

-- The threads in the order of their map.
pub record Process : Type 0 where
  pub threads : List ThreadInfo
  pub deleted_threads : List ℕ
  pub npending_signals : ℕ
  pub exited : Bool

unfoldable pub find_thread : ℕ → List ThreadInfo → Option ThreadInfo
find_thread tid [] = none
find_thread tid (t ∷ ts) = if t.tid == tid then some t else find_thread tid ts

-- Writes back the thread with the same number.
unfoldable pub put_thread : ThreadInfo → List ThreadInfo → List ThreadInfo
put_thread new [] = []
put_thread new (t ∷ ts) = if t.tid == new.tid then new ∷ ts else t ∷ put_thread new ts

unfoldable pub contains : ℕ → List ℕ → Bool
contains a [] = false
contains a (x ∷ xs) = a == x || contains a xs

-- Neither the user nor the debugger has suspended the thread.
abbrev pub is_free : ThreadInfo → Bool
is_free t = not (ltb 0 t.user_suspend || ltb 0 t.suspend_count)

-- The thread of the last event, if it can take its pending signal.
pub last_thread : ℕ → List ThreadInfo → Option ThreadInfo
last_thread last_tid ts = elim (find_thread last_tid ts) [
  | none ↦ none
  | some t ↦ if t.got_pending_status && is_free t then some t else none
]

take_signal : Process → ThreadInfo → (ℕ × ℕ) × Process
take_signal p t = (
  (t.tid, t.pending_status),
  record p {
    threads = put_thread (record t { got_pending_status = false }) p.threads;
    npending_signals = p.npending_signals - 1;
  },
)

-- What the visitor does with a process: 0 and 1 are its return values.
pub data Visit : Type 0 where
  goes_on : Visit
  stores : Process → Visit
  resumes_dying : Visit
  asserts : Visit

module _ (m : WaitStatus) where
  -- `is_bpt_status`.
  pub is_bpt_status : ℕ → Bool
  is_bpt_status status = m.is_stopped status && m.stop_sig status == m.sigtrap

  store_in : ℕ → Process → ThreadInfo → Visit
  store_in status p t =
      if t.got_pending_status && not (p.exited || m.is_exited status)
      then asserts
      else (if t.waiting_sigstop && (m.is_stopped status && m.stop_sig status == m.sigstop)
          then stores (record p {
            threads = put_thread (record t { waiting_sigstop = false; state = stopped }) p.threads;
          })
          else stores (record p {
            threads =
                put_thread (record t { got_pending_status = true; pending_status = status })
                  p.threads;
            npending_signals = p.npending_signals + 1;
          }))

  -- `linux_signal_storer_t::visit`.
  unfoldable pub visit : ℕ → ℕ → Process → Visit
  unfolding store_in find_thread contains
  visit pid status p = elim (find_thread pid p.threads) [
    | some t ↦ store_in status p t
    | none ↦ if contains pid p.deleted_threads then resumes_dying else goes_on
  ]

  -- The three passes ask for a single step, for a breakpoint signal, and for any signal.
  abbrev pub fits_pass : ℕ → ThreadInfo → Bool
  fits_pass zero t = t.single_step
  fits_pass (suc zero) t = is_bpt_status t.pending_status
  fits_pass (suc (suc i)) t = true

  pub find_in_pass : ℕ → List ThreadInfo → Option ThreadInfo
  find_in_pass i [] = none
  find_in_pass i (t ∷ ts) =
      if is_free t && (t.got_pending_status && fits_pass i t) then some t else find_in_pass i ts

  -- The `break` leaves the loop over the threads only, so each pass overwrites what the one before
  -- found.
  run_passes : List ℕ → Option ThreadInfo → List ThreadInfo → Option ThreadInfo
  unfolding find_in_pass
  run_passes [] found ts = found
  run_passes (i ∷ passes) found ts = run_passes passes (find_in_pass i ts) ts

  pub find_pending : List ThreadInfo → Option ThreadInfo
  unfolding run_passes
  find_pending ts = run_passes (0 ∷ 1 ∷ 2 ∷ []) none ts

  -- The thread and its status, with the process as it is then.
  unfoldable pub retrieve_pending_signal : ℕ → Process → Option ((ℕ × ℕ) × Process)
  unfolding find_pending last_thread take_signal
  retrieve_pending_signal last_tid p =
      if p.npending_signals == 0 then none else elim (last_thread last_tid p.threads) [
        | some t ↦ some (take_signal p t)
        | none ↦ elim (find_pending p.threads) [ none ↦ none | some t ↦ some (take_signal p t) ]
      ]
