-- ===== src/Debmod/Threads/Freeze.antt =====
-- linux_debmod.cpp: `dbg_freeze_threads`, which stops threads and waits until their signals arrive. What the
-- calls of `check_for_signal` answer is a list: `none` for a number that is not positive.
pub mod Waiting
pub mod Halted
pub mod Ending
pub mod Suspensions
pub mod Unsuspended
pub mod Alone
pub mod Taking
use reverse_engineearing.Base.{
  ℕ, zero, suc, ◌+◌, ◌-◌, ◌*◌, ◌/◌, ◌%◌, ◌^◌, ◌≤◌, ◌<◌, bit_and, bit_or, ◌≡◌, refl, sym, ap, ◌∙◌,
  ◌≢◌, ◌↔◌, ◌⊎◌, inl, inr, Bool, true, false, not, ◌&&◌, ◌||◌, Option, none, some, List, [], ◌∷◌,
  ◌++◌, append_assoc, append-nil, arith, ltb, leb, ◌==◌, if◌then◌else◌, of_bool, ==_iff, Bool-cases,
  Option-cases, length, get_elem?, set, take, drop, replicate, All, length-append, length-take,
  length-drop, take-append-drop, take-length-append, drop-length-append, take_all, All-append,
  codes, take_pieces, drop_pieces,
}
use reverse_engineearing.Debmod.Signals.{
  ThreadInfo, stopped, dead, find_thread, put_thread, contains,
}
use reverse_engineearing.Debmod.Threads.{
  Kernel, Sent, sent, no_process, refused, Call, sends, Run, done, waits, fails, ◌>>=◌, Session,
  is_running, with_threads, dead_thread, store_pending_signal,
}
use reverse_engineearing.Debmod.UpdateBpts.Linux.{erase_ea}

-- All threads but `tid`, or only that one.
abbrev pub in_scope : ℕ → Bool → ThreadInfo → Bool
in_scope tid exclude t = if exclude then not (t.tid == tid) else t.tid == tid

-- What the first loop leaves behind.
pub record Stops : Type 0 where
  pub threads : List ThreadInfo
  pub queue : List ℕ
  pub deadtids : List ℕ
  pub calls : List Call

abbrev pub frozen_one : ThreadInfo → ThreadInfo
frozen_one t = record t { suspend_count = t.suspend_count + 1 }

-- The thread of the queue whose SIGSTOP arrived.
has_stopped : ℕ → Session → Session
has_stopped tid s = elim (find_thread tid s.process.threads) [
  | none ↦ s
  | some t ↦
      with_threads
        (put_thread (record t { waiting_sigstop = false; state = stopped }) s.process.threads) s
]

module _ (k : Kernel) where
  after_kill : ThreadInfo → Sent → Stops → Stops
  after_kill t sent rest = record rest {
    threads = record (frozen_one t) { waiting_sigstop = true } ∷ rest.threads;
    queue = t.tid ∷ rest.queue;
  }
  after_kill t no_process rest = record rest {
    threads = t ∷ rest.threads;
    deadtids = t.tid ∷ rest.deadtids;
  }
  after_kill t refused rest = record rest { threads = t ∷ rest.threads }

  stop_one : ThreadInfo → Stops → Stops
  unfolding after_kill
  stop_one t rest =
      if is_running t
      then (let sig = k.status.sigstop in
          after_kill t (k.kill t.tid sig) (record rest { calls = sends t.tid sig ∷ rest.calls }))
      else record rest { threads = frozen_one t ∷ rest.threads }

  unfoldable pub stop_all : ℕ → Bool → List ThreadInfo → Stops
  unfolding stop_one
  stop_all tid exclude [] = record { threads = []; queue = []; deadtids = []; calls = [] }
  stop_all tid exclude (t ∷ ts) =
      let rest = stop_all tid exclude ts in
      if in_scope tid exclude t then stop_one t rest else record rest { threads = t ∷ rest.threads }

  receive : ℕ → ℕ → List ℕ → Session → Run Session
  unfolding has_stopped store_pending_signal contains
  receive stid status queue s =
      if contains stid queue
        && (k.status.is_stopped status && k.status.stop_sig status == k.status.sigstop)
      then done (has_stopped stid s)
      else store_pending_signal k stid status s

  -- The second loop, with the answers that it has not used.
  pub wait_stops : List (Option (ℕ × ℕ)) → List ℕ → Session → Run (Session × List (Option (ℕ × ℕ)))
  unfolding receive
  wait_stops [] [] s = done (s, [])
  wait_stops (w ∷ ws) [] s = done (s, w ∷ ws)
  wait_stops [] (q ∷ qs) s = waits
  wait_stops (none ∷ ws) (q ∷ qs) s = wait_stops ws (q ∷ qs) s
  wait_stops (some (stid, status) ∷ ws) (q ∷ qs) s =
      receive stid status (q ∷ qs) s >>= wait_stops ws (erase_ea stid (q ∷ qs))

  pub bury : List ℕ → Session → Run Session
  bury [] s = done s
  bury (tid ∷ tids) s = dead_thread k tid dead s >>= bury tids

  -- The session when the first loop is over.
  pub stopping : ℕ → Bool → Session → Session
  unfolding stop_all
  stopping tid exclude s =
      let stops = stop_all tid exclude s.process.threads in
      record (with_threads stops.threads s) { calls = s.calls ++ stops.calls }

  unfoldable pub dbg_freeze_threads :
      ℕ → Bool → List (Option (ℕ × ℕ)) → Session → Run (Session × List (Option (ℕ × ℕ)))
  unfolding wait_stops bury stopping stop_all
  dbg_freeze_threads tid exclude ws s =
      wait_stops ws (stop_all tid exclude s.process.threads).queue (stopping tid exclude s) >>= λ r.
      bury (stop_all tid exclude s.process.threads).deadtids r.0 >>= λ s'. done (s', r.1)
