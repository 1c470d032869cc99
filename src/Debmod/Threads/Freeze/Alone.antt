-- ===== src/Debmod/Threads/Freeze/Alone.antt =====
-- Freezing one thread of the map that does not run.
use reverse_engineearing.Base.{
  ℕ, ◌≡◌, refl, ap, true, false, Option, some, List, [], ◌∷◌, ◌++◌, append-nil, arith, ◌==◌, All,
}
use reverse_engineearing.Debmod.Signals.{ThreadInfo, find_thread, put_thread}
use reverse_engineearing.Debmod.Threads.{Kernel, done, Session, is_running, with_threads}
use reverse_engineearing.Debmod.Threads.Freeze.{
  Stops, frozen_one, stop_all, stop_one, wait_stops, stopping, bury, dbg_freeze_threads,
}

-- No thread of the list has the number.
abbrev pub Others : ℕ → List ThreadInfo → Type 0
Others tid = All (λ (x : ThreadInfo). (x.tid == tid) ≡ false)

pub find_thread_alone :
    (tid : ℕ) (front back : List ThreadInfo) (t : ThreadInfo)
    → Others tid front
    → (t.tid == tid) ≡ true
    → find_thread tid (front ++ (t ∷ back)) ≡ some t
unfolding find_thread
find_thread_alone tid [] back t o h = rw h
find_thread_alone tid (x ∷ front) back t o h = rw o.0 (find_thread_alone tid front back t o.1 h)

pub put_thread_alone :
    (front back : List ThreadInfo) (t new : ThreadInfo)
    → Others new.tid front
    → (t.tid == new.tid) ≡ true
    → put_thread new (front ++ (t ∷ back)) ≡ front ++ (new ∷ back)
unfolding put_thread
put_thread_alone [] back t new o h = rw h
put_thread_alone (x ∷ front) back t new o h =
    rw o.0 (ap (◌∷◌ x) (put_thread_alone front back t new o.1 h))

module _ (k : Kernel) (tid : ℕ) where
  abbrev nothing_sent : List ThreadInfo → Stops
  nothing_sent ts = record { threads = ts; queue = []; deadtids = []; calls = [] }

  stop_all-Others :
      (ts : List ThreadInfo) → Others tid ts → stop_all k tid false ts ≡ nothing_sent ts
  unfolding stop_all
  stop_all-Others [] o = refl
  stop_all-Others (t ∷ ts) o = rw o.0 (ground (arith, stop_all-Others ts o.1))

  stop_all_alone :
      (front back : List ThreadInfo) (t : ThreadInfo)
      → Others tid front
      → Others tid back
      → (t.tid == tid) ≡ true
      → is_running t ≡ false
      → stop_all k tid false (front ++ (t ∷ back)) ≡ nothing_sent (front ++ (frozen_one t ∷ back))
  unfolding stop_all stop_one
  stop_all_alone [] back t o o' h off = rw (h, off) (ground (arith, stop_all-Others back o'))
  stop_all_alone (x ∷ front) back t o o' h off =
      rw o.0 (ground (arith, stop_all_alone front back t o.1 o' h off))

  wait_stops_none : (ws : List (Option (ℕ × ℕ))) (s : Session) → wait_stops k ws [] s ≡ done (s, ws)
  unfolding wait_stops
  wait_stops_none [] s = refl
  wait_stops_none (w ∷ ws) s = refl

  pub dbg_freeze_threads_alone :
      (ws : List (Option (ℕ × ℕ))) (s : Session) (front back : List ThreadInfo) (t : ThreadInfo)
      → Others tid front
      → Others tid back
      → (t.tid == tid) ≡ true
      → is_running t ≡ false
      → dbg_freeze_threads k tid false ws (with_threads (front ++ (t ∷ back)) s)
        ≡ done (with_threads (front ++ (frozen_one t ∷ back)) s, ws)
  unfolding dbg_freeze_threads stopping bury
  dbg_freeze_threads_alone ws s front back t o o' h off =
      rw (stop_all_alone front back t o o' h off, append-nil, wait_stops_none) refl
