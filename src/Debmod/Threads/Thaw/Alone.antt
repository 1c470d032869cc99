-- ===== src/Debmod/Threads/Thaw/Alone.antt =====
-- Thawing one thread of the map that has several suspensions.
use reverse_engineearing.Base.{
  ℕ, ◌-◌, ◌<◌, ◌≡◌, refl, Bool, true, false, List, [], ◌∷◌, ◌++◌, append-nil, arith, ltb, ◌==◌,
}
use reverse_engineearing.Debmod.EventQueue.{Queue}
use reverse_engineearing.Debmod.Signals.{ThreadInfo}
use reverse_engineearing.Debmod.Threads.{Kernel, done, Session, is_running, with_threads}
use reverse_engineearing.Debmod.Threads.Freeze.Alone.{Others}
use reverse_engineearing.Debmod.Threads.Thaw.{
  Thawed, thawed, as_it_is, thawed_one, thaw_one, thaw_if, thaw_all, dbg_thaw_threads,
}

module _ (k : Kernel) (tid : ℕ) where
  abbrev nothing_resumed : List ThreadInfo → Queue → Thawed (List ThreadInfo)
  nothing_resumed ts q = record { threads = ts; queue = q; ok = true; calls = [] }

  thaw_all-Others :
      (pid : ℕ) (exited : Bool) (ts : List ThreadInfo) (q : Queue)
      → Others tid ts
      → thaw_all k pid exited tid false ts q ≡ done (nothing_resumed ts q)
  unfolding thaw_all thaw_if
  thaw_all-Others pid exited [] q o = refl
  thaw_all-Others pid exited (t ∷ ts) q o = rw (o.0, thaw_all-Others pid exited ts q o.1) refl

  thawed_alone :
      (pid : ℕ) (exited : Bool) (t : ThreadInfo) (q : Queue)
      → 1 < t.suspend_count
      → is_running t ≡ false
      → thaw_one k pid exited t q ≡ done (as_it_is k pid exited (thawed_one t) q)
  unfolding thaw_one thawed
  thawed_alone pid exited t q h off =
      let held : ltb 0 (t.suspend_count - 1) ≡ true = ground arith in rw (off, held) refl

  thaw_all_alone :
      (pid : ℕ) (exited : Bool) (front back : List ThreadInfo) (t : ThreadInfo) (q : Queue)
      → Others tid front
      → Others tid back
      → (t.tid == tid) ≡ true
      → 1 < t.suspend_count
      → is_running t ≡ false
      → thaw_all k pid exited tid false (front ++ (t ∷ back)) q
        ≡ done (nothing_resumed (front ++ (thawed_one t ∷ back)) q)
  unfolding thaw_all thaw_if
  thaw_all_alone pid exited [] back t q o o' h c off =
      rw (h, thawed_alone pid exited t q c off, thaw_all-Others pid exited back q o') refl
  thaw_all_alone pid exited (x ∷ front) back t q o o' h c off =
      rw (o.0, thaw_all_alone pid exited front back t q o.1 o' h c off) refl

  pub dbg_thaw_threads_alone :
      (s : Session) (front back : List ThreadInfo) (t : ThreadInfo)
      → Others tid front
      → Others tid back
      → (t.tid == tid) ≡ true
      → 1 < t.suspend_count
      → is_running t ≡ false
      → dbg_thaw_threads k tid false (with_threads (front ++ (t ∷ back)) s)
        ≡ done (true, with_threads (front ++ (thawed_one t ∷ back)) s)
  unfolding dbg_thaw_threads
  dbg_thaw_threads_alone s front back t o o' h c off =
      rw
        (
          thaw_all_alone s.process_handle s.process.exited front back t s.queue o o' h c off,
          append-nil,
        )
        refl
