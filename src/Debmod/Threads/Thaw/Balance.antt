-- ===== src/Debmod/Threads/Thaw/Balance.antt =====
-- Freezing and thawing are the inverse of one another on the suspensions of threads.
use reverse_engineearing.Base.{
  ℕ, ◌+◌, ◌-◌, ◌≡◌, refl, inl, inr, Bool, true, false, Option, List, [], ◌∷◌, ◌++◌, arith, of_bool,
  Bool-cases, All, All-mono,
}
use reverse_engineearing.Debmod.EventQueue.{Queue}
use reverse_engineearing.Debmod.Signals.{ThreadInfo}
use reverse_engineearing.Debmod.Threads.{Kernel, sent, done, Session, is_running, with_threads}
use reverse_engineearing.Debmod.Threads.Freeze.{in_scope, dbg_freeze_threads}
use reverse_engineearing.Debmod.Threads.Freeze.Suspensions.{
  suspensions, suspended, dbg_freeze_threads-suspensions,
}
use reverse_engineearing.Debmod.Threads.Freeze.Halted.{dbg_freeze_threads-halts}
use reverse_engineearing.Debmod.Threads.Thaw.{
  Thawed, thawed, ahead, as_it_is, resume_one, not_resumed, thaw_one, thaw_if, thaw_all,
  dbg_thaw_threads,
}

-- Thawing takes one suspension off each thread that does not run, and never fails.
module _ (k : Kernel) (pid : ℕ) (exited : Bool) where
  thawed-suspensions :
      (t : ThreadInfo) (q : Queue)
      → (((thawed k pid exited t q).threads.tid ≡ t.tid)
          × ((thawed k pid exited t q).threads.suspend_count ≡ t.suspend_count - 1))
  unfolding thawed resume_one not_resumed
  thawed-suspensions t q = ground arith

  -- `us` are the threads before they were frozen.
  thaw_all-suspensions :
      (tid : ℕ) (exclude : Bool) (ts us : List ThreadInfo) (q : Queue)
      → All (λ t. in_scope tid exclude t ≡ true → is_running t ≡ false) ts
      → suspensions ts ≡ suspended tid exclude us
      → (r : Thawed (List ThreadInfo)) × (thaw_all k pid exited tid exclude ts q ≡ done r)
        × (suspensions r.threads ≡ suspensions us)
  unfolding thaw_all
  thaw_all-suspensions tid exclude [] [] q a e = (_, refl, refl)
  thaw_all-suspensions tid exclude [] (u ∷ us) q a e = cc
  thaw_all-suspensions tid exclude (t ∷ ts) [] q a e = cc
  thaw_all-suspensions tid exclude (t ∷ ts) (u ∷ us) q a e =
      let name : t.tid ≡ u.tid = ground arith in
      let count : t.suspend_count ≡ u.suspend_count + of_bool (in_scope tid exclude u) =
        ground arith in
      let tail : suspensions ts ≡ suspended tid exclude us = ground arith in
      elim (Bool-cases (in_scope tid exclude t)) [
        | inl y ↦
            let one = thawed k pid exited t q in
            let (r, p, h) = thaw_all-suspensions tid exclude ts us one.queue a.1 tail in
            let (same_tid, less) = thawed-suspensions t q in
            (ahead k pid exited one r, rw (y, thaw_if, thaw_one, a.0 y, p) refl, ground arith)
        | inr n ↦
            let (r, p, h) = thaw_all-suspensions tid exclude ts us q a.1 tail in
            (
              ahead k pid exited (as_it_is k pid exited t q) r,
              rw (n, thaw_if, p) refl,
              ground arith,
            )
      ]

-- Threads that `dbg_freeze_threads` has stopped are given back by `dbg_thaw_threads` with as many suspensions as each
-- thread had, in whatever order the signals arrived, given that SIGSTOP can be sent to every thread.
pub dbg_thaw_threads-dbg_freeze_threads :
    (k k' : Kernel) (tid : ℕ) (exclude : Bool) (ws rest : List (Option (ℕ × ℕ))) (s s' : Session)
    → ((t : ℕ) → k.kill t k.status.sigstop ≡ sent)
    → dbg_freeze_threads k tid exclude ws s ≡ done (s', rest)
    → (ok : Bool) × (s2 : Session) × (dbg_thaw_threads k' tid exclude s' ≡ done (ok, s2))
      × (suspensions s2.process.threads ≡ suspensions s.process.threads)
unfolding dbg_thaw_threads
dbg_thaw_threads-dbg_freeze_threads k k' tid exclude ws rest s s' answers e =
    let halted = dbg_freeze_threads-halts k tid exclude ws rest s s' e in
    let (r, p, h) =
      thaw_all-suspensions k' s'.process_handle s'.process.exited tid exclude s'.process.threads
        s.process.threads s'.queue
        (All-mono _ _ (λ t f g. f g (answers t.tid)) s'.process.threads halted)
        (dbg_freeze_threads-suspensions k answers tid exclude ws rest s s' e) in
    (
      r.ok,
      record (with_threads r.threads s') { queue = r.queue; calls = s'.calls ++ r.calls },
      rw p refl,
      h,
    )
