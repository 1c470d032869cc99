-- ===== src/Debmod/Threads/Thaw/Unsuspended.antt =====
-- A thread that runs is not suspended: thawing keeps it so, and needs it.
use reverse_engineearing.Base.{
  ℕ, ◌≡◌, refl, inl, inr, Bool, true, false, Option, List, [], ◌∷◌, ◌++◌, arith, Bool-cases, All,
}
use reverse_engineearing.Debmod.EventQueue.{Queue}
use reverse_engineearing.Debmod.Signals.{ThreadInfo}
use reverse_engineearing.Debmod.Threads.{Kernel, done, Session, is_running, with_threads}
use reverse_engineearing.Debmod.Threads.Freeze.{in_scope, dbg_freeze_threads}
use reverse_engineearing.Debmod.Threads.Freeze.Unsuspended.{
  IsUnsuspended, dbg_freeze_threads-Unsuspended,
}
use reverse_engineearing.Debmod.Threads.Thaw.{
  Thawed, thawed, ahead, as_it_is, resume_one, not_resumed, thaw_one, thaw_if, thaw_all,
  dbg_thaw_threads,
}

module _ (k : Kernel) (pid : ℕ) (exited : Bool) where
  thawed-Unsuspended :
      (t : ThreadInfo) (q : Queue)
      → is_running t ≡ false
      → IsUnsuspended (thawed k pid exited t q).threads
  unfolding thawed resume_one not_resumed
  thawed-Unsuspended t q off y = ground arith

  thaw_if-Unsuspended :
      (b : Bool) (t : ThreadInfo) (q : Queue)
      → IsUnsuspended t
      → (r : Thawed ThreadInfo) × (thaw_if k pid exited b t q ≡ done r) × IsUnsuspended r.threads
  unfolding thaw_if thaw_one
  thaw_if-Unsuspended false t q h = (as_it_is k pid exited t q, refl, h)
  thaw_if-Unsuspended true t q h = elim (Bool-cases (is_running t)) [
    | inl y ↦ (as_it_is k pid exited t q, rw (y, h y) refl, h)
    | inr n ↦ (thawed k pid exited t q, rw n refl, thawed-Unsuspended t q n)
  ]

  thaw_all-Unsuspended :
      (tid : ℕ) (exclude : Bool) (ts : List ThreadInfo) (q : Queue)
      → All IsUnsuspended ts
      → (r : Thawed (List ThreadInfo)) × (thaw_all k pid exited tid exclude ts q ≡ done r)
        × All IsUnsuspended r.threads
  unfolding thaw_all
  thaw_all-Unsuspended tid exclude [] q a = (_, refl, tt)
  thaw_all-Unsuspended tid exclude (t ∷ ts) q a =
      let (one, p, h) = thaw_if-Unsuspended (in_scope tid exclude t) t q a.0 in
      let (rest, p2, h2) = thaw_all-Unsuspended tid exclude ts one.queue a.1 in
      (ahead k pid exited one rest, rw (p, p2) refl, (h, h2))

-- `dbg_thaw_threads` never fails while no running thread is suspended.
pub dbg_thaw_threads-Unsuspended :
    (k : Kernel) (tid : ℕ) (exclude : Bool) (s : Session)
    → All IsUnsuspended s.process.threads
    → (ok : Bool) × (s' : Session) × (dbg_thaw_threads k tid exclude s ≡ done (ok, s'))
      × All IsUnsuspended s'.process.threads
unfolding dbg_thaw_threads
dbg_thaw_threads-Unsuspended k tid exclude s a =
    let (r, p, h) =
      thaw_all-Unsuspended k s.process_handle s.process.exited tid exclude s.process.threads s.queue
        a in
    (
      r.ok,
      record (with_threads r.threads s) { queue = r.queue; calls = s.calls ++ r.calls },
      rw p refl,
      h,
    )

-- That no running thread is suspended is kept by freezing, and by thawing, which then never fails its check:
-- whatever signals arrive between, and for the same threads or others.
pub freeze_and_thaw-Unsuspended :
    (k k' : Kernel) (tid tid' : ℕ) (exclude exclude' : Bool) (ws rest : List (Option (ℕ × ℕ)))
    (s s' : Session)
    → All IsUnsuspended s.process.threads
    → dbg_freeze_threads k tid exclude ws s ≡ done (s', rest)
    → All IsUnsuspended s'.process.threads
      × ((ok : Bool) × (s2 : Session) × (dbg_thaw_threads k' tid' exclude' s' ≡ done (ok, s2))
          × All IsUnsuspended s2.process.threads)
freeze_and_thaw-Unsuspended k k' tid tid' exclude exclude' ws rest s s' a e =
    let b = dbg_freeze_threads-Unsuspended k tid exclude ws rest s s' a e in
    (b, dbg_thaw_threads-Unsuspended k' tid' exclude' s' b)
