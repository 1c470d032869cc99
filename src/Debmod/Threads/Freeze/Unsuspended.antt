-- ===== src/Debmod/Threads/Freeze/Unsuspended.antt =====
-- A thread that runs is not suspended: freezing keeps it so.
use reverse_engineearing.Base.{
  ℕ, ◌≡◌, inl, inr, Bool, true, Option, List, [], ◌∷◌, arith, Bool-cases, All,
}
use reverse_engineearing.Debmod.Signals.{ThreadInfo}
use reverse_engineearing.Debmod.Threads.{
  Kernel, sent, Sent, no_process, refused, done, Session, is_running,
}
use reverse_engineearing.Debmod.Threads.Freeze.{
  in_scope, Stops, stop_all, stop_one, after_kill, dbg_freeze_threads,
}
use reverse_engineearing.Debmod.Threads.Freeze.Halted.{dbg_freeze_threads-All}

abbrev pub IsUnsuspended : ThreadInfo → Type 0
IsUnsuspended t = is_running t ≡ true → t.suspend_count ≡ 0

after_kill-Unsuspended :
    (k : Kernel) (t : ThreadInfo) (r : Sent) (rest : Stops)
    → IsUnsuspended t
    → All IsUnsuspended rest.threads
    → All IsUnsuspended (after_kill k t r rest).threads
unfolding after_kill
after_kill-Unsuspended k t sent rest h a = ((λ y. ground arith), a)
after_kill-Unsuspended k t no_process rest h a = (h, a)
after_kill-Unsuspended k t refused rest h a = (h, a)

stop_one-Unsuspended :
    (k : Kernel) (t : ThreadInfo) (rest : Stops)
    → IsUnsuspended t
    → All IsUnsuspended rest.threads
    → All IsUnsuspended (stop_one k t rest).threads
unfolding stop_one
stop_one-Unsuspended k t rest h a = elim (Bool-cases (is_running t)) [
  | inl y ↦ rw y (after_kill-Unsuspended k t _ _ h a)
  | inr n ↦ rw n ((λ y. cc), a)
]

stop_all-Unsuspended :
    (k : Kernel) (tid : ℕ) (exclude : Bool) (ts : List ThreadInfo)
    → All IsUnsuspended ts
    → All IsUnsuspended (stop_all k tid exclude ts).threads
unfolding stop_all
stop_all-Unsuspended k tid exclude [] a = tt
stop_all-Unsuspended k tid exclude (t ∷ ts) a =
    let ih = stop_all-Unsuspended k tid exclude ts a.1 in
    elim (Bool-cases (in_scope tid exclude t)) [
      | inl y ↦ rw y (stop_one-Unsuspended k t (stop_all k tid exclude ts) a.0 ih)
      | inr n ↦ rw n (a.0, ih)
    ]

pub dbg_freeze_threads-Unsuspended :
    (k : Kernel) (tid : ℕ) (exclude : Bool) (ws rest : List (Option (ℕ × ℕ))) (s s' : Session)
    → All IsUnsuspended s.process.threads
    → dbg_freeze_threads k tid exclude ws s ≡ done (s', rest)
    → All IsUnsuspended s'.process.threads
dbg_freeze_threads-Unsuspended k tid exclude ws rest s s' a =
    dbg_freeze_threads-All IsUnsuspended (λ t y. cc) (λ t new e off st p y. cc) k tid exclude ws
      rest s s' (stop_all-Unsuspended k tid exclude s.process.threads a)
