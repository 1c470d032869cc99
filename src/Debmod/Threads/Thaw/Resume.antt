-- ===== src/Debmod/Threads/Thaw/Resume.antt =====
-- Which threads run after a thaw.
use reverse_engineearing.Base.{
  ℕ, ◌≤◌, ◌≡◌, refl, ◌∙◌, ◌↔◌, ◌⊎◌, inl, inr, Bool, true, false, List, [], ◌∷◌, ◌++◌, arith,
  Bool-cases,
}
use mathlib.Core.Path.{subst}
use reverse_engineearing.Debmod.EventQueue.{Queue}
use reverse_engineearing.Debmod.Signals.{ThreadInfo, stopped}
use reverse_engineearing.Debmod.Threads.{Kernel, done, Session, is_running, with_threads}
use reverse_engineearing.Debmod.Threads.Freeze.{in_scope}
use reverse_engineearing.Debmod.Threads.Freeze.Waiting.{>>=-eq-done}
use reverse_engineearing.Debmod.Threads.Thaw.{
  Thawed, thawed, ahead, as_it_is, resume_one, thaw_one, thaw_if, thaw_all, dbg_thaw_threads,
}

-- Nothing is left to hold the thread when one suspension is taken off it.
pub record IsReady (may_run exited : Bool) (t : ThreadInfo) : Type 0 where
  pub stopped_now : t.state ≡ stopped
  pub last_suspension : t.suspend_count ≤ 1
  pub not_by_user : t.user_suspend ≡ 0
  pub no_stop_due : t.waiting_sigstop ≡ false
  pub no_signal : t.got_pending_status ≡ false
  pub allowed : may_run ≡ true
  pub alive : exited ≡ false

-- The two maps of threads, thread by thread.
abbrev pub Pairwise :
    (ThreadInfo → ThreadInfo → Type 0) → List ThreadInfo → List ThreadInfo → Type 0
Pairwise R [] [] = Unit {0}
Pairwise R [] (u ∷ us) = ⊥
Pairwise R (t ∷ ts) [] = ⊥
Pairwise R (t ∷ ts) (u ∷ us) = R t u × Pairwise R ts us

-- The threads that run are those that ran and those of the thaw that were ready.
abbrev pub Resumes : Bool → Bool → ℕ → Bool → ThreadInfo → ThreadInfo → Type 0
Resumes may_run exited tid exclude t u =
    (is_running u ≡ true)
    ↔ ((is_running t ≡ true) ⊎ ((in_scope tid exclude t ≡ true) × IsReady may_run exited t))

module _ (k : Kernel) (pid : ℕ) (exited : Bool) (resumes : (t : ℕ) → k.cont t ≡ true) where
  thaw_one-queue :
      (t : ThreadInfo) (q : Queue) (r : Thawed ThreadInfo)
      → thaw_one k pid exited t q ≡ done r
      → r.queue ≡ q
  unfolding thaw_one thawed resume_one
  thaw_one-queue t q r e = ground (arith, resumes t.tid)

  thaw_one-runs :
      (t : ThreadInfo) (q : Queue) (r : Thawed ThreadInfo)
      → thaw_one k pid exited t q ≡ done r
      → is_running r.threads ≡ true
      → (is_running t ≡ true) ⊎ IsReady q.may_run exited t
  unfolding thaw_one thawed resume_one
  thaw_one-runs t q r e h = elim (Bool-cases (is_running t)) [
    | inl y ↦ inl y
    | inr n ↦ inr (ground (arith, resumes t.tid))
  ]

  thaw_one-ready :
      (t : ThreadInfo) (q : Queue) (r : Thawed ThreadInfo)
      → thaw_one k pid exited t q ≡ done r
      → (is_running t ≡ true) ⊎ IsReady q.may_run exited t
      → is_running r.threads ≡ true
  unfolding thaw_one thawed resume_one
  thaw_one-ready t q r e (inl y) = ground (arith, resumes t.tid)
  thaw_one-ready t q r e (inr y) = ground (arith, resumes t.tid)

  thaw_if-Resumes :
      (tid : ℕ) (exclude : Bool) (t : ThreadInfo) (q : Queue) (r : Thawed ThreadInfo)
      → thaw_if k pid exited (in_scope tid exclude t) t q ≡ done r
      → Resumes q.may_run exited tid exclude t r.threads × (r.queue ≡ q)
  unfolding thaw_if
  thaw_if-Resumes tid exclude t q r e = elim (Bool-cases (in_scope tid exclude t)) [
    | inl y ↦
        let one : thaw_one k pid exited t q ≡ done r = rw (y, thaw_if) at e in
        let back : (is_running t ≡ true)
              ⊎ ((in_scope tid exclude t ≡ true) × IsReady q.may_run exited t)
            → is_running r.threads ≡ true =
          (λ c. thaw_one-ready t q r one (elim c [ inl a ↦ inl a | inr b ↦ inr b.1 ])) in
        (
          (λ h. elim (thaw_one-runs t q r one h) [ inl a ↦ inl a | inr b ↦ inr (y, b) ], back),
          thaw_one-queue t q r one,
        )
    | inr n ↦
        let same : as_it_is k pid exited t q ≡ r = ground (arith, rw (n, thaw_if) at e) in
        subst
          (λ (x : Thawed ThreadInfo).
            Resumes q.may_run exited tid exclude t x.threads × (x.queue ≡ q))
          same (((λ h. inl h), (λ c. elim c [ inl a ↦ a | inr b ↦ cc ])), refl)
  ]

  thaw_all-Resumes :
      (tid : ℕ) (exclude : Bool) (ts : List ThreadInfo) (q : Queue) (r : Thawed (List ThreadInfo))
      → thaw_all k pid exited tid exclude ts q ≡ done r
      → Pairwise (Resumes q.may_run exited tid exclude) ts r.threads × (r.queue ≡ q)
  unfolding thaw_all
  thaw_all-Resumes tid exclude [] q r e =
      let same : record { threads = []; queue = q; ok = true; calls = [] } ≡ r = ground arith in
      subst
        (λ (x : Thawed (List ThreadInfo)).
          Pairwise (Resumes q.may_run exited tid exclude) [] x.threads × (x.queue ≡ q))
        same (tt, refl)
  thaw_all-Resumes tid exclude (t ∷ ts) q r e =
      let (one, p, h) = >>=-eq-done (thaw_if k pid exited (in_scope tid exclude t) t q) _ e in
      let (rest, p2, h2) = >>=-eq-done (thaw_all k pid exited tid exclude ts one.queue) _ h in
      let (head, same_queue) = thaw_if-Resumes tid exclude t q one p in
      let (tail, last_queue) = thaw_all-Resumes tid exclude ts one.queue rest p2 in
      let same : ahead k pid exited one rest ≡ r = ground arith in
      subst
        (λ (x : Thawed (List ThreadInfo)).
          Pairwise (Resumes q.may_run exited tid exclude) (t ∷ ts) x.threads × (x.queue ≡ q))
        same
        (
          (
            head,
            subst (λ (x : Queue). Pairwise (Resumes x.may_run exited tid exclude) ts rest.threads)
                same_queue tail,
          ),
          last_queue ∙ same_queue,
        )

-- Where the kernel resumes every thread that it is asked to, the threads that run after `dbg_thaw_threads` are those that
-- ran before, and those of the thaw that were stopped with no other suspension left, no signal to handle and none due,
-- while the process lives and may run. The queue of events is as before.
pub dbg_thaw_threads-Resumes :
    (k : Kernel) (tid : ℕ) (exclude : Bool) (s s' : Session) (ok : Bool)
    → ((t : ℕ) → k.cont t ≡ true)
    → dbg_thaw_threads k tid exclude s ≡ done (ok, s')
    → Pairwise
        (Resumes s.queue.may_run s.process.exited tid exclude)
        s.process.threads
        s'.process.threads
      × (s'.queue ≡ s.queue)
unfolding dbg_thaw_threads
dbg_thaw_threads-Resumes k tid exclude s s' ok resumes e =
    let (r, p, h) =
      >>=-eq-done
        (thaw_all k s.process_handle s.process.exited tid exclude s.process.threads s.queue) _ e in
    let same : record (with_threads r.threads s) { queue = r.queue; calls = s.calls ++ r.calls }
        ≡ s' =
      ground arith in
    subst
      (λ (x : Session).
        Pairwise (Resumes s.queue.may_run s.process.exited tid exclude) s.process.threads
          x.process.threads
        × (x.queue ≡ s.queue))
      same
      (thaw_all-Resumes k s.process_handle s.process.exited resumes tid exclude s.process.threads
        s.queue r p)

pub dbg_thaw_threads-in_event :
    (k : Kernel) (tid : ℕ) (exclude : Bool) (s s' : Session) (ok : Bool)
    → dbg_thaw_threads k tid exclude s ≡ done (ok, s')
    → s'.in_event ≡ s.in_event
unfolding dbg_thaw_threads
dbg_thaw_threads-in_event k tid exclude s s' ok e =
    let (r, p, h) =
      >>=-eq-done
        (thaw_all k s.process_handle s.process.exited tid exclude s.process.threads s.queue) _ e in
    ground arith
