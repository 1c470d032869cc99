-- ===== src/Debmod/Threads/Thaw/Requests.antt =====
-- Which threads the kernel is asked to resume, and with which signal.
use reverse_engineearing.Base.{
  ℕ, ◌≡◌, refl, sym, ap, inl, inr, Bool, true, not, ◌&&◌, ◌||◌, List, [], ◌∷◌, ◌++◌, arith,
  if◌then◌else◌, Bool-cases,
}
use mathlib.Core.Path.{subst}
use reverse_engineearing.Debmod.EventQueue.{Queue}
use reverse_engineearing.Debmod.Signals.{ThreadInfo}
use reverse_engineearing.Debmod.Threads.{
  Kernel, Call, steps, continues, done, Session, is_state_running, with_threads,
}
use reverse_engineearing.Debmod.Threads.Freeze.{in_scope}
use reverse_engineearing.Debmod.Threads.Freeze.Waiting.{>>=-eq-done}
use reverse_engineearing.Debmod.Threads.Thaw.{
  Thawed, thawed, ahead, as_it_is, resume_one, thaw_one, thaw_if, thaw_all, dbg_thaw_threads,
  is_dying,
}

-- A thread whose state becomes RUNNING, or one that was about to exit and is gone.
abbrev pub is_resumed : ThreadInfo → ThreadInfo → Bool
is_resumed t u =
    is_state_running u.state && not (is_state_running t.state)
    || is_dying t.state && not (is_dying u.state)

-- The request for it, which hands over the signal that the thread had.
abbrev pub request_of : ThreadInfo → ThreadInfo → List Call
request_of t u =
    if is_resumed t u
    then (if t.single_step then steps t.tid t.child_signum else continues t.tid t.child_signum) ∷ []
    else []

-- The requests for the threads of a map, in its order.
abbrev pub requests_of : List ThreadInfo → List ThreadInfo → List Call
requests_of [] us = []
requests_of (t ∷ ts) [] = []
requests_of (t ∷ ts) (u ∷ us) = request_of t u ++ requests_of ts us

request_of_same : (t : ThreadInfo) → request_of t t ≡ []
request_of_same t = ground arith

module _ (k : Kernel) (pid : ℕ) (exited : Bool) (resumes : (t : ℕ) → k.cont t ≡ true) where
  thaw_one-calls :
      (t : ThreadInfo) (q : Queue) (r : Thawed ThreadInfo)
      → thaw_one k pid exited t q ≡ done r
      → r.calls ≡ request_of t r.threads
  unfolding thaw_one thawed resume_one
  thaw_one-calls t q r e = ground (arith, resumes t.tid)

  thaw_if-calls :
      (tid : ℕ) (exclude : Bool) (t : ThreadInfo) (q : Queue) (r : Thawed ThreadInfo)
      → thaw_if k pid exited (in_scope tid exclude t) t q ≡ done r
      → r.calls ≡ request_of t r.threads
  unfolding thaw_if
  thaw_if-calls tid exclude t q r e = elim (Bool-cases (in_scope tid exclude t)) [
    | inl y ↦ thaw_one-calls t q r (rw (y, thaw_if) at e)
    | inr n ↦
        let same : as_it_is k pid exited t q ≡ r = ground (arith, rw (n, thaw_if) at e) in
        subst (λ (x : Thawed ThreadInfo). x.calls ≡ request_of t x.threads) same
          (sym (request_of_same t))
  ]

  thaw_all-calls :
      (tid : ℕ) (exclude : Bool) (ts : List ThreadInfo) (q : Queue) (r : Thawed (List ThreadInfo))
      → thaw_all k pid exited tid exclude ts q ≡ done r
      → r.calls ≡ requests_of ts r.threads
  unfolding thaw_all
  thaw_all-calls tid exclude [] q r e = ground arith
  thaw_all-calls tid exclude (t ∷ ts) q r e =
      let (one, p, h) = >>=-eq-done (thaw_if k pid exited (in_scope tid exclude t) t q) _ e in
      let (rest, p2, h2) = >>=-eq-done (thaw_all k pid exited tid exclude ts one.queue) _ h in
      let head = thaw_if-calls tid exclude t q one p in
      let tail = thaw_all-calls tid exclude ts one.queue rest p2 in
      let same : ahead k pid exited one rest ≡ r = ground arith in
      subst (λ (x : Thawed (List ThreadInfo)). x.calls ≡ requests_of (t ∷ ts) x.threads) same
        (rw (head, tail) refl)

-- Where the kernel resumes every thread that it is asked to, `dbg_thaw_threads` asks it for the threads that it resumes
-- and no others, in their order, each with the signal that it had.
pub dbg_thaw_threads-calls :
    (k : Kernel) (tid : ℕ) (exclude : Bool) (s s' : Session) (ok : Bool)
    → ((t : ℕ) → k.cont t ≡ true)
    → dbg_thaw_threads k tid exclude s ≡ done (ok, s')
    → s'.calls ≡ s.calls ++ requests_of s.process.threads s'.process.threads
unfolding dbg_thaw_threads
dbg_thaw_threads-calls k tid exclude s s' ok resumes e =
    let (r, p, h) =
      >>=-eq-done
        (thaw_all k s.process_handle s.process.exited tid exclude s.process.threads s.queue) _ e in
    let same : record (with_threads r.threads s) { queue = r.queue; calls = s.calls ++ r.calls }
        ≡ s' =
      ground arith in
    subst (λ (x : Session). x.calls ≡ s.calls ++ requests_of s.process.threads x.process.threads)
      same
      (ap (◌++◌ s.calls) (
        thaw_all-calls k s.process_handle s.process.exited resumes tid exclude s.process.threads
          s.queue r p))
