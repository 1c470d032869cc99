-- ===== src/Debmod/Threads/Freeze/Waiting.antt =====
-- What the wait for signals keeps.
use reverse_engineearing.Base.{
  ℕ, ◌≡◌, refl, sym, ap, ◌∙◌, ◌⊎◌, inl, inr, false, ◌&&◌, Option, none, some, List, [], ◌∷◌, arith,
  ◌==◌, Bool-cases, Option-cases,
}
use mathlib.Core.Path.{subst}
use reverse_engineearing.Debmod.Signals.{
  ThreadInfo, stopped, Process, stores, find_thread, put_thread, contains, visit,
}
use reverse_engineearing.Debmod.Signals.Count.{find_thread-tid}
use reverse_engineearing.Debmod.Signals.Changes.{visit-threads, IsStoredIn}
use reverse_engineearing.Debmod.Threads.{
  Kernel, Run, done, waits, fails, ◌>>=◌, Session, is_running, store_pending_signal, visit_own,
  visit_after, unclaimed,
}
use reverse_engineearing.Debmod.Threads.Freeze.{receive, has_stopped, wait_stops}
use reverse_engineearing.Debmod.UpdateBpts.Linux.{erase_ea}

pub >>=-eq-done {ℓ κ} :
    {A : Type ℓ} {B : Type κ} (m : Run A) (f : A → Run B) {b : B}
    → (m >>= f) ≡ done b
    → (a : A) × (m ≡ done a) × (f a ≡ done b)
>>=-eq-done (done a) f h = (a, refl, h)
>>=-eq-done waits f h = cc
>>=-eq-done fails f h = cc

store_pending_signal-process :
    (k : Kernel) (pid status : ℕ) (s s' : Session)
    → store_pending_signal k pid status s ≡ done s'
    → (s'.process ≡ s.process) ⊎ (visit k.status pid status s.process ≡ stores s'.process)
unfolding store_pending_signal visit_own visit_after unclaimed
store_pending_signal-process k pid status s s' e = ground arith

-- A property of the map of threads that a change of one thread keeps which leaves the thread's suspensions
-- alone and not running.
module _ {ℓ} (L : List ThreadInfo → Type ℓ)
    (keep : (ts : List ThreadInfo) (t new : ThreadInfo)
      → find_thread new.tid ts ≡ some t
      → new.suspend_count ≡ t.suspend_count
      → is_running new ≡ false
      → (new.state ≡ stopped) ⊎ (new.state ≡ t.state)
      → L ts
      → L (put_thread new ts)) where
  stored-keeps :
      (ts : List ThreadInfo) (pid : ℕ) (t new : ThreadInfo)
      → find_thread pid ts ≡ some t
      → IsStoredIn t new
      → L ts
      → L (put_thread new ts)
  stored-keeps ts pid t new q (name, count, how) l =
      let id : new.tid ≡ pid = name ∙ find_thread-tid pid ts t q in
      keep ts t new (ap (λ (n : ℕ). find_thread n ts) id ∙ q) count (ground arith)
        (elim how [ inl a ↦ inl a | inr b ↦ inr b.1 ]) l

  store-keeps :
      (k : Kernel) (pid status : ℕ) (s s' : Session)
      → store_pending_signal k pid status s ≡ done s'
      → L s.process.threads
      → L s'.process.threads
  store-keeps k pid status s s' e l = elim (store_pending_signal-process k pid status s s' e) [
    | inl same ↦ subst (λ (p : Process). L p.threads) (sym same) l
    | inr v ↦
        let (t, new, q, r, i) = visit-threads k.status pid status s.process s'.process v in
        subst L (sym r) (stored-keeps s.process.threads pid t new q i l)
  ]

  has_stopped-keeps :
      (tid : ℕ) (s : Session) → L s.process.threads → L (has_stopped tid s).process.threads
  unfolding has_stopped
  has_stopped-keeps tid s l = elim (Option-cases (find_thread tid s.process.threads)) [
    | inl q ↦ rw (q, has_stopped) l
    | inr (t, q) ↦
        rw (q, has_stopped)
          (stored-keeps s.process.threads tid t
            (record t { waiting_sigstop = false; state = stopped }) q (refl, refl, inl refl) l)
  ]

  receive-keeps :
      (k : Kernel) (stid status : ℕ) (queue : List ℕ) (s s' : Session)
      → receive k stid status queue s ≡ done s'
      → L s.process.threads
      → L s'.process.threads
  unfolding receive
  receive-keeps k stid status queue s s' e l =
      elim (Bool-cases (
        contains stid queue
        && (k.status.is_stopped status && k.status.stop_sig status == k.status.sigstop))) [
          | inl y ↦
              let same : has_stopped stid s ≡ s' = ground (arith, y) in
              subst (λ (r : Session). L r.process.threads) same (has_stopped-keeps stid s l)
          | inr n ↦ store-keeps k stid status s s' (rw n at e) l
        ]

  pub wait_stops-keeps :
      (k : Kernel) (ws : List (Option (ℕ × ℕ))) (queue : List ℕ) (s : Session)
      (r : Session × List (Option (ℕ × ℕ)))
      → wait_stops k ws queue s ≡ done r
      → L s.process.threads
      → L r.0.process.threads
  unfolding wait_stops
  wait_stops-keeps k [] [] s r e l =
      let same : s ≡ r.0 = ground arith in subst (λ (x : Session). L x.process.threads) same l
  wait_stops-keeps k (w ∷ ws) [] s r e l =
      let same : s ≡ r.0 = ground arith in subst (λ (x : Session). L x.process.threads) same l
  wait_stops-keeps k [] (q ∷ qs) s r e l = cc
  wait_stops-keeps k (none ∷ ws) (q ∷ qs) s r e l = wait_stops-keeps k ws (q ∷ qs) s r e l
  wait_stops-keeps k (some (stid, status) ∷ ws) (q ∷ qs) s r e l =
      let (s', p, h) =
        >>=-eq-done (receive k stid status (q ∷ qs) s) (wait_stops k ws (erase_ea stid (q ∷ qs)))
          e in
      wait_stops-keeps k ws (erase_ea stid (q ∷ qs)) s' r h
        (receive-keeps k stid status (q ∷ qs) s s' p l)
