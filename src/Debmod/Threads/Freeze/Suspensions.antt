-- ===== src/Debmod/Threads/Freeze/Suspensions.antt =====
-- Freezing adds one suspension to each thread.
use reverse_engineearing.Base.{
  ℕ, ◌+◌, ◌≡◌, refl, ap, ◌∙◌, inl, inr, Bool, Option, some, List, [], ◌∷◌, arith, ◌==◌, of_bool,
  Bool-cases,
}
use mathlib.Core.Path.{subst}
use reverse_engineearing.Debmod.Signals.{ThreadInfo, find_thread, put_thread}
use reverse_engineearing.Debmod.Threads.{Kernel, sent, done, Session, is_running}
use reverse_engineearing.Debmod.Threads.Freeze.{
  Stops, in_scope, stop_all, stop_one, after_kill, wait_stops, bury, stopping, dbg_freeze_threads,
}
use reverse_engineearing.Debmod.Threads.Freeze.Waiting.{>>=-eq-done, wait_stops-keeps}

-- The threads with their suspensions.
abbrev pub suspensions : List ThreadInfo → List (ℕ × ℕ)
suspensions [] = []
suspensions (t ∷ ts) = (t.tid, t.suspend_count) ∷ suspensions ts

-- One more for each thread of the freeze.
abbrev pub suspended : ℕ → Bool → List ThreadInfo → List (ℕ × ℕ)
suspended tid exclude [] = []
suspended tid exclude (t ∷ ts) =
    (t.tid, t.suspend_count + of_bool (in_scope tid exclude t)) ∷ suspended tid exclude ts

suspensions-put_thread :
    (ts : List ThreadInfo) (t new : ThreadInfo)
    → find_thread new.tid ts ≡ some t
    → new.suspend_count ≡ t.suspend_count
    → suspensions (put_thread new ts) ≡ suspensions ts
unfolding find_thread put_thread
suspensions-put_thread [] t new e c = cc
suspensions-put_thread (x ∷ ts) t new e c = elim (Bool-cases (x.tid == new.tid)) [
  | inl hit ↦ ground arith
  | inr miss ↦ ground (arith, suspensions-put_thread ts t new)
]

module _ (k : Kernel) (answers : (t : ℕ) → k.kill t k.status.sigstop ≡ sent) where
  stop_one-suspensions :
      (t : ThreadInfo) (rest : Stops)
      → (suspensions (stop_one k t rest).threads
          ≡ (t.tid, t.suspend_count + 1) ∷ suspensions rest.threads)
        × ((stop_one k t rest).deadtids ≡ rest.deadtids)
  unfolding stop_one after_kill
  stop_one-suspensions t rest = elim (Bool-cases (is_running t)) [
    | inl y ↦ rw (y, answers t.tid) (refl, refl)
    | inr n ↦ rw n (refl, refl)
  ]

  stop_all-suspensions :
      (tid : ℕ) (exclude : Bool) (ts : List ThreadInfo)
      → (suspensions (stop_all k tid exclude ts).threads ≡ suspended tid exclude ts)
        × ((stop_all k tid exclude ts).deadtids ≡ [])
  unfolding stop_all
  stop_all-suspensions tid exclude [] = (refl, refl)
  stop_all-suspensions tid exclude (t ∷ ts) =
      let ih = stop_all-suspensions tid exclude ts in
      let one = stop_one-suspensions t (stop_all k tid exclude ts) in
      elim (Bool-cases (in_scope tid exclude t)) [
        | inl y ↦
            rw y (
              one.0 ∙ ap (λ (r : List (ℕ × ℕ)). (t.tid, t.suspend_count + 1) ∷ r) ih.0,
              one.1 ∙ ih.1,
            )
        | inr n ↦ rw n (ground (arith, ih), ih.1)
      ]

  pub dbg_freeze_threads-suspensions :
      (tid : ℕ) (exclude : Bool) (ws rest : List (Option (ℕ × ℕ))) (s s' : Session)
      → dbg_freeze_threads k tid exclude ws s ≡ done (s', rest)
      → suspensions s'.process.threads ≡ suspended tid exclude s.process.threads
  unfolding dbg_freeze_threads stopping bury
  dbg_freeze_threads-suspensions tid exclude ws rest s s' e =
      let stops = stop_all k tid exclude s.process.threads in
      let all = stop_all-suspensions tid exclude s.process.threads in
      let (r, p, h) = >>=-eq-done (wait_stops k ws stops.queue (stopping k tid exclude s)) _ e in
      let same : r.0 ≡ s' = ground (arith, all.1) in
      let waited =
        wait_stops-keeps (λ ts. suspensions ts ≡ suspended tid exclude s.process.threads)
          (λ ts t new q c off st l. suspensions-put_thread ts t new q c ∙ l) k ws stops.queue
          (stopping k tid exclude s) r p all.0 in
      subst
        (λ (x : Session). suspensions x.process.threads ≡ suspended tid exclude s.process.threads)
        same waited
