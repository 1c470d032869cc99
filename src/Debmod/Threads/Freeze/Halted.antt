-- ===== src/Debmod/Threads/Freeze/Halted.antt =====
-- Freezing leaves no thread running.
use reverse_engineearing.Base.{
  ℕ, ◌≡◌, refl, sym, ◌⊎◌, inl, inr, Bool, true, false, Option, some, List, [], ◌∷◌, arith, ◌==◌,
  Bool-cases, Option-cases, All,
}
use mathlib.Core.Path.{subst}
use reverse_engineearing.Debmod.Signals.{ThreadInfo, stopped, dead, find_thread, put_thread}
use reverse_engineearing.Debmod.Signals.Count.{find_thread-tid}
use reverse_engineearing.Debmod.Threads.{
  Kernel, sent, Sent, no_process, refused, done, Session, is_running, dead_thread, del_thread,
  erase_thread,
}
use reverse_engineearing.Debmod.Threads.Freeze.{
  Stops, in_scope, stop_all, stop_one, after_kill, wait_stops, bury, stopping, dbg_freeze_threads,
}
use reverse_engineearing.Debmod.Threads.Freeze.Waiting.{>>=-eq-done, wait_stops-keeps}

-- A thread of the freeze does not run, if SIGSTOP could be sent to it.
abbrev pub IsHalted : Kernel → ℕ → Bool → ThreadInfo → Type 0
IsHalted k tid exclude t =
    in_scope tid exclude t ≡ true → k.kill t.tid k.status.sigstop ≡ sent → is_running t ≡ false

module _ {ℓ} (P : ThreadInfo → Type ℓ) where
  pub All-put_thread :
      (ts : List ThreadInfo) (new : ThreadInfo) → P new → All P ts → All P (put_thread new ts)
  unfolding put_thread
  All-put_thread [] new p a = a
  All-put_thread (t ∷ ts) new p a = elim (Bool-cases (t.tid == new.tid)) [
    | inl y ↦ rw y (p, a.1)
    | inr n ↦ rw n (a.0, All-put_thread ts new p a.1)
  ]

  pub All-find_thread :
      (tid : ℕ) (ts : List ThreadInfo) (t : ThreadInfo)
      → All P ts
      → find_thread tid ts ≡ some t
      → P t
  unfolding find_thread
  All-find_thread tid [] t a e = cc
  All-find_thread tid (x ∷ ts) t a e = elim (Bool-cases (x.tid == tid)) [
    | inl y ↦ subst P (ground arith) a.0
    | inr n ↦ All-find_thread tid ts t a.1 (ground arith)
  ]

  All-erase_thread : (tid : ℕ) (ts : List ThreadInfo) → All P ts → All P (erase_thread tid ts)
  unfolding erase_thread
  All-erase_thread tid [] a = a
  All-erase_thread tid (t ∷ ts) a = elim (Bool-cases (t.tid == tid)) [
    | inl y ↦ rw y a.1
    | inr n ↦ rw n (a.0, All-erase_thread tid ts a.1)
  ]

dead_thread-threads :
    (k : Kernel) (tid : ℕ) (s s' : Session)
    → dead_thread k tid dead s ≡ done s'
    → (s'.process.threads ≡ s.process.threads)
      ⊎ ((t : ThreadInfo) × (s'.process.threads
            ≡ erase_thread tid (put_thread (record t { state = dead }) s.process.threads)))
unfolding dead_thread del_thread
dead_thread-threads k tid s s' e = elim (Option-cases (find_thread tid s.process.threads)) [
  | inl q ↦ inl (ground (arith, q))
  | inr (t, q) ↦ inr (t, ground (arith, q))
]

pub dead_thread-All {ℓ} :
    (P : ThreadInfo → Type ℓ)
    → ((t : ThreadInfo) → P (record t { state = dead }))
    → (k : Kernel) (tid : ℕ) (s s' : Session) → dead_thread k tid dead s ≡ done s'
    → All P s.process.threads
    → All P s'.process.threads
dead_thread-All P of_dead k tid s s' e a = elim (dead_thread-threads k tid s s' e) [
  | inl q ↦ subst (All P) (sym q) a
  | inr (t, q) ↦
      subst (All P) (sym q)
        (All-erase_thread P tid _ (All-put_thread P s.process.threads _ (of_dead t) a))
]

-- What the changes of a thread that does not run keep.
module _ {ℓ} (P : ThreadInfo → Type ℓ) (of_dead : (t : ThreadInfo) → P (record t { state = dead }))
    (of_change : (t new : ThreadInfo)
      → new.tid ≡ t.tid
      → is_running new ≡ false
      → (new.state ≡ stopped) ⊎ (new.state ≡ t.state)
      → P t
      → P new) where
  bury-All :
      (k : Kernel) (tids : List ℕ) (s s' : Session)
      → bury k tids s ≡ done s'
      → All P s.process.threads
      → All P s'.process.threads
  unfolding bury
  bury-All k [] s s' e a =
      let same : s ≡ s' = ground arith in subst (λ (x : Session). All P x.process.threads) same a
  bury-All k (d ∷ ds) s s' e a =
      let (r, p, h) = >>=-eq-done (dead_thread k d dead s) (bury k ds) e in
      bury-All k ds r s' h (dead_thread-All P of_dead k d s r p a)

  -- The wait keeps it for the threads that do run.
  pub dbg_freeze_threads-All :
      (k : Kernel) (tid : ℕ) (exclude : Bool) (ws rest : List (Option (ℕ × ℕ))) (s s' : Session)
      → All P (stop_all k tid exclude s.process.threads).threads
      → dbg_freeze_threads k tid exclude ws s ≡ done (s', rest)
      → All P s'.process.threads
  unfolding dbg_freeze_threads stopping
  dbg_freeze_threads-All k tid exclude ws rest s s' all e =
      let stops = stop_all k tid exclude s.process.threads in
      let (r, p, h) = >>=-eq-done (wait_stops k ws stops.queue (stopping k tid exclude s)) _ e in
      let (s2, p2, h2) = >>=-eq-done (bury k stops.deadtids r.0) _ h in
      let same : s2 ≡ s' = ground arith in
      let waited =
        wait_stops-keeps (All P)
          (λ ts t new q c off st l.
            All-put_thread P ts new
              (of_change t new (sym (find_thread-tid new.tid ts t q)) off st
                (All-find_thread P new.tid ts t l q))
              l)
          k ws stops.queue (stopping k tid exclude s) r p all in
      subst (λ (x : Session). All P x.process.threads) same
        (bury-All k stops.deadtids r.0 s2 p2 waited)

module _ (k : Kernel) (tid : ℕ) (exclude : Bool) where
  after_kill-IsHalted :
      (t : ThreadInfo) (rest : Stops) (r : Sent)
      → r ≡ k.kill t.tid k.status.sigstop
      → All (IsHalted k tid exclude) rest.threads
      → All (IsHalted k tid exclude) (after_kill k t r rest).threads
  unfolding after_kill
  after_kill-IsHalted t rest sent e a = ((λ h g. ground arith), a)
  after_kill-IsHalted t rest no_process e a = ((λ h g. cc), a)
  after_kill-IsHalted t rest refused e a = ((λ h g. cc), a)

  stop_one-IsHalted :
      (t : ThreadInfo) (rest : Stops)
      → All (IsHalted k tid exclude) rest.threads
      → All (IsHalted k tid exclude) (stop_one k t rest).threads
  unfolding stop_one
  stop_one-IsHalted t rest a = elim (Bool-cases (is_running t)) [
    | inl y ↦ rw y (after_kill-IsHalted t _ _ refl a)
    | inr n ↦ rw n ((λ h g. n), a)
  ]

  stop_all-IsHalted :
      (ts : List ThreadInfo) → All (IsHalted k tid exclude) (stop_all k tid exclude ts).threads
  unfolding stop_all
  stop_all-IsHalted [] = tt
  stop_all-IsHalted (t ∷ ts) = elim (Bool-cases (in_scope tid exclude t)) [
    | inl y ↦ rw y (stop_one-IsHalted t (stop_all k tid exclude ts) (stop_all-IsHalted ts))
    | inr n ↦ rw n ((λ h g. cc), stop_all-IsHalted ts)
  ]

  pub dbg_freeze_threads-halts :
      (ws rest : List (Option (ℕ × ℕ))) (s s' : Session)
      → dbg_freeze_threads k tid exclude ws s ≡ done (s', rest)
      → All (IsHalted k tid exclude) s'.process.threads
  dbg_freeze_threads-halts ws rest s s' e =
      dbg_freeze_threads-All (IsHalted k tid exclude) (λ t h g. refl) (λ t new e off st p h g. off)
        k tid exclude ws rest s s' (stop_all-IsHalted s.process.threads) e
