-- ===== src/Debmod/Threads/Freeze/Ending.antt =====
-- Freezing comes to an end.
use reverse_engineearing.Base.{
  ℕ, ◌+◌, ◌-◌, ◌≤◌, ◌≡◌, refl, ◌≢◌, Bool, Option, none, some, List, [], ◌∷◌, arith, ◌==◌, of_bool,
}
use reverse_engineearing.Debmod.Signals.{dead}
use reverse_engineearing.Debmod.Threads.{
  Kernel, Run, done, waits, fails, ◌>>=◌, Session, dead_thread, del_thread, store_pending_signal,
  visit_own, visit_after, unclaimed,
}
use reverse_engineearing.Debmod.Threads.Freeze.{
  stop_all, receive, wait_stops, bury, stopping, dbg_freeze_threads,
}
use reverse_engineearing.Debmod.UpdateBpts.Linux.{erase_ea}

-- How often a thread stands in the queue, and how many of its signals arrive.
abbrev pub times : ℕ → List ℕ → ℕ
times a [] = 0
times a (x ∷ xs) = of_bool (x == a) + times a xs

abbrev pub arrivals : ℕ → List (Option (ℕ × ℕ)) → ℕ
arrivals a [] = 0
arrivals a (none ∷ ws) = arrivals a ws
arrivals a (some (stid, status) ∷ ws) = of_bool (stid == a) + arrivals a ws

times-erase_ea : (a b : ℕ) (xs : List ℕ) → times a (erase_ea b xs) ≡ times a xs - of_bool (b == a)
times-erase_ea a b [] = ground arith
times-erase_ea a b (x ∷ xs) = ground (arith, times-erase_ea a b xs)

>>=-ne-waits {ℓ κ} :
    {A : Type ℓ} {B : Type κ} (m : Run A) (f : A → Run B)
    → m ≢ waits
    → ((a : A) → f a ≢ waits)
    → (m >>= f) ≢ waits
>>=-ne-waits (done a) f h g e = g a e
>>=-ne-waits waits f h g e = h refl
>>=-ne-waits fails f h g e = cc

module _ (k : Kernel) where
  receive-ne-waits :
      (stid status : ℕ) (queue : List ℕ) (s : Session) → receive k stid status queue s ≢ waits
  unfolding receive store_pending_signal visit_own visit_after unclaimed
  receive-ne-waits stid status queue s e = ground arith

  dead_thread-ne-waits : (tid : ℕ) (s : Session) → dead_thread k tid dead s ≢ waits
  unfolding dead_thread del_thread
  dead_thread-ne-waits tid s e = ground arith

  bury-ne-waits : (tids : List ℕ) (s : Session) → bury k tids s ≢ waits
  unfolding bury
  bury-ne-waits [] s e = cc
  bury-ne-waits (tid ∷ tids) s e =
      >>=-ne-waits (dead_thread k tid dead s) (bury k tids) (dead_thread-ne-waits tid s)
        (bury-ne-waits tids) e

  wait_stops-ne-waits :
      (ws : List (Option (ℕ × ℕ))) (queue : List ℕ) (s : Session)
      → ((a : ℕ) → times a queue ≤ arrivals a ws)
      → wait_stops k ws queue s ≢ waits
  unfolding wait_stops
  wait_stops-ne-waits [] [] s h e = cc
  wait_stops-ne-waits (w ∷ ws) [] s h e = cc
  wait_stops-ne-waits [] (q ∷ qs) s h e = ground (arith, h q)
  wait_stops-ne-waits (none ∷ ws) (q ∷ qs) s h e = wait_stops-ne-waits ws (q ∷ qs) s h e
  wait_stops-ne-waits (some (stid, status) ∷ ws) (q ∷ qs) s h e =
      >>=-ne-waits (receive k stid status (q ∷ qs) s) (wait_stops k ws (erase_ea stid (q ∷ qs)))
        (receive-ne-waits stid status (q ∷ qs) s)
        (λ s'.
          wait_stops-ne-waits ws (erase_ea stid (q ∷ qs)) s'
            (λ a. omega (arith, h a, times-erase_ea a stid (q ∷ qs))))
        e

  -- If for each thread that `dbg_freeze_threads` sent SIGSTOP to some signal arrives, it comes to its end: it
  -- does not wait for more, whatever else arrives and in whatever order.
  pub dbg_freeze_threads_ends :
      (tid : ℕ) (exclude : Bool) (ws : List (Option (ℕ × ℕ))) (s : Session)
      → ((a : ℕ) → times a (stop_all k tid exclude s.process.threads).queue ≤ arrivals a ws)
      → dbg_freeze_threads k tid exclude ws s ≢ waits
  unfolding dbg_freeze_threads
  dbg_freeze_threads_ends tid exclude ws s h =
      let stops = stop_all k tid exclude s.process.threads in
      >>=-ne-waits (wait_stops k ws stops.queue (stopping k tid exclude s)) _
        (wait_stops-ne-waits ws stops.queue (stopping k tid exclude s) h)
        (λ r.
          >>=-ne-waits (bury k stops.deadtids r.0) _ (bury-ne-waits stops.deadtids r.0)
            (λ s' e. cc))
