-- ===== src/Debmod/Threads/Poll/Ending.antt =====
-- How many answers of `check_for_signal` a poll takes.
use reverse_engineearing.Base.{
  ℕ, zero, suc, ◌<◌, ◌≡◌, refl, ap, inl, inr, Bool, true, not, ◌&&◌, none, List, [], ◌∷◌, arith,
  if◌then◌else◌, Option-cases, length,
}
use reverse_engineearing.Codec.Event.{DebugEvent, no_event}
use reverse_engineearing.Debmod.Signals.{stopped, find_thread, put_thread}
use reverse_engineearing.Debmod.Threads.{Kernel, done, fails, Session, with_threads}
use reverse_engineearing.Debmod.Threads.Arrival.{
  ThreadFacts, Signal, handles, again, none_came, check_for_new_events,
}
use reverse_engineearing.Debmod.Threads.Arrival.Taking.{left_by, new_events-takes}
use reverse_engineearing.Debmod.Threads.Control.{no_thread}
use reverse_engineearing.Debmod.Threads.Freeze.Taking.{
  Answers, Leaves, Leaves-done, Leaves-waits, Leaves-fails, Leaves-if, Leaves->>=, Run-cases,
  dbg_freeze_threads-Leaves,
}
use reverse_engineearing.Debmod.Threads.Freeze.Waiting.{>>=-eq-done}
use reverse_engineearing.Debmod.Threads.Traps.{SignalFacts, Neighbours, ModuleFields, Polled}
use reverse_engineearing.Debmod.Threads.Poll.{
  frozen, freeze_all, take_over, on_signal, get_debug_event, next_event, dbg_get_debug_event,
}

abbrev not_used : Polled × Answers → Answers
not_used r = r.1

module _ (k : Kernel) (th : ThreadFacts) (sf : SignalFacts) (nb : Neighbours)
    (fs : ModuleFields) where
  freeze_all-Leaves :
      (ev : DebugEvent) (tid status : ℕ) (ready : Bool) (ws : Answers) (s : Session)
      → Leaves not_used (length ws) (freeze_all k th sf nb fs ev tid status ready ws s)
  unfolding freeze_all
  freeze_all-Leaves ev tid status ready ws s =
      Leaves->>= (λ r. r.1) not_used (length ws) _ _
        (dbg_freeze_threads-Leaves k no_thread true ws s)
        (λ r a e.
          let (p, e1, e2) = >>=-eq-done (frozen k th sf nb fs ev tid status ready _) _ e in
          Leaves-done not_used (length r.1) (p, r.1) (omega arith) a e2)

  on_signal-Leaves :
      (ev : DebugEvent) (sig : Signal)
      → Leaves not_used (length (left_by sig)) (on_signal k th sf nb fs ev sig)
  unfolding on_signal take_over
  on_signal-Leaves ev (none_came s ws) =
      Leaves-done not_used (length ws) ((none, s), ws) (omega arith)
  on_signal-Leaves ev (again s ws) = Leaves-waits not_used (length ws)
  on_signal-Leaves ev (handles tid status ready s ws) =
      elim (Option-cases (find_thread tid s.process.threads)) [
        | inl q ↦ rw (q, on_signal) (Leaves-done not_used (length ws) (_, ws) (omega arith))
        | inr (t, q) ↦
            rw (q, on_signal)
              (Leaves-if not_used _ (length ws) _ _ (Leaves-fails not_used (length ws)) (
                freeze_all-Leaves ev tid status ready ws
                  (with_threads (put_thread (record t { state = stopped }) s.process.threads) s)))
      ]

  get_debug_event-takes :
      (timed : Bool) (ws : Answers) (s : Session) (r : Polled × Answers)
      → get_debug_event k th sf nb fs timed ws s ≡ done r
      → length r.1 < length ws
  unfolding get_debug_event check_for_new_events
  get_debug_event-takes timed ws s r e =
      let blank : DebugEvent = record k.fresh { eid = no_event } in
      let (sig, e1, e2) = >>=-eq-done (check_for_new_events k th timed ws s) _ e in
      let one = new_events-takes k th (suc (length ws)) timed ws s sig e1 in
      let two = on_signal-Leaves blank sig r e2 in omega arith

  next_event-fuel :
      (n m : ℕ) (timed : Bool) (ws : Answers) (s : Session) (events : List DebugEvent)
      → length ws < n
      → length ws < m
      → next_event k th sf nb fs n timed ws s events ≡ next_event k th sf nb fs m timed ws s events
  unfolding next_event
  next_event-fuel zero m timed ws s events p q = ground arith
  next_event-fuel (suc n) zero timed ws s events p q = ground arith
  next_event-fuel (suc n) (suc m) timed ws s (ev ∷ events) p q = refl
  next_event-fuel (suc n) (suc m) timed ws s [] p q =
      elim (Run-cases (get_debug_event k th sf nb fs timed ws s)) [
        | inl (r, e) ↦
            let h = get_debug_event-takes timed ws s r e in
            rw e (elim (Option-cases r.0.0) [
              | inl y ↦ rw y refl
              | inr (ev, y) ↦ rw y (next_event-fuel n m timed r.1 _ _ (omega arith) (omega arith))
            ])
        | inr (inl e) ↦ rw e refl
        | inr (inr e) ↦ rw e refl
      ]

  -- The fuel of `dbg_get_debug_event`, one more than the answers of `check_for_signal` to come, is enough: with
  -- more of it the result is the same.
  dbg_get_debug_event_fuel :
      (n : ℕ) (timed : Bool) (ws : Answers) (s : Session)
      → length ws < n
      → dbg_get_debug_event k th sf nb fs timed ws s ≡ (
          if s.in_event && not s.process.exited
          then fails
          else next_event k th sf nb fs n timed ws s s.queue.events)
  unfolding dbg_get_debug_event
  dbg_get_debug_event_fuel n timed ws s p =
      ap (λ x. if s.in_event && not s.process.exited then fails else x)
        (next_event-fuel (suc (length ws)) n timed ws s s.queue.events (omega arith) p)
