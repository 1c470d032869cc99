-- ===== src/Debmod/Threads/Arrival/Taking.antt =====
-- How many answers of `check_for_signal` a signal takes.
use reverse_engineearing.Base.{
  ◌⊎◌, ℕ, zero, suc, sym, ◌<◌, ◌≡◌, refl, ◌∙◌, inl, inr, Bool, true, false, Option, none, some, [],
  ◌∷◌, arith, Option-cases, length,
}
use mathlib.Core.Path.{subst}
use reverse_engineearing.Debmod.Signals.{Process, find_thread, contains}
use reverse_engineearing.Debmod.Threads.{
  Kernel, Run, done, Session, with_threads, store_pending_signal,
}
use reverse_engineearing.Debmod.Threads.Arrival.{
  ThreadFacts, Signal, handles, again, none_came, other_came, still_due, await_new, started,
  handle_extended_wait, came_now, came_before, next_signal, new_events, add_thread,
}
use reverse_engineearing.Debmod.Threads.Freeze.Taking.{
  Answers, Leaves, Leaves-done, Leaves-fails, Leaves-if, Leaves->>=, Run-cases,
}
use reverse_engineearing.Debmod.Threads.Freeze.Waiting.{>>=-eq-done}

-- The answers that are left after a round.
abbrev pub left_by : Signal → Answers
left_by (handles pid status ready s ws) = ws
left_by (again s ws) = ws
left_by (none_came s ws) = ws

-- After a round: another, or its result.
abbrev next : (Session → Answers → Run Signal) → Signal → Run Signal
next f a = elim a [ again s ws ↦ f s ws | other ↦ done other ]

Signal-cases :
    (a : Signal)
    → ((s : Session) × (ws : Answers) × (a ≡ again s ws))
      ⊎ ((f : Session → Answers → Run Signal) → next f a ≡ done a)
Signal-cases (again s ws) = inl (s, ws, refl)
Signal-cases (handles pid status ready s ws) = inr (λ f. refl)
Signal-cases (none_came s ws) = inr (λ f. refl)

module _ (k : Kernel) (th : ThreadFacts) where
  await_new-Leaves :
      (new_pid : ℕ) (ws : Answers) (s : Session)
      → Leaves (λ (r : Session × Answers). r.1) (length ws) (await_new k th new_pid ws s)
  unfolding await_new
  await_new-Leaves new_pid [] s r e = ground arith
  await_new-Leaves new_pid (none ∷ ws) s r e =
      Leaves-if (λ (x : Session × Answers). x.1) (contains new_pid s.seen_threads) (suc (length ws))
        _ _ (Leaves-done (λ x. x.1) (suc (length ws)) (_, none ∷ ws) (omega arith))
        (Leaves-if (λ (x : Session × Answers). x.1) (th.wait_fails new_pid) (suc (length ws)) _ _
          (Leaves-fails (λ x. x.1) (suc (length ws)))
          (λ r e.
            let (s', e1, e2) = >>=-eq-done (still_due k th new_pid s) _ e in
            Leaves-done (λ (x : Session × Answers). x.1) (suc (length ws)) (s', ws) (omega arith) r
              e2))
        r e
  await_new-Leaves new_pid (some (tid2, status) ∷ ws) s r e =
      Leaves-if (λ (x : Session × Answers). x.1) (contains new_pid s.seen_threads) (suc (length ws))
        _ _ (Leaves-done (λ x. x.1) (suc (length ws)) (_, some (tid2, status) ∷ ws) (omega arith))
        (λ r e.
          let (s', e1, e2) = >>=-eq-done (other_came k th new_pid tid2 status s) _ e in
          Leaves-done (λ (x : Session × Answers). x.1) (suc (length ws)) (s', ws) (omega arith) r
            e2)
        r e

  handle_extended_wait-Leaves :
      (pid status : ℕ) (ws : Answers) (s : Session)
      → Leaves
          (λ (r : Bool × Session × Answers). r.2)
          (length ws)
          (handle_extended_wait k th pid status ws s)
  unfolding handle_extended_wait
  handle_extended_wait-Leaves pid status ws s =
      let new_pid = th.new_thread pid in
      Leaves-if (λ (r : Bool × Session × Answers). r.2) _ (length ws) _ _
        (Leaves->>= (λ r. r.1) (λ r. r.2) (length ws) _ _
          (await_new-Leaves new_pid ws (with_threads (add_thread new_pid s.process.threads) s))
          (λ r.
            Leaves-done (λ r. r.2) (length r.1) (true, started k th new_pid r.0, r.1)
              (omega arith)))
        (Leaves-done (λ r. r.2) (length ws) (false, s, ws) (omega arith))

  came_now-Leaves :
      (pid status : ℕ) (ws : Answers) (s : Session)
      → Leaves left_by (length ws) (came_now k th pid status ws s)
  unfolding came_now
  came_now-Leaves pid status ws s =
      Leaves->>= (λ r. r.2) left_by (length ws) _ _ (handle_extended_wait-Leaves pid status ws s)
        (λ r. elim (Option-cases (find_thread pid r.1.process.threads)) [
          | inr (t, q) ↦
              rw q (Leaves-done left_by (length r.2) (handles pid status r.0 r.1 r.2) (omega arith))
          | inl q ↦ rw q (
              Leaves-if left_by (contains pid r.1.process.deleted_threads) (length r.2) _ _
                (Leaves-done left_by (length r.2) (again _ r.2) (omega arith))
                (λ a e.
                  let (s', e1, e2) = >>=-eq-done (store_pending_signal k pid status r.1) _ e in
                  Leaves-done left_by (length r.2) (again s' r.2) (omega arith) a e2))
        ])

  came_before-Leaves :
      (timed : Bool) (ws : Answers) (s : Session) (p : Option ((ℕ × ℕ) × Process))
      → Leaves left_by (length ws) (came_before k th timed ws s p)
  unfolding came_before
  came_before-Leaves timed ws s (some ((pid, status), p)) a e =
      Leaves->>= (λ r. r.2) left_by (length ws) _ _ (handle_extended_wait-Leaves pid status ws _)
        (λ r. Leaves-done left_by (length r.2) (handles pid status r.0 r.1 r.2) (omega arith)) a e
  came_before-Leaves false ws s none a e =
      Leaves-done left_by (length ws) (none_came s ws) (omega arith) a e
  came_before-Leaves true [] s none a e = cc
  came_before-Leaves true (none ∷ ws) s none a e =
      Leaves-done left_by (suc (length ws)) (none_came s ws) (omega arith) a e
  came_before-Leaves true (some (pid, status) ∷ ws) s none a e =
      let h = came_now-Leaves pid status ws s a e in omega arith

  -- A round takes an answer.
  next_signal-takes :
      (timed : Bool) (ws : Answers) (s : Session) (r : Signal)
      → next_signal k th timed ws s ≡ done r
      → length (left_by r) < length ws
  unfolding next_signal
  next_signal-takes timed [] s r e = cc
  next_signal-takes timed (some (pid, status) ∷ ws) s r e =
      let h = came_now-Leaves pid status ws s r e in omega arith
  next_signal-takes timed (none ∷ ws) s r e =
      let h = came_before-Leaves timed ws s _ r e in omega arith

  pub new_events-takes :
      (n : ℕ) (timed : Bool) (ws : Answers) (s : Session) (r : Signal)
      → new_events k th n timed ws s ≡ done r
      → length (left_by r) < length ws
  unfolding new_events
  new_events-takes zero timed ws s r e = cc
  new_events-takes (suc n) timed ws s r e =
      let (a, e1, e2) = >>=-eq-done (next_signal k th timed ws s) _ e in
      let h = next_signal-takes timed ws s a e1 in
      elim (Signal-cases a) [
        | inl (s', ws', q) ↦
            let less = rw q at h in
            let more = new_events-takes n false ws' s' r (rw q at e2) in omega arith
        | inr last ↦
            let same : a ≡ r = cc (last (λ s' ws'. new_events k th n false ws' s'), e2) in
            subst (λ x. length (left_by x) < length ws) same h
      ]

  -- More fuel than answers changes nothing.
  new_events-fuel :
      (n m : ℕ) (timed : Bool) (ws : Answers) (s : Session)
      → length ws < n
      → length ws < m
      → new_events k th n timed ws s ≡ new_events k th m timed ws s
  unfolding new_events
  new_events-fuel zero m timed ws s p q = ground arith
  new_events-fuel (suc n) zero timed ws s p q = ground arith
  new_events-fuel (suc n) (suc m) timed ws s p q = elim (Run-cases (next_signal k th timed ws s)) [
    | inl (a, e) ↦
        let h = next_signal-takes timed ws s a e in
        rw e (elim (Signal-cases a) [
          | inl (s', ws', y) ↦
              let less = rw y at h in
              rw y (new_events-fuel n m false ws' s' (omega arith) (omega arith))
          | inr last ↦ last _ ∙ sym (last _)
        ])
    | inr (inl e) ↦ rw e refl
    | inr (inr e) ↦ rw e refl
  ]
