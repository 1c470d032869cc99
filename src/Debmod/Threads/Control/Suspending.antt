-- ===== src/Debmod/Threads/Control/Suspending.antt =====
-- Suspensions by the user, one after another.
use reverse_engineearing.Base.{
  ℕ, zero, suc, ◌+◌, ◌-◌, ◌<◌, ◌≡◌, refl, sym, ap, ◌∙◌, true, false, Option, some, List, ◌∷◌, ◌++◌,
  arith, ltb, ◌==◌, ==_iff,
}
use reverse_engineearing.Debmod.Signals.{ThreadInfo, find_thread, put_thread}
use reverse_engineearing.Debmod.Threads.{
  Kernel, Run, done, ◌>>=◌, Session, is_running, with_threads,
}
use reverse_engineearing.Debmod.Threads.Freeze.{dbg_freeze_threads}
use reverse_engineearing.Debmod.Threads.Freeze.Alone.{
  Others, find_thread_alone, put_thread_alone, dbg_freeze_threads_alone,
}
use reverse_engineearing.Debmod.Threads.Thaw.Alone.{dbg_thaw_threads_alone}
use reverse_engineearing.Debmod.Threads.Control.{
  dbg_thread_suspend, held_by_user, dbg_thread_continue,
}

-- Requests of the client to suspend a thread, and to let it continue.
abbrev pub suspend_times : Kernel → ℕ → List (Option (ℕ × ℕ)) → ℕ → Session → Run Session
suspend_times k tid ws zero s = done s
suspend_times k tid ws (suc n) s =
    dbg_thread_suspend k tid ws s >>= λ r. suspend_times k tid ws n r.1

abbrev pub continue_times : Kernel → ℕ → ℕ → Session → Run Session
continue_times k tid zero s = done s
continue_times k tid (suc n) s = dbg_thread_continue k tid s >>= λ r. continue_times k tid n r.1

-- A thread that does not run, in the map between others.
module _ (k : Kernel) (s : Session) (front back : List ThreadInfo) (t : ThreadInfo)
    (o : Others t.tid front) (o' : Others t.tid back) (off : is_running t ≡ false) where
  abbrev counts : ℕ → ℕ → ThreadInfo
  counts c u = record t { suspend_count = c; user_suspend = u }

  abbrev with_counts : ℕ → ℕ → Session
  with_counts c u = with_threads (front ++ (counts c u ∷ back)) s

  same : (t.tid == t.tid) ≡ true
  same = (==_iff t.tid t.tid).1 refl

  is_there : (c u : ℕ) → find_thread t.tid (front ++ (counts c u ∷ back)) ≡ some (counts c u)
  is_there c u = find_thread_alone t.tid front back (counts c u) o same

  put :
      (c u c' u' : ℕ)
      → put_thread (counts c' u') (front ++ (counts c u ∷ back)) ≡ front ++ (counts c' u' ∷ back)
  put c u c' u' = put_thread_alone front back (counts c u) (counts c' u') o same

  session_eq : (c u c' u' : ℕ) → c ≡ c' → u ≡ u' → with_counts c u ≡ with_counts c' u'
  session_eq c u c' u' e f = λ i. with_counts (e i) (f i)

  suspend_one :
      (ws : List (Option (ℕ × ℕ))) (c u : ℕ)
      → dbg_thread_suspend k t.tid ws (with_counts c u)
        ≡ done (true, with_counts (c + 1) (u + 1), ws)
  unfolding dbg_thread_suspend
  suspend_one ws c u =
      let asked : dbg_thread_suspend k t.tid ws (with_counts c u)
          ≡ (dbg_freeze_threads k t.tid false ws (with_counts c u) >>= held_by_user k t.tid) =
        rw (is_there c u, dbg_thread_suspend) refl in
      let held : held_by_user k t.tid (with_counts (c + 1) u, ws)
          ≡ done (true, with_counts (c + 1) (u + 1), ws) =
        rw (is_there (c + 1) u, held_by_user, put (c + 1) u (c + 1) (u + 1)) refl in
      asked
      ∙ ap (λ m. m >>= held_by_user k t.tid)
          (dbg_freeze_threads_alone k t.tid ws s front back (counts c u) o o' same off)
      ∙ held

  continue_one :
      (c u : ℕ)
      → 1 < u
      → dbg_thread_continue k t.tid (with_counts c u) ≡ done (true, with_counts c (u - 1))
  unfolding dbg_thread_continue
  continue_one c u h =
      let more : ltb 1 u ≡ true = ground arith in
      rw (is_there c u, dbg_thread_continue, more, put c u c (u - 1)) refl

  continue_last :
      (c u : ℕ)
      → u ≡ 1
      → 1 < c
      → dbg_thread_continue k t.tid (with_counts c u) ≡ done (true, with_counts (c - 1) (u - 1))
  unfolding dbg_thread_continue
  continue_last c u e h =
      let last : ltb 1 u ≡ false = ground arith in
      rw (is_there c u, dbg_thread_continue, last, put c u c (u - 1))
        (dbg_thaw_threads_alone k t.tid s front back (counts c (u - 1)) o o' same h off)

  suspend_all :
      (ws : List (Option (ℕ × ℕ))) (n c u : ℕ)
      → suspend_times k t.tid ws n (with_counts c u) ≡ done (with_counts (c + n) (u + n))
  suspend_all ws zero c u = ap done (session_eq c u (c + 0) (u + 0) (omega arith) (omega arith))
  suspend_all ws (suc n) c u = rw (suspend_one ws c u) (
      suspend_all ws n (c + 1) (u + 1)
      ∙ ap done
          (session_eq (c + 1 + n) (u + 1 + n) (c + suc n) (u + suc n) (omega arith) (omega arith)))

  continue_all :
      (n c u : ℕ)
      → u ≡ suc n
      → 1 < c
      → continue_times k t.tid (suc n) (with_counts c u) ≡ done (with_counts (c - 1) 0)
  continue_all zero c u e h =
      rw (continue_last c u e h) (ap done (session_eq (c - 1) (u - 1) (c - 1) 0 refl (omega arith)))
  continue_all (suc n) c u e h =
      rw (continue_one c u (omega arith)) (continue_all n c (u - 1) (omega arith) h)

  -- A thread that does not run and has been frozen, but not by the user, is not given back by as many calls of
  -- `dbg_thread_continue` as there were of `dbg_thread_suspend`: after `n` and one more of each, the user holds the thread no
  -- longer, but `n` suspensions are left over. Nothing else has changed.
  pub dbg_thread_continue-dbg_thread_suspend :
      (ws : List (Option (ℕ × ℕ))) (n : ℕ)
      → t.user_suspend ≡ 0
      → 0 < t.suspend_count
      → (suspend_times k t.tid ws (suc n) (with_threads (front ++ (t ∷ back)) s)
          >>= continue_times k t.tid (suc n))
        ≡ done (with_threads (front ++ (record t { suspend_count = t.suspend_count + n } ∷ back)) s)
  dbg_thread_continue-dbg_thread_suspend ws n u c =
      let at_start : with_counts t.suspend_count t.user_suspend ≡ with_counts t.suspend_count 0 =
        session_eq t.suspend_count t.user_suspend t.suspend_count 0 refl u in
      ap (λ (x : Session). suspend_times k t.tid ws (suc n) x >>= continue_times k t.tid (suc n))
        at_start
      ∙ ap (λ m. m >>= continue_times k t.tid (suc n)) (suspend_all ws (suc n) t.suspend_count 0)
      ∙ continue_all n (t.suspend_count + suc n) (0 + suc n) (omega arith) (omega arith)
      ∙ ap done (
          session_eq (t.suspend_count + suc n - 1) 0 (t.suspend_count + n) t.user_suspend
            (omega arith) (sym u))
