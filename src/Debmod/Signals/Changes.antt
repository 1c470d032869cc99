-- ===== src/Debmod/Signals/Changes.antt =====
-- What a stored signal changes in a process.
use reverse_engineearing.Base.{
  ℕ, ◌≡◌, refl, ◌⊎◌, inl, inr, true, false, ◌&&◌, some, arith, ◌==◌, Bool-cases, Option-cases,
}
use reverse_engineearing.Debmod.Signals.{
  WaitStatus, ThreadInfo, stopped, Process, stores, find_thread, put_thread, visit, store_in,
}

-- The thread with a stored signal is stopped or has a pending status.
abbrev pub IsStoredIn : ThreadInfo → ThreadInfo → Type 0
IsStoredIn t new =
    (new.tid ≡ t.tid)
    × (new.suspend_count ≡ t.suspend_count)
    × ((new.state ≡ stopped) ⊎ ((new.got_pending_status ≡ true) × (new.state ≡ t.state)))

store_in-threads :
    (m : WaitStatus) (status : ℕ) (p p' : Process) (t : ThreadInfo)
    → store_in m status p t ≡ stores p'
    → (new : ThreadInfo) × (p'.threads ≡ put_thread new p.threads) × IsStoredIn t new
unfolding store_in
store_in-threads m status p p' t e =
    elim (Bool-cases
      (t.waiting_sigstop && (m.is_stopped status && m.stop_sig status == m.sigstop))) [
        | inl y ↦ (
          record t { waiting_sigstop = false; state = stopped },
          ground arith,
          (refl, refl, inl refl),
        )
        | inr n ↦ (
          record t { got_pending_status = true; pending_status = status },
          ground arith,
          (refl, refl, inr (refl, refl)),
        )
      ]

pub visit-threads :
    (m : WaitStatus) (pid status : ℕ) (p p' : Process)
    → visit m pid status p ≡ stores p'
    → (t : ThreadInfo) × (new : ThreadInfo) × (find_thread pid p.threads ≡ some t)
      × (p'.threads ≡ put_thread new p.threads)
      × IsStoredIn t new
unfolding visit
visit-threads m pid status p p' e = elim (Option-cases (find_thread pid p.threads)) [
  | inl q ↦ ground (arith, q)
  | inr (t, q) ↦
      let (new, r, i) = store_in-threads m status p p' t (rw (q, visit) at e) in (t, new, q, r, i)
]
