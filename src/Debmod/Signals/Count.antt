-- ===== src/Debmod/Signals/Count.antt =====
-- `npending_signals` counts the threads whose signal waits.
use mathlib.Core.Path.{subst}
use reverse_engineearing.Base.{
  ℕ, suc, ◌+◌, ◌≤◌, ◌≡◌, sym, ap, ◌∙◌, inl, inr, true, false, some, List, [], ◌∷◌, arith, ◌==◌,
  of_bool, Bool-cases, Option-cases,
}
use reverse_engineearing.Debmod.Signals.{
  WaitStatus, ThreadInfo, stopped, Process, stores, find_thread, put_thread, store_in, visit,
  find_in_pass, find_pending, run_passes, last_thread, take_signal, retrieve_pending_signal,
}

unfoldable pub count_pending : List ThreadInfo → ℕ
count_pending [] = 0
count_pending (t ∷ ts) = of_bool t.got_pending_status + count_pending ts

abbrev pub IsCounted : Process → Type 0
IsCounted p = p.npending_signals ≡ count_pending p.threads

-- The keys of the map rise.
abbrev pub IsRising : ℕ → List ThreadInfo → Type 0
IsRising n [] = Unit {0}
IsRising n (t ∷ ts) = (n ≤ t.tid) × IsRising (suc t.tid) ts

pub find_thread-tid :
    (tid : ℕ) (ts : List ThreadInfo) (t : ThreadInfo) → find_thread tid ts ≡ some t → t.tid ≡ tid
unfolding find_thread
find_thread-tid tid [] t e = cc
find_thread-tid tid (x ∷ ts) t e = ground (arith, find_thread-tid tid ts t)

count-put_thread :
    (ts : List ThreadInfo) (t new : ThreadInfo)
    → find_thread new.tid ts ≡ some t
    → count_pending (put_thread new ts) + of_bool t.got_pending_status
      ≡ count_pending ts + of_bool new.got_pending_status
unfolding find_thread put_thread count_pending
count-put_thread [] t new e = cc
count-put_thread (x ∷ ts) t new e = elim (Bool-cases (x.tid == new.tid)) [
  | inl hit ↦ ground arith
  | inr miss ↦ ground (arith, count-put_thread ts t new)
]

-- What a pass finds is the thread that its number names.
module _ (m : WaitStatus) where
  find_above :
      (i n : ℕ) (ts : List ThreadInfo) (t : ThreadInfo)
      → IsRising n ts
      → find_in_pass m i ts ≡ some t
      → (n ≤ t.tid) × (t.got_pending_status ≡ true) × (find_thread t.tid ts ≡ some t)
  unfolding find_in_pass find_thread
  find_above i n [] t r e = cc
  find_above i n (x ∷ ts) t r e = ground (arith, find_above i (suc x.tid) ts t r.1)

  find_pending-Rising :
      (ts : List ThreadInfo) (t : ThreadInfo)
      → IsRising 0 ts
      → find_pending m ts ≡ some t
      → (t.got_pending_status ≡ true) × (find_thread t.tid ts ≡ some t)
  unfolding find_pending run_passes
  find_pending-Rising ts t r e = let (a, b, c) = find_above 2 0 ts t r e in (b, c)

last_thread_found :
    (last_tid : ℕ) (ts : List ThreadInfo) (t : ThreadInfo)
    → last_thread last_tid ts ≡ some t
    → (t.got_pending_status ≡ true) × (find_thread t.tid ts ≡ some t)
unfolding last_thread
last_thread_found last_tid ts t e = elim (Option-cases (find_thread last_tid ts)) [
  | inl q ↦ ground (arith, q)
  | inr (x, q) ↦
      let id : x.tid ≡ last_tid = find_thread-tid last_tid ts x q in
      let same : x ≡ t = ground (arith, q) in
      let name : t.tid ≡ last_tid = ap (λ (y : ThreadInfo). y.tid) (sym same) ∙ id in
      (ground (arith, q), ap (λ (n : ℕ). find_thread n ts) name ∙ q ∙ ap some same)
]

take_signal-IsCounted :
    (p : Process) (t : ThreadInfo)
    → IsCounted p
    → t.got_pending_status ≡ true
    → find_thread t.tid p.threads ≡ some t
    → IsCounted (take_signal p t).1
unfolding take_signal
take_signal-IsCounted p t c g f =
    ground (arith, count-put_thread p.threads t (record t { got_pending_status = false }) f, g)

-- `retrieve_pending_signal` hands out the status of a thread that had one waiting, and keeps the count exact.
pub retrieve_pending_signal-IsCounted :
    (m : WaitStatus) (last_tid : ℕ) (p p' : Process) (tid status : ℕ)
    → IsRising 0 p.threads
    → IsCounted p
    → retrieve_pending_signal m last_tid p ≡ some ((tid, status), p')
    → IsCounted p'
      × ((t : ThreadInfo) × (find_thread tid p.threads ≡ some t)
          × (t.got_pending_status ≡ true)
          × (t.pending_status ≡ status))
unfolding retrieve_pending_signal
retrieve_pending_signal-IsCounted m last_tid p p' tid status r c e =
    elim (Option-cases (last_thread last_tid p.threads)) [
      | inr (t, q) ↦ taken t (last_thread_found last_tid p.threads t q) (ground (arith, q))
      | inl none_last ↦ elim (Option-cases (find_pending m p.threads)) [
        | inl q ↦ ground (arith, q, none_last)
        | inr (t, q) ↦
            taken t (find_pending-Rising m p.threads t r q) (ground (arith, q, none_last))
      ]
    ]
  where
    taken :
        (t : ThreadInfo)
        → (t.got_pending_status ≡ true) × (find_thread t.tid p.threads ≡ some t)
        → ◌≡◌ {A = (ℕ × ℕ) × Process} (take_signal p t) ((tid, status), p')
        → IsCounted p'
          × ((u : ThreadInfo) × (find_thread tid p.threads ≡ some u)
              × (u.got_pending_status ≡ true)
              × (u.pending_status ≡ status))
    taken t (g, f) q =
        let et : t.tid ≡ tid = ap (λ (x : (ℕ × ℕ) × Process). x.0.0) q in
        let es : t.pending_status ≡ status = ap (λ (x : (ℕ × ℕ) × Process). x.0.1) q in
        let ep : (take_signal p t).1 ≡ p' = ap (λ (x : (ℕ × ℕ) × Process). x.1) q in
        (
          subst IsCounted ep (take_signal-IsCounted p t c g f),
          (t, ap (λ (n : ℕ). find_thread n p.threads) (sym et) ∙ f, g, es),
        )

store_in-IsCounted :
    (m : WaitStatus) (status : ℕ) (p p' : Process) (t : ThreadInfo)
    → p.exited ≡ false
    → m.is_exited status ≡ false
    → IsCounted p
    → find_thread t.tid p.threads ≡ some t
    → store_in m status p t ≡ stores p'
    → IsCounted p'
unfolding store_in
store_in-IsCounted m status p p' t ex st c f e = ground (
  arith,
  count-put_thread p.threads t (record t { waiting_sigstop = false; state = stopped }) f,
  count-put_thread p.threads t (record t { got_pending_status = true; pending_status = status }) f,
)

-- While the process has not exited, a signal other than an exit status that is stored for one of its threads
-- keeps `npending_signals` equal to the number of threads whose signal waits.
pub visit-IsCounted :
    (m : WaitStatus) (pid status : ℕ) (p p' : Process)
    → p.exited ≡ false
    → m.is_exited status ≡ false
    → IsCounted p
    → visit m pid status p ≡ stores p'
    → IsCounted p'
unfolding visit
visit-IsCounted m pid status p p' ex st c e = elim (Option-cases (find_thread pid p.threads)) [
  | inl q ↦ ground (arith, q)
  | inr (t, q) ↦
      let name : t.tid ≡ pid = find_thread-tid pid p.threads t q in
      store_in-IsCounted m status p p' t ex st c (ap (λ (n : ℕ). find_thread n p.threads) name ∙ q)
        (rw (q, visit) at e)
]
