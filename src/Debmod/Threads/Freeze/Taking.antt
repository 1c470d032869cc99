-- ===== src/Debmod/Threads/Freeze/Taking.antt =====
-- How many answers of `check_for_signal` freezing takes.
use reverse_engineearing.Base.{
  ◌⊎◌, ℕ, ◌≤◌, ◌≡◌, refl, inl, inr, Bool, true, false, Option, none, some, List, [], ◌∷◌, arith,
  if◌then◌else◌, length,
}
use mathlib.Core.Path.{subst}
use reverse_engineearing.Debmod.Threads.{Kernel, Run, done, waits, fails, ◌>>=◌, Session}
use reverse_engineearing.Debmod.Threads.Freeze.{
  dbg_freeze_threads, wait_stops, receive, bury, stop_all, stopping,
}
use reverse_engineearing.Debmod.Threads.Freeze.Waiting.{>>=-eq-done}
use reverse_engineearing.Debmod.UpdateBpts.Linux.{erase_ea}

abbrev pub Answers : Type 0
Answers = List (Option (ℕ × ℕ))

-- A result leaves at most `n` answers.
abbrev pub Leaves {ℓ} : {A : Type ℓ} → (A → Answers) → ℕ → Run A → Type ℓ
Leaves {A = A} f n m = (a : A) → m ≡ done a → length (f a) ≤ n

module _ {ℓ} {A : Type ℓ} (f : A → Answers) where
  pub Leaves-done : (n : ℕ) (a : A) → length (f a) ≤ n → Leaves f n (done a)
  Leaves-done n a h b e = let same : a ≡ b = ground arith in subst (λ x. length (f x) ≤ n) same h

  pub Leaves-waits : (n : ℕ) → Leaves f n waits
  Leaves-waits n b e = cc

  pub Leaves-fails : (n : ℕ) → Leaves f n fails
  Leaves-fails n b e = cc

  pub Leaves-if :
      (b : Bool) (n : ℕ) (m m' : Run A)
      → Leaves f n m
      → Leaves f n m'
      → Leaves f n (if b then m else m')
  Leaves-if true n m m' p q = p
  Leaves-if false n m m' p q = q

pub Leaves->>= {ℓ κ} :
    {A : Type ℓ} {B : Type κ} (f : A → Answers) (g : B → Answers) (n : ℕ) (m : Run A)
    (h : A → Run B)
    → Leaves f n m
    → ((a : A) → Leaves g (length (f a)) (h a))
    → Leaves g n (m >>= h)
Leaves->>= f g n m h p q b e =
    let (a, e1, e2) = >>=-eq-done m h e in let one = p a e1 in let two = q a b e2 in omega arith

pub Run-cases {ℓ} :
    {A : Type ℓ} (m : Run A) → ((a : A) × (m ≡ done a)) ⊎ ((m ≡ waits) ⊎ (m ≡ fails))
Run-cases (done a) = inl (a, refl)
Run-cases waits = inr (inl refl)
Run-cases fails = inr (inr refl)

module _ (k : Kernel) where
  wait_stops-Leaves :
      (ws : Answers) (queue : List ℕ) (s : Session)
      → Leaves (λ (r : Session × Answers). r.1) (length ws) (wait_stops k ws queue s)
  unfolding wait_stops
  wait_stops-Leaves [] [] s r e =
      Leaves-done (λ (x : Session × Answers). x.1) 0 (s, []) (omega arith) r e
  wait_stops-Leaves (w ∷ ws) [] s r e =
      Leaves-done (λ (x : Session × Answers). x.1) (length (w ∷ ws)) (s, w ∷ ws) (omega arith) r e
  wait_stops-Leaves [] (q ∷ qs) s r e = cc
  wait_stops-Leaves (none ∷ ws) (q ∷ qs) s r e =
      let h = wait_stops-Leaves ws (q ∷ qs) s r e in omega arith
  wait_stops-Leaves (some (stid, status) ∷ ws) (q ∷ qs) s r e =
      let (s', e1, e2) = >>=-eq-done (receive k stid status (q ∷ qs) s) _ e in
      let h = wait_stops-Leaves ws (erase_ea stid (q ∷ qs)) s' r e2 in omega arith

  pub dbg_freeze_threads-Leaves :
      (tid : ℕ) (exclude : Bool) (ws : Answers) (s : Session)
      → Leaves (λ (r : Session × Answers). r.1) (length ws) (dbg_freeze_threads k tid exclude ws s)
  unfolding dbg_freeze_threads
  dbg_freeze_threads-Leaves tid exclude ws s =
      let stops = stop_all k tid exclude s.process.threads in
      Leaves->>= (λ r. r.1) (λ r. r.1) (length ws) _ _
        (wait_stops-Leaves ws stops.queue (stopping k tid exclude s))
        (λ r a e.
          let (s', e1, e2) = >>=-eq-done (bury k stops.deadtids r.0) _ e in
          Leaves-done (λ (x : Session × Answers). x.1) (length r.1) (s', r.1) (omega arith) a e2)
