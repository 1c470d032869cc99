-- ===== src/Debmod/PageBpts/Search.antt =====
-- The search among the page breakpoints misses none.
use reverse_engineearing.Base.{
  ℕ, ◌+◌, ◌*◌, ◌/◌, ◌%◌, ◌^◌, ◌≤◌, ◌<◌, ◌≡◌, refl, ◌⊎◌, inl, inr, true, false, Option, none, some,
  List, [], ◌∷◌, arith, ltb, leb, Bool-cases, All,
}
use native.Mathlib.Nat.{div-add-mod, mod-lt}
use reverse_engineearing.Debmod.PageBpts.{
  PageBpt, overlap, calc_page_base, lower_bound, candidate, checked, find_page_bpt,
}

-- The entries lie in order from `from` on: each is at least a page long, ends before
-- the next begins, and inside the address space.
abbrev pub IsLaidOut : ℕ → ℕ → List PageBpt → Type 0
IsLaidOut page_size from [] = Unit {0}
IsLaidOut page_size from (p ∷ ps) =
    (from ≤ p.key)
    × (page_size ≤ p.real_len)
    × (p.key + p.real_len < 2 ^ 32)
    × IsLaidOut page_size (p.key + p.real_len) ps

-- The ranges [ea, ea + size) and [p.key, p.key + p.real_len) have an address in common.
abbrev pub Meets : ℕ → ℕ → PageBpt → Type 0
Meets ea size p = (p.key < ea + size) × (ea < p.key + p.real_len)

-- Nothing in the list meets the range.
abbrev pub NoneMeets : ℕ → ℕ → List PageBpt → Type 0
NoneMeets ea size = All (λ p. ¬ (Meets ea size p))

NoneMeets-above :
    (page_size from ea size : ℕ) (ps : List PageBpt)
    → IsLaidOut page_size from ps
    → ea + size ≤ from
    → NoneMeets ea size ps
NoneMeets-above page_size from ea size [] v h = tt
NoneMeets-above page_size from ea size (p ∷ ps) v h =
    (omega arith, NoneMeets-above page_size (p.key + p.real_len) ea size ps v.3 (omega arith))

abbrev pub In : PageBpt → List PageBpt → Type 0
In a [] = ⊥
In a (x ∷ xs) = (a ≡ x) ⊎ In a xs

-- What the search says of the list: the entry found is in it and meets the range, or none does.
abbrev pub Decides : ℕ → ℕ → List PageBpt → Option PageBpt → Type 0
Decides ea size ps none = NoneMeets ea size ps
Decides ea size ps (some p) = Meets ea size p × In p ps

-- The same during the search, with the entry passed last.
abbrev Decided : ℕ → ℕ → Option PageBpt → List PageBpt → Option PageBpt → Type 0
Decided ea size none ps r = Decides ea size ps r
Decided ea size (some q) ps r = Decides ea size (q ∷ ps) r

-- An entry that the search has passed.
abbrev IsPassed : ℕ → ℕ → Option PageBpt → Type 0
IsPassed k from none = Unit {0}
IsPassed k from (some q) = (q.key < k) × (q.key + q.real_len ≤ from) × (q.key + q.real_len < 2 ^ 32)

checked_passed :
    (k from ea size : ℕ) (before : Option PageBpt) (ps : List PageBpt)
    → IsPassed k from before
    → k ≤ ea
    → 1 ≤ size
    → ea + size < 2 ^ 32
    → NoneMeets ea size ps
    → Decided ea size before ps (checked ea size before)
unfolding checked
checked_passed k from ea size none ps b hk h1 h2 nm = nm
checked_passed k from ea size (some q) ps b hk h1 h2 nm =
    elim (Bool-cases (overlap ea size q.key q.real_len)) [
      | inl yes_overlap ↦ rw yes_overlap (unfold overlap in (ground arith, inl refl))
      | inr no_overlap ↦ rw no_overlap (unfold overlap in (λ m. ground arith, nm))
    ]

-- One round of the search passes an entry that begins before the page.
Decided-pass :
    (k from ea size : ℕ) (before : Option PageBpt) (p : PageBpt) (ps : List PageBpt)
    (r : Option PageBpt)
    → IsPassed k from before
    → from ≤ p.key
    → p.key < k
    → k ≤ ea
    → Decided ea size (some p) ps r
    → Decided ea size before (p ∷ ps) r
Decided-pass k from ea size none p ps r b hp hk he d = d
Decided-pass k from ea size (some q) p ps none b hp hk he d = (λ m. absurd (omega arith), d)
Decided-pass k from ea size (some q) p ps (some x) b hp hk he d = (d.0, inr d.1)

-- An entry that meets the range is found, and stays found with another one in front of the list.
checked_found :
    (ea size : ℕ) (before : Option PageBpt) (p : PageBpt) (ps : List PageBpt)
    → Meets ea size p
    → ea + size < 2 ^ 32
    → p.key + p.real_len < 2 ^ 32
    → Decided ea size before (p ∷ ps) (checked ea size (some p))
unfolding checked overlap
checked_found ea size none p ps m h2 h3 =
    let e : overlap ea size p.key p.real_len ≡ true = ground arith in rw e (m, inl refl)
checked_found ea size (some q) p ps m h2 h3 =
    let e : overlap ea size p.key p.real_len ≡ true = ground arith in rw e (m, inr (inl refl))

-- The three ways of a round, by the tests that it makes.
module _ (k range_end : ℕ) (before : Option PageBpt) (p : PageBpt) (ps : List PageBpt) where
  candidate_pass :
      ltb p.key k ≡ true
      → candidate range_end (lower_bound k before (p ∷ ps))
        ≡ candidate range_end (lower_bound k (some p) ps)
  unfolding lower_bound
  candidate_pass h = rw h

  candidate_back :
      ltb p.key k ≡ false
      → leb range_end p.key ≡ true
      → candidate range_end (lower_bound k before (p ∷ ps)) ≡ before
  unfolding lower_bound candidate
  candidate_back h g = ground arith

  candidate_here :
      ltb p.key k ≡ false
      → leb range_end p.key ≡ false
      → candidate range_end (lower_bound k before (p ∷ ps)) ≡ some p
  unfolding lower_bound candidate
  candidate_here h g = ground arith

search_decides :
    (page_size k from ea size : ℕ) (before : Option PageBpt) (ps : List PageBpt)
    → IsPassed k from before
    → IsLaidOut page_size from ps
    → k ≤ ea
    → ea < k + page_size
    → 1 ≤ size
    → ea + size < 2 ^ 32
    → Decided ea size before ps
        (checked ea size (candidate ((ea + size) % 2 ^ 32) (lower_bound k before ps)))
search_decides page_size k from ea size none [] b v hk hp h1 h2 =
    unfold lower_bound candidate in checked_passed k from ea size none [] b hk h1 h2 tt
search_decides page_size k from ea size (some q) [] b v hk hp h1 h2 =
    unfold lower_bound candidate in checked_passed k from ea size (some q) [] b hk h1 h2 tt
search_decides page_size k from ea size before (p ∷ ps) b v hk hp h1 h2 =
    elim (Bool-cases (ltb p.key k)) [
      | inl below ↦ rw (candidate_pass k ((ea + size) % 2 ^ 32) before p ps below) (
          Decided-pass k from ea size before p ps _ b v.0 (ground arith) hk (
            search_decides page_size k (p.key + p.real_len) ea size (some p) ps
              (ground arith, omega arith, omega arith) v.3 hk hp h1 h2))
      | inr above ↦ elim (Bool-cases (leb ((ea + size) % 2 ^ 32) p.key)) [
        | inl beyond ↦ rw (candidate_back k ((ea + size) % 2 ^ 32) before p ps above beyond) (
            checked_passed k from ea size before (p ∷ ps) b hk h1 h2 (
              λ m. ground arith,
              NoneMeets-above page_size (p.key + p.real_len) ea size ps v.3 (ground arith),
            ))
        | inr inside ↦
            rw (candidate_here k ((ea + size) % 2 ^ 32) before p ps above inside)
              (checked_found ea size before p ps (ground arith) h2 (omega arith))
      ]
    ]

-- Over entries laid out apart from one another, each at least a page long, `find_page_bpt` is exact:
-- the entry that it finds is one of them and meets the range, and where it finds none, none of them does.
pub find_page_bpt-Decides :
    (page_size ea size : ℕ) (bpts : List PageBpt)
    → IsLaidOut page_size 0 bpts
    → 1 ≤ page_size
    → 1 ≤ size
    → ea + size < 2 ^ 32
    → Decides ea size bpts (find_page_bpt page_size ea size bpts)
unfolding find_page_bpt calc_page_base
find_page_bpt-Decides page_size ea size bpts v h0 h1 h2 =
    search_decides page_size (ea / page_size * page_size) 0 ea size none bpts tt v
      (grind (arith, div-add-mod ea page_size)) (grind (arith, div-add-mod ea page_size, mod-lt)) h1
      h2
