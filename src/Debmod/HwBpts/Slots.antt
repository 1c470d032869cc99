-- ===== src/Debmod/HwBpts/Slots.antt =====
-- How the slots of hardware breakpoints are given out and taken back.
use reverse_engineearing.Base.{
  ℕ, zero, suc, ◌+◌, ◌≤◌, ◌≡◌, refl, ◌∙◌, ◌≢◌, inl, inr, false, none, some, List, [], ◌∷◌, arith,
  of_bool, Option-cases, set,
}
use reverse_engineearing.Codec.{badaddr}
use reverse_engineearing.Debmod.HwBpts.{
  Slot, PcRegs, holds, find_slot_from, find_hwbpt_slot, pc_add_hwbpt, find_held, pc_del_hwbpt,
}

-- The pairs that the slots hold, with the free slots left out, and how often one of them occurs.
unfoldable pub times_held : ℕ → ℕ → List Slot → ℕ
times_held ea type [] = 0
times_held ea type (s ∷ ss) = of_bool (holds ea type s) + times_held ea type ss

-- The slot that is given out exists, is free, and every slot before it is in use for another breakpoint.
abbrev pub IsGiven : ℕ → ℕ → ℕ → List Slot → Type 0
IsGiven ea type n [] = ⊥
IsGiven ea type zero (s ∷ ss) = s.ea ≡ badaddr
IsGiven ea type (suc n) (s ∷ ss) =
    (s.ea ≢ badaddr) × (holds ea type s ≡ false) × IsGiven ea type n ss

-- A slot that is found has at least the number that the search began at.
find_slot_from-rising :
    (ea type i : ℕ) (ss : List Slot) {k : ℕ} → find_slot_from ea type i ss ≡ some k → i ≤ k
unfolding find_slot_from
find_slot_from-rising ea type i [] e = cc
find_slot_from-rising ea type i (s ∷ ss) {k} e =
    let ih = find_slot_from-rising ea type (i + 1) ss {k = k} in ground arith

-- The slot that the search gives out.
find_slot_from-IsGiven :
    (ea type i n : ℕ) (ss : List Slot)
    → find_slot_from ea type i ss ≡ some (i + n)
    → IsGiven ea type n ss
unfolding find_slot_from
find_slot_from-IsGiven ea type i n [] e = cc
find_slot_from-IsGiven ea type i zero (s ∷ ss) e =
    let ih = find_slot_from-rising ea type (i + 1) ss {k = i} in ground arith
find_slot_from-IsGiven ea type i (suc n) (s ∷ ss) e =
    let step : (s.ea ≢ badaddr)
        × (holds ea type s ≡ false)
        × (find_slot_from ea type (i + 1) ss ≡ some (i + 1 + n)) =
      ground arith in
    (step.0, step.1, find_slot_from-IsGiven ea type (i + 1) n ss step.2)

-- When the registers have a slot for a breakpoint, it is free, and no slot before it is free or holds this
-- breakpoint already.
pub find_hwbpt_slot-IsGiven :
    (ea type n : ℕ) (slots : List Slot)
    → find_hwbpt_slot ea type slots ≡ some n
    → IsGiven ea type n slots
unfolding find_hwbpt_slot
find_hwbpt_slot-IsGiven ea type n slots e = find_slot_from-IsGiven ea type 0 n slots (ground arith)

-- Filling the slot given out adds one to its breakpoint and leaves the others.
times_held-set :
    (ea type n : ℕ) (ss : List Slot) (other other_type : ℕ)
    → other ≢ badaddr
    → IsGiven ea type n ss
    → times_held other other_type (set ss n (record { ea = ea; bpttype = type }))
      ≡ of_bool (holds other other_type (record { ea = ea; bpttype = type }))
        + times_held other other_type ss
unfolding times_held
times_held-set ea type n [] other ot ne g = absurd g
times_held-set ea type zero (s ∷ ss) other ot ne g = ground arith
times_held-set ea type (suc n) (s ∷ ss) other ot ne g =
    omega (arith, times_held-set ea type n ss other ot ne g.2)

find_held-rising :
    (ea type i : ℕ) (ss : List Slot) {k : ℕ} → find_held ea type i ss ≡ some k → i ≤ k
unfolding find_held
find_held-rising ea type i [] e = cc
find_held-rising ea type i (s ∷ ss) {k} e =
    let ih = find_held-rising ea type (i + 1) ss {k = k} in ground arith

-- `find_held` finds a slot exactly when one is in use for the breakpoint, and freeing it takes one from that
-- breakpoint alone.
find_held-free :
    (ea type i n : ℕ) (ss : List Slot) (other other_type : ℕ)
    → other ≢ badaddr
    → find_held ea type i ss ≡ some (i + n)
    → of_bool (holds other other_type (record { ea = ea; bpttype = type }))
        + times_held other other_type (set ss n (record { ea = badaddr; bpttype = type }))
      ≡ times_held other other_type ss
unfolding find_held times_held
find_held-free ea type i n [] other ot ne e = cc
find_held-free ea type i zero (s ∷ ss) other ot ne e =
    let later = find_held-rising ea type (i + 1) ss {k = i} in ground arith
find_held-free ea type i (suc n) (s ∷ ss) other ot ne e =
    let next : find_held ea type (i + 1) ss ≡ some (i + 1 + n) = ground arith in
    omega (arith, find_held-free ea type (i + 1) n ss other ot ne next)

find_held-none :
    (ea type i : ℕ) (ss : List Slot) → find_held ea type i ss ≡ none → times_held ea type ss ≡ 0
unfolding find_held times_held
find_held-none ea type i [] e = refl
find_held-none ea type i (s ∷ ss) e = let ih = find_held-none ea type (i + 1) ss in ground arith

-- What `add_hwbpt` of the PC does to the breakpoints held.
pub pc_add_hwbpt-times_held :
    (r r' : PcRegs) (type ea len other other_type : ℕ)
    → other ≢ badaddr
    → pc_add_hwbpt r type ea len ≡ some r'
    → times_held other other_type r'.slots
      ≡ of_bool (holds other other_type (record { ea = ea; bpttype = type }))
        + times_held other other_type r.slots
unfolding pc_add_hwbpt
pc_add_hwbpt-times_held r r' type ea len other ot ne e =
    elim (Option-cases (find_hwbpt_slot ea type r.slots)) [
      | inl q ↦ ground (arith, q)
      | inr (n, q) ↦
          let t =
            times_held-set ea type n r.slots other ot ne
              (find_hwbpt_slot-IsGiven ea type n r.slots q) in
          ground (arith, q)
    ]

pub pc_del_hwbpt-times_held :
    (r r' : PcRegs) (ea type other other_type : ℕ)
    → other ≢ badaddr
    → pc_del_hwbpt r ea type ≡ some r'
    → of_bool (holds other other_type (record { ea = ea; bpttype = type }))
        + times_held other other_type r'.slots
      ≡ times_held other other_type r.slots
unfolding pc_del_hwbpt
pc_del_hwbpt-times_held r r' ea type other ot ne e =
    elim (Option-cases (find_held ea type 0 r.slots)) [
      | inl q ↦ ground (arith, q)
      | inr (n, q) ↦ let t = find_held-free ea type 0 n r.slots other ot ne in ground (arith, q)
    ]

pub pc_del_hwbpt-none :
    (r : PcRegs) (ea type : ℕ) → pc_del_hwbpt r ea type ≡ none → times_held ea type r.slots ≡ 0
unfolding pc_del_hwbpt
pc_del_hwbpt-none r ea type e = elim (Option-cases (find_held ea type 0 r.slots)) [
  | inl q ↦ find_held-none ea type 0 r.slots q
  | inr (n, q) ↦ ground (arith, q)
]

-- A hardware breakpoint that was added to the PC's registers is deleted again, and then every breakpoint is
-- in as many slots as before.
pub pc_del_hwbpt-pc_add_hwbpt :
    (r r' : PcRegs) (ea type len other other_type : ℕ)
    → ea ≢ badaddr
    → other ≢ badaddr
    → pc_add_hwbpt r type ea len ≡ some r'
    → (r'' : PcRegs) × (pc_del_hwbpt r' ea type ≡ some r'')
      × (times_held other other_type r''.slots ≡ times_held other other_type r.slots)
pc_del_hwbpt-pc_add_hwbpt r r' ea type len other ot ne ok e =
    elim (Option-cases (pc_del_hwbpt r' ea type)) [
      | inl q ↦
          let added = pc_add_hwbpt-times_held r r' type ea len ea type ne e in
          let gone = pc_del_hwbpt-none r' ea type q in absurd (ground arith)
      | inr (r2, q) ↦ (
        r2,
        q,
        omega (
          arith,
          pc_add_hwbpt-times_held r r' type ea len other ot ok e,
          pc_del_hwbpt-times_held r' r2 ea type other ot ok q,
        ),
      )
    ]

-- With the first slot free, the PC's registers take any breakpoint, one that another slot already holds
-- included, and hold it once more than before.
pub pc_add_hwbpt_again :
    (r : PcRegs) (s : Slot) (ss : List Slot) (ea type len : ℕ)
    → ea ≢ badaddr
    → r.slots ≡ s ∷ ss
    → s.ea ≡ badaddr
    → (r' : PcRegs) × (pc_add_hwbpt r type ea len ≡ some r')
      × (times_held ea type r'.slots ≡ suc (times_held ea type r.slots))
unfolding pc_add_hwbpt find_hwbpt_slot find_slot_from
pc_add_hwbpt_again r s ss ea type len ne shape free =
    let found : find_hwbpt_slot ea type r.slots ≡ some 0 = rw shape (ground arith) in
    elim (Option-cases (pc_add_hwbpt r type ea len)) [
      | inl q ↦ absurd (ground (arith, q, found))
      | inr (r1, q) ↦ (r1, q, pc_add_hwbpt-times_held r r1 type ea len ea type ne q ∙ ground arith)
    ]
