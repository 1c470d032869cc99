-- ===== src/Debmod/HwBpts/Arm.antt =====
-- arm_debmod.cpp: what the two data and the two code registers of an xScale processor hold.
use reverse_engineearing.Base.{
  ℕ, ◌+◌, ◌≡◌, ◌≢◌, ◌↔◌, ◌⊎◌, inl, inr, Bool, true, none, some, arith, ◌==◌, of_bool, Bool-cases,
  Option-cases,
}
use reverse_engineearing.Codec.{badaddr}
use reverse_engineearing.Debmod.HwBpts.{
  Slot, ArmRegs, holds, arm_is_ok_bpt, arm_add_hwbpt, arm_add_code, arm_add_data, access_bits,
  arm_del_hwbpt, freed, bpt_ok, bpt_exec, bpt_write, bpt_rdwr,
}

-- In how many of the four registers a breakpoint is.
unfoldable pub arm_times_held : ℕ → ℕ → ArmRegs → ℕ
arm_times_held ea type r =
    of_bool (holds ea type r.data0)
    + of_bool (holds ea type r.data1)
    + of_bool (holds ea type r.code0)
    + of_bool (holds ea type r.code1)

arm_add_code-times_held :
    (r r' : ArmRegs) (s : Slot) (other other_type : ℕ)
    → other ≢ badaddr
    → arm_add_code r s ≡ some r'
    → arm_times_held other other_type r'
      ≡ of_bool (holds other other_type s) + arm_times_held other other_type r
unfolding arm_add_code arm_times_held
arm_add_code-times_held r r' s other ot ne e = ground arith

arm_add_data-times_held :
    (r r' : ArmRegs) (s : Slot) (bits other other_type : ℕ)
    → other ≢ badaddr
    → arm_add_data r s bits ≡ some r'
    → arm_times_held other other_type r'
      ≡ of_bool (holds other other_type s) + arm_times_held other other_type r
unfolding arm_add_data arm_times_held
arm_add_data-times_held r r' s bits other ot ne e = ground arith

arm_add_hwbpt-times_held :
    (init_ok : Bool) (r r' : ArmRegs) (type ea len other other_type : ℕ)
    → other ≢ badaddr
    → arm_add_hwbpt init_ok r type ea len ≡ some r'
    → arm_times_held other other_type r'
      ≡ of_bool (holds other other_type (record { ea = ea; bpttype = type }))
        + arm_times_held other other_type r
unfolding arm_add_hwbpt
arm_add_hwbpt-times_held init_ok r r' type ea len other ot ne e =
    elim (Bool-cases (type == bpt_exec)) [
      | inl y ↦
          ground (
            arith,
            y,
            arm_add_code-times_held r r' (record { ea = ea; bpttype = type }) other ot ne,
          )
      | inr n ↦ elim (Option-cases (access_bits type)) [
        | inl q ↦ ground (arith, n, q)
        | inr (bits, q) ↦ ground (
          arith,
          n,
          q,
          arm_add_data-times_held r r' (record { ea = ea; bpttype = type }) bits other ot ne,
        )
      ]
    ]

-- A register that holds a breakpoint counts for it alone, and freed for none.
freed_lem :
    (s : Slot) (ea type other other_type : ℕ)
    → other ≢ badaddr
    → holds ea type s ≡ true
    → (of_bool (holds other other_type s)
        ≡ of_bool (holds other other_type (record { ea = ea; bpttype = type })))
      × (of_bool (holds other other_type (freed s)) ≡ 0)
freed_lem s ea type other ot ne e = ground arith

arm_del_hwbpt-times_held :
    (r r' : ArmRegs) (ea type other other_type : ℕ)
    → other ≢ badaddr
    → arm_del_hwbpt r ea type ≡ some r'
    → of_bool (holds other other_type (record { ea = ea; bpttype = type }))
        + arm_times_held other other_type r'
      ≡ arm_times_held other other_type r
unfolding arm_del_hwbpt arm_times_held
arm_del_hwbpt-times_held r r' ea type other ot ne e = elim (Bool-cases (holds ea type r.data0)) [
  | inl y ↦ grind (arith, freed_lem r.data0 ea type other ot ne y)
  | inr a ↦ elim (Bool-cases (holds ea type r.data1)) [
    | inl y ↦ grind (arith, freed_lem r.data1 ea type other ot ne y)
    | inr b ↦ elim (Bool-cases (holds ea type r.code0)) [
      | inl y ↦ grind (arith, freed_lem r.code0 ea type other ot ne y)
      | inr c ↦ elim (Bool-cases (holds ea type r.code1)) [
        | inl y ↦ grind (arith, freed_lem r.code1 ea type other ot ne y)
        | inr d ↦ grind arith
      ]
    ]
  ]
]

arm_del_hwbpt-none :
    (r : ArmRegs) (ea type : ℕ) → arm_del_hwbpt r ea type ≡ none → arm_times_held ea type r ≡ 0
unfolding arm_del_hwbpt arm_times_held
arm_del_hwbpt-none r ea type e = ground arith

-- A hardware breakpoint that was added to the registers of an xScale processor is deleted again, and then
-- every breakpoint is in as many registers as before.
pub arm_del_hwbpt-arm_add_hwbpt :
    (init_ok : Bool) (r r' : ArmRegs) (type ea len other other_type : ℕ)
    → ea ≢ badaddr
    → other ≢ badaddr
    → arm_add_hwbpt init_ok r type ea len ≡ some r'
    → (r'' : ArmRegs) × (arm_del_hwbpt r' ea type ≡ some r'')
      × (arm_times_held other other_type r'' ≡ arm_times_held other other_type r)
arm_del_hwbpt-arm_add_hwbpt init_ok r r' type ea len other ot ne ok e =
    elim (Option-cases (arm_del_hwbpt r' ea type)) [
      | inl q ↦
          let added = arm_add_hwbpt-times_held init_ok r r' type ea len ea type ne e in
          let gone = arm_del_hwbpt-none r' ea type q in absurd (ground arith)
      | inr (r2, q) ↦ (
        r2,
        q,
        omega (
          arith,
          arm_add_hwbpt-times_held init_ok r r' type ea len other ot ok e,
          arm_del_hwbpt-times_held r' r2 ea type other ot ok q,
        ),
      )
    ]

-- For a breakpoint on writes, or on reads and writes, `is_ok_bpt` says BPT_OK exactly when `add_hwbpt` takes
-- it, given that the support for hardware breakpoints starts.
pub arm_is_ok_bpt_iff :
    (r : ArmRegs) (type ea len : ℕ)
    → (type ≡ bpt_write) ⊎ (type ≡ bpt_rdwr)
    → (arm_is_ok_bpt r type len ≡ bpt_ok) ↔ (arm_add_hwbpt true r type ea len ≢ none)
unfolding arm_is_ok_bpt arm_add_hwbpt access_bits arm_add_data
arm_is_ok_bpt_iff r type ea len t = ground arith
