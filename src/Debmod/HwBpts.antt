-- ===== src/Debmod/HwBpts.antt =====
-- pc_debmod.cpp and arm_debmod.cpp: hardware breakpoints in the debug registers. An `int` is its 32-bit
-- pattern; the debug registers are written by the platform, whose answer is a parameter.
pub mod Slots
pub mod Arm
pub mod Examples
use reverse_engineearing.Base.{
  ℕ, zero, suc, ◌+◌, ◌-◌, ◌*◌, ◌/◌, ◌%◌, ◌^◌, ◌≤◌, ◌<◌, bit_and, bit_or, ◌≡◌, refl, sym, ap, ◌∙◌,
  ◌≢◌, ◌↔◌, ◌⊎◌, inl, inr, Bool, true, false, not, ◌&&◌, ◌||◌, Option, none, some, List, [], ◌∷◌,
  ◌++◌, append_assoc, append-nil, arith, ltb, leb, ◌==◌, if◌then◌else◌, of_bool, ==_iff, Bool-cases,
  Option-cases, length, get_elem?, set, take, drop, replicate, All, length-append, length-take,
  length-drop, take-append-drop, take-length-append, drop-length-append, take_all, All-append,
  codes, take_pieces, drop_pieces,
}
use reverse_engineearing.Codec.{badaddr}

abbrev pub bpt_write : ℕ
bpt_write = 1

abbrev pub bpt_rdwr : ℕ
bpt_rdwr = 3

abbrev pub bpt_soft : ℕ
bpt_soft = 4

abbrev pub bpt_exec : ℕ
bpt_exec = 8

abbrev pub bpt_ok : ℕ
bpt_ok = 0

abbrev pub bpt_bad_type : ℕ
bpt_bad_type = 2

abbrev pub bpt_bad_len : ℕ
bpt_bad_len = 5

abbrev pub bpt_too_many : ℕ
bpt_too_many = 6

pub record Slot : Type 0 where
  pub ea : ℕ
  pub bpttype : ℕ

-- `pc_debmod_t`: four slots, and the control register.
pub record PcRegs : Type 0 where
  pub slots : List Slot
  pub dr6 : ℕ
  pub dr7 : ℕ

abbrev pub free_slot : Slot
free_slot = record { ea = badaddr; bpttype = 0 }

pub cleanup_hwbpts : PcRegs
cleanup_hwbpts = record {
  slots = free_slot ∷ free_slot ∷ free_slot ∷ free_slot ∷ [];
  dr6 = 0;
  dr7 = 0x100;
}

abbrev pub holds : ℕ → ℕ → Slot → Bool
holds ea type s = s.ea == ea && s.bpttype == type

-- `find_hwbpt_slot` from slot `i` on; `none` is -1.
pub find_slot_from : ℕ → ℕ → ℕ → List Slot → Option ℕ
find_slot_from ea type i [] = none
find_slot_from ea type i (s ∷ ss) =
    let later = find_slot_from ea type (i + 1) ss in
    if holds ea type s then none else (if s.ea == badaddr then some i else later)

pub find_hwbpt_slot : ℕ → ℕ → List Slot → Option ℕ
unfolding find_slot_from
find_hwbpt_slot ea type slots = find_slot_from ea type 0 slots

pub pc_is_ok_bpt : PcRegs → ℕ → ℕ → ℕ
unfolding find_hwbpt_slot
pc_is_ok_bpt r type ea =
    if type == bpt_soft
    then bpt_ok
    else elim (find_hwbpt_slot ea type r.slots) [ none ↦ bpt_too_many | some i ↦ bpt_ok ]

-- The length code that the processor uses.
abbrev length_code : ℕ → ℕ
length_code len = if len == 4 then 3 else (if len == 2 then 1 else 0)

-- `dr7 |= x`, on 32 bits.
abbrev set_bits : ℕ → ℕ → ℕ
set_bits dr7 x = bit_or dr7 (x % 2 ^ 32)

-- `dr7 &= ~x`.
abbrev clear_bits : ℕ → ℕ → ℕ
clear_bits dr7 x = bit_and dr7 (2 ^ 32 - 1 - x)

control_word : ℕ → ℕ → ℕ → ℕ → ℕ
control_word dr7 i type len =
    let code : ℕ = if type == bpt_exec then 0 else type in
    set_bits (set_bits (set_bits dr7 (2 ^ (i * 2))) (code * 2 ^ (16 + i * 4)))
      (length_code len * 2 ^ (18 + i * 4))

-- `none`: there is no slot. Otherwise the result is what `refresh_hwbpts` answers.
pub pc_add_hwbpt : PcRegs → ℕ → ℕ → ℕ → Option PcRegs
unfolding find_hwbpt_slot control_word
pc_add_hwbpt r type ea len = elim (find_hwbpt_slot ea type r.slots) [
  | none ↦ none
  | some i ↦ some (record r {
    slots = set r.slots i (record { ea = ea; bpttype = type });
    dr7 = control_word r.dr7 i type len;
  })
]

-- The first slot that holds the breakpoint, from slot `i` on.
pub find_held : ℕ → ℕ → ℕ → List Slot → Option ℕ
find_held ea type i [] = none
find_held ea type i (s ∷ ss) =
    let later = find_held ea type (i + 1) ss in if holds ea type s then some i else later

-- The type stays in the slot: only the address is cleaned.
pub pc_del_hwbpt : PcRegs → ℕ → ℕ → Option PcRegs
unfolding find_held
pc_del_hwbpt r ea type = elim (find_held ea type 0 r.slots) [
  | none ↦ none
  | some i ↦ some (record r {
    slots = set r.slots i (record { ea = badaddr; bpttype = type });
    dr7 = clear_bits (clear_bits r.dr7 (3 * 2 ^ (i * 2))) (15 * 2 ^ (i * 4 + 16));
  })
]

-- `arm_debmod_t`: two data and two code breakpoints of an xScale processor.
pub record ArmRegs : Type 0 where
  pub is_xscale : Bool
  pub data0 : Slot
  pub data1 : Slot
  pub code0 : Slot
  pub code1 : Slot
  pub dbcon : ℕ

pub arm_is_ok_bpt : ArmRegs → ℕ → ℕ → ℕ
arm_is_ok_bpt r type len =
    if type == bpt_soft
    then bpt_ok
    else (if not r.is_xscale
        then bpt_bad_type
        else (if type == bpt_exec
            then bpt_bad_type
            else (if ltb 4 len && ltb len 0x80000000
                then bpt_bad_len
                else (if r.data0.ea == badaddr || r.data1.ea == badaddr
                    then bpt_ok
                    else bpt_too_many))))

arm_add_code : ArmRegs → Slot → Option ArmRegs
arm_add_code r s =
    if r.code0.ea == badaddr
    then some (record r { code0 = s })
    else (if r.code1.ea == badaddr then some (record r { code1 = s }) else none)

-- The access bits of a data breakpoint; `none`: the type is not supported.
access_bits : ℕ → Option ℕ
access_bits type = if type == bpt_write then some 1 else (if type == bpt_rdwr then some 2 else none)

arm_add_data : ArmRegs → Slot → ℕ → Option ArmRegs
arm_add_data r s bits =
    if r.data0.ea == badaddr
    then some (record r { data0 = s; dbcon = set_bits r.dbcon bits })
    else (if r.data1.ea == badaddr
        then some (record r { data1 = s; dbcon = set_bits r.dbcon (bits * 4) })
        else none)

-- `none`: refused. `init_hwbpt_support` is the platform's answer.
pub arm_add_hwbpt : Bool → ArmRegs → ℕ → ℕ → ℕ → Option ArmRegs
unfolding arm_add_code access_bits arm_add_data
arm_add_hwbpt init_ok r type ea len =
    if not r.is_xscale || (ltb 4 len && ltb len 0x80000000)
    then none
    else (if not init_ok
        then none
        else (if type == bpt_exec
            then arm_add_code r (record { ea = ea; bpttype = type })
            else elim (access_bits type) [
              | none ↦ none
              | some bits ↦ arm_add_data r (record { ea = ea; bpttype = type }) bits
            ]))

abbrev pub freed : Slot → Slot
freed s = record s { ea = badaddr }

pub arm_del_hwbpt : ArmRegs → ℕ → ℕ → Option ArmRegs
arm_del_hwbpt r ea type =
    if holds ea type r.data0
    then some (record r { data0 = freed r.data0; dbcon = clear_bits r.dbcon 3 })
    else (if holds ea type r.data1
        then some (record r { data1 = freed r.data1; dbcon = clear_bits r.dbcon 12 })
        else (if holds ea type r.code0
            then some (record r { code0 = freed r.code0 })
            else (if holds ea type r.code1
                then some (record r { code1 = freed r.code1 })
                else none)))

-- `is_32bit_thumb_insn`: the upper five bits are 29, 30 or 31. The difference is a word.
pub is_32bit_thumb_insn : ℕ → Bool
is_32bit_thumb_insn code = leb ((code / 2 ^ 11 + 2 ^ 32 - 29) % 2 ^ 32) 2

-- The types stay; what `disable_hwbpts` does is the platform's.
pub arm_cleanup_hwbpts : ArmRegs → ArmRegs
arm_cleanup_hwbpts r = record r {
  data0 = freed r.data0;
  data1 = freed r.data1;
  code0 = freed r.code0;
  code1 = freed r.code1;
  dbcon = 0;
}
