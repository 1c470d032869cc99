-- ===== src/Debmod/HwBpts/Examples.antt =====
-- The theorems on hardware breakpoints at concrete registers.
use reverse_engineearing.Base.{◌≡◌, refl, some, [], ◌∷◌, arith}
use reverse_engineearing.Debmod.HwBpts.{
  Slot, PcRegs, find_hwbpt_slot, find_slot_from, control_word, pc_add_hwbpt, pc_del_hwbpt,
  free_slot, bpt_write,
}
use reverse_engineearing.Debmod.HwBpts.Slots.{
  times_held, pc_del_hwbpt-pc_add_hwbpt, pc_add_hwbpt_again,
}

abbrev watch : Slot
watch = record { ea = 0x2000; bpttype = bpt_write }

-- The first slot was freed; the second one holds a breakpoint on writes.
abbrev one_freed : PcRegs
one_freed = record { slots = free_slot ∷ watch ∷ free_slot ∷ free_slot ∷ []; dr6 = 0; dr7 = 0x100 }

pc_add_hwbpt_again_example :
    (r' : PcRegs) × (pc_add_hwbpt one_freed bpt_write 0x2000 4 ≡ some r')
    × (times_held 0x2000 bpt_write r'.slots ≡ 2)
unfolding times_held
pc_add_hwbpt_again_example =
    pc_add_hwbpt_again one_freed free_slot (watch ∷ free_slot ∷ free_slot ∷ []) 0x2000 bpt_write 4
      (λ e. ground (arith, e)) refl refl

-- The registers when another breakpoint was added.
abbrev one_added : PcRegs
one_added = record {
  slots = record { ea = 0x3000; bpttype = bpt_write } ∷ watch ∷ free_slot ∷ free_slot ∷ [];
  dr6 = 0;
  dr7 = 0xD0101;
}

pc_del_hwbpt-pc_add_hwbpt_example :
    (r'' : PcRegs) × (pc_del_hwbpt one_added 0x3000 bpt_write ≡ some r'')
    × (times_held 0x2000 bpt_write r''.slots ≡ times_held 0x2000 bpt_write one_freed.slots)
unfolding pc_add_hwbpt find_hwbpt_slot find_slot_from control_word
pc_del_hwbpt-pc_add_hwbpt_example =
    pc_del_hwbpt-pc_add_hwbpt one_freed one_added 0x3000 bpt_write 4 0x2000 bpt_write
      (λ e. ground (arith, e)) (λ e. ground (arith, e)) refl
