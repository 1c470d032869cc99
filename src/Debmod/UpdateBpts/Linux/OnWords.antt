-- ===== src/Debmod/UpdateBpts/Linux/OnWords.antt =====
-- A software breakpoint on the memory that `_read_memory` and `_write_memory` reach word by word.
use reverse_engineearing.Base.{
  ℕ, ◌≤◌, ◌<◌, ◌≡◌, refl, Bool, true, false, some, List, [], ◌∷◌, ap, length,
}
use reverse_engineearing.Debmod.HwBpts.{PcRegs, bpt_soft, bpt_ok}
use reverse_engineearing.Debmod.Memory.{Access, dbg_read_memory, dbg_write_memory}
use reverse_engineearing.Debmod.Memory.Bytes.{bytes_at, overlay}
use reverse_engineearing.Debmod.Memory.Words.{
  IsWordMemory, IsMappedRange, dbg_read_memory_lem, dbg_write_memory_lem,
}
use reverse_engineearing.Debmod.UpdateBpts.{BptInfo, dbg_update_bpts}
use reverse_engineearing.Debmod.UpdateBpts.Linux.{Platform, Linux, linux_module}
use reverse_engineearing.Debmod.UpdateBpts.Linux.Restore.{IsMemory, restores}

-- The memory as the code reaches it; `refresh` sets the debug registers of the threads.
abbrev pub platform_of : {M : Type 0} → Access M → List ℕ → (M → PcRegs → Bool × M) → Platform M
platform_of ac code refresh = record {
  bpt_code = code;
  read = λ m ea len. some (dbg_read_memory ac m ea len);
  write = dbg_write_memory ac;
  refresh_hwbpts = refresh;
}

module _ {M : Type 0} (ac : Access M) (code : List ℕ) (refresh : M → PcRegs → Bool × M)
    (byte : M → ℕ → ℕ) (IsMapped : ℕ → Type 0) (law : IsWordMemory ac.kernel byte IsMapped)
    (alive : ac.alive ≡ true) (plain : ac.debug_debugger ≡ false) where
  -- Reads and writes of what is mapped are those of bytes.
  on_words-IsMemory : IsMemory (platform_of ac code refresh) byte (IsMappedRange IsMapped)
  on_words-IsMemory = record {
    reads = λ m ea len h. ap some (dbg_read_memory_lem ac byte IsMapped law m ea len alive h);
    written = λ m ea bs. (dbg_write_memory ac m ea bs).1;
    writes = λ m ea bs h.
        let (m', e, c) = dbg_write_memory_lem ac byte IsMapped law m ea bs alive plain h in
        rw e refl;
    content = λ m ea bs a h.
        let (m', e, c) = dbg_write_memory_lem ac byte IsMapped law m ea bs alive plain h in
        rw e (c a);
  }

  -- While there is a process and the debugger itself is not debugged, adding one software breakpoint with
  -- `dbg_update_bpts` on memory whose words are mapped counts 1, puts the breakpoint's code into memory there and nothing
  -- else, and the original bytes into the entry. Deleting the entry then counts 1, and the byte at any address `a` and the
  -- debug registers are as they were before. The kernel is taken to read and write the words that are mapped.
  pub dbg_update_bpts_restores :
      (s : Linux M) (b : BptInfo) (a : ℕ)
      → b.code ≡ bpt_ok
      → b.bpttype ≡ bpt_soft
      → 0 < length code
      → length code ≤ 32
      → IsMappedRange IsMapped b.ea (length code)
      → (s1 : Linux M) × (s2 : Linux M) × (b1 : BptInfo) × (dbg_update_bpts
            (linux_module (platform_of ac code refresh))
            s
            (b ∷ [])
            1
          ≡ some ((1, b1 ∷ []), s1))
        × (dbg_update_bpts (linux_module (platform_of ac code refresh)) s1 (b1 ∷ []) 0
            ≡ some ((1, b1 ∷ []), s2))
        × (b1.orgbytes ≡ bytes_at (byte s.machine) b.ea (length code))
        × (byte s1.machine a ≡ overlay (byte s.machine) b.ea code a)
        × (byte s2.machine a ≡ byte s.machine a)
        × (s2.regs ≡ s.regs)
  dbg_update_bpts_restores s b a ok soft pos small mapped =
      restores (platform_of ac code refresh) byte (IsMappedRange IsMapped) on_words-IsMemory s b a
        ok soft pos small mapped
