-- ===== src/Debmod/UpdateBpts/Examples.antt =====
-- The theorems on the update of breakpoints at a concrete memory.
use reverse_engineearing.Base.{
  ℕ, ◌%◌, ◌≡◌, refl, true, false, none, some, List, [], ◌∷◌, ◌++◌, arith, replicate,
}
use reverse_engineearing.Debmod.HwBpts.{bpt_soft}
use reverse_engineearing.Debmod.UpdateBpts.{
  BptInfo, Module, dbg_update_bpts, bpt_skip, add_all, del_all, add_one, del_one, place, place_soft,
  deleted, read_bpt_orgbytes,
}
use reverse_engineearing.Debmod.UpdateBpts.Count.{
  count_ok, IsAdded, IsDeleted, Pointwise, dbg_update_bpts-count,
}
use reverse_engineearing.Debmod.UpdateBpts.Linux.{Platform, Linux, linux_module}
use reverse_engineearing.Debmod.UpdateBpts.Linux.OnWords.{platform_of, dbg_update_bpts_restores}
use reverse_engineearing.Debmod.Memory.{Access, dbg_read_memory, dbg_write_memory}
use reverse_engineearing.Debmod.Memory.Bytes.{bytes_at, overlay}
use reverse_engineearing.Debmod.Memory.Words.{
  IsWordMemory, dbg_read_memory_lem, dbg_write_memory_lem,
}

-- A module that answers 1 to everything, with a zero at every address.
abbrev willing : Module (Unit {0})
willing = record {
  can_cont = false;
  bpt_code = 0xCC ∷ [];
  dbg_read_memory = λ w ea len. some (replicate len 0);
  dbg_add_bpt = λ w type ea len. some (1, w);
  dbg_del_bpt = λ w type ea org len. some (1, w);
}

abbrev to_add : BptInfo
to_add = record { ea = 0x1000; orgbytes = []; bpttype = bpt_soft; size = 0; code = 0 }

abbrev added : BptInfo
added = record to_add { orgbytes = 0 ∷ [] }

abbrev skipped : BptInfo
skipped = record to_add { code = bpt_skip }

dbg_update_bpts-count_example :
    (2 ≡ count_ok (added ∷ skipped ∷ added ∷ []))
    × ((adds : List BptInfo) × (dels : List BptInfo) × (added ∷ skipped ∷ added ∷ [] ≡ adds ++ dels)
        × Pointwise IsAdded (to_add ∷ skipped ∷ []) adds
        × Pointwise IsDeleted (added ∷ []) dels)
unfolding dbg_update_bpts add_all del_all add_one del_one place place_soft deleted read_bpt_orgbytes
dbg_update_bpts-count_example =
    dbg_update_bpts-count willing tt tt (to_add ∷ skipped ∷ added ∷ [])
      (added ∷ skipped ∷ added ∷ []) 2 2 refl

-- A memory of all addresses is a function; every word of it is mapped.
abbrev access : Access (ℕ → ℕ)
access = record {
  kernel = record {
    peek = λ m a. some (bytes_at m a 4);
    poke_text = λ m a word. some (overlay m a word);
    poke_data = λ m a word. none;
  };
  alive = true;
  debug_debugger = false;
  debug_text = λ ea size. [];
}

abbrev whole-IsWordMemory : IsWordMemory access.kernel (λ m. m) (λ a. Unit {0})
whole-IsWordMemory = record {
  peeks = λ m a aligned h. refl;
  pokes = λ m a word aligned h len. (overlay m a word, refl, λ x. refl);
}

abbrev whole_memory : Platform (ℕ → ℕ)
whole_memory = platform_of access (0xCC ∷ []) (λ m r. (true, m))

-- The byte at an address is the address itself in this memory.
abbrev before : Linux (ℕ → ℕ)
before = record {
  machine = λ a. a % 256;
  bpts = [];
  removed_bpts = [];
  regs = record { slots = []; dr6 = 0; dr7 = 0x100 };
}

dbg_update_bpts_restores_example :
    (s1 : Linux (ℕ → ℕ)) × (s2 : Linux (ℕ → ℕ)) × (b1 : BptInfo) × (dbg_update_bpts
        (linux_module whole_memory)
        before
        (to_add ∷ [])
        1
      ≡ some ((1, b1 ∷ []), s1))
    × (dbg_update_bpts (linux_module whole_memory) s1 (b1 ∷ []) 0 ≡ some ((1, b1 ∷ []), s2))
    × (b1.orgbytes ≡ bytes_at before.machine 0x1000 1)
    × (s1.machine 0x1000 ≡ overlay before.machine 0x1000 (0xCC ∷ []) 0x1000)
    × (s2.machine 0x1000 ≡ before.machine 0x1000)
    × (s2.regs ≡ before.regs)
dbg_update_bpts_restores_example =
    dbg_update_bpts_restores access (0xCC ∷ []) (λ m r. (true, m)) (λ m. m) (λ a. Unit {0})
      whole-IsWordMemory refl refl before to_add 0x1000 refl refl (omega arith) (omega arith)
      (omega arith, λ a lo hi. tt)

dbg_read_memory_lem_example :
    dbg_read_memory access before.machine 0x1003 6 ≡ bytes_at before.machine 0x1003 6
dbg_read_memory_lem_example =
    dbg_read_memory_lem access (λ m. m) (λ a. Unit {0}) whole-IsWordMemory before.machine 0x1003 6
      refl (omega arith, λ a lo hi. tt)

-- Six bytes that begin in one word and end in the next but one.
abbrev six : List ℕ
six = 1 ∷ 2 ∷ 3 ∷ 4 ∷ 5 ∷ 6 ∷ []

dbg_write_memory_lem_example :
    (m' : ℕ → ℕ) × (dbg_write_memory access before.machine 0x1003 six ≡ (6, m'))
    × ((x : ℕ) → m' x ≡ overlay before.machine 0x1003 six x)
dbg_write_memory_lem_example =
    dbg_write_memory_lem access (λ m. m) (λ a. Unit {0}) whole-IsWordMemory before.machine 0x1003
      six refl refl (omega arith, λ a lo hi. tt)
