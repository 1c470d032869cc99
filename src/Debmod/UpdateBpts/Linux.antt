-- ===== src/Debmod/UpdateBpts/Linux.antt =====
-- linux_debmod.cpp, on a PC: what adds and deletes one breakpoint. The memory of the process and the debug
-- registers of its threads are reached through the platform, whose state is `M`.
pub mod Restore
pub mod OnWords
use reverse_engineearing.Base.{
  ℕ, zero, suc, ◌+◌, ◌-◌, ◌*◌, ◌/◌, ◌%◌, ◌^◌, ◌≤◌, ◌<◌, bit_and, bit_or, ◌≡◌, refl, sym, ap, ◌∙◌,
  ◌≢◌, ◌↔◌, ◌⊎◌, inl, inr, Bool, true, false, not, ◌&&◌, ◌||◌, Option, none, some, List, [], ◌∷◌,
  ◌++◌, append_assoc, append-nil, arith, ltb, leb, ◌==◌, if◌then◌else◌, of_bool, ==_iff, Bool-cases,
  Option-cases, length, get_elem?, set, take, drop, replicate, All, length-append, length-take,
  length-drop, take-append-drop, take-length-append, drop-length-append, take_all, All-append,
  codes, take_pieces, drop_pieces,
}
use reverse_engineearing.Debmod.HwBpts.{PcRegs, pc_add_hwbpt, pc_del_hwbpt, bpt_soft}
use reverse_engineearing.Debmod.UpdateBpts.{Module, fit}

-- A read answers `none` for a negative number; a write, how many bytes it wrote; `refresh_hwbpts`, whether the
-- registers could be set.
pub record Platform (M : Type 0) : Type 0 where
  pub bpt_code : List ℕ
  pub read : M → ℕ → ℕ → Option (List ℕ)
  pub write : M → ℕ → List ℕ → ℕ × M
  pub refresh_hwbpts : M → PcRegs → Bool × M

-- `debmod_bpt_t`.
pub record SavedBpt : Type 0 where
  pub ea : ℕ
  pub saved : List ℕ
  pub nsaved : ℕ

pub record Linux (M : Type 0) : Type 0 where
  pub machine : M
  pub bpts : List SavedBpt
  pub removed_bpts : List ℕ
  pub regs : PcRegs

-- `bpts[ea] = dbpt`.
abbrev pub put_bpt : SavedBpt → List SavedBpt → List SavedBpt
put_bpt b [] = b ∷ []
put_bpt b (p ∷ ps) = if p.ea == b.ea then b ∷ ps else p ∷ put_bpt b ps

abbrev pub erase_ea : ℕ → List ℕ → List ℕ
erase_ea ea [] = []
erase_ea ea (k ∷ ks) = if k == ea then ks else k ∷ erase_ea ea ks

abbrev pub insert_ea : ℕ → List ℕ → List ℕ
insert_ea ea ks = ea ∷ erase_ea ea ks

-- The answer of a read as a condition, and the bytes that it put into `saved`.
abbrev pub read_some : Option (List ℕ) → Bool
read_some none = true
read_some (some []) = false
read_some (some (b ∷ bs)) = true

abbrev pub read_bytes : Option (List ℕ) → List ℕ
read_bytes none = []
read_bytes (some bs) = bs

module _ {M : Type 0} (pf : Platform M) where
  open pf use {bpt_code, read, write}

  abbrev answer : Linux M → PcRegs → Bool × M → ℕ × Linux M
  answer s r (ok, m) = (of_bool ok, record s { machine = m; regs = r })

  add_hwbpt : Linux M → ℕ → ℕ → ℕ → ℕ × Linux M
  add_hwbpt s type ea len = elim (pc_add_hwbpt s.regs type ea len) [
    | none ↦ (0, s)
    | some r ↦ answer s r (pf.refresh_hwbpts s.machine r)
  ]

  del_hwbpt : Linux M → ℕ → ℕ → ℕ × Linux M
  del_hwbpt s ea type = elim (pc_del_hwbpt s.regs ea type) [
    | none ↦ (0, s)
    | some r ↦ answer s r (pf.refresh_hwbpts s.machine r)
  ]

  -- After the write of the breakpoint's code: a short write falls through to `add_hwbpt`.
  after_write : Linux M → ℕ → ℕ → ℕ → List ℕ → ℕ × M → ℕ × Linux M
  unfolding add_hwbpt
  after_write s type ea len saved (n, m) =
      if n == len
      then (
        1,
        record s {
          machine = m;
          bpts = put_bpt (record { ea = ea; saved = saved; nsaved = len }) s.bpts;
          removed_bpts = erase_ea ea s.removed_bpts;
        },
      )
      else add_hwbpt (record s { machine = m }) type ea len

  add_soft : Linux M → ℕ → ℕ → ℕ → ℕ × Linux M
  unfolding add_hwbpt after_write
  add_soft s type ea len =
      let r = read s.machine ea len in
      if read_some r
      then after_write s type ea len (read_bytes r) (write s.machine ea (take len bpt_code))
      else add_hwbpt s type ea len

  -- A negative length stands for that of the breakpoint's code.
  pub linux_add_bpt : Linux M → ℕ → ℕ → ℕ → Option (ℕ × Linux M)
  unfolding add_hwbpt add_soft
  linux_add_bpt s type ea len =
      let size : ℕ = if leb 0x80000000 len then length bpt_code else len in
      if type == bpt_soft
      then (if ltb 0 size && leb size (length bpt_code)
          then some (add_soft s type ea size)
          else none)
      else some (add_hwbpt s type ea len)

  -- After the write of the original bytes: a short write falls through to `del_hwbpt`.
  after_restore : Linux M → ℕ → ℕ → ℕ → ℕ × M → ℕ × Linux M
  unfolding del_hwbpt
  after_restore s type ea len (n, m) =
      if n == len
      then (1, record s { machine = m; removed_bpts = insert_ea ea s.removed_bpts })
      else del_hwbpt (record s { machine = m }) ea type

  -- An empty vector of original bytes is a null pointer.
  pub linux_del_bpt : Linux M → ℕ → ℕ → List ℕ → ℕ → Option (ℕ × Linux M)
  unfolding del_hwbpt after_restore
  linux_del_bpt s type ea [] len = some (del_hwbpt s ea type)
  linux_del_bpt s type ea (b ∷ bs) len =
      some (after_restore s type ea len (write s.machine ea (fit len (b ∷ bs))))

  -- `linux_debmod_t` for `dbg_update_bpts`.
  abbrev pub linux_module : Module (Linux M)
  linux_module = record {
    can_cont = false;
    bpt_code = bpt_code;
    dbg_read_memory = λ s. read s.machine;
    dbg_add_bpt = linux_add_bpt;
    dbg_del_bpt = linux_del_bpt;
  }
