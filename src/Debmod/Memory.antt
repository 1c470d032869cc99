-- ===== src/Debmod/Memory.antt =====
-- linux_debmod.cpp: `_read_memory` and `_write_memory`, which reach the memory of the process word by word, on Android,
-- where no file of the memory is opened. A word of four bytes is the list of its bytes, the lowest first, as they lie in
-- memory. The threads are frozen around an access and thawed, which Debmod/Threads is about: none of its calls writes
-- memory. An address has 32 bits.
pub mod Bytes
pub mod Words
use reverse_engineearing.Base.{
  ℕ, zero, suc, ◌+◌, ◌-◌, ◌%◌, ◌^◌, Bool, true, false, Option, none, some, List, [], ◌∷◌, ◌++◌, ltb,
  leb, ◌==◌, if◌then◌else◌, length, take, drop,
}

-- PTRACE_PEEKTEXT, and PTRACE_POKETEXT and PTRACE_POKEDATA, which give none where they set errno.
pub record Ptrace (M : Type 0) : Type 0 where
  pub peek : M → ℕ → Option (List ℕ)
  pub poke_text : M → ℕ → List ℕ → Option M
  pub poke_data : M → ℕ → List ℕ → Option M

-- The fields that are read here: is there a process, and is the debugger itself debugged? `debug_text` is the text
-- that snprintf formats, of an address and a size.
pub record Access (M : Type 0) : Type 0 where
  pub kernel : Ptrace M
  pub alive : Bool
  pub debug_debugger : Bool
  pub debug_text : ℕ → ℕ → List ℕ

-- The bytes from an address to the end of its word, or fewer.
abbrev pub nbytes : ℕ → ℕ → ℕ
nbytes ea size = let n = if ea % 4 == 0 then 4 else 4 - ea % 4 in if ltb size n then size else n

module _ {M : Type 0} (ac : Access M) where
  open ac use {kernel, alive, debug_debugger, debug_text}

  -- Each turn reads a byte at least: fuel of the size is enough.
  pub read_words : ℕ → M → ℕ → ℕ → List ℕ
  read_words zero m ea size = []
  read_words (suc fuel) m ea zero = []
  read_words (suc fuel) m ea (suc size) =
      let n = nbytes ea (suc size) in
      let rest = read_words fuel m ((ea + n) % 2 ^ 32) (suc size - n) in
      elim (kernel.peek m (ea - ea % 4)) [ none ↦ [] | some v ↦ take n (drop (ea % 4) v) ++ rest ]

  -- `dbg_read_memory`: the bytes that were read.
  pub dbg_read_memory : M → ℕ → ℕ → List ℕ
  unfolding read_words
  dbg_read_memory m ea size = if alive then read_words size m ea size else []

  -- One word, which must be read if not all of it is written.
  poke : M → ℕ → List ℕ → Option M
  poke m ea word = elim (kernel.poke_text m ea word) [
    | some m' ↦ some m'
    | none ↦ kernel.poke_data m ea word
  ]

  pub write_word : M → ℕ → List ℕ → Option M
  unfolding poke
  write_word m ea bs =
      let base = ea - ea % 4 in
      if length bs == 4 then poke m base bs else elim (kernel.peek m base) [
        | none ↦ none
        | some old ↦ poke m base (take (ea % 4) old ++ (bs ++ drop (ea % 4 + length bs) old))
      ]

  -- Whether all of them were written, and the memory. Fuel of as many bytes is enough.
  pub write_words : ℕ → M → ℕ → List ℕ → Bool × M
  unfolding write_word
  write_words zero m ea bs = (true, m)
  write_words (suc fuel) m ea [] = (true, m)
  write_words (suc fuel) m ea (b ∷ bs) =
      let n = nbytes ea (suc (length bs)) in
      elim (write_word m ea (take n (b ∷ bs))) [
        | none ↦ (false, m)
        | some m' ↦ write_words fuel m' ((ea + n) % 2 ^ 32) (drop n (b ∷ bs))
      ]

  -- What is written of a buffer: the text for debugging goes over its front, cut to its size with the NUL.
  pub stamped : ℕ → List ℕ → List ℕ
  stamped ea [] = []
  stamped ea (b ∷ bs) =
      if debug_debugger
      then (let text = take (length bs) (debug_text ea (suc (length bs))) ++ (0 ∷ []) in
          text ++ drop (length text) (b ∷ bs))
      else b ∷ bs

  -- `dbg_write_memory`: how many bytes were written, and the memory. That the caller's buffer is `stamped` too is left out.
  pub dbg_write_memory : M → ℕ → List ℕ → ℕ × M
  unfolding write_words stamped
  dbg_write_memory m ea bs =
      if alive
      then (let r = write_words (length bs) m ea (stamped ea bs) in
          (if r.0 then length bs else 0, r.1))
      else (0, m)
