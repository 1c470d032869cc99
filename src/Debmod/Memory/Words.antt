-- ===== src/Debmod/Memory/Words.antt =====
-- What a memory of words holds after an access to its bytes.
use reverse_engineearing.Base.{
  ℕ, zero, suc, ◌+◌, ◌-◌, ◌%◌, ◌^◌, ◌≤◌, ◌<◌, ◌≡◌, refl, sym, ap, ◌∙◌, inl, inr, true, false, some,
  List, [], ◌∷◌, ◌++◌, arith, ◌==◌, Bool-cases, length, take, drop, length-take, length-drop,
  take-append-drop,
}
use reverse_engineearing.Debmod.Memory.{
  Ptrace, Access, nbytes, read_words, dbg_read_memory, poke, write_word, write_words, stamped,
  dbg_write_memory,
}
use reverse_engineearing.Debmod.Memory.Bytes.{
  bytes_at, overlay, overlay_wrap, bytes_wrap, word_with, length-word_with, overlay-word_with,
  overlay_cong, overlay_rest, take-bytes_at, drop-bytes_at, same_bytes, bytes_at-append,
}

-- The kernel's word of a memory whose content is `byte`: an aligned word that is mapped is read as its bytes, and
-- PTRACE_POKETEXT puts a word of four bytes there.
pub record IsWordMemory {M : Type 0} (kernel : Ptrace M) (byte : M → ℕ → ℕ) (IsMapped : ℕ → Type 0)
    : Type 0 where
  pub peeks :
      (m : M) (a : ℕ) → a % 4 ≡ 0 → IsMapped a → kernel.peek m a ≡ some (bytes_at (byte m) a 4)
  pub pokes :
      (m : M) (a : ℕ) (word : List ℕ)
      → a % 4 ≡ 0
      → IsMapped a
      → length word ≡ 4
      → (m' : M) × (kernel.poke_text m a word ≡ some m')
        × ((x : ℕ) → byte m' x ≡ overlay (byte m) a word x)

-- Every word that holds one of these bytes is mapped, and the addresses do not wrap round.
abbrev pub IsMappedRange : (ℕ → Type 0) → ℕ → ℕ → Type 0
IsMappedRange IsMapped ea n =
    (ea + n ≤ 2 ^ 32) × ((a : ℕ) → ea ≤ a → a < ea + n → IsMapped (a - a % 4))

nbytes_lem :
    (ea n : ℕ)
    → (0 < nbytes ea (suc n)) × (nbytes ea (suc n) ≤ suc n) × (ea % 4 + nbytes ea (suc n) ≤ 4)
nbytes_lem ea n = ground arith

module _ {M : Type 0} (ac : Access M) (byte : M → ℕ → ℕ) (IsMapped : ℕ → Type 0)
    (law : IsWordMemory ac.kernel byte IsMapped) where
  open law use {peeks, pokes}

  read_words_lem :
      (fuel : ℕ) (m : M) (ea n : ℕ)
      → n ≤ fuel
      → IsMappedRange IsMapped ea n
      → read_words ac fuel m ea n ≡ bytes_at (byte m) ea n
  unfolding read_words bytes_at
  read_words_lem zero m ea zero h mapped = refl
  read_words_lem zero m ea (suc n) h mapped = absurd (omega arith)
  read_words_lem (suc fuel) m ea zero h mapped = refl
  read_words_lem (suc fuel) m ea (suc n) h (top, mapped) =
      let k = nbytes ea (suc n) in
      let (pos, small, fits) = nbytes_lem ea n in
      let base = ea - ea % 4 in
      let f = byte m in
      let word : ac.kernel.peek m base ≡ some (bytes_at f base 4) =
        peeks m base (omega arith) (mapped ea (omega arith) (omega arith)) in
      let piece : take k (drop (ea % 4) (bytes_at f base 4)) ≡ bytes_at f ea k =
        ap (take k)
          (drop-bytes_at f base 4 (ea % 4) (omega arith) ∙ same_bytes f (omega arith) refl)
        ∙ take-bytes_at f ea (4 - ea % 4) k (omega arith) in
      let rest : read_words ac fuel m ((ea + k) % 2 ^ 32) (suc n - k)
          ≡ bytes_at f (ea + k) (suc n - k) =
        read_words_lem fuel m ((ea + k) % 2 ^ 32) (suc n - k) (omega arith)
          (omega arith, λ a lo hi. mapped a (omega arith) (omega arith))
        ∙ bytes_wrap f (ea + k) (suc n - k) (omega arith) in
      let all : k + (suc n - k) ≡ suc n = omega arith in
      rw (read_words, word)
        (ap (λ t. t ++ read_words ac fuel m ((ea + k) % 2 ^ 32) (suc n - k)) piece
          ∙ ap (◌++◌ (bytes_at f ea k)) rest
          ∙ bytes_at-append f ea k (suc n - k)
          ∙ ap (bytes_at f ea) all)

  write_word_lem :
      (m : M) (ea : ℕ) (bs : List ℕ)
      → ea % 4 + length bs ≤ 4
      → IsMapped (ea - ea % 4)
      → (m' : M) × (write_word ac m ea bs ≡ some m')
        × ((x : ℕ) → byte m' x ≡ overlay (byte m) ea bs x)
  unfolding write_word poke
  write_word_lem m ea bs fits mapped =
      let base = ea - ea % 4 in
      let word = word_with (byte m) ea bs in
      elim (Bool-cases (length bs == 4)) [
        | inl y ↦
            let four : length bs ≡ 4 = ground (arith, y) in
            let aligned : base ≡ ea = omega arith in
            let (m', e, c) = pokes m base bs (omega arith) mapped four in
            (
              m',
              rw (write_word, y, poke, e) refl,
              λ x. c x ∙ ap (λ a. overlay (byte m) a bs x) aligned,
            )
        | inr n ↦
            let (m', e, c) =
              pokes m base word (omega arith) mapped (length-word_with (byte m) ea bs fits) in
            (
              m',
              rw (write_word, n, peeks m base (omega arith) mapped, poke, e) refl,
              λ x. c x ∙ overlay-word_with (byte m) ea bs x fits,
            )
      ]

  write_words_lem :
      (fuel : ℕ) (m : M) (ea : ℕ) (bs : List ℕ)
      → length bs ≤ fuel
      → IsMappedRange IsMapped ea (length bs)
      → (m' : M) × (write_words ac fuel m ea bs ≡ (true, m'))
        × ((x : ℕ) → byte m' x ≡ overlay (byte m) ea bs x)
  unfolding write_words overlay
  write_words_lem zero m ea [] h mapped = (m, refl, λ x. refl)
  write_words_lem zero m ea (b ∷ bs) h mapped = absurd (omega arith)
  write_words_lem (suc fuel) m ea [] h mapped = (m, refl, λ x. refl)
  write_words_lem (suc fuel) m ea (b ∷ bs) h (top, mapped) =
      let k = nbytes ea (suc (length bs)) in
      let (pos, small, fits) = nbytes_lem ea (length bs) in
      let t = take k (b ∷ bs) in
      let d = drop k (b ∷ bs) in
      let lt : length t ≡ k = length-take k (b ∷ bs) ∙ omega arith in
      let ld : length d ≡ suc (length bs) - k = length-drop k (b ∷ bs) in
      let (m1, e1, c1) =
        write_word_lem m ea t (omega arith) (mapped ea (omega arith) (omega arith)) in
      let (m2, e2, c2) =
        write_words_lem fuel m1 ((ea + k) % 2 ^ 32) d (omega arith)
          (omega arith, λ a lo hi. mapped a (omega arith) (omega arith)) in
      (
        m2,
        rw (write_words, e1) e2,
        λ x.
            c2 x
            ∙ overlay_wrap (byte m1) (ea + k) d x (omega arith)
            ∙ overlay_cong (byte m1) (overlay (byte m) ea t) (ea + k) d x (c1 x)
            ∙ ap (λ n. overlay (overlay (byte m) ea t) (ea + n) d x) (sym lt)
            ∙ overlay_rest (byte m) ea t d x
            ∙ ap (λ l. overlay (byte m) ea l x) (take-append-drop k (b ∷ bs)),
      )

  -- While there is a process, `_read_memory` gives all the bytes of a range whose words are mapped, as they lie in
  -- memory, whether or not the range begins and ends with a word. The kernel is taken to read and write such words.
  pub dbg_read_memory_lem :
      (m : M) (ea n : ℕ)
      → ac.alive ≡ true
      → IsMappedRange IsMapped ea n
      → dbg_read_memory ac m ea n ≡ bytes_at (byte m) ea n
  unfolding dbg_read_memory
  dbg_read_memory_lem m ea n alive mapped =
      rw (dbg_read_memory, alive) (read_words_lem n m ea n (omega arith) mapped)

  stamped_lem : (ea : ℕ) (bs : List ℕ) → ac.debug_debugger ≡ false → stamped ac ea bs ≡ bs
  unfolding stamped
  stamped_lem ea [] plain = refl
  stamped_lem ea (b ∷ bs) plain = rw (stamped, plain) refl

  -- While there is a process and the debugger itself is not debugged, `_write_memory` puts all the bytes into such a range
  -- and leaves every other byte of the memory as it was.
  pub dbg_write_memory_lem :
      (m : M) (ea : ℕ) (bs : List ℕ)
      → ac.alive ≡ true
      → ac.debug_debugger ≡ false
      → IsMappedRange IsMapped ea (length bs)
      → (m' : M) × (dbg_write_memory ac m ea bs ≡ (length bs, m'))
        × ((x : ℕ) → byte m' x ≡ overlay (byte m) ea bs x)
  unfolding dbg_write_memory
  dbg_write_memory_lem m ea bs alive plain mapped =
      let (m', e, c) = write_words_lem (length bs) m ea bs (omega arith) mapped in
      let plainly : write_words ac (length bs) m ea (stamped ac ea bs) ≡ (true, m') =
        ap (write_words ac (length bs) m ea) (stamped_lem ea bs plain) ∙ e in
      (m', ground (arith, alive, plainly), c)
