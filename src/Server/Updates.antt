-- ===== src/Server/Updates.antt =====
-- The update of breakpoints as it crosses the wire.
use reverse_engineearing.Base.{
  ℕ, ◌+◌, ◌%◌, ◌^◌, ◌<◌, ◌≡◌, refl, ◌∙◌, ◌≢◌, ◌⊎◌, inl, inr, ◌&&◌, List, [], ◌∷◌, ◌++◌,
  append_assoc, append-nil, arith, ◌==◌, Bool-cases, length, take, drop, All,
}
use reverse_engineearing.Wire.{append_dd, pack_dd}
use reverse_engineearing.Wire.Defects.{append_db_lem}
use reverse_engineearing.Wire.RoundTrip.{IsShort}
use reverse_engineearing.Codec.{◌>>=◌, sub_words}
use reverse_engineearing.Codec.Fields.{
  append_memory-append, Reads, ea_bytes, extract_long-Reads, extract_ea64-Reads, IsWireEa,
}
use reverse_engineearing.Debmod.HwBpts.{bpt_soft, bpt_ok}
use reverse_engineearing.Debmod.UpdateBpts.{BptInfo}
use reverse_engineearing.Server.{
  read_adds, append_update_reply, append_all_added, append_all_deleted, append_added,
}

-- What a client writes for the entries to add: the address as a difference, the size and the type.
unfoldable pub adds_bytes : ℕ → List BptInfo → List ℕ
adds_bytes ea [] = []
adds_bytes ea (b ∷ bs) =
    ea_bytes (sub_words b.ea ea)
    ++ (pack_dd 5 b.size ++ (pack_dd 5 b.bpttype ++ adds_bytes b.ea bs))

-- Entries to add whose numbers can cross the wire, each from the address before it.
abbrev pub IsWireAdds : (ℕ → ℕ) → ℕ → List BptInfo → Type 0
IsWireAdds shl32 ea [] = Unit {0}
IsWireAdds shl32 ea (b ∷ bs) =
    IsWireEa shl32 (sub_words b.ea ea)
    × (b.ea < 2 ^ 32)
    × IsShort b.size
    × IsShort b.bpttype
    × (b.orgbytes ≡ [])
    × (b.code ≡ bpt_ok)
    × IsWireAdds shl32 b.ea bs

-- `rpc_update_bpts` reads the entries to add as they were written with their addresses as differences, if the
-- differences, sizes and types can cross the wire.
pub read_adds-adds_bytes :
    (shl32 : ℕ → ℕ) (ea : ℕ) (bs : List BptInfo)
    → ea < 2 ^ 32
    → IsWireAdds shl32 ea bs
    → Reads (read_adds shl32 (length bs) ea) (adds_bytes ea bs) bs
unfolding read_adds adds_bytes
read_adds-adds_bytes shl32 ea [] small h rest = refl
read_adds-adds_bytes shl32 ea (b ∷ bs) small (hd, hw, hs, ht, ho, hc, more) rest =
    let here : (ea + sub_words b.ea ea) % 2 ^ 32 ≡ b.ea = omega arith in
    simp append_assoc (
      rw
        (
          read_adds,
          extract_ea64-Reads shl32 (sub_words b.ea ea) hd,
          ◌>>=◌,
          extract_long-Reads b.size hs,
          ◌>>=◌,
          extract_long-Reads b.bpttype ht,
          ◌>>=◌,
          here,
          read_adds-adds_bytes shl32 b.ea bs hw more rest,
          ◌>>=◌,
        )
        (ground (arith, here)))

append_all_deleted_lem : (s : List ℕ) (bs : List BptInfo) → append_all_deleted s bs ≡ s
unfolding append_all_deleted
append_all_deleted_lem s [] = refl
append_all_deleted_lem s (b ∷ bs) = rw (append_db_lem s b.code) (append_all_deleted_lem s bs)

-- An entry that carries no original bytes into the reply.
abbrev pub IsBare : BptInfo → Type 0
IsBare b = (b.code ≢ bpt_ok) ⊎ ((b.bpttype ≢ bpt_soft) ⊎ (b.orgbytes ≡ []))

append_added_bare : (s : List ℕ) (b : BptInfo) → IsBare b → append_added s b ≡ s
unfolding append_added
append_added_bare s b h = elim (Bool-cases (b.code == bpt_ok && b.bpttype == bpt_soft)) [
  | inr n ↦ rw n (append_db_lem s b.code)
  | inl y ↦
      let none_left : b.orgbytes ≡ [] = ground (arith, y) in
      rw
        (
          y,
          append_db_lem s b.code,
          append_db_lem s (length b.orgbytes),
          append_memory-append,
          none_left,
        )
        (append-nil s)
]

append_all_added_bare : (s : List ℕ) (bs : List BptInfo) → All IsBare bs → append_all_added s bs ≡ s
unfolding append_all_added
append_all_added_bare s [] h = refl
append_all_added_bare s (b ∷ bs) h = rw (append_added_bare s b h.0) (append_all_added_bare s bs h.1)

-- The reply to an update of breakpoints tells the client only the number of successes: if no entry to add is a
-- software breakpoint that was set and has original bytes, it has nothing behind that number, whatever the codes
-- of the entries are.
pub append_update_reply_bare :
    (req : List ℕ) (nadd ret : ℕ) (bs : List BptInfo)
    → All IsBare (take nadd bs)
    → append_update_reply req nadd ret bs ≡ append_dd req (ret % 2 ^ 32)
unfolding append_update_reply
append_update_reply_bare req nadd ret bs h =
    append_all_deleted_lem (append_all_added (append_dd req (ret % 2 ^ 32)) (take nadd bs))
      (drop nadd bs)
    ∙ append_all_added_bare (append_dd req (ret % 2 ^ 32)) (take nadd bs) h
