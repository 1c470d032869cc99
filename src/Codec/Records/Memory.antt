-- ===== src/Codec/Records/Memory.antt =====
-- Memory areas and process attributes through the wire.
use reverse_engineearing.Base.{ℕ, ◌+◌, ◌*◌, ◌/◌, ◌%◌, ◌<◌, bit_or, ◌≡◌, [], arith}
use reverse_engineearing.Wire.RoundTrip.{IsShort}
use reverse_engineearing.Codec.{◌>>=◌, add_words, sub_words}
use reverse_engineearing.Codec.Fields.{
  Reads, IsText, c_str_text, extract_long-Reads, extract_str-Reads, extract_ea64-Reads, IsWireEa,
  Appends, appended,
}
use reverse_engineearing.Codec.Records.{
  MemoryInfo, DebappAttrs, base_bytes, append_memory_info, append_debapp_attrs,
  extract_debapp_attrs, extract_memory_info,
}
use reverse_engineearing.Wire.Mask.{or_nibbles}
use reverse_engineearing.Wire.Format.{IsU32}

abbrev pub IsWireMemory : (ℕ → ℕ) → MemoryInfo → Type 0
IsWireMemory shl32 m =
    IsWireEa shl32 m.sbase
    × IsWireEa shl32 (sub_words m.start_ea (base_bytes m.sbase))
    × IsWireEa shl32 (sub_words m.end_ea m.start_ea)
    × IsU32 m.start_ea
    × IsU32 m.end_ea
    × (m.perm < 16)
    × (m.bitness < 16)
    × IsText m.name
    × IsText m.sclass

pub append_memory_info-append : Appends append_memory_info
unfolding append_memory_info
append_memory_info-append s m = simp appended

-- Everything of a memory area comes back but its permissions: they return with the segment's bitness in
-- their upper four bits.
pub extract_memory_info-append :
    (shl32 : ℕ → ℕ) (m : MemoryInfo)
    → IsWireMemory shl32 m
    → Reads
        (extract_memory_info shl32)
        (append_memory_info [] m)
        (record m { perm = m.perm + 16 * m.bitness })
unfolding extract_memory_info append_memory_info
extract_memory_info-append shl32 m (hb, ho, hs, us, ue, hp, ht, hn, hc) rest =
    let v = bit_or m.perm (m.bitness * 16) in
    let ev : v ≡ m.perm + 16 * m.bitness = or_nibbles m.perm m.bitness hp ht in
    let es : add_words (base_bytes m.sbase) (sub_words m.start_ea (base_bytes m.sbase))
        ≡ m.start_ea =
      omega arith in
    let ee : add_words m.start_ea (sub_words m.end_ea m.start_ea) ≡ m.end_ea = omega arith in
    let e1 : (m.perm + 16 * m.bitness) / 16 % 256 ≡ m.bitness = omega arith in
    let e2 : (m.perm + 16 * m.bitness) % 256 ≡ m.perm + 16 * m.bitness = omega arith in
    simp appended (
      rw (
        extract_ea64-Reads shl32 m.sbase hb,
        ◌>>=◌,
        extract_ea64-Reads shl32 (sub_words m.start_ea (base_bytes m.sbase)) ho,
        ◌>>=◌,
        extract_ea64-Reads shl32 (sub_words m.end_ea m.start_ea) hs,
        ◌>>=◌,
        ev,
        extract_long-Reads (m.perm + 16 * m.bitness) (omega arith),
        ◌>>=◌,
        extract_str-Reads m.name,
        ◌>>=◌,
        extract_str-Reads m.sclass,
        ◌>>=◌,
        c_str_text m.name hn,
        c_str_text m.sclass hc,
        es,
        ee,
        e1,
        e2,
      ))

-- The attributes of the debugged application come back as they were sent.
pub extract_debapp_attrs-append :
    (a : DebappAttrs)
    → IsShort a.addrsize
    → IsText a.platform
    → Reads extract_debapp_attrs (append_debapp_attrs [] a) a
unfolding extract_debapp_attrs append_debapp_attrs
extract_debapp_attrs-append a ha hp rest = simp appended (
    rw (
      extract_long-Reads a.addrsize ha,
      ◌>>=◌,
      extract_str-Reads a.platform,
      ◌>>=◌,
      c_str_text a.platform hp,
    ))
