-- ===== src/Codec/Registers/RoundTrip.antt =====
-- Register values and appcall arguments through the wire.
use reverse_engineearing.Base.{
  ℕ, ◌+◌, ◌<◌, ◌≡◌, refl, ◌∙◌, Bool, true, false, none, List, [], ◌++◌, append_assoc, length, All,
}
use reverse_engineearing.Wire.{append_dd, pack_dd}
use reverse_engineearing.Wire.Format.{append_dd-append, append_dq-append}
use reverse_engineearing.Wire.RoundTrip.{IsShort}
use reverse_engineearing.Codec.{◌>>=◌, extract_count, append_memory}
use reverse_engineearing.Codec.Fields.{
  Reads, Reads->>=, Appends, appended, items_bytes, append_list-append, extract_list-Reads,
  extract_memory-Reads, extract_long-Reads, extract_count-Reads, extract_ea64-Reads, IsWireEa,
}
use reverse_engineearing.Codec.Registers.{
  RegVal, int_val, float_val, custom_val, RegObj, RelObj, fval_size, append_regobj, append_regobjs,
  append_relobj, append_appcall, extract_sized, extract_regobj, extract_regobjs, extract_relobj,
  extract_appcall,
}

append_memory-append : (s buf : List ℕ) → append_memory s buf ≡ s ++ buf
unfolding append_memory
append_memory-append s buf = refl

ruleset appended_here = (appended, append_dq-append, append_memory-append)

-- The values that a register can bring across: integers below 2^14 - 1, whole floating-point values, and short
-- byte strings.
abbrev pub IsWireVal : (ℕ → ℕ) → RegVal → Type 0
IsWireVal shl32 (int_val n) = (n + 1 < 0x4000) × (shl32 0 ≡ 0)
IsWireVal shl32 (float_val f) = length f ≡ fval_size
IsWireVal shl32 (custom_val t b) = (t + 2 < 0x4000) × IsShort (length b)

-- The reader gives every custom value the type 0.
abbrev pub received_val : RegVal → RegVal
received_val (int_val n) = int_val n
received_val (float_val f) = float_val f
received_val (custom_val t b) = custom_val 0 b

extract_sized-Reads :
    (b : List ℕ) → IsShort (length b) → Reads extract_sized (pack_dd 5 (length b) ++ b) b
unfolding extract_sized
extract_sized-Reads b h =
    Reads->>= extract_count (pack_dd 5 (length b)) (length b) (extract_count-Reads (length b) h) _ b
      b (extract_memory-Reads b)

abbrev pub IsWireObj : RegObj → Type 0
IsWireObj ro = IsShort ro.regidx × IsShort ro.relocate × IsShort (length ro.value)

pub append_regobj-append : (w : Bool) → Appends (append_regobj w)
unfolding append_regobj
append_regobj-append true s ro = simp appended_here
append_regobj-append false s ro = simp appended_here

extract_regobj-append :
    (ro : RegObj) → IsWireObj ro → Reads (extract_regobj true) (append_regobj true [] ro) ro
unfolding extract_regobj append_regobj
extract_regobj-append ro (hi, hr, hv) rest = simp appended_here (
    rw (
      extract_long-Reads ro.regidx hi,
      ◌>>=◌,
      extract_count-Reads (length ro.value) hv,
      ◌>>=◌,
      extract_long-Reads ro.relocate hr,
      ◌>>=◌,
      extract_memory-Reads ro.value,
      ◌>>=◌,
    ))

-- Register arguments come back as they were sent, with their values.
pub extract_regobjs-append :
    (objs : List RegObj)
    → All IsWireObj objs
    → IsShort (length objs)
    → Reads (extract_regobjs true) (append_regobjs true [] objs) objs
unfolding extract_regobjs append_regobjs
extract_regobjs-append objs h n rest = rw (
  append_list-append (append_regobj true) (append_regobj-append true) (append_dd [] (length objs))
      objs,
  append_dd-append [] (length objs),
  append_assoc (pack_dd 5 (length objs)) (items_bytes (append_regobj true) objs) rest,
  extract_count-Reads (length objs) n,
  ◌>>=◌,
  extract_list-Reads IsWireObj (extract_regobj true) (append_regobj true) extract_regobj-append objs
      h rest,
)

append_regobjs-append : (w : Bool) → Appends (append_regobjs w)
unfolding append_regobjs
append_regobjs-append w s objs =
    append_list-append (append_regobj w) (append_regobj-append w) (append_dd s (length objs)) objs
    ∙ rw
        (append_list-append (append_regobj w) (append_regobj-append w) (append_dd [] (length objs))
          objs)
        (simp appended_here)

append_relobj-append : Appends append_relobj
unfolding append_relobj
append_relobj-append s r = simp appended_here

abbrev pub IsWireRel : (ℕ → ℕ) → RelObj → Type 0
IsWireRel shl32 r = IsShort (length r.bytes) × IsWireEa shl32 r.base × IsShort (length r.ri)

extract_relobj-append :
    (shl32 : ℕ → ℕ) (r : RelObj)
    → IsWireRel shl32 r
    → Reads (extract_relobj shl32) (append_relobj [] r) r
unfolding extract_relobj append_relobj
extract_relobj-append shl32 r (hb, ha, hr) rest = simp appended_here (
    rw (
      extract_count-Reads (length r.bytes) hb,
      ◌>>=◌,
      extract_memory-Reads r.bytes,
      ◌>>=◌,
      extract_ea64-Reads shl32 r.base ha,
      ◌>>=◌,
      extract_count-Reads (length r.ri) hr,
      ◌>>=◌,
      extract_memory-Reads r.ri,
      ◌>>=◌,
    ))

-- The arguments of a manual appcall, which names no return registers, come back as they were sent.
pub extract_appcall-append :
    (shl32 : ℕ → ℕ) (regargs : List RegObj) (stkargs : RelObj)
    → All IsWireObj regargs
    → IsShort (length regargs)
    → IsWireRel shl32 stkargs
    → Reads
        (extract_appcall shl32 false)
        (append_appcall [] regargs stkargs none)
        (regargs, stkargs, none)
unfolding extract_appcall append_appcall
extract_appcall-append shl32 regargs stkargs h n hs rest = rw (
  append_relobj-append (append_regobjs true [] regargs) stkargs,
  append_assoc (append_regobjs true [] regargs) (append_relobj [] stkargs) rest,
  extract_regobjs-append regargs h n,
  ◌>>=◌,
  extract_relobj-append shl32 stkargs hs rest,
  ◌>>=◌,
)
