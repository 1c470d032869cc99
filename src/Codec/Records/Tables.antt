-- ===== src/Codec/Records/Tables.antt =====
-- The exception table and the call stack through the wire.
use reverse_engineearing.Base.{ℕ, ◌≡◌, true, false, List, [], append_assoc, arith, ltb, length, All}
use reverse_engineearing.Wire.{append_dd, pack_dd}
use reverse_engineearing.Wire.Format.{append_dd-append}
use reverse_engineearing.Wire.RoundTrip.{IsShort}
use reverse_engineearing.Codec.{◌>>=◌}
use reverse_engineearing.Codec.Fields.{
  Reads, IsText, c_str_text, extract_long-Reads, extract_count-Reads, extract_str-Reads,
  extract_ea64-Reads, IsWireEa, items_bytes, Appends, appended, append_list-append,
  extract_list-Reads,
}
use reverse_engineearing.Codec.Records.{
  ExceptionInfo, CallStackInfo, CallStack, append_exception_entry, append_exception_info,
  append_frame, append_call_stack, extract_exception_entry, extract_exception_info, extract_frame,
  extract_call_stack,
}
use reverse_engineearing.Codec.Records.RoundTrip.{of_bool_back, extract_flag-Reads}

abbrev pub IsWireEntry : ExceptionInfo → Type 0
IsWireEntry e = IsShort e.code × IsShort e.flags × IsText e.name × IsText e.desc

append_exception_entry-append : Appends append_exception_entry
unfolding append_exception_entry
append_exception_entry-append s e = simp appended

extract_exception_entry-append :
    (e : ExceptionInfo)
    → IsWireEntry e
    → Reads extract_exception_entry (append_exception_entry [] e) e
unfolding extract_exception_entry append_exception_entry
extract_exception_entry-append e (hc, hf, hn, hd) rest = simp appended (
    rw (
      extract_long-Reads e.code hc,
      ◌>>=◌,
      extract_long-Reads e.flags hf,
      ◌>>=◌,
      extract_str-Reads e.name,
      ◌>>=◌,
      extract_str-Reads e.desc,
      ◌>>=◌,
      c_str_text e.name hn,
      c_str_text e.desc hd,
    ))

-- The exception table comes back entry by entry, given the count that is sent apart.
pub extract_exception_info-append :
    (table : List ExceptionInfo)
    → All IsWireEntry table
    → IsShort (length table)
    → Reads (extract_exception_info (length table)) (append_exception_info [] table) table
extract_exception_info-append table h n rest =
    unfold extract_exception_info append_exception_info in
    rw (append_list-append append_exception_entry append_exception_entry-append [] table) (
      let small : ltb (length table) 0x80000000 ≡ true = ground arith in
      rw small (
        extract_list-Reads IsWireEntry extract_exception_entry append_exception_entry
          extract_exception_entry-append table h rest))

abbrev pub IsWireFrame : (ℕ → ℕ) → CallStackInfo → Type 0
IsWireFrame shl32 c = IsWireEa shl32 c.callea × IsWireEa shl32 c.funcea × IsWireEa shl32 c.fp

pub append_frame-append : Appends append_frame
unfolding append_frame
append_frame-append s c = simp appended

extract_frame-append :
    (shl32 : ℕ → ℕ) (c : CallStackInfo)
    → IsWireFrame shl32 c
    → Reads (extract_frame shl32) (append_frame [] c) c
unfolding extract_frame append_frame
extract_frame-append shl32 c (hc, hf, hp) rest = simp appended (
    rw (
      extract_ea64-Reads shl32 c.callea hc,
      ◌>>=◌,
      extract_ea64-Reads shl32 c.funcea hf,
      ◌>>=◌,
      extract_ea64-Reads shl32 c.fp hp,
      ◌>>=◌,
      extract_flag-Reads c.funcok,
      ◌>>=◌,
      of_bool_back c.funcok,
    ))

-- A call stack of fewer than 2^14 frames comes back frame by frame, and is then not dirty.
pub extract_call_stack-append :
    (shl32 : ℕ → ℕ) (t : CallStack)
    → All (IsWireFrame shl32) t.frames
    → IsShort (length t.frames)
    → Reads (extract_call_stack shl32) (append_call_stack [] t) (record t { dirty = false })
unfolding extract_call_stack append_call_stack
extract_call_stack-append shl32 t h n rest = rw (
  append_list-append append_frame append_frame-append (append_dd [] (length t.frames)) t.frames,
  append_dd-append [] (length t.frames),
  append_assoc (pack_dd 5 (length t.frames)) (items_bytes append_frame t.frames) rest,
  extract_count-Reads (length t.frames) n,
  ◌>>=◌,
  extract_list-Reads (IsWireFrame shl32) (extract_frame shl32) append_frame
      (extract_frame-append shl32) t.frames h rest,
  ◌>>=◌,
)
