-- ===== src/Codec/Records/RoundTrip.antt =====
-- The structures of idd.hpp through the wire.
use reverse_engineearing.Base.{
  ℕ, ◌≤◌, ◌≡◌, refl, Bool, true, false, not, List, [], arith, ◌==◌, of_bool, length, take_all,
}
use reverse_engineearing.Wire.{pack_dd}
use reverse_engineearing.Wire.RoundTrip.{IsShort}
use reverse_engineearing.Codec.{◌>>=◌, c_str, qstrncpy, extract_long}
use reverse_engineearing.Codec.Fields.{
  Reads, IsText, c_str_text, extract_long-Reads, extract_str-Reads, extract_ea64-Reads, IsWireEa,
  Appends, appended,
}
use reverse_engineearing.Codec.Records.{
  max_str, ProcessInfo, ModuleInfo, BreakpointInfo, ExceptionEvent, append_process_info,
  append_module_info, append_breakpoint, append_exception, extract_process_info,
  extract_module_info, extract_breakpoint, extract_exception,
}

-- A text that fits its character array.
abbrev pub FitsArray : List ℕ → Type 0
FitsArray str = IsText str × (length str ≤ max_str)

pub qstrncpy_text : (str : List ℕ) → FitsArray str → qstrncpy max_str (c_str str) ≡ str
unfolding qstrncpy
qstrncpy_text str (t, l) = rw (c_str_text str t, c_str_text str t) (take_all max_str str l)

abbrev pub IsWireProcess : ProcessInfo → Type 0
IsWireProcess p = IsShort p.pid × FitsArray p.name

-- A process description comes back as it was sent, if its number is short and its name fits.
pub extract_process_info-append :
    (p : ProcessInfo) → IsWireProcess p → Reads extract_process_info (append_process_info [] p) p
unfolding extract_process_info append_process_info
extract_process_info-append p (hp, hn) rest = simp appended (
    rw
      (extract_long-Reads p.pid hp, ◌>>=◌, extract_str-Reads p.name, ◌>>=◌, qstrncpy_text p.name hn)
      refl)

abbrev pub IsWireModule : (ℕ → ℕ) → ModuleInfo → Type 0
IsWireModule shl32 m =
    FitsArray m.name × IsWireEa shl32 m.base × IsWireEa shl32 m.size × IsWireEa shl32 m.rebase_to

pub append_module_info-append : Appends append_module_info
unfolding append_module_info
append_module_info-append s m = simp appended

-- A module description comes back as it was sent.
pub extract_module_info-append :
    (shl32 : ℕ → ℕ) (m : ModuleInfo)
    → IsWireModule shl32 m
    → Reads (extract_module_info shl32) (append_module_info [] m) m
unfolding extract_module_info append_module_info
extract_module_info-append shl32 m (hn, hb, hs, hr) rest = simp appended (
    rw (
      extract_str-Reads m.name,
      ◌>>=◌,
      extract_ea64-Reads shl32 m.base hb,
      ◌>>=◌,
      extract_ea64-Reads shl32 m.size hs,
      ◌>>=◌,
      extract_ea64-Reads shl32 m.rebase_to hr,
      ◌>>=◌,
      qstrncpy_text m.name hn,
    ))

abbrev pub IsWireBreakpoint : (ℕ → ℕ) → BreakpointInfo → Type 0
IsWireBreakpoint shl32 b = IsWireEa shl32 b.hea × IsWireEa shl32 b.kea

pub append_breakpoint-append : Appends append_breakpoint
unfolding append_breakpoint
append_breakpoint-append s b = simp appended

pub extract_breakpoint-append :
    (shl32 : ℕ → ℕ) (b : BreakpointInfo)
    → IsWireBreakpoint shl32 b
    → Reads (extract_breakpoint shl32) (append_breakpoint [] b) b
unfolding extract_breakpoint append_breakpoint
extract_breakpoint-append shl32 b (hh, hk) rest =
    simp appended
      (rw (extract_ea64-Reads shl32 b.hea hh, ◌>>=◌, extract_ea64-Reads shl32 b.kea hk, ◌>>=◌))

abbrev pub IsWireException : (ℕ → ℕ) → ExceptionEvent → Type 0
IsWireException shl32 e = IsShort e.code × IsWireEa shl32 e.ea × FitsArray e.info

pub append_exception-append : Appends append_exception
unfolding append_exception
append_exception-append s e = simp appended

of_bool-IsShort : (b : Bool) → IsShort (of_bool b)
of_bool-IsShort true = omega arith
of_bool-IsShort false = omega arith

pub of_bool_back : (b : Bool) → not (of_bool b == 0) ≡ b
of_bool_back true = refl
of_bool_back false = refl

-- A flag that was sent as 0 or 1 is read back as that number.
pub extract_flag-Reads : (b : Bool) → Reads extract_long (pack_dd 5 (of_bool b)) (of_bool b)
extract_flag-Reads b = extract_long-Reads (of_bool b) (of_bool-IsShort b)

pub extract_exception-append :
    (shl32 : ℕ → ℕ) (e : ExceptionEvent)
    → IsWireException shl32 e
    → Reads (extract_exception shl32) (append_exception [] e) e
unfolding extract_exception append_exception
extract_exception-append shl32 e (hc, ha, hi) rest = simp appended (
    rw (
      extract_long-Reads e.code hc,
      ◌>>=◌,
      extract_flag-Reads e.can_cont,
      ◌>>=◌,
      extract_ea64-Reads shl32 e.ea ha,
      ◌>>=◌,
      extract_str-Reads e.info,
      ◌>>=◌,
      of_bool_back e.can_cont,
      qstrncpy_text e.info hi,
    ))
