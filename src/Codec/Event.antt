-- ===== src/Codec/Event.antt =====
-- rpc_hlp.cpp: debug events. The members of the event's union are kept apart: the code reads and
-- writes only the member that the event code selects.
pub mod RoundTrip
use reverse_engineearing.Base.{
  ℕ, zero, suc, ◌+◌, ◌-◌, ◌*◌, ◌/◌, ◌%◌, ◌^◌, ◌≤◌, ◌<◌, bit_and, bit_or, ◌≡◌, refl, sym, ap, ◌∙◌,
  ◌≢◌, ◌↔◌, ◌⊎◌, inl, inr, Bool, true, false, not, ◌&&◌, ◌||◌, Option, none, some, List, [], ◌∷◌,
  ◌++◌, append_assoc, append-nil, arith, ltb, leb, ◌==◌, if◌then◌else◌, of_bool, ==_iff, Bool-cases,
  Option-cases, length, get_elem?, set, take, drop, replicate, All, length-append, length-take,
  length-drop, take-append-drop, take-length-append, drop-length-append, take_all, All-append,
}
use reverse_engineearing.Wire.{append_dd}
use reverse_engineearing.Codec.{
  Reader, pure, ◌>>=◌, append_str, extract_str, qstrncpy, append_ea64, extract_ea64, extract_long,
}
use reverse_engineearing.Codec.Records.{
  max_str, ModuleInfo, BreakpointInfo, ExceptionEvent, append_module_info, extract_module_info,
  append_breakpoint, extract_breakpoint, append_exception, extract_exception,
}

-- `event_id_t`: one bit for each kind of event.
abbrev pub no_event : ℕ
no_event = 0x0

abbrev pub process_start : ℕ
process_start = 0x1

abbrev pub process_exit : ℕ
process_exit = 0x2

abbrev pub thread_start : ℕ
thread_start = 0x4

abbrev pub thread_exit : ℕ
thread_exit = 0x8

abbrev pub breakpoint : ℕ
breakpoint = 0x10

abbrev pub step : ℕ
step = 0x20

abbrev pub exception : ℕ
exception = 0x40

abbrev pub library_load : ℕ
library_load = 0x80

abbrev pub library_unload : ℕ
library_unload = 0x100

abbrev pub information : ℕ
information = 0x200

abbrev pub process_attach : ℕ
process_attach = 0x1000

pub record DebugEvent : Type 0 where
  pub eid : ℕ
  pub pid : ℕ
  pub tid : ℕ
  pub ea : ℕ
  pub handled : Bool
  pub modinfo : ModuleInfo
  pub exit_code : ℕ
  pub info : List ℕ
  pub bpt : BreakpointInfo
  pub exc : ExceptionEvent

-- The cases of the switch that select a member.
pub data Member : Type 0 where
  has_module has_exit_code has_breakpoint has_exception has_text has_none : Member

-- The switch of the writer.
unfoldable pub member_of : ℕ → Member
member_of eid =
    if eid == process_start || eid == process_attach || eid == library_load
    then has_module
    else (if eid == process_exit || eid == thread_exit
        then has_exit_code
        else (if eid == breakpoint
            then has_breakpoint
            else (if eid == exception
                then has_exception
                else (if eid == library_unload || eid == information then has_text else has_none))))

-- The switch of the reader.
unfoldable pub member_read : ℕ → Member
member_read eid =
    if eid == process_start || eid == process_attach || eid == library_load
    then has_module
    else (if eid == process_exit || eid == thread_exit
        then has_exit_code
        else (if eid == breakpoint
            then has_breakpoint
            else (if eid == exception
                then has_exception
                else (if eid == library_unload || eid == information then has_text else has_none))))

append_member : Member → List ℕ → DebugEvent → List ℕ
append_member has_module s ev = append_module_info s ev.modinfo
append_member has_exit_code s ev = append_dd s ev.exit_code
append_member has_breakpoint s ev = append_breakpoint s ev.bpt
append_member has_exception s ev = append_exception s ev.exc
append_member has_text s ev = append_str s ev.info
append_member has_none s ev = s

pub append_debug_event : List ℕ → DebugEvent → List ℕ
unfolding append_member
append_debug_event s ev =
    append_member (member_of ev.eid)
      (append_dd (append_ea64 (append_dd (append_dd (append_dd s ev.eid) ev.pid) ev.tid) ev.ea)
        (of_bool ev.handled))
      ev

module _ (shl32 : ℕ → ℕ) where
  -- Only the selected member of the given event is overwritten.
  extract_member : Member → DebugEvent → Reader DebugEvent
  extract_member has_module ev = do m ← extract_module_info shl32; pure (record ev { modinfo = m })
  extract_member has_exit_code ev = do n ← extract_long; pure (record ev { exit_code = n })
  extract_member has_breakpoint ev = do b ← extract_breakpoint shl32; pure (record ev { bpt = b })
  extract_member has_exception ev = do e ← extract_exception shl32; pure (record ev { exc = e })
  extract_member has_text ev = do
    text ← extract_str
    pure (record ev { info = qstrncpy max_str text })
  extract_member has_none ev = pure ev

  pub extract_debug_event : DebugEvent → Reader DebugEvent
  unfolding extract_member
  extract_debug_event old = do
    eid ← extract_long
    pid ← extract_long
    tid ← extract_long
    ea ← extract_ea64 shl32
    handled ← extract_long
    extract_member (member_read eid)
        (record old { eid = eid; pid = pid; tid = tid; ea = ea; handled = not (handled == 0) })
