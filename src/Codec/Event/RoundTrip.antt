-- ===== src/Codec/Event/RoundTrip.antt =====
-- Debug events through the wire.
use reverse_engineearing.Base.{ℕ, ◌≡◌, refl, sym, ◌∙◌, [], append-nil, of_bool}
use reverse_engineearing.Wire.{append_dd}
use reverse_engineearing.Wire.RoundTrip.{IsShort}
use reverse_engineearing.Codec.{◌>>=◌, append_ea64}
use reverse_engineearing.Codec.Fields.{
  Reads, Appends, appended, extract_long-Reads, extract_str-Reads, extract_ea64-Reads, IsWireEa,
}
use reverse_engineearing.Codec.Records.RoundTrip.{
  FitsArray, qstrncpy_text, IsWireModule, IsWireBreakpoint, IsWireException,
  append_module_info-append, append_breakpoint-append, append_exception-append,
  extract_module_info-append, extract_breakpoint-append, extract_exception-append, of_bool_back,
  extract_flag-Reads,
}
use reverse_engineearing.Codec.Event.{
  DebugEvent, Member, has_module, has_exit_code, has_breakpoint, has_exception, has_text, has_none,
  member_of, member_read, append_member, append_debug_event, extract_member, extract_debug_event,
}

-- The selected member can cross the wire.
abbrev pub IsWireMember : (ℕ → ℕ) → Member → DebugEvent → Type 0
IsWireMember shl32 has_module ev = IsWireModule shl32 ev.modinfo
IsWireMember shl32 has_exit_code ev = IsShort ev.exit_code
IsWireMember shl32 has_breakpoint ev = IsWireBreakpoint shl32 ev.bpt
IsWireMember shl32 has_exception ev = IsWireException shl32 ev.exc
IsWireMember shl32 has_text ev = FitsArray ev.info
IsWireMember shl32 has_none ev = Unit {0}

pub record IsWireEvent (shl32 : ℕ → ℕ) (ev : DebugEvent) : Type 0 where
  pub eid_short : IsShort ev.eid
  pub pid_short : IsShort ev.pid
  pub tid_short : IsShort ev.tid
  pub ea_wire : IsWireEa shl32 ev.ea
  pub member_wire : IsWireMember shl32 (member_of ev.eid) ev

-- What the receiver's event is after it took in `ev`: the header and the selected member of `ev`, the
-- other members as they were.
abbrev pub receive_member : Member → DebugEvent → DebugEvent → DebugEvent
receive_member has_module old ev = record old { modinfo = ev.modinfo }
receive_member has_exit_code old ev = record old { exit_code = ev.exit_code }
receive_member has_breakpoint old ev = record old { bpt = ev.bpt }
receive_member has_exception old ev = record old { exc = ev.exc }
receive_member has_text old ev = record old { info = ev.info }
receive_member has_none old ev = old

abbrev pub receive_header : DebugEvent → DebugEvent → DebugEvent
receive_header old ev = record old {
  eid = ev.eid;
  pid = ev.pid;
  tid = ev.tid;
  ea = ev.ea;
  handled = ev.handled;
}

-- Writer and reader select the same member.
member_read_lem : (eid : ℕ) → member_read eid ≡ member_of eid
unfolding member_read member_of
member_read_lem eid = refl

append_member-append : (m : Member) → Appends (append_member m)
unfolding append_member
append_member-append has_module s ev = append_module_info-append s ev.modinfo
append_member-append has_exit_code s ev = simp appended
append_member-append has_breakpoint s ev = append_breakpoint-append s ev.bpt
append_member-append has_exception s ev = append_exception-append s ev.exc
append_member-append has_text s ev = simp appended
append_member-append has_none s ev = sym (append-nil s)

extract_member-append :
    (shl32 : ℕ → ℕ) (m : Member) (old ev : DebugEvent)
    → IsWireMember shl32 m ev
    → Reads (extract_member shl32 m old) (append_member m [] ev) (receive_member m old ev)
unfolding extract_member append_member
extract_member-append shl32 has_module old ev h rest =
    rw (extract_module_info-append shl32 ev.modinfo h rest, ◌>>=◌)
extract_member-append shl32 has_exit_code old ev h rest =
    simp appended (rw (extract_long-Reads ev.exit_code h rest, ◌>>=◌))
extract_member-append shl32 has_breakpoint old ev h rest =
    rw (extract_breakpoint-append shl32 ev.bpt h rest, ◌>>=◌)
extract_member-append shl32 has_exception old ev h rest =
    rw (extract_exception-append shl32 ev.exc h rest, ◌>>=◌)
extract_member-append shl32 has_text old ev h rest =
    simp appended (rw (extract_str-Reads ev.info rest, ◌>>=◌, qstrncpy_text ev.info h))
extract_member-append shl32 has_none old ev h rest = refl

pub append_debug_event-append : Appends append_debug_event
unfolding append_debug_event
append_debug_event-append s ev =
    append_member-append (member_of ev.eid) _ ev
    ∙ rw
        (append_member-append (member_of ev.eid)
          (append_dd (append_ea64 (append_dd (append_dd (append_dd [] ev.eid) ev.pid) ev.tid) ev.ea)
            (of_bool ev.handled))
          ev)
        (simp appended)

-- An event whose fields can cross the wire is read back field by field: the receiver's event takes over its header
-- and the one member that its code selects, and keeps its other members.
pub extract_debug_event-append :
    (shl32 : ℕ → ℕ) (old ev : DebugEvent)
    → IsWireEvent shl32 ev
    → Reads
        (extract_debug_event shl32 old)
        (append_debug_event [] ev)
        (receive_member (member_of ev.eid) (receive_header old ev) ev)
unfolding extract_debug_event append_debug_event
extract_debug_event-append shl32 old ev w rest =
    rw
      (append_member-append (member_of ev.eid)
        (append_dd (append_ea64 (append_dd (append_dd (append_dd [] ev.eid) ev.pid) ev.tid) ev.ea)
          (of_bool ev.handled))
        ev)
      (simp appended (
        rw
          (
            extract_long-Reads ev.eid w.eid_short,
            ◌>>=◌,
            extract_long-Reads ev.pid w.pid_short,
            ◌>>=◌,
            extract_long-Reads ev.tid w.tid_short,
            ◌>>=◌,
            extract_ea64-Reads shl32 ev.ea w.ea_wire,
            ◌>>=◌,
            extract_flag-Reads ev.handled,
            ◌>>=◌,
            of_bool_back ev.handled,
            member_read_lem ev.eid,
          )
          (extract_member-append shl32 (member_of ev.eid) (receive_header old ev) ev w.member_wire
            rest)))
