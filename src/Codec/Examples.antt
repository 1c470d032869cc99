-- ===== src/Codec/Examples.antt =====
-- The round trips of the structures at concrete values.
use reverse_engineearing.Codec.Fields.{items_bytes}
use reverse_engineearing.Codec.Records.Sequence.{
  Structure, process, library, table, trace, attrs, append_structure, received_all, extract_all,
  extract_all-append, IsWireStructure,
}
use reverse_engineearing.Base.{
  ℕ, ◌≡◌, refl, inl, inr, true, false, some, List, [], ◌∷◌, ◌++◌, arith,
}
use reverse_engineearing.Codec.{badaddr}
use reverse_engineearing.Codec.Records.{
  ProcessInfo, ModuleInfo, ExceptionInfo, CallStack, DebappAttrs, max_str,
}
use reverse_engineearing.Codec.Event.{
  DebugEvent, append_debug_event, extract_debug_event, process_exit, thread_start, member_of,
}
use reverse_engineearing.Codec.Event.RoundTrip.{extract_debug_event-append, IsWireEvent}

-- A shift that gives zero for every number.
abbrev no_high : ℕ → ℕ
no_high x = 0

abbrev ab : List ℕ
ab = 97 ∷ 98 ∷ []

abbrev follows : List ℕ
follows = 7 ∷ 8 ∷ []

abbrev a_process : ProcessInfo
a_process = record { pid = 1234; name = ab }

abbrev a_module : ModuleInfo
a_module = record { name = ab; base = 0x1000; size = 0x200; rebase_to = badaddr }

abbrev some_attrs : DebappAttrs
some_attrs = record { addrsize = 4; platform = ab }

abbrev a_table : List ExceptionInfo
a_table = record { code = 11; flags = 1; name = ab; desc = [] } ∷ []

abbrev a_stack : CallStack
a_stack = record {
  dirty = true;
  frames = record { callea = 0x1000; funcea = 0xFF0; fp = badaddr; funcok = true } ∷ [];
}

abbrev a_reply : List Structure
a_reply =
    process a_process ∷ library a_module ∷ attrs some_attrs ∷ table a_table ∷ trace a_stack ∷ []

extract_all-append_example :
    extract_all no_high a_reply (items_bytes append_structure a_reply ++ follows)
    ≡ some (received_all a_reply, follows)
unfolding max_str IsWireStructure
extract_all-append_example =
    extract_all-append no_high a_reply
      (
        (omega arith, ((omega arith, (omega arith, tt)), omega arith)),
        (
          (
            ((omega arith, (omega arith, tt)), omega arith),
            inl (omega arith, refl),
            inl (omega arith, refl),
            inr (refl, refl),
          ),
          (
            (omega arith, (omega arith, (omega arith, tt))),
            (
              (((omega arith, omega arith, (omega arith, (omega arith, tt)), tt), tt), omega arith),
              (
                (
                  ((inl (omega arith, refl), inl (omega arith, refl), inr (refl, refl)), tt),
                  omega arith,
                ),
                tt,
              ),
            ),
          ),
        ),
      )
      follows

abbrev an_event : DebugEvent
an_event = record {
  eid = thread_start;
  pid = 100;
  tid = 101;
  ea = 0x1000;
  handled = true;
  modinfo = a_module;
  exit_code = 0;
  info = [];
  bpt = record { hea = 0; kea = 0 };
  exc = record { code = 0; can_cont = false; ea = 0; info = [] };
}

-- The same thread ends.
abbrev an_exit : DebugEvent
an_exit = record an_event { eid = process_exit; exit_code = 3; handled = false }

an_exit-IsWireEvent : IsWireEvent no_high an_exit
unfolding member_of
an_exit-IsWireEvent = record {
  eid_short = omega arith;
  pid_short = omega arith;
  tid_short = omega arith;
  ea_wire = inl (omega arith, refl);
  member_wire = omega arith;
}

extract_debug_event-append_example :
    extract_debug_event no_high an_event (append_debug_event [] an_exit ++ follows)
    ≡ some (an_exit, follows)
unfolding member_of
extract_debug_event-append_example =
    extract_debug_event-append no_high an_event an_exit an_exit-IsWireEvent follows
