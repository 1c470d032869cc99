-- ===== src/Debmod/Examples.antt =====
-- The theorems on page breakpoints and on the event queue at concrete values.
use reverse_engineearing.Base.{true, false, List, [], ◌∷◌, arith}
use reverse_engineearing.Codec.Event.{DebugEvent, thread_start, thread_exit}
use reverse_engineearing.Debmod.PageBpts.{PageBpt, find_page_bpt}
use reverse_engineearing.Debmod.PageBpts.Search.{Decides, find_page_bpt-Decides}
use reverse_engineearing.Debmod.EventQueue.{del_pending_event}
use reverse_engineearing.Debmod.EventQueue.Order.{Deleted, del_pending_event_lem}

abbrev two_pages : List PageBpt
two_pages =
    record { key = 0x1000; ea = 0x1010; real_len = 0x1000; bpttype = 1 }
    ∷ record { key = 0x4000; ea = 0x4000; real_len = 0x2000; bpttype = 3 }
    ∷ []

find_page_bpt-Decides_example : Decides 0x5FF0 4 two_pages (find_page_bpt 0x1000 0x5FF0 4 two_pages)
find_page_bpt-Decides_example =
    find_page_bpt-Decides 0x1000 0x5FF0 4 two_pages
      (omega arith, omega arith, omega arith, (omega arith, omega arith, omega arith, tt))
      (omega arith) (omega arith) (omega arith)

abbrev start_event : DebugEvent
start_event = record {
  eid = thread_start;
  pid = 100;
  tid = 101;
  ea = 0x1000;
  handled = true;
  modinfo = record { name = 97 ∷ []; base = 0; size = 0; rebase_to = 0 };
  exit_code = 0;
  info = [];
  bpt = record { hea = 0; kea = 0 };
  exc = record { code = 0; can_cont = false; ea = 0; info = [] };
}

abbrev exit_event : DebugEvent
exit_event = record start_event { eid = thread_exit }

del_pending_event_lem_example :
    Deleted thread_exit
      (97 ∷ [])
      (start_event ∷ exit_event ∷ [])
      (del_pending_event thread_exit (97 ∷ []) (start_event ∷ exit_event ∷ []))
del_pending_event_lem_example =
    del_pending_event_lem thread_exit (97 ∷ []) (start_event ∷ exit_event ∷ [])
