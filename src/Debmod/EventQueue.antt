-- ===== src/Debmod/EventQueue.antt =====
-- debmod.h and linux_debmod.cpp: the queue of pending debug events, oldest first.
pub mod Order
use reverse_engineearing.Base.{
  ℕ, zero, suc, ◌+◌, ◌-◌, ◌*◌, ◌/◌, ◌%◌, ◌^◌, ◌≤◌, ◌<◌, bit_and, bit_or, ◌≡◌, refl, sym, ap, ◌∙◌,
  ◌≢◌, ◌↔◌, ◌⊎◌, inl, inr, Bool, true, false, not, ◌&&◌, ◌||◌, Option, none, some, List, [], ◌∷◌,
  ◌++◌, append_assoc, append-nil, arith, ltb, leb, ◌==◌, if◌then◌else◌, of_bool, ==_iff, Bool-cases,
  Option-cases, length, get_elem?, set, take, drop, replicate, All, length-append, length-take,
  length-drop, take-append-drop, take-length-append, drop-length-append, take_all, All-append,
  codes, take_pieces, drop_pieces,
}
use reverse_engineearing.Codec.{c_str}
use reverse_engineearing.Codec.Event.{DebugEvent, no_event}

-- `strcmp(a, b) == 0` on strings with their NUL taken off.
abbrev pub same_text : List ℕ → List ℕ → Bool
same_text [] [] = true
same_text [] (b ∷ bs) = false
same_text (a ∷ as_) [] = false
same_text (a ∷ as_) (b ∷ bs) = a == b && same_text as_ bs

-- `queue_pos_t`.
pub data QueuePos : Type 0 where
  in_front in_back : QueuePos

pub enqueue : DebugEvent → QueuePos → List DebugEvent → List DebugEvent
enqueue ev in_front events = ev ∷ events
enqueue ev in_back events = events ++ ev ∷ []

pub retrieve : List DebugEvent → Option (DebugEvent × List DebugEvent)
retrieve [] = none
retrieve (ev ∷ events) = some (ev, events)

pub record Queue : Type 0 where
  pub events : List DebugEvent
  pub may_run : Bool

-- `linux_debmod_t::enqueue_event`.
unfoldable pub enqueue_event : DebugEvent → QueuePos → Queue → Queue
unfolding enqueue
enqueue_event ev where_ q =
    if ev.eid == no_event
    then q
    else record q { events = enqueue ev where_ q.events; may_run = false }

-- Does the event have this code and name this module?
abbrev pub names_module : ℕ → List ℕ → DebugEvent → Bool
names_module id module_name ev =
    ev.eid == id && same_text (c_str ev.modinfo.name) (c_str module_name)

-- `linux_debmod_t::del_pending_event`: the events left, and whether one was deleted.
pub del_pending_event : ℕ → List ℕ → List DebugEvent → Bool × List DebugEvent
del_pending_event id module_name [] = (false, [])
del_pending_event id module_name (ev ∷ events) =
    let rest = del_pending_event id module_name events in
    if names_module id module_name ev then (true, events) else (rest.0, ev ∷ rest.1)
