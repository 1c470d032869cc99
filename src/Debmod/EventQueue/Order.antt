-- ===== src/Debmod/EventQueue/Order.antt =====
-- What the event queue keeps and in which order.
use reverse_engineearing.Base.{
  ℕ, zero, suc, ◌≡◌, refl, sym, ap, ◌∙◌, ◌≢◌, inl, inr, Bool, true, false, none, some, List, [],
  ◌∷◌, ◌++◌, append_assoc, append-nil, arith, ◌==◌, Bool-cases, length, All,
}
use reverse_engineearing.Codec.Event.{no_event, DebugEvent, no_event}
use reverse_engineearing.Debmod.EventQueue.{
  in_back, enqueue, retrieve, Queue, enqueue_event, names_module, del_pending_event,
}

-- What `del_pending_event` may answer, by its flag.
abbrev pub Deleted : ℕ → List ℕ → List DebugEvent → Bool × List DebugEvent → Type 0
Deleted id name events (true, left) =
    (front : List DebugEvent) × (ev : DebugEvent) × (back : List DebugEvent) × (events
      ≡ front ++ (ev ∷ back))
    × (left ≡ front ++ back)
    × (names_module id name ev ≡ true)
    × All (λ x. names_module id name x ≡ false) front
Deleted id name events (false, left) =
    (left ≡ events) × All (λ x. names_module id name x ≡ false) events

Deleted-cons :
    (id : ℕ) (name : List ℕ) (ev : DebugEvent) (events : List DebugEvent) (found : Bool)
    (left : List DebugEvent)
    → names_module id name ev ≡ false
    → Deleted id name events (found, left)
    → Deleted id name (ev ∷ events) (found, ev ∷ left)
Deleted-cons id name ev events false left miss (e, a) = (ap (◌∷◌ ev) e, (miss, a))
Deleted-cons id name ev events true left miss (front, x, back, e, l, hit, a) =
    (ev ∷ front, x, back, ap (◌∷◌ ev) e, ap (◌∷◌ ev) l, hit, (miss, a))

-- `del_pending_event` takes out the first event with the code and the module name, keeps the others in order, and
-- returns true; where there is no such event, it returns false and changes nothing.
pub del_pending_event_lem :
    (id : ℕ) (name : List ℕ) (events : List DebugEvent)
    → Deleted id name events (del_pending_event id name events)
unfolding del_pending_event
del_pending_event_lem id name [] = (refl, tt)
del_pending_event_lem id name (ev ∷ events) = elim (Bool-cases (names_module id name ev)) [
  | inl hit ↦ rw hit ([], ev, events, refl, refl, hit, tt)
  | inr miss ↦ rw miss (
      Deleted-cons id name ev events (del_pending_event id name events).0
        (del_pending_event id name events).1 miss (del_pending_event_lem id name events))
]

-- One event after the other goes to the back of the queue.
unfoldable pub enqueue_all : List DebugEvent → Queue → Queue
unfolding enqueue_event
enqueue_all [] q = q
enqueue_all (ev ∷ evs) q = enqueue_all evs (enqueue_event ev in_back q)

-- What so many calls of `retrieve` return, one after the other, with the events left.
unfoldable pub retrieve_many : ℕ → List DebugEvent → List DebugEvent × List DebugEvent
unfolding retrieve
retrieve_many zero events = ([], events)
retrieve_many (suc n) events = elim (retrieve events) [
  | none ↦ ([], [])
  | some (ev, rest) ↦ (ev ∷ (retrieve_many n rest).0, (retrieve_many n rest).1)
]

enqueue_all_lem :
    (evs : List DebugEvent) (q : Queue)
    → All (λ ev. ev.eid ≢ no_event) evs
    → (enqueue_all evs q).events ≡ q.events ++ evs
unfolding enqueue_all enqueue_event enqueue
enqueue_all_lem [] q h = sym (append-nil q.events)
enqueue_all_lem (ev ∷ evs) q h =
    let real : (ev.eid == no_event) ≡ false = ground (arith, h.0) in
    enqueue_all_lem evs (enqueue_event ev in_back q) h.1
    ∙ rw (enqueue_event, real) (append_assoc q.events (ev ∷ []) evs)

retrieve_many_all : (events : List DebugEvent) → retrieve_many (length events) events ≡ (events, [])
unfolding retrieve_many retrieve
retrieve_many_all [] = refl
retrieve_many_all (ev ∷ events) = rw (retrieve_many_all events)

-- Events that are enqueued at the back of the queue, each with a code other than NO_EVENT, are retrieved behind
-- those already there and in the order in which they came, none lost and none left over.
pub retrieve_many-enqueue_all :
    (evs : List DebugEvent) (q : Queue)
    → All (λ ev. ev.eid ≢ no_event) evs
    → retrieve_many (length (q.events ++ evs)) (enqueue_all evs q).events ≡ (q.events ++ evs, [])
retrieve_many-enqueue_all evs q h =
    rw (enqueue_all_lem evs q h) (retrieve_many_all (q.events ++ evs))
