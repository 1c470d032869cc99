-- ===== src/Server/Polls.antt =====
-- rpc_server.cpp: the requests that the server makes of its client: a debug event that it polled for, an event
-- to handle, an error of a script, and the stub of the kernel debugger. `send` stands for `send_request`, and
-- `ask` for `process_request`, on a connection that the state `W` holds.
use reverse_engineearing.Base.{
  ℕ, ◌≡◌, refl, sym, ap, inl, inr, Bool, true, false, not, Option, none, some, List, ltb, ◌==◌,
  if◌then◌else◌, Bool-cases, length, take,
}
use reverse_engineearing.Base.{some-injective}
use reverse_engineearing.Wire.{append_dd, append_db}
use reverse_engineearing.Codec.{extract_long, append_ea64, append_str, prepare_rpc_packet}
use reverse_engineearing.Codec.Event.{DebugEvent, append_debug_event}
use reverse_engineearing.Engine.{Packet}
use reverse_engineearing.Server.Interface.{Debugger, Session, is_positive}

abbrev pub rpc_event : ℕ
rpc_event = 4

abbrev pub rpc_sync_stub_code : ℕ
rpc_sync_stub_code = 51

abbrev pub rpc_handle_debug_event : ℕ
rpc_handle_debug_event = 55

abbrev pub rpc_report_idc_error : ℕ
rpc_report_idc_error = 56

pub event_request : DebugEvent → List ℕ
event_request ev = append_debug_event (prepare_rpc_packet rpc_event) ev

module _ {W : Type 0} (m : Debugger W) (send : List ℕ → W → Option (ℕ × W)) where
  -- The event is pending while it is sent.
  event_sent : Session → Option (ℕ × W) → Option (ℕ × Session × W)
  event_sent session none = none
  event_sent session (some (code, w)) = some (code, record session { has_pending_event = false }, w)

  -- What the module has: the mode is off while it is asked, and on again only if there is no event.
  unfoldable pub polled : Session → (ℕ × DebugEvent) × W → Option (ℕ × Session × W)
  unfolding event_sent event_request
  polled session ((r, ev), w) =
      if is_positive r
      then event_sent (record session { has_pending_event = true; pending_event = ev })
          (send (event_request ev) w)
      else some (
        0,
        record session { poll_debug_events = true; has_pending_event = false; pending_event = ev },
        w,
      )

  unfoldable pub poll_events : ℕ → Session → W → Option (ℕ × Session × W)
  unfolding polled
  poll_events timeout_ms session w =
      if session.has_pending_event
      then some (0, session, w)
      else polled (record session { poll_debug_events = false })
          (m.dbg_get_debug_event session.pending_event timeout_ms w)

-- What `send_debug_event_to_ida` sends.
pub handle_event_request : DebugEvent → ℕ → List ℕ
handle_event_request debev rqflags =
    append_dd (append_debug_event (prepare_rpc_packet rpc_handle_debug_event) debev) rqflags

-- An error with a text or with a number; the operating system's number goes in the place of one of the code eOS.
pub data IdcError : Type 0 where
  with_text : List ℕ → IdcError
  with_number : ℕ → IdcError

abbrev pub e_os : ℕ
e_os = 1

pub report_idc_error : ℕ → ℕ → ℕ → IdcError → List ℕ
report_idc_error errno ea code error =
    let req = append_dd (append_ea64 (prepare_rpc_packet rpc_report_idc_error) ea) code in
    elim (if code == e_os then with_number errno else error) [
      | with_text errprm ↦ append_str (append_db req 1) errprm
      | with_number errval ↦ append_ea64 (append_db req 0) errval
    ]

-- The stub's file on the server: its checksum if it can be opened, and the writing of a new one, which gives the
-- number of bytes that were written if the file could be opened.
pub record StubFile (W : Type 0) : Type 0 where
  pub calc_file_crc32 : W → Option ℕ
  pub write_stub : List ℕ → W → Option ℕ × W

pub stub_request : List ℕ → Option ℕ → List ℕ
stub_request name none =
    append_dd (append_str (prepare_rpc_packet rpc_sync_stub_code) name) 0xFFFFFFFF
stub_request name (some crc) =
    append_dd (append_str (prepare_rpc_packet rpc_sync_stub_code) name) crc

module _ {W : Type 0} (f : StubFile W) (ask : List ℕ → W → Option (Option Packet × W)) where
  written : ℕ → Option ℕ × W → Bool × W
  written size (none, w) = (false, w)
  written size (some n, w) = (n == size, w)

  -- A size of 1 means that the stub is the client's already. As many bytes as the size says are written, and
  -- where the packet has fewer that is a read behind its end: `none`.
  take_stub : List ℕ → W → Option (Bool × W)
  unfolding written
  take_stub answer w = elim (extract_long answer) [
    | none ↦ none
    | some (size, stub) ↦
        if size == 1
        then some (true, w)
        else (if size == 0
            then some (false, w)
            else (if ltb (length stub) size
                then none
                else some (written size (f.write_stub (take size stub) w))))
  ]

  pub rpc_sync_stub : List ℕ → W → Option (Bool × W)
  unfolding take_stub stub_request
  rpc_sync_stub ida_stub_name w = elim (ask (stub_request ida_stub_name (f.calc_file_crc32 w)) w) [
    | none ↦ none
    | some (none, w') ↦ some (false, w')
    | some (some rp, w') ↦ take_stub rp.body w'
  ]

module _ {W : Type 0} (m : Debugger W) (send : List ℕ → W → Option (ℕ × W)) where
  event_sent_lem :
      (session : Session) (x : Option (ℕ × W)) {r : ℕ × Session × W}
      → event_sent m send session x ≡ some r
      → (x ≡ some (r.0, r.2)) × (r.1 ≡ record session { has_pending_event = false })
  unfolding event_sent
  event_sent_lem session none e = cc
  event_sent_lem session (some (code, w)) {r} e =
      (ap (λ q. some (q.0, q.2)) (some-injective e), ap (λ q. q.1) (sym (some-injective e)))

  -- What a poll leaves of a session with no event pending, when the module gave this.
  pub Polled : (ℕ × DebugEvent) × W → ℕ × Session × W → Type 0
  Polled ((r, ev), w) (code, session', w') =
      (session'.has_pending_event ≡ false)
      × (session'.poll_debug_events ≡ not (is_positive r))
      × (session'.pending_event ≡ ev)
      × (if is_positive r
          then send (event_request ev) w ≡ some (code, w')
          else (code ≡ 0) × (w' ≡ w))

  polled_lem :
      (session : Session) (got : (ℕ × DebugEvent) × W)
      → session.poll_debug_events ≡ false
      → {r : ℕ × Session × W} → polled m send session got ≡ some r
      → Polled got r
  unfolding polled Polled
  polled_lem session ((r, ev), w) off e = elim (Bool-cases (is_positive r)) [
    | inl p ↦
        let pending = record session { has_pending_event = true; pending_event = ev } in
        let (sent, left) = event_sent_lem pending (send (event_request ev) w) (rw p at e) in
        rw (left, p) (refl, off, refl, sent)
    | inr p ↦
        let same = some-injective (rw p at e) in
        rw p (
          ap (λ q. q.1.has_pending_event) (sym same),
          ap (λ q. q.1.poll_debug_events) (sym same),
          ap (λ q. q.1.pending_event) (sym same),
          (ap (λ q. q.0) (sym same), ap (λ q. q.2) (sym same)),
        )
  ]

-- A poll with an event pending does nothing. Otherwise it leaves nothing pending: an event that the module has
-- is sent with the code RPC_EVENT and the server stops polling; with no event, the state is as the module left
-- it and the server polls again.
pub poll_events_lem :
    {W : Type 0} (m : Debugger W) (send : List ℕ → W → Option (ℕ × W)) (timeout_ms : ℕ)
    (session : Session) (w : W) {r : ℕ × Session × W}
    → poll_events m send timeout_ms session w ≡ some r
    → if session.has_pending_event
      then r ≡ (0, session, w)
      else Polled m send (m.dbg_get_debug_event session.pending_event timeout_ms w) r
unfolding poll_events
poll_events_lem m send timeout_ms session w e = elim (Bool-cases session.has_pending_event) [
  | inl p ↦ rw p (sym (some-injective (rw p at e)))
  | inr p ↦
      let off = record session { poll_debug_events = false } in
      let got = m.dbg_get_debug_event session.pending_event timeout_ms w in
      rw p (polled_lem m send off got refl (rw p at e))
]
