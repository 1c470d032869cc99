-- ===== src/Engine.antt =====
-- rpc_engine.cpp: the connection of the debugger server, over a transport and the virtual functions
-- of the server, which are parameters. `W` is their state.
pub mod Transfer
pub mod Framing
pub mod Process
pub mod Ioctl
pub mod Examples
use reverse_engineearing.Base.{
  ℕ, zero, suc, ◌+◌, ◌-◌, ◌*◌, ◌/◌, ◌%◌, ◌^◌, ◌≤◌, ◌<◌, bit_and, bit_or, ◌≡◌, refl, sym, ap, ◌∙◌,
  ◌≢◌, ◌↔◌, ◌⊎◌, inl, inr, Bool, true, false, not, ◌&&◌, ◌||◌, Option, none, some, List, [], ◌∷◌,
  ◌++◌, append_assoc, append-nil, arith, ltb, leb, ◌==◌, if◌then◌else◌, of_bool, ==_iff, Bool-cases,
  Option-cases, length, get_elem?, set, take, drop, replicate, All, length-append, length-take,
  length-drop, take-append-drop, take-length-append, drop-length-append, take_all, All-append,
  codes,
}
use reverse_engineearing.Wire.{append_dd}
use reverse_engineearing.Codec.{
  prepare_rpc_packet, finalize_packet, append_str, extract_long, extract_memory, append_memory,
}

-- What one call of the socket layer answers.
pub data SendAnswer : Type 0 where
  took : ℕ → SendAnswer
  send_failed : ℕ → SendAnswer

pub data RecvAnswer : Type 0 where
  got : List ℕ → RecvAnswer
  recv_failed : ℕ → RecvAnswer

pub record Engine : Type 0 where
  pub connected : Bool
  pub network_error_code : ℕ
  pub poll_debug_events : Bool
  pub is_server : Bool
  pub broken_connection : Bool

pub record Packet : Type 0 where
  pub code : ℕ
  pub body : List ℕ

-- An int is its 32-bit pattern.
abbrev pub minus_one : ℕ
minus_one = 0xFFFFFFFF

-- What a call returns with the state that it leaves; `none`: the fuel ran out.
abbrev pub Result : Type 0 → Type 0 → Type 0
Result W A = Option (A × Engine × W)

-- tcpip.cpp over the sockets, the allocator, and the virtual functions `poll_events` and
-- `perform_request` of the server.
pub record Host (W : Type 0) : Type 0 where
  pub irs_send : W → List ℕ → SendAnswer × W
  pub irs_recv : W → ℕ → RecvAnswer × W
  pub irs_ready : W → Bool × W
  pub qalloc : ℕ → Bool
  pub poll_events : Engine → W → ℕ × Engine × W
  pub perform_request : Packet → Engine → W → List ℕ × Engine × W

abbrev pub rpc_ok : ℕ
rpc_ok = 0

abbrev pub rpc_unk : ℕ
rpc_unk = 1

abbrev pub rpc_mem : ℕ
rpc_mem = 2

abbrev pub rpc_evok : ℕ
rpc_evok = 5

abbrev pub rpc_ioctl : ℕ
rpc_ioctl = 39

abbrev pub rpc_error : ℕ
rpc_error = 52

abbrev pub rpc_msg : ℕ
rpc_msg = 53

abbrev pub rpc_warning : ℕ
rpc_warning = 54

-- The constructor of `rpc_engine_t`.
unfoldable pub new_engine : Engine
new_engine = record {
  connected = true;
  network_error_code = 0;
  poll_debug_events = false;
  is_server = true;
  broken_connection = false;
}

pub term_irs : Engine → Engine
term_irs e = record e { connected = false }

-- `set_broken_connection`, and the error code that makes later calls fail.
abbrev pub break_off : ℕ → Engine → Engine
break_off err e = record e { broken_connection = true; network_error_code = err }

abbrev pub broken : Engine → Engine
broken e = record e { broken_connection = true }

-- Nothing is initialised yet, or an error occurred.
abbrev pub is_down : Engine → Bool
is_down e = not e.connected || not (e.network_error_code == 0)

-- The code field of a packet under construction.
abbrev pub packet_code : List ℕ → ℕ
packet_code s = elim (get_elem? s 4) [ none ↦ 0 | some c ↦ c ]

-- `qntohl` of four bytes.
abbrev pub net_word : ℕ → ℕ → ℕ → ℕ → ℕ
net_word a b c d = a * 2 ^ 24 + b * 65536 + c * 256 + d

-- What a request comes to: the packet received, a null pointer, or the end of the process.
pub data Reply : Type 0 where
  reply : Packet → Reply
  null_reply : Reply
  exited : Reply

-- A report ends the process or goes unnoticed.
abbrev pub after_report : Reply → Reply
after_report exited = exited
after_report null_reply = null_reply
after_report (reply p) = null_reply

-- `dvmsg`: a packet with the text; the sign of `code` chooses among a message, a warning and an error.
pub data Severity : Type 0 where
  message warning_text error_text : Severity

abbrev pub severity_code : Severity → ℕ
severity_code message = rpc_msg
severity_code warning_text = rpc_warning
severity_code error_text = rpc_error

pub report_packet : Severity → List ℕ → List ℕ
report_packet sev text = append_str (prepare_rpc_packet (severity_code sev)) text

module _ {W : Type 0} where
  -- What follows the answer of `irs_send`: the loop goes on with the bytes left, or the connection
  -- breaks.
  abbrev after_send : Engine → (ℕ → W → Result W ℕ) → SendAnswer × W → Result W ℕ
  after_send e rest (took n, w) = rest n w
  after_send e rest (send_failed err, w) = some (err, break_off err e, w)

  -- After `irs_recv`. The report that follows a broken connection finds the engine down and sends
  -- nothing; an error code of zero becomes -1, and is not kept.
  abbrev after_recv :
      List ℕ
      → Engine
      → (List ℕ → W → Result W (ℕ × List ℕ))
      → RecvAnswer × W
      → Result W (ℕ × List ℕ)
  after_recv acc e rest (got bs, w) = rest bs w
  after_recv acc e rest (recv_failed err, w) =
      if err == 0
      then some ((minus_one, acc), broken e, w)
      else some ((err, acc), break_off err e, w)

module _ {W : Type 0} (h : Host W) where
  open h use {irs_send, irs_recv, irs_ready, qalloc, poll_events, perform_request}

  -- The loop of `send_request` over the bytes left; it returns the error code.
  send_loop : ℕ → List ℕ → Engine → W → Result W ℕ
  send_loop zero left e w = none
  send_loop (suc fuel) [] e w = some (0, e, w)
  send_loop (suc fuel) (b ∷ bs) e w =
      after_send e (λ n w'. send_loop fuel (drop n (b ∷ bs)) e w') (irs_send w (b ∷ bs))

  -- It also returns the packet with its length filled in.
  pub send_request : ℕ → List ℕ → Engine → W → Result W (ℕ × List ℕ)
  unfolding send_loop
  send_request fuel s e w =
      if is_down e
      then some ((minus_one, s), e, w)
      else (let packet = finalize_packet s in
          elim (send_loop fuel packet e w) [
            | none ↦ none
            | some (code, e', w') ↦ some ((code, packet), e', w')
          ])

  -- The server waits and polls until data is there: a turn that finds nothing to read polls for debug
  -- events, and another error code than 0 ends the wait.
  recv_all_from : ℕ → List ℕ → ℕ → Bool → Engine → W → Result W (ℕ × List ℕ)
  recv_all_from zero acc left poll e w = none
  recv_all_from (suc fuel) acc zero poll e w = some ((0, acc), e, w)
  recv_all_from (suc fuel) acc (suc left) poll e w =
      let receive : W → Result W (ℕ × List ℕ) = λ w1.
        after_recv acc e (λ bs w2. recv_all_from fuel (acc ++ bs) (suc left - length bs) poll e w2)
          (irs_recv w1 (suc left)) in
      elim (e.is_server && (poll && e.poll_debug_events)) [
        | false ↦ receive w
        | true ↦
            let (ready, w1) = irs_ready w in
            elim ready [
              | true ↦ receive w1
              | false ↦
                  let (code, e2, w2) = poll_events e w1 in
                  elim (code == 0) [
                    | true ↦ recv_all_from fuel acc (suc left) poll e2 w2
                    | false ↦ some ((code, acc), e2, w2)
                  ]
            ]
      ]

  pub recv_all : ℕ → ℕ → Bool → Engine → W → Result W (ℕ × List ℕ)
  unfolding recv_all_from
  recv_all fuel left poll e w = recv_all_from fuel [] left poll e w

  -- `dwarning` sends a packet of its own and waits for the answer; it is handed in here, so that
  -- `process_request` below can be that call.
  abbrev pub Report : Type 0
  Report = List ℕ → Engine → W → Result W Reply

  abbrev pub refuse : Report → List ℕ → Engine → W → Result W Reply
  refuse report text e w = elim (report (report_packet warning_text text) e w) [
    | none ↦ none
    | some (r, e', w') ↦ some (after_report r, e', w')
  ]

  -- The body of a packet whose header says `size` and `code`.
  recv_body : ℕ → Report → ℕ → ℕ → Engine → W → Result W Reply
  recv_body fuel report size code e w =
      if leb 0x80000000 size
      then refuse report (codes "rpc: bad packet length") e w
      else (if qalloc (size + 5)
          then elim (recv_all fuel size false e w) [
            | none ↦ none
            | some ((zero, body), e', w') ↦
                some (reply (record { code = code; body = body }), e', w')
            | some ((suc err, body), e', w') ↦ some (null_reply, e', w')
          ]
          else refuse report (codes "rpc: no local memory") e w)

  -- The header is five bytes: the length in network order and the code.
  recv_header : ℕ → Report → List ℕ → Engine → W → Result W Reply
  unfolding recv_body
  recv_header fuel report (a ∷ b ∷ c ∷ d ∷ code ∷ more) e w =
      recv_body fuel report (net_word a b c d) code e w
  recv_header fuel report _ e w = some (null_reply, e, w)

  pub recv_request : ℕ → Report → Engine → W → Result W Reply
  unfolding recv_header
  recv_request fuel report e w =
      if is_down e
      then some (null_reply, e, w)
      else elim (recv_all fuel 5 e.poll_debug_events e w) [
        | none ↦ none
        | some ((zero, header), e', w') ↦ recv_header fuel report header e' w'
        | some ((suc err, header), e', w') ↦ some (null_reply, e', w')
      ]
