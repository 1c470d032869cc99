-- ===== src/Engine/Process.antt =====
-- rpc_engine.cpp: requests and their replies. While a request waits for its reply, the requests of
-- the other side are performed and answered in its place.
pub mod Requests
use reverse_engineearing.Base.{
  ℕ, zero, suc, ◌+◌, ◌-◌, ◌*◌, ◌/◌, ◌%◌, ◌^◌, ◌≤◌, ◌<◌, bit_and, bit_or, ◌≡◌, refl, sym, ap, ◌∙◌,
  ◌≢◌, ◌↔◌, ◌⊎◌, inl, inr, Bool, true, false, not, ◌&&◌, ◌||◌, Option, none, some, List, [], ◌∷◌,
  ◌++◌, append_assoc, append-nil, arith, ltb, leb, ◌==◌, if◌then◌else◌, of_bool, ==_iff, Bool-cases,
  Option-cases, length, get_elem?, set, take, drop, replicate, All, length-append, length-take,
  length-drop, take-append-drop, take-length-append, drop-length-append, take_all, All-append,
  codes,
}
use reverse_engineearing.Codec.{extract_long}
use reverse_engineearing.Engine.{
  Host, Engine, Packet, Reply, reply, null_reply, exited, Result, Severity, warning_text,
  report_packet, after_report, packet_code, rpc_ok, rpc_unk, rpc_mem, rpc_evok, rpc_error,
  minus_one, Report, refuse, send_request, recv_request,
}

module _ {W : Type 0} (h : Host W) where
  open h use {perform_request}

  -- The switch over the code of what was received. `again` continues the loop with a new request.
  dispatch :
      Report h
      → (List ℕ → Engine → W → Result W Reply)
      → Bool
      → Packet
      → Engine
      → W
      → Result W Reply
  dispatch report again must_login p e w =
      if p.code == rpc_unk
      then refuse h report (codes "rpc: remote did not understand our request") e w
      else (if p.code == rpc_mem
          then refuse h report (codes "rpc: no remote memory") e w
          else (if p.code == rpc_ok
              then some (reply p, e, w)
              else (if must_login
                  then some (null_reply, e, w)
                  else (let (req, e', w') = perform_request p e w in again req e' w'))))

  await : ℕ → Report h → (List ℕ → Engine → W → Result W Reply) → Bool → Engine → W → Result W Reply
  unfolding dispatch
  await fuel report again must_login e w = elim (recv_request h fuel report e w) [
    | none ↦ none
    | some (null_reply, e', w') ↦ some (null_reply, e', w')
    | some (exited, e', w') ↦ some (exited, e', w')
    | some (reply p, e', w') ↦ dispatch report again must_login p e' w'
  ]

  -- After a request went out: an event that was only acknowledged needs no reply.
  sent : Bool → ℕ → (Engine → W → Result W Reply) → Engine → W → Result W Reply
  sent only_events code wait e w =
      if only_events && code == rpc_evok
      then some (null_reply, e, w)
      else (if code == rpc_error then some (exited, e, w) else wait e w)

  process_loop : ℕ → Bool → Bool → List ℕ → Engine → W → Result W Reply
  unfolding await sent
  process_loop zero only_events must_login req e w = none
  process_loop (suc fuel) only_events must_login req e w =
      let report : Report h = λ r. process_loop fuel false false r in
      let again : List ℕ → Engine → W → Result W Reply = process_loop fuel only_events must_login in
      let wait : Engine → W → Result W Reply = await fuel report again must_login in
      elim req [
        | [] ↦ wait e w
        | b ∷ bs ↦ elim (send_request h fuel (b ∷ bs) e w) [
          | none ↦ none
          | some ((suc err, packet), e', w') ↦ some (null_reply, e', w')
          | some ((zero, packet), e', w') ↦ sent only_events (packet_code packet) wait e' w'
        ]
      ]

  abbrev is_empty : List ℕ → Bool
  is_empty [] = true
  is_empty (b ∷ bs) = false

  pub process_request : ℕ → List ℕ → Bool → Engine → W → Result W Reply
  unfolding process_loop
  process_request fuel req must_login e w = process_loop fuel (is_empty req) must_login req e w

  -- `dvmsg`: an error ends the process at `process_request` already.
  pub dvmsg : ℕ → Severity → List ℕ → Engine → W → Result W Reply
  unfolding process_request
  dvmsg fuel sev text e w = process_request fuel (report_packet sev text) false e w

  -- The number in a reply, or -1; `none` inside is a failed QASSERT of the reader.
  abbrev reply_long : Reply → Option ℕ
  reply_long (reply p) = elim (extract_long p.body) [ none ↦ none | some (n, rest) ↦ some n ]
  reply_long null_reply = some minus_one
  reply_long exited = none

  pub process_long : ℕ → List ℕ → Engine → W → Result W (Option ℕ)
  process_long fuel req e w = elim (process_request fuel req false e w) [
    | none ↦ none
    | some (r, e', w') ↦ some (reply_long r, e', w')
  ]
