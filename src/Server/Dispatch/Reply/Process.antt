-- ===== src/Server/Dispatch/Reply/Process.antt =====
-- The cases of `perform_request` on the process and on its events.
use reverse_engineearing.Base.{ℕ, bit_and, Bool, true, false, some, List, ◌==◌, if◌then◌else◌}
use reverse_engineearing.Wire.{append_dd}
use reverse_engineearing.Codec.{badaddr}
use reverse_engineearing.Codec.Extends.{
  Extends-dd, Extends-ea64, Extends-str, Extends-if, Extends-item, Extends-refl,
}
use reverse_engineearing.Codec.Event.{DebugEvent, append_debug_event}
use reverse_engineearing.Codec.Event.RoundTrip.{append_debug_event-append}
use reverse_engineearing.Codec.Records.Written.{
  append_process_info-Extends, append_debapp_attrs-Extends,
}
use reverse_engineearing.Codec.Registers.Written.{append_regobjs-Extends}
use reverse_engineearing.Server.Interface.{Debugger, Outcome, AppcallResult, is_positive}
use reverse_engineearing.Server.Cases.Process.{
  appcall_manual, appcall_debev, append_start_or_attach, attach_unless, event_reply, appcall_reply,
  on_init, on_get_process_info, on_start, on_exit, on_attach, on_detach, on_get_debug_event,
  on_prepare_to_pause, on_stopped, on_continue, on_appcall, on_cleanup_appcall, on_rexec,
}
use reverse_engineearing.Server.Dispatch.Reply.{
  continued, Kept, Keeps, ended, kept, Kept-session, answer-Kept, run-Keeps,
}

module _ {W : Type 0} (m : Debugger W) (o : Outcome W) (s : List ℕ) where
  pub on_init-Keeps : Keeps o (on_init m o s)
  unfolding on_init
  on_init-Keeps =
      run-Keeps o _ s
        λ a. ended (Kept-session o _ _ _ (continued (Extends-dd _ (Extends-refl o.req))))

  pub on_get_process_info-Keeps : Keeps o (on_get_process_info m o s)
  unfolding on_get_process_info
  on_get_process_info-Keeps = run-Keeps o _ s λ a.
      let ((r, info), w) = m.dbg_process_get_info a.0 a.1 o.world in
      ended (
        kept o _ w (
          continued (
            Extends-if (is_positive r)
              (append_process_info-Extends info (Extends-dd _ (Extends-refl o.req)))
              (Extends-dd _ (Extends-refl o.req)))))

  pub on_detach-Keeps : Keeps o (on_detach m o s)
  unfolding on_detach
  on_detach-Keeps = ended (answer-Kept o _)

  pub on_prepare_to_pause-Keeps : Keeps o (on_prepare_to_pause m o s)
  unfolding on_prepare_to_pause
  on_prepare_to_pause-Keeps = ended (answer-Kept o _)

  pub on_exit-Keeps : Keeps o (on_exit m o s)
  unfolding on_exit
  on_exit-Keeps = ended (answer-Kept o _)

  append_start_or_attach-Kept : (r : ℕ × W) → Kept o (append_start_or_attach m o r)
  unfolding append_start_or_attach
  append_start_or_attach-Kept (r, w) = kept o _ w (
      continued (
        Extends-if (is_positive r)
          (append_debapp_attrs-Extends (m.dbg_get_debapp_attrs w)
            (Extends-dd r (Extends-refl o.req)))
          (Extends-dd r (Extends-refl o.req))))

  pub on_start-Keeps : Keeps o (on_start m o s)
  unfolding on_start
  on_start-Keeps =
      run-Keeps o _ s λ a. ended (append_start_or_attach-Kept (m.dbg_start_process a o.world))

  pub on_attach-Keeps : Keeps o (on_attach m o s)
  unfolding on_attach
  on_attach-Keeps = run-Keeps o _ s λ a. ended (
      append_start_or_attach-Kept (attach_unless m a.0 a.1 (m.check_broken_connection a.0 o.world)))

  pub on_stopped-Keeps : Keeps o (on_stopped m o s)
  unfolding on_stopped
  on_stopped-Keeps = ended (Kept-session o o.req _ _ (continued (Extends-refl o.req)))

  pub on_cleanup_appcall-Keeps : Keeps o (on_cleanup_appcall m o s)
  unfolding on_cleanup_appcall
  on_cleanup_appcall-Keeps = run-Keeps o _ s λ tid. ended (answer-Kept o _)

  pub on_rexec-Keeps : Keeps o (on_rexec m o s)
  unfolding on_rexec
  on_rexec-Keeps = run-Keeps o _ s λ cmdline. ended (answer-Kept o _)

  module _ (shl32 : ℕ → ℕ) where
    pub on_continue-Keeps : Keeps o (on_continue m shl32 o s)
    unfolding on_continue
    on_continue-Keeps =
        run-Keeps o _ s
          λ ev. ended (Kept-session o _ _ _ (continued (Extends-dd _ (Extends-refl o.req))))

    appcall_reply-Kept :
        (flags : ℕ) (r : AppcallResult × W) → Kept o (appcall_reply m shl32 o flags r)
    appcall_reply-Kept flags (r, w) =
        let e = Extends-ea64 r.sp (Extends-refl o.req) in
        kept o _ w (
          continued (
            Extends-if (r.sp == badaddr)
              (Extends-str r.errbuf (
                Extends-if (bit_and flags appcall_debev == 0) e
                  (Extends-item append_debug_event-append r.event e)))
              (Extends-if (bit_and flags appcall_manual == 0)
                (append_regobjs-Extends true r.retregs e) e)))

    pub on_appcall-Keeps : Keeps o (on_appcall m shl32 o s)
    unfolding on_appcall
    on_appcall-Keeps = run-Keeps o _ s λ a. ended (appcall_reply-Kept a.flags _)

-- Only this case switches the mode to go back to: with no event, the server is to poll again.
module _ {W : Type 0} (m : Debugger W) (o : Outcome W) (s : List ℕ) where
  event_reply-Kept : (r : (ℕ × DebugEvent) × W) → Kept o (event_reply m o r)
  event_reply-Kept ((r, ev), w) =
      elim (is_positive r)
        as (λ c. Kept o (
          if c
          then record {
            req = append_debug_event (append_dd o.req r) ev;
            saved_poll_mode = o.saved_poll_mode;
            session = record o.session { ev = ev };
            world = w;
          }
          else record {
            req = append_dd o.req r;
            saved_poll_mode = true;
            session = record o.session { ev = ev };
            world = w;
          })) [
            | true ↦ Kept-session o _ _ w (
                continued
                  (Extends-item append_debug_event-append ev (Extends-dd r (Extends-refl o.req))))
            | false ↦ record { reply = continued (Extends-dd r (Extends-refl o.req)) }
          ]

  unless_pending :
      (pending : Bool) (timeout : ℕ)
      → Keeps o (
          if pending
          then some (record o { req = append_dd o.req 0 })
          else some (event_reply m o (m.dbg_get_debug_event o.session.ev timeout o.world)))
  unless_pending true timeout =
      ended (kept o _ o.world (continued (Extends-dd 0 (Extends-refl o.req))))
  unless_pending false timeout =
      ended (event_reply-Kept (m.dbg_get_debug_event o.session.ev timeout o.world))

  pub on_get_debug_event-Keeps : Keeps o (on_get_debug_event m o s)
  unfolding on_get_debug_event
  on_get_debug_event-Keeps =
      run-Keeps o _ s λ timeout. unless_pending o.session.has_pending_event timeout
