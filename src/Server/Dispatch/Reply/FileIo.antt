-- ===== src/Server/Dispatch/Reply/FileIo.antt =====
-- The cases of `perform_request` on files, and ioctl requests.
use reverse_engineearing.Base.{
  ℕ, refl, not, ◌||◌, Option, none, some, List, [], ◌==◌, if◌then◌else◌, length, get_elem?,
}
use reverse_engineearing.Codec.{extract_memory}
use reverse_engineearing.Codec.Extends.{Extends-dd, Extends-memory, Extends-if, Extends-refl}
use reverse_engineearing.Engine.Ioctl.{IoctlAnswer}
use reverse_engineearing.Engine.Ioctl.Answers.{
  Answered, no_answer, answered, code_ok, code_unk, code_mem, handle_ioctl_packet-Answered,
}
use reverse_engineearing.Server.{Channels, close_channel}
use reverse_engineearing.Server.Extends.{Grown, failed, grown, rpc_open_file-Grown}
use reverse_engineearing.Server.Interface.{Debugger, Outcome, is_positive, run}
use reverse_engineearing.Server.Cases.FileIo.{
  opened_reply, closed_reply, read_reply, on_channel, write_reply, write_to, ioctl_answer,
  read_read, on_open_file, on_close_file, on_read_file, on_write_file, on_ioctl,
}
use reverse_engineearing.Server.Cases.Threads.{no_memory}
use reverse_engineearing.Server.Dispatch.Reply.{
  continued, refused, out_of_memory, Kept, Keeps, stopped, ended, kept, Kept-session, run-Keeps,
  if-Keeps,
}
use reverse_engineearing.Server.Dispatch.Reply.Threads.{no_memory-Kept}

module _ {W : Type 0} (m : Debugger W) (o : Outcome W) (s : List ℕ) where
  opened_reply-Keeps :
      {x : Option (List ℕ × Channels × W)} → Grown (λ r. r.0) o.req x → Keeps o (opened_reply m o x)
  opened_reply-Keeps failed = stopped
  opened_reply-Keeps (grown (t, cs, w) e) = ended (Kept-session o t _ w (continued e))

  pub on_open_file-Keeps : Keeps o (on_open_file m o s)
  unfolding on_open_file
  on_open_file-Keeps =
      opened_reply-Keeps (rpc_open_file-Grown m.files o.req o.session.channels s o.world)

  closed_reply-Keeps : (x : Option (Channels × W)) → Keeps o (closed_reply m o x)
  closed_reply-Keeps none = stopped
  closed_reply-Keeps (some (cs, w)) =
      ended (Kept-session o o.req _ w (continued (Extends-refl o.req)))

  pub on_close_file-Keeps : Keeps o (on_close_file m o s)
  unfolding on_close_file
  on_close_file-Keeps =
      run-Keeps o _ s λ fn. closed_reply-Keeps (close_channel m.files o.session.channels fn o.world)

  on_channel-Keeps :
      (fn : ℕ) {use_file : ℕ → Option (Outcome W)}
      → ((file : ℕ) → Keeps o (use_file file))
      → Keeps o (on_channel m o fn use_file)
  on_channel-Keeps fn {use_file} each =
      elim (get_elem? o.session.channels fn)
        as (λ x.
          Keeps o (elim x [ none ↦ none | some none ↦ none | some (some file) ↦ use_file file ])) [
            | none ↦ stopped
            | some none ↦ stopped
            | some (some file) ↦ each file
          ]

  read_reply-Kept : (size : ℕ) (r : List ℕ × W) → Kept o (read_reply m o size r)
  read_reply-Kept size (buf, w) =
      let e = Extends-dd (length buf) (Extends-refl o.req) in
      kept o _ w (
        continued (
          Extends-memory buf
            (Extends-if (length buf == size) e (Extends-dd (m.files.qerrcode w) e))))

  pub on_read_file-Keeps : Keeps o (on_read_file m o s)
  unfolding on_read_file
  on_read_file-Keeps = run-Keeps o _ s λ a.
      if-Keeps o (not (is_positive a.2)) (ended (read_reply-Kept a.2 ([], o.world))) (
        if-Keeps o (m.can_new a.2)
          (on_channel-Keeps a.0 λ file. ended (read_reply-Kept a.2 (m.qfread o.world file a.1 a.2)))
          (ended (no_memory-Kept m o s)))

  write_reply-Kept : (size : ℕ) (r : ℕ × W) → Kept o (write_reply m o size r)
  write_reply-Kept size (n, w) =
      let e = Extends-dd size (Extends-refl o.req) in
      kept o _ w (continued (Extends-if (n == size) e (Extends-dd (m.files.qerrcode w) e)))

  pub on_write_file-Keeps : Keeps o (on_write_file m o s)
  unfolding on_write_file
  on_write_file-Keeps =
      elim (read_read s)
        as (λ x. Keeps o (elim x [
          | none ↦ none
          | some ((fn, off, size), rest) ↦
              if size == 0 || m.can_new size
              then run (extract_memory size) rest (λ buf.
                on_channel m o fn (λ file. some (write_reply m o size (write_to m o file off buf))))
              else some (no_memory o)
        ])) [
          | none ↦ stopped
          | some ((fn, off, size), rest) ↦
              if-Keeps o (size == 0 || m.can_new size)
                (run-Keeps o _ rest λ buf.
                  on_channel-Keeps fn
                    λ file. ended (write_reply-Kept size (write_to m o file off buf)))
                (ended (no_memory-Kept m o s))
        ]

  ioctl_answer-Keeps : {x : Option IoctlAnswer} → Answered o.req x → Keeps o (ioctl_answer m o x)
  ioctl_answer-Keeps no_answer = stopped
  ioctl_answer-Keeps (answered (code_ok t e)) = ended (kept o t o.world (continued e))
  ioctl_answer-Keeps (answered (code_unk t)) = ended (kept o _ o.world (refused refl))
  ioctl_answer-Keeps (answered (code_mem t)) = ended (kept o _ o.world (out_of_memory refl))

  pub on_ioctl-Keeps : Keeps o (on_ioctl m o s)
  unfolding on_ioctl
  on_ioctl-Keeps =
      ioctl_answer-Keeps (handle_ioctl_packet-Answered m.qalloc m.ioctl_handler o.req s)
