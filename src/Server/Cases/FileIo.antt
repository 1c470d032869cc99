-- ===== src/Server/Cases/FileIo.antt =====
-- rpc_server.cpp: the cases of `perform_request` on files, and ioctl requests.
use reverse_engineearing.Base.{
  ℕ, not, ◌||◌, Option, none, some, List, [], ◌∷◌, ◌==◌, if◌then◌else◌, length, get_elem?,
}
use reverse_engineearing.Wire.{append_dd}
use reverse_engineearing.Codec.{
  Reader, pure, ◌>>=◌, extract_long, extract_memory, append_memory, prepare_rpc_packet,
}
use reverse_engineearing.Engine.{rpc_ok}
use reverse_engineearing.Engine.Ioctl.{IoctlAnswer, handle_ioctl_packet}
use reverse_engineearing.Server.{Channels, rpc_open_file, close_channel}
use reverse_engineearing.Server.Interface.{Debugger, Outcome, is_positive, run}
use reverse_engineearing.Server.Cases.Threads.{no_memory}

pub read_read : Reader (ℕ × ℕ × ℕ)
read_read = do fn ← extract_long; off ← extract_long; size ← extract_long; pure (fn, off, size)

module _ {W : Type 0} (m : Debugger W) where
  abbrev pub opened_reply : Outcome W → Option (List ℕ × Channels × W) → Option (Outcome W)
  opened_reply o none = none
  opened_reply o (some (req, cs, w)) =
      some (record o { req = req; session = record o.session { channels = cs }; world = w })

  -- RPC_OPEN_FILE
  unfoldable pub on_open_file : Outcome W → List ℕ → Option (Outcome W)
  on_open_file o s = opened_reply o (rpc_open_file m.files o.req o.session.channels s o.world)

  abbrev pub closed_reply : Outcome W → Option (Channels × W) → Option (Outcome W)
  closed_reply o none = none
  closed_reply o (some (cs, w)) =
      some (record o { session = record o.session { channels = cs }; world = w })

  -- RPC_CLOSE_FILE: a number out of range does nothing.
  unfoldable pub on_close_file : Outcome W → List ℕ → Option (Outcome W)
  on_close_file o s =
      run extract_long s λ fn. closed_reply o (close_channel m.files o.session.channels fn o.world)

  -- What was read of a file; the error code goes before the bytes where fewer came than were asked for.
  abbrev pub read_reply : Outcome W → ℕ → List ℕ × W → Outcome W
  read_reply o size (buf, w) =
      let req = append_dd o.req (length buf) in
      let req' : List ℕ = if length buf == size then req else append_dd req (m.files.qerrcode w) in
      record o { req = append_memory req' buf; world = w }

  -- The channel is used without a look at its number: out of range, or not open, is undefined.
  abbrev pub on_channel : Outcome W → ℕ → (ℕ → Option (Outcome W)) → Option (Outcome W)
  on_channel o fn use_file = elim (get_elem? o.session.channels fn) [
    | none ↦ none
    | some none ↦ none
    | some (some file) ↦ use_file file
  ]

  -- RPC_READ_FILE
  unfoldable pub on_read_file : Outcome W → List ℕ → Option (Outcome W)
  unfolding read_read
  on_read_file o s = run read_read s λ a.
      if not (is_positive a.2)
      then some (read_reply o a.2 ([], o.world))
      else (if m.can_new a.2
          then on_channel o a.0 (λ file. some (read_reply o a.2 (m.qfread o.world file a.1 a.2)))
          else some (no_memory o))

  -- The reply tells the size that was asked for; the error code follows where fewer bytes were written.
  abbrev pub write_reply : Outcome W → ℕ → ℕ × W → Outcome W
  write_reply o size (n, w) =
      let req = append_dd o.req size in
      record o { req = if n == size then req else append_dd req (m.files.qerrcode w); world = w }

  -- Nothing is written for a size of zero.
  abbrev pub write_to : Outcome W → ℕ → ℕ → List ℕ → ℕ × W
  write_to o file off [] = (0, o.world)
  write_to o file off (b ∷ bs) = m.qfwrite o.world file off (b ∷ bs)

  -- RPC_WRITE_FILE
  unfoldable pub on_write_file : Outcome W → List ℕ → Option (Outcome W)
  unfolding read_read
  on_write_file o s = elim (read_read s) [
    | none ↦ none
    | some ((fn, off, size), rest) ↦
        if size == 0 || m.can_new size
        then run (extract_memory size) rest
            (λ buf. on_channel o fn (λ file. some (write_reply o size (write_to o file off buf))))
        else some (no_memory o)
  ]

  -- The reply of the handler, or a packet with its code alone.
  abbrev pub ioctl_answer : Outcome W → Option IoctlAnswer → Option (Outcome W)
  ioctl_answer o none = none
  ioctl_answer o (some a) =
      some (record o { req = if a.code == rpc_ok then a.req else prepare_rpc_packet a.code })

  -- RPC_IOCTL
  unfoldable pub on_ioctl : Outcome W → List ℕ → Option (Outcome W)
  on_ioctl o s = ioctl_answer o (handle_ioctl_packet m.qalloc m.ioctl_handler o.req s)
