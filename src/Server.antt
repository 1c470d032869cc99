-- ===== src/Server.antt =====
-- rpc_server.cpp: the update of breakpoints and the channels of open files, as the server's requests use
-- them. A channel is `none` for a null pointer, and the platform's number of the file otherwise.
pub mod Updates
pub mod Channels
pub mod Extends
pub mod Interface
pub mod DebugNames
pub mod Cases
pub mod Dispatch
pub mod Polls
pub mod Broken
pub mod Examples
use reverse_engineearing.Base.{
  ℕ, zero, suc, ◌+◌, ◌-◌, ◌*◌, ◌/◌, ◌%◌, ◌^◌, ◌≤◌, ◌<◌, bit_and, bit_or, ◌≡◌, refl, sym, ap, ◌∙◌,
  ◌≢◌, ◌↔◌, ◌⊎◌, inl, inr, Bool, true, false, not, ◌&&◌, ◌||◌, Option, none, some, List, [], ◌∷◌,
  ◌++◌, append_assoc, append-nil, arith, ltb, leb, ◌==◌, if◌then◌else◌, of_bool, ==_iff, Bool-cases,
  Option-cases, length, get_elem?, set, take, drop, replicate, All, length-append, length-take,
  length-drop, take-append-drop, take-length-append, drop-length-append, take_all, All-append,
  codes, take_pieces, drop_pieces,
}
use reverse_engineearing.Wire.{append_dd, append_db}
use reverse_engineearing.Codec.{
  Reader, pure, ◌>>=◌, extract_str, extract_long, extract_count, extract_byte, extract_memory,
  extract_ea64, append_memory,
}
use reverse_engineearing.Engine.{minus_one}
use reverse_engineearing.Debmod.HwBpts.{bpt_soft, bpt_ok}
use reverse_engineearing.Debmod.UpdateBpts.{BptInfo, Module, dbg_update_bpts}

-- The bytes of a breakpoint that is deleted are preceded by their number; there is nothing to take for zero.
read_orgbytes : Reader (List ℕ)
read_orgbytes = do len ← extract_byte; extract_memory len

-- The reply for one entry to add, behind its code.
append_added : List ℕ → BptInfo → List ℕ
append_added s b =
    if b.code == bpt_ok && b.bpttype == bpt_soft
    then append_memory (append_db (append_db s b.code) (length b.orgbytes)) b.orgbytes
    else append_db s b.code

append_all_added : List ℕ → List BptInfo → List ℕ
unfolding append_added
append_all_added s [] = s
append_all_added s (b ∷ bs) = append_all_added (append_added s b) bs

append_all_deleted : List ℕ → List BptInfo → List ℕ
append_all_deleted s [] = s
append_all_deleted s (b ∷ bs) = append_all_deleted (append_db s b.code) bs

pub append_update_reply : List ℕ → ℕ → ℕ → List BptInfo → List ℕ
unfolding append_all_added append_all_deleted
append_update_reply req nadd ret bs =
    append_all_deleted (append_all_added (append_dd req (ret % 2 ^ 32)) (take nadd bs))
      (drop nadd bs)

module _ (shl32 : ℕ → ℕ) where
  -- Addresses are sent as differences from the entry before.
  pub read_adds : ℕ → ℕ → Reader (List BptInfo)
  read_adds zero ea = pure []
  read_adds (suc n) ea = do
    diff ← extract_ea64 shl32
    size ← extract_long
    bpttype ← extract_long
    let here = (ea + diff) % 2 ^ 32
    bs ← read_adds n here
    pure (record { ea = here; orgbytes = []; bpttype = bpttype; size = size; code = bpt_ok } ∷ bs)

  pub read_dels : ℕ → ℕ → Reader (List BptInfo)
  unfolding read_orgbytes
  read_dels zero ea = pure []
  read_dels (suc n) ea = do
    diff ← extract_ea64 shl32
    orgbytes ← read_orgbytes
    bpttype ← extract_long
    let here = (ea + diff) % 2 ^ 32
    bs ← read_dels n here
    pure
        (record { ea = here; orgbytes = orgbytes; bpttype = bpttype; size = 0; code = bpt_ok } ∷ bs)

  -- A negative number of entries cannot be allocated: `none`. The number to add with the entries, those to add before those to delete.
  pub read_updates : Reader (ℕ × List BptInfo)
  unfolding read_adds read_dels
  read_updates = do
    nadd ← extract_count
    ndel ← extract_count
    adds ← read_adds nadd 0
    dels ← read_dels ndel 0
    pure (nadd, adds ++ dels)

  module _ {W : Type 0} (m : Module W) where
    updated : List ℕ → ℕ → Option ((ℕ × List BptInfo) × W) → Option (List ℕ × W)
    updated req nadd none = none
    updated req nadd (some ((ret, bs), w)) = some (append_update_reply req nadd ret bs, w)

    -- The reply with the module as it is then; `none`: a failed QASSERT.
    pub rpc_update_bpts : List ℕ → List ℕ → W → Option (List ℕ × W)
    unfolding updated append_update_reply read_updates
    rpc_update_bpts req s w = elim (read_updates s) [
      | none ↦ none
      | some ((nadd, bs), rest) ↦ updated req nadd (dbg_update_bpts m w bs nadd)
    ]

read_open : Reader (List ℕ × ℕ)
read_open = do name ← extract_str; mode ← extract_long; pure (name, mode)

abbrev pub Channels : Type 0
Channels = List (Option ℕ)

pub clear_channels : Channels
clear_channels = replicate 16 none

find_free_from : ℕ → Channels → Option ℕ
find_free_from i [] = none
find_free_from i (none ∷ cs) = some i
find_free_from i (some f ∷ cs) = find_free_from (i + 1) cs

pub find_free_channel : Channels → Option ℕ
unfolding find_free_from
find_free_channel cs = find_free_from 0 cs

-- The files of the platform: what opening one gives, its size, and the last error.
pub record Files (F : Type 0) : Type 0 where
  pub fopen : F → Bool → List ℕ → Option ℕ × F
  pub qfsize : F → ℕ → ℕ
  pub qerrcode : F → ℕ
  pub qfclose : F → ℕ → F

module _ {F : Type 0} (fs : Files F) where
  open fs use {fopen, qfsize, qerrcode, qfclose}

  -- What is open in which channel after an attempt to open a file.
  opened : List ℕ → Channels → ℕ → Bool → Option ℕ × F → List ℕ × Channels × F
  opened req cs fn readonly (none, f) = (append_dd (append_dd req minus_one) (qerrcode f), cs, f)
  opened req cs fn readonly (some file, f) =
      let fsize : ℕ = if readonly then qfsize f file else 0 in
      (append_dd (append_dd req fn) fsize, set cs fn (some file), f)

  -- The case RPC_OPEN_FILE.
  pub open_channel : List ℕ → Channels → Bool → List ℕ → F → List ℕ × Channels × F
  unfolding find_free_channel opened
  open_channel req cs readonly name f = elim (find_free_channel cs) [
    | none ↦ (append_dd (append_dd req minus_one) (qerrcode f), cs, f)
    | some fn ↦ opened req cs fn readonly (fopen f readonly name)
  ]

  pub rpc_open_file : List ℕ → Channels → List ℕ → F → Option (List ℕ × Channels × F)
  unfolding open_channel read_open
  rpc_open_file req cs s f = elim (read_open s) [
    | none ↦ none
    | some ((name, mode), rest) ↦ some (open_channel req cs (not (mode == 0)) name f)
  ]

  -- The case RPC_CLOSE_FILE, for the number `fn`; closing a channel that is not open is undefined: `none`.
  pub close_channel : Channels → ℕ → F → Option (Channels × F)
  close_channel cs fn f = elim (get_elem? cs fn) [
    | none ↦ some (cs, f)
    | some none ↦ none
    | some (some file) ↦ some (set cs fn none, qfclose f file)
  ]

  -- The order of the calls: each open channel is closed, then all are cleared.
  close_each : Channels → F → F
  close_each [] f = f
  close_each (none ∷ cs) f = close_each cs f
  close_each (some file ∷ cs) f = close_each cs (qfclose f file)

  pub close_all_channels : Channels → F → Channels × F
  unfolding clear_channels close_each
  close_all_channels cs f = (clear_channels, close_each cs f)
