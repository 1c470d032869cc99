-- ===== src/Server/Examples.antt =====
-- The theorems on the server at concrete updates and channels.
pub mod Requests
use reverse_engineearing.Base.{
  ℕ, ◌+◌, ◌≡◌, refl, inl, inr, true, none, some, List, [], ◌∷◌, ◌++◌, arith,
}
use reverse_engineearing.Wire.{append_dd}
use reverse_engineearing.Debmod.HwBpts.{bpt_write, bpt_soft}
use reverse_engineearing.Debmod.UpdateBpts.{BptInfo}
use reverse_engineearing.Server.{
  read_adds, append_update_reply, Channels, Files, find_free_channel, find_free_from, open_channel,
  close_channel,
}
use reverse_engineearing.Server.Updates.{adds_bytes, read_adds-adds_bytes, append_update_reply_bare}
use reverse_engineearing.Server.Channels.{IsFirstFree, close_channel-open_channel}

abbrev no_high : ℕ → ℕ
no_high x = 0

-- One failed and one set hardware breakpoint.
abbrev two_results : List BptInfo
two_results =
    record { ea = 0x1000; orgbytes = []; bpttype = bpt_soft; size = 0; code = 8 }
    ∷ record { ea = 0x1800; orgbytes = []; bpttype = bpt_write; size = 4; code = 0 }
    ∷ []

append_update_reply_bare_example : append_update_reply [] 2 1 two_results ≡ append_dd [] 1
append_update_reply_bare_example =
    append_update_reply_bare [] 2 1 two_results
      (inl (λ e. ground (arith, e)), (inr (inl (λ e. ground (arith, e))), tt))
