-- ===== src/Debmod/UpdateBpts.antt =====
-- debmod.cpp: `dbg_update_bpts`, which writes and deletes breakpoints in bulk. What it calls is virtual:
-- `W` is the state of the debugger module, and `none` as a result a failed QASSERT.
pub mod Count
pub mod Linux
pub mod Examples
use reverse_engineearing.Base.{
  ℕ, zero, suc, ◌+◌, ◌-◌, ◌*◌, ◌/◌, ◌%◌, ◌^◌, ◌≤◌, ◌<◌, bit_and, bit_or, ◌≡◌, refl, sym, ap, ◌∙◌,
  ◌≢◌, ◌↔◌, ◌⊎◌, inl, inr, Bool, true, false, not, ◌&&◌, ◌||◌, Option, none, some, List, [], ◌∷◌,
  ◌++◌, append_assoc, append-nil, arith, ltb, leb, ◌==◌, if◌then◌else◌, of_bool, ==_iff, Bool-cases,
  Option-cases, length, get_elem?, set, take, drop, replicate, All, length-append, length-take,
  length-drop, take-append-drop, take-length-append, drop-length-append, take_all, All-append,
  codes, take_pieces, drop_pieces,
}
use reverse_engineearing.Debmod.HwBpts.{bpt_soft, bpt_ok}

abbrev pub bpt_read_error : ℕ
bpt_read_error = 7

abbrev pub bpt_write_error : ℕ
bpt_write_error = 8

abbrev pub bpt_skip : ℕ
bpt_skip = 9

abbrev pub bpt_page_ok : ℕ
bpt_page_ok = 10

-- `update_bpt_info_t`.
pub record BptInfo : Type 0 where
  pub ea : ℕ
  pub orgbytes : List ℕ
  pub bpttype : ℕ
  pub size : ℕ
  pub code : ℕ

-- The module: whether it goes on from breakpoints itself (DBG_FLAG_CAN_CONT_BPT), the code of a software
-- breakpoint, and its virtual functions. A read answers `none` for a negative number.
pub record Module (W : Type 0) : Type 0 where
  pub can_cont : Bool
  pub bpt_code : List ℕ
  pub dbg_read_memory : W → ℕ → ℕ → Option (List ℕ)
  pub dbg_add_bpt : W → ℕ → ℕ → ℕ → Option (ℕ × W)
  pub dbg_del_bpt : W → ℕ → ℕ → List ℕ → ℕ → Option (ℕ × W)

-- A zeroed buffer of `len` bytes that the bytes read were put into.
abbrev pub fit : ℕ → List ℕ → List ℕ
fit len bs = take len (bs ++ replicate len 0)

-- The buffer that a read filled, or the failure of the read.
abbrev pub filled : ℕ → Option (List ℕ) → Option (List ℕ)
filled len none = none
filled len (some []) = none
filled len (some (b ∷ bs)) = some (fit len (b ∷ bs))

abbrev pub keep_org : List ℕ → List ℕ → List ℕ
keep_org old [] = old
keep_org old (b ∷ bs) = b ∷ bs

-- The code of an entry by what `dbg_add_bpt` returned.
abbrev pub code_of_add : ℕ → ℕ
code_of_add r = if r == 2 then bpt_page_ok else (if r == 1 then bpt_ok else bpt_write_error)

module _ {W : Type 0} (m : Module W) where
  open m use {can_cont, bpt_code, dbg_read_memory, dbg_add_bpt, dbg_del_bpt}

  -- The original bytes; `none` inside is the error -1.
  pub read_bpt_orgbytes : W → ℕ → ℕ → Option (Option (List ℕ))
  read_bpt_orgbytes w ea len =
      if can_cont
      then some (some (replicate len 0))
      else (if leb len 32 then some (filled len (dbg_read_memory w ea len)) else none)

  place : W → BptInfo → ℕ → List ℕ → Option (BptInfo × W)
  place w b len org = elim (dbg_add_bpt w b.bpttype b.ea len) [
    | none ↦ none
    | some (r, w') ↦
        let code = code_of_add r in
        let orgbytes : List ℕ = if code == bpt_ok then keep_org b.orgbytes org else b.orgbytes in
        some (record b { code = code; orgbytes = orgbytes }, w')
  ]

  -- A software breakpoint, by what reading the original bytes gave.
  place_soft : W → BptInfo → Option (Option (List ℕ)) → Option (BptInfo × W)
  unfolding place
  place_soft w b none = none
  place_soft w b (some none) = some (record b { code = bpt_read_error }, w)
  place_soft w b (some (some org)) = place w b (length bpt_code) org

  -- One turn of the first loop.
  add_one : W → BptInfo → Option (BptInfo × W)
  unfolding place_soft read_bpt_orgbytes
  add_one w b =
      if not (b.code == bpt_ok)
      then some (b, w)
      else (if b.bpttype == bpt_soft
          then place_soft w b (read_bpt_orgbytes w b.ea (length bpt_code))
          else place w b b.size [])

  -- An entry to delete, by what `dbg_del_bpt` returned: the pattern of a number above zero, or not.
  deleted : BptInfo → Option (ℕ × W) → Option (BptInfo × W)
  deleted b none = none
  deleted b (some (r, w)) =
      if ltb 0 r && ltb r 0x80000000
      then some (record b { code = bpt_ok }, w)
      else some (record b { code = bpt_write_error }, w)

  -- One turn of the second loop.
  del_one : W → BptInfo → Option (BptInfo × W)
  unfolding deleted
  del_one w b = deleted b (
      dbg_del_bpt w b.bpttype b.ea b.orgbytes
        (if b.bpttype == bpt_soft then length b.orgbytes else b.size))

  -- What one turn adds to `cnt`: an entry that the first loop skips has another code than BPT_OK.
  abbrev counted : BptInfo → ℕ
  counted b = of_bool (b.code == bpt_ok)

  -- A turn of a loop before the turns on the rest.
  abbrev step : BptInfo → Option ((ℕ × List BptInfo) × W) → Option ((ℕ × List BptInfo) × W)
  step b none = none
  step b (some ((cnt, bs), w)) = some ((counted b + cnt, b ∷ bs), w)

  add_all : W → List BptInfo → Option ((ℕ × List BptInfo) × W)
  unfolding add_one
  add_all w [] = some ((0, []), w)
  add_all w (b ∷ bs) = elim (add_one w b) [ none ↦ none | some (b', w1) ↦ step b' (add_all w1 bs) ]

  del_all : W → List BptInfo → Option ((ℕ × List BptInfo) × W)
  unfolding del_one
  del_all w [] = some ((0, []), w)
  del_all w (b ∷ bs) = elim (del_one w b) [ none ↦ none | some (b', w1) ↦ step b' (del_all w1 bs) ]

  -- The entries to add and the ones to delete lie one after the other in the array `ubpts`.
  pub dbg_update_bpts : W → List BptInfo → ℕ → Option ((ℕ × List BptInfo) × W)
  unfolding add_all del_all
  dbg_update_bpts w ubpts nadd = elim (add_all w (take nadd ubpts)) [
    | none ↦ none
    | some ((added, bs), w1) ↦ elim (del_all w1 (drop nadd ubpts)) [
      | none ↦ none
      | some ((deleted, ds), w2) ↦ some ((added + deleted, bs ++ ds), w2)
    ]
  ]
