-- ===== src/Codec/Registers.antt =====
-- rpc_hlp.cpp: register values, and the register and stack arguments of an appcall.
pub mod RoundTrip
pub mod Written
use reverse_engineearing.Base.{
  ℕ, zero, suc, ◌+◌, ◌-◌, ◌*◌, ◌/◌, ◌%◌, ◌^◌, ◌≤◌, ◌<◌, bit_and, bit_or, ◌≡◌, refl, sym, ap, ◌∙◌,
  ◌≢◌, ◌↔◌, ◌⊎◌, inl, inr, Bool, true, false, not, ◌&&◌, ◌||◌, Option, none, some, List, [], ◌∷◌,
  ◌++◌, append_assoc, append-nil, arith, ltb, leb, ◌==◌, if◌then◌else◌, of_bool, ==_iff, Bool-cases,
  Option-cases, length, get_elem?, set, take, drop, replicate, All, length-append, length-take,
  length-drop, take-append-drop, take-length-append, drop-length-append, take_all, All-append,
}
use reverse_engineearing.Wire.{append_dd, append_dq}
use reverse_engineearing.Codec.{
  Reader, pure, ◌>>=◌, append_ea64, extract_ea64, extract_long, extract_count, extract_list,
  append_list, append_memory, extract_memory, extract_uint64,
}

-- `regval_t`, by its rvtype: RVT_INT is -1, RVT_FLOAT is -2, and any other type has bytes.
pub data RegVal : Type 0 where
  int_val : ℕ → RegVal
  float_val : List ℕ → RegVal
  custom_val : ℕ → List ℕ → RegVal

pub record RegObj : Type 0 where
  pub regidx : ℕ
  pub relocate : ℕ
  pub value : List ℕ

pub record RelObj : Type 0 where
  pub bytes : List ℕ
  pub base : ℕ
  pub ri : List ℕ

-- `sizeof(fval)`: six 16-bit words.
abbrev pub fval_size : ℕ
fval_size = 12

pub append_regval : List ℕ → RegVal → List ℕ
append_regval s (int_val n) = append_dq (append_dd s 1) ((n + 1) % 2 ^ 64)
append_regval s (float_val f) = append_memory (append_dd s 0) f
append_regval s (custom_val t b) =
    append_memory (append_dd (append_dd s ((t + 2) % 2 ^ 32)) (length b)) b

pub append_regobj : Bool → List ℕ → RegObj → List ℕ
append_regobj with_values s ro =
    let s2 = append_dd (append_dd s ro.regidx) (length ro.value) in
    if with_values then append_memory (append_dd s2 ro.relocate) ro.value else s2

pub append_regobjs : Bool → List ℕ → List RegObj → List ℕ
unfolding append_regobj
append_regobjs with_values s objs =
    append_list (append_regobj with_values) (append_dd s (length objs)) objs

pub append_relobj : List ℕ → RelObj → List ℕ
append_relobj s r =
    append_memory
      (append_dd (append_ea64 (append_memory (append_dd s (length r.bytes)) r.bytes) r.base)
        (length r.ri))
      r.ri

pub append_appcall : List ℕ → List RegObj → RelObj → Option (List RegObj) → List ℕ
unfolding append_regobjs append_relobj
append_appcall s regargs stkargs none = append_relobj (append_regobjs true s regargs) stkargs
append_appcall s regargs stkargs (some retregs) =
    append_regobjs false (append_relobj (append_regobjs true s regargs) stkargs) retregs

-- A count, then as many bytes.
extract_sized : Reader (List ℕ)
extract_sized = do size ← extract_count; extract_memory size

-- `resize` fills a new value with zeroes; a register that comes without its value keeps them.
extract_regobj : Bool → Reader RegObj
extract_regobj true = do
  regidx ← extract_long
  size ← extract_count
  relocate ← extract_long
  value ← extract_memory size
  pure (record { regidx = regidx; relocate = relocate; value = value })
extract_regobj false = do
  regidx ← extract_long
  size ← extract_count
  pure (record { regidx = regidx; relocate = 0; value = replicate size 0 })

pub extract_regobjs : Bool → Reader (List RegObj)
unfolding extract_regobj
extract_regobjs with_values = do n ← extract_count; extract_list n (extract_regobj with_values)

-- `test_bit`.
pub test_bit : List ℕ → ℕ → Bool
test_bit bitmap bit = elim (get_elem? bitmap (bit / 8)) [
  | none ↦ false
  | some b ↦ not (bit_and b (2 ^ (bit % 8)) == 0)
]

selected : Option (List ℕ) → ℕ → Bool
unfolding test_bit
selected none i = true
selected (some regmap) i = test_bit regmap i

append_regvals_from : ℕ → List ℕ → List RegVal → Option (List ℕ) → List ℕ
unfolding append_regval selected
append_regvals_from i s [] regmap = s
append_regvals_from i s (v ∷ vs) regmap =
    append_regvals_from (i + 1) (if selected regmap i then append_regval s v else s) vs regmap

-- The registers of the map, or all of them without one.
pub append_regvals : List ℕ → List RegVal → Option (List ℕ) → List ℕ
unfolding append_regvals_from
append_regvals s values regmap = append_regvals_from 0 s values regmap

module _ (shl32 : ℕ → ℕ) where
  extract_relobj : Reader RelObj
  unfolding extract_sized
  extract_relobj = do
    bytes ← extract_sized
    base ← extract_ea64 shl32
    ri ← extract_sized
    pure (record { bytes = bytes; base = base; ri = ri })

  pub extract_appcall : Bool → Reader (List RegObj × RelObj × Option (List RegObj))
  unfolding extract_regobjs extract_relobj
  extract_appcall false = do
    regargs ← extract_regobjs true
    stkargs ← extract_relobj
    pure (regargs, stkargs, none)
  extract_appcall true = do
    regargs ← extract_regobjs true
    stkargs ← extract_relobj
    retregs ← extract_regobjs false
    pure (regargs, stkargs, some retregs)

  -- The type is read first; `_set_bytes` then makes it 0 again for a custom value.
  extract_regval_as : ℕ → Reader RegVal
  unfolding extract_sized
  extract_regval_as t =
      if t == 1
      then (do n ← extract_uint64 shl32; pure (int_val ((n + 2 ^ 64 - 1) % 2 ^ 64)))
      else (if t == 0
          then (do f ← extract_memory fval_size; pure (float_val f))
          else (do b ← extract_sized; pure (custom_val 0 b)))

  pub extract_regval : Reader RegVal
  unfolding extract_regval_as
  extract_regval = do t ← extract_long; extract_regval_as t

  -- The loop also ends where the packet does: the registers left are not touched.
  extract_regvals_from : ℕ → List RegVal → Option (List ℕ) → Reader (List RegVal)
  unfolding extract_regval selected
  extract_regvals_from i [] regmap s = some ([], s)
  extract_regvals_from i (v ∷ vs) regmap [] = some (v ∷ vs, [])
  extract_regvals_from i (v ∷ vs) regmap (b ∷ s) =
      let here : Reader RegVal = if selected regmap i then extract_regval else pure v in
      (do v' ← here; vs' ← extract_regvals_from (i + 1) vs regmap; pure (v' ∷ vs')) (b ∷ s)

  pub extract_regvals : List RegVal → Option (List ℕ) → Reader (List RegVal)
  unfolding extract_regvals_from
  extract_regvals values regmap = extract_regvals_from 0 values regmap
