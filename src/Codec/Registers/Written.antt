-- ===== src/Codec/Registers/Written.antt =====
-- rpc_hlp.cpp: the writers of registers and of appcall arguments only ever add to a packet.
use reverse_engineearing.Base.{ℕ, ◌+◌, ◌%◌, ◌^◌, Bool, Option, List, [], ◌∷◌, length}
use reverse_engineearing.Codec.Extends.{
  Extends, Extends-dd, Extends-dq, Extends-memory, Extends-if, Extends-list,
}
use reverse_engineearing.Codec.Registers.{
  RegVal, int_val, float_val, custom_val, RegObj, append_regval, append_regvals,
  append_regvals_from, selected, append_regobjs,
}
use reverse_engineearing.Codec.Registers.RoundTrip.{append_regobj-append}

append_regval-Extends : {s t : List ℕ} (v : RegVal) → Extends s t → Extends s (append_regval t v)
unfolding append_regval
append_regval-Extends (int_val n) e = Extends-dq _ (Extends-dd 1 e)
append_regval-Extends (float_val f) e = Extends-memory f (Extends-dd 0 e)
append_regval-Extends (custom_val t b) e =
    Extends-memory b (Extends-dd (length b) (Extends-dd ((t + 2) % 2 ^ 32) e))

append_regvals_from-Extends :
    {s : List ℕ} (i : ℕ) (vs : List RegVal) (regmap : Option (List ℕ)) {t : List ℕ}
    → Extends s t
    → Extends s (append_regvals_from i t vs regmap)
unfolding append_regvals_from
append_regvals_from-Extends i [] regmap e = e
append_regvals_from-Extends i (v ∷ vs) regmap e =
    append_regvals_from-Extends (i + 1) vs regmap
      (Extends-if (selected regmap i) (append_regval-Extends v e) e)

pub append_regvals-Extends :
    {s t : List ℕ} (vs : List RegVal) (regmap : Option (List ℕ))
    → Extends s t
    → Extends s (append_regvals t vs regmap)
unfolding append_regvals
append_regvals-Extends vs regmap e = append_regvals_from-Extends 0 vs regmap e

pub append_regobjs-Extends :
    {s t : List ℕ} (with_values : Bool) (objs : List RegObj)
    → Extends s t
    → Extends s (append_regobjs with_values t objs)
unfolding append_regobjs
append_regobjs-Extends with_values objs e =
    Extends-list (append_regobj-append with_values) objs (Extends-dd (length objs) e)
