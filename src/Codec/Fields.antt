-- ===== src/Codec/Fields.antt =====
-- The fields of a packet: what each writer appends, and what the reader makes of it.
use reverse_engineearing.Base.{
  ℕ, zero, suc, ◌+◌, ◌-◌, ◌*◌, ◌/◌, ◌%◌, ◌^◌, ◌≤◌, ◌<◌, bit_and, bit_or, ◌≡◌, refl, sym, ap, ◌∙◌,
  ◌≢◌, ◌↔◌, ◌⊎◌, inl, inr, Bool, true, false, not, ◌&&◌, ◌||◌, Option, none, some, List, [], ◌∷◌,
  ◌++◌, append_assoc, append-nil, arith, ltb, leb, ◌==◌, if◌then◌else◌, of_bool, ==_iff, Bool-cases,
  Option-cases, length, get_elem?, set, take, drop, replicate, All, length-append, length-take,
  length-drop, take-append-drop, take-length-append, drop-length-append, take_all, All-append,
}
use reverse_engineearing.Wire.{pack_dd}
use reverse_engineearing.Wire.Mask.{or_zero_left}
use reverse_engineearing.Wire.Format.{
  IsU32, pack_dd_format, append_dd-append, append_dq-append, dq_bytes,
}
use reverse_engineearing.Wire.RoundTrip.{IsShort, unpack-dd_bytes, unpack-dq_bytes}
use reverse_engineearing.Codec.{
  Reader, ◌>>=◌, c_str, append_str, extract_str, append_memory, extract_memory, append_ea64,
  extract_ea64, extract_long, extract_count, extract_list, append_list, badaddr,
}

-- `m` takes `bs` for `a` and stops behind it.
abbrev pub Reads : {A : Type 0} → Reader A → List ℕ → A → Type 0
Reads m bs a = (rest : List ℕ) → m (bs ++ rest) ≡ some (a, rest)

-- A reader in two steps takes two parts, one behind the other.
pub Reads->>= :
    {A B : Type 0} (m : Reader A) (bs : List ℕ) (a : A)
    → Reads m bs a
    → (f : A → Reader B) (cs : List ℕ) (b : B) → Reads (f a) cs b
    → Reads (m >>= f) (bs ++ cs) b
Reads->>= m bs a hm f cs b hf rest = rw (append_assoc bs cs rest, hm (cs ++ rest), ◌>>=◌) (hf rest)

-- A string with no NUL inside.
abbrev pub IsText : List ℕ → Type 0
IsText = All (λ b. 0 < b)

unfoldable pub ea_bytes : ℕ → List ℕ
ea_bytes ea = dq_bytes ((ea + 1) % 2 ^ 64)

unfoldable pub str_bytes : List ℕ → List ℕ
str_bytes str = c_str str ++ 0 ∷ []

pub append_ea64-append : (s : List ℕ) (ea : ℕ) → append_ea64 s ea ≡ s ++ ea_bytes ea
unfolding append_ea64 ea_bytes
append_ea64-append s ea = append_dq-append s ((ea + 1) % 2 ^ 64)

pub append_str-append : (s str : List ℕ) → append_str s str ≡ s ++ str_bytes str
unfolding append_str str_bytes
append_str-append s str = refl

pub append_memory-append : (s buf : List ℕ) → append_memory s buf ≡ s ++ buf
unfolding append_memory
append_memory-append s buf = refl

pub c_str_text : (str : List ℕ) → IsText str → c_str str ≡ str
unfolding c_str
c_str_text [] h = refl
c_str_text (zero ∷ bs) h = absurd (omega arith)
c_str_text (suc b ∷ bs) h = ap (◌∷◌ (suc b)) (c_str_text bs h.1)

pub length-c_str : (s : List ℕ) → length (c_str s) ≤ length s
unfolding c_str
length-c_str [] = omega arith
length-c_str (zero ∷ s) = omega arith
length-c_str (suc c ∷ s) = let ih = length-c_str s in omega arith

pub extract_long-Reads : (x : ℕ) → IsShort x → Reads extract_long (pack_dd 5 x) x
unfolding extract_long
extract_long-Reads x h rest =
    rw (pack_dd_format x (omega arith)) (ap some (unpack-dd_bytes x rest h))

pub extract_count-Reads : (x : ℕ) → IsShort x → Reads extract_count (pack_dd 5 x) x
unfolding extract_count
extract_count-Reads x h rest =
    rw (pack_dd_format x (omega arith), unpack-dd_bytes x rest h) (ground arith)

extract_str_raw :
    (str rest : List ℕ) → extract_str (c_str str ++ (0 ∷ rest)) ≡ some (c_str str, rest)
unfolding extract_str c_str
extract_str_raw [] rest = refl
extract_str_raw (zero ∷ bs) rest = refl
extract_str_raw (suc b ∷ bs) rest = rw (extract_str_raw bs rest)

pub extract_str-Reads : (str : List ℕ) → Reads extract_str (str_bytes str) (c_str str)
unfolding str_bytes
extract_str-Reads str rest = rw (append_assoc (c_str str) (0 ∷ []) rest) (extract_str_raw str rest)

-- What was appended with its own length is extracted whole.
pub extract_memory-Reads : (buf : List ℕ) → Reads (extract_memory (length buf)) buf buf
unfolding extract_memory
extract_memory-Reads buf rest =
    rw (take-length-append buf rest, drop-length-append buf rest)
      (ground (arith, length-append buf rest))

-- The addresses that cross the wire: those below 2^14 - 1 on every target that shifts zero to zero,
-- and BADADDR on a target that shifts one out of the word.
abbrev pub IsWireEa : (ℕ → ℕ) → ℕ → Type 0
IsWireEa shl32 ea = ((ea + 1 < 0x4000) × (shl32 0 ≡ 0)) ⊎ ((ea ≡ badaddr) × (shl32 1 % 2 ^ 32 ≡ 0))

pub IsWireEa-IsU32 : (shl32 : ℕ → ℕ) (ea : ℕ) → IsWireEa shl32 ea → IsU32 ea
IsWireEa-IsU32 shl32 ea (inl (h, z)) = omega arith
IsWireEa-IsU32 shl32 ea (inr (h, z)) = omega arith

extract_ea64_small :
    (shl32 : ℕ → ℕ) (ea : ℕ)
    → ea + 1 < 0x4000
    → shl32 0 ≡ 0
    → Reads (extract_ea64 shl32) (ea_bytes ea) ea
unfolding extract_ea64 ea_bytes
extract_ea64_small shl32 ea h z rest =
    let e : (ea + 1) % 2 ^ 64 ≡ ea + 1 = omega arith in
    rw (e, unpack-dq_bytes shl32 (ea + 1) rest (omega arith) (omega arith))
      (ground (arith, or_zero_left (ea + 1) h, z))

extract_ea64_bad :
    (shl32 : ℕ → ℕ) → shl32 1 % 2 ^ 32 ≡ 0 → Reads (extract_ea64 shl32) (ea_bytes badaddr) badaddr
unfolding extract_ea64 ea_bytes
extract_ea64_bad shl32 z rest =
    rw (unpack-dq_bytes shl32 (badaddr + 1) rest (omega arith) (omega arith), z) refl

pub extract_ea64-Reads :
    (shl32 : ℕ → ℕ) (ea : ℕ) → IsWireEa shl32 ea → Reads (extract_ea64 shl32) (ea_bytes ea) ea
extract_ea64-Reads shl32 ea (inl (h, z)) = extract_ea64_small shl32 ea h z
extract_ea64-Reads shl32 ea (inr (h, z)) = rw h (extract_ea64_bad shl32 z)

-- One element behind the other.
unfoldable pub items_bytes : {A : Type 0} → (List ℕ → A → List ℕ) → List A → List ℕ
items_bytes item [] = []
items_bytes item (x ∷ xs) = item [] x ++ items_bytes item xs

-- A writer that only appends.
abbrev pub Appends : {A : Type 0} → (List ℕ → A → List ℕ) → Type 0
Appends {A} item = (s : List ℕ) (x : A) → item s x ≡ s ++ item [] x

pub append_list-append :
    {A : Type 0} (item : List ℕ → A → List ℕ)
    → Appends item
    → (s : List ℕ) (xs : List A) → append_list item s xs ≡ s ++ items_bytes item xs
unfolding append_list items_bytes
append_list-append item law s [] = sym (append-nil s)
append_list-append item law s (x ∷ xs) =
    append_list-append item law (item s x) xs
    ∙ rw (law s x) (append_assoc s (item [] x) (items_bytes item xs))

pub extract_list-Reads :
    {A : Type 0} (P : A → Type 0) (item : Reader A) (write : List ℕ → A → List ℕ)
    → ((x : A) → P x → Reads item (write [] x) x)
    → (xs : List A) → All P xs
    → Reads (extract_list (length xs) item) (items_bytes write xs) xs
unfolding extract_list items_bytes
extract_list-Reads P item write law [] h rest = refl
extract_list-Reads P item write law (x ∷ xs) h rest0 =
    Reads->>= item (write [] x) x (law x h.0) _ (items_bytes write xs) (x ∷ xs)
      (λ rest. rw (extract_list-Reads P item write law xs h.1 rest, ◌>>=◌)) rest0

pub ruleset appended = (append_str-append, append_dd-append, append_ea64-append, append_assoc)
