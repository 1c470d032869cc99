-- ===== src/Codec/Records.antt =====
-- rpc_hlp.cpp: the structures of idd.hpp that are sent field by field.
pub mod RoundTrip
pub mod Written
pub mod Sequence
pub mod Tables
pub mod Memory
use reverse_engineearing.Base.{
  ℕ, zero, suc, ◌+◌, ◌-◌, ◌*◌, ◌/◌, ◌%◌, ◌^◌, ◌≤◌, ◌<◌, bit_and, bit_or, ◌≡◌, refl, sym, ap, ◌∙◌,
  ◌≢◌, ◌↔◌, ◌⊎◌, inl, inr, Bool, true, false, not, ◌&&◌, ◌||◌, Option, none, some, List, [], ◌∷◌,
  ◌++◌, append_assoc, append-nil, arith, ltb, leb, ◌==◌, if◌then◌else◌, of_bool, ==_iff, Bool-cases,
  Option-cases, length, get_elem?, set, take, drop, replicate, All, length-append, length-take,
  length-drop, take-append-drop, take-length-append, drop-length-append, take_all, All-append,
}
use reverse_engineearing.Wire.{append_dd}
use reverse_engineearing.Codec.{
  Reader, pure, ◌>>=◌, append_str, extract_str, qstrncpy, append_ea64, extract_ea64, extract_long,
  extract_count, extract_list, append_list, add_words, sub_words,
}

-- `MAXSTR`: the size of the character arrays.
unfoldable pub max_str : ℕ
max_str = 1024

-- Strings are the bytes before their NUL.
pub record MemoryInfo : Type 0 where
  pub name : List ℕ
  pub sclass : List ℕ
  pub start_ea : ℕ
  pub end_ea : ℕ
  pub sbase : ℕ
  pub bitness : ℕ
  pub perm : ℕ

pub record ProcessInfo : Type 0 where
  pub pid : ℕ
  pub name : List ℕ

pub record ModuleInfo : Type 0 where
  pub name : List ℕ
  pub base : ℕ
  pub size : ℕ
  pub rebase_to : ℕ

pub record BreakpointInfo : Type 0 where
  pub hea : ℕ
  pub kea : ℕ

pub record ExceptionEvent : Type 0 where
  pub code : ℕ
  pub can_cont : Bool
  pub ea : ℕ
  pub info : List ℕ

pub record ExceptionInfo : Type 0 where
  pub code : ℕ
  pub flags : ℕ
  pub name : List ℕ
  pub desc : List ℕ

pub record CallStackInfo : Type 0 where
  pub callea : ℕ
  pub funcea : ℕ
  pub fp : ℕ
  pub funcok : Bool

pub record CallStack : Type 0 where
  pub dirty : Bool
  pub frames : List CallStackInfo

pub record DebappAttrs : Type 0 where
  pub addrsize : ℕ
  pub platform : List ℕ

-- The segment base in bytes, `sbase << 4`.
abbrev pub base_bytes : ℕ → ℕ
base_bytes sbase = sbase * 16 % 2 ^ 32

pub append_memory_info : List ℕ → MemoryInfo → List ℕ
append_memory_info s m =
    let s1 = append_ea64 s m.sbase in
    let s2 = append_ea64 s1 (sub_words m.start_ea (base_bytes m.sbase)) in
    let s3 = append_ea64 s2 (sub_words m.end_ea m.start_ea) in
    let s4 = append_dd s3 (bit_or m.perm (m.bitness * 16)) in
    let s5 = append_str s4 m.name in append_str s5 m.sclass

pub append_process_info : List ℕ → ProcessInfo → List ℕ
append_process_info s p = append_str (append_dd s p.pid) p.name

pub append_module_info : List ℕ → ModuleInfo → List ℕ
append_module_info s m =
    append_ea64 (append_ea64 (append_ea64 (append_str s m.name) m.base) m.size) m.rebase_to

pub append_breakpoint : List ℕ → BreakpointInfo → List ℕ
append_breakpoint s b = append_ea64 (append_ea64 s b.hea) b.kea

pub append_exception : List ℕ → ExceptionEvent → List ℕ
append_exception s e =
    append_str (append_ea64 (append_dd (append_dd s e.code) (of_bool e.can_cont)) e.ea) e.info

pub append_exception_entry : List ℕ → ExceptionInfo → List ℕ
append_exception_entry s e =
    append_str (append_str (append_dd (append_dd s e.code) e.flags) e.name) e.desc

-- The count is not written: it is sent apart.
pub append_exception_info : List ℕ → List ExceptionInfo → List ℕ
unfolding append_exception_entry
append_exception_info s table = append_list append_exception_entry s table

pub append_frame : List ℕ → CallStackInfo → List ℕ
append_frame s c =
    append_dd (append_ea64 (append_ea64 (append_ea64 s c.callea) c.funcea) c.fp) (of_bool c.funcok)

pub append_call_stack : List ℕ → CallStack → List ℕ
unfolding append_frame
append_call_stack s t = append_list append_frame (append_dd s (length t.frames)) t.frames

pub append_debapp_attrs : List ℕ → DebappAttrs → List ℕ
append_debapp_attrs s a = append_str (append_dd s a.addrsize) a.platform

pub extract_process_info : Reader ProcessInfo
extract_process_info = do
  pid ← extract_long
  name ← extract_str
  pure (record { pid = pid; name = qstrncpy max_str name })

pub extract_exception_entry : Reader ExceptionInfo
extract_exception_entry = do
  code ← extract_long
  flags ← extract_long
  name ← extract_str
  desc ← extract_str
  pure (record { code = code; flags = flags; name = name; desc = desc })

-- `qty` is the count that was sent apart; a count of zero or less gives no table.
pub extract_exception_info : ℕ → Reader (List ExceptionInfo)
unfolding extract_exception_entry
extract_exception_info qty s =
    if ltb qty 0x80000000 then extract_list qty extract_exception_entry s else some ([], s)

pub extract_debapp_attrs : Reader DebappAttrs
extract_debapp_attrs = do
  addrsize ← extract_long
  platform ← extract_str
  pure (record { addrsize = addrsize; platform = platform })

module _ (shl32 : ℕ → ℕ) where
  pub extract_memory_info : Reader MemoryInfo
  extract_memory_info = do
    sbase ← extract_ea64 shl32
    offset ← extract_ea64 shl32
    size ← extract_ea64 shl32
    v ← extract_long
    name ← extract_str
    sclass ← extract_str
    let start = add_words (base_bytes sbase) offset
    pure (record {
      name = name;
      sclass = sclass;
      start_ea = start;
      end_ea = add_words start size;
      sbase = sbase;
      bitness = v / 16 % 256;
      perm = v % 256;
    })

  pub extract_module_info : Reader ModuleInfo
  extract_module_info = do
    name ← extract_str
    base ← extract_ea64 shl32
    size ← extract_ea64 shl32
    rebase_to ← extract_ea64 shl32
    pure (record { name = qstrncpy max_str name; base = base; size = size; rebase_to = rebase_to })

  pub extract_breakpoint : Reader BreakpointInfo
  extract_breakpoint = do
    hea ← extract_ea64 shl32
    kea ← extract_ea64 shl32
    pure (record { hea = hea; kea = kea })

  pub extract_exception : Reader ExceptionEvent
  extract_exception = do
    code ← extract_long
    can_cont ← extract_long
    ea ← extract_ea64 shl32
    info ← extract_str
    pure (record {
      code = code;
      can_cont = not (can_cont == 0);
      ea = ea;
      info = qstrncpy max_str info;
    })

  pub extract_frame : Reader CallStackInfo
  extract_frame = do
    callea ← extract_ea64 shl32
    funcea ← extract_ea64 shl32
    fp ← extract_ea64 shl32
    funcok ← extract_long
    pure (record { callea = callea; funcea = funcea; fp = fp; funcok = not (funcok == 0) })

  pub extract_call_stack : Reader CallStack
  unfolding extract_frame
  extract_call_stack = do
    n ← extract_count
    frames ← extract_list n extract_frame
    pure (record { dirty = false; frames = frames })
