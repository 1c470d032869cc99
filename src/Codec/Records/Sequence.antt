-- ===== src/Codec/Records/Sequence.antt =====
-- rpc_hlp.cpp: structures that follow one another in a packet, as the requests and the replies of a session hold
-- them.
use reverse_engineearing.Base.{ℕ, ◌+◌, ◌*◌, refl, false, List, [], ◌∷◌, length, All}
use reverse_engineearing.Wire.RoundTrip.{IsShort}
use reverse_engineearing.Codec.{Reader, pure, ◌>>=◌}
use reverse_engineearing.Codec.Fields.{Reads, Reads->>=, IsText, items_bytes}
use reverse_engineearing.Codec.Records.{
  ProcessInfo, ModuleInfo, MemoryInfo, BreakpointInfo, ExceptionEvent, ExceptionInfo, CallStack,
  DebappAttrs, append_process_info, append_module_info, append_memory_info, append_breakpoint,
  append_exception, append_exception_info, append_call_stack, append_debapp_attrs,
  extract_process_info, extract_module_info, extract_memory_info, extract_breakpoint,
  extract_exception, extract_exception_info, extract_call_stack, extract_debapp_attrs,
}
use reverse_engineearing.Codec.Records.RoundTrip.{
  IsWireProcess, IsWireModule, IsWireBreakpoint, IsWireException, extract_process_info-append,
  extract_module_info-append, extract_breakpoint-append, extract_exception-append,
}
use reverse_engineearing.Codec.Records.Memory.{
  IsWireMemory, extract_memory_info-append, extract_debapp_attrs-append,
}
use reverse_engineearing.Codec.Records.Tables.{
  IsWireEntry, IsWireFrame, extract_exception_info-append, extract_call_stack-append,
}

pub data Structure : Type 0 where
  process : ProcessInfo → Structure
  library : ModuleInfo → Structure
  area : MemoryInfo → Structure
  bpt : BreakpointInfo → Structure
  exc : ExceptionEvent → Structure
  table : List ExceptionInfo → Structure
  trace : CallStack → Structure
  attrs : DebappAttrs → Structure

pub append_structure : List ℕ → Structure → List ℕ
append_structure s (process x) = append_process_info s x
append_structure s (library x) = append_module_info s x
append_structure s (area x) = append_memory_info s x
append_structure s (bpt x) = append_breakpoint s x
append_structure s (exc x) = append_exception s x
append_structure s (table x) = append_exception_info s x
append_structure s (trace x) = append_call_stack s x
append_structure s (attrs x) = append_debapp_attrs s x

-- What a structure comes back as.
pub received : Structure → Structure
received (area x) = area (record x { perm = x.perm + 16 * x.bitness })
received (trace x) = trace (record x { dirty = false })
received x = x

pub received_all : List Structure → List Structure
unfolding received
received_all [] = []
received_all (x ∷ xs) = received x ∷ received_all xs

module _ (shl32 : ℕ → ℕ) where
  -- The reader of a structure's kind; the count of a table was sent apart.
  extract_like : Structure → Reader Structure
  extract_like (process x) = do y ← extract_process_info; pure (process y)
  extract_like (library x) = do y ← extract_module_info shl32; pure (library y)
  extract_like (area x) = do y ← extract_memory_info shl32; pure (area y)
  extract_like (bpt x) = do y ← extract_breakpoint shl32; pure (bpt y)
  extract_like (exc x) = do y ← extract_exception shl32; pure (exc y)
  extract_like (table x) = do y ← extract_exception_info (length x); pure (table y)
  extract_like (trace x) = do y ← extract_call_stack shl32; pure (trace y)
  extract_like (attrs x) = do y ← extract_debapp_attrs; pure (attrs y)

  pub extract_all : List Structure → Reader (List Structure)
  unfolding extract_like
  extract_all [] = pure []
  extract_all (x ∷ xs) = do y ← extract_like x; ys ← extract_all xs; pure (y ∷ ys)

  unfoldable pub IsWireStructure : Structure → Type 0
  IsWireStructure (process x) = IsWireProcess x
  IsWireStructure (library x) = IsWireModule shl32 x
  IsWireStructure (area x) = IsWireMemory shl32 x
  IsWireStructure (bpt x) = IsWireBreakpoint shl32 x
  IsWireStructure (exc x) = IsWireException shl32 x
  IsWireStructure (table x) = All IsWireEntry x × IsShort (length x)
  IsWireStructure (trace x) = All (IsWireFrame shl32) x.frames × IsShort (length x.frames)
  IsWireStructure (attrs x) = IsShort x.addrsize × IsText x.platform

  -- A structure is read by its reader, and what it gives is named.
  named :
      {A : Type 0} (m : Reader A) (bs : List ℕ) (a : A) (f : A → Structure)
      → Reads m bs a
      → Reads (m >>= (λ y. pure (f y))) bs (f a)
  named m bs a f law rest = rw (law rest, ◌>>=◌)

  extract_like-Reads :
      (x : Structure)
      → IsWireStructure x
      → Reads (extract_like x) (append_structure [] x) (received x)
  unfolding extract_like append_structure received IsWireStructure
  extract_like-Reads (process x) h =
      named extract_process_info (append_process_info [] x) x process
        (extract_process_info-append x h)
  extract_like-Reads (library x) h =
      named (extract_module_info shl32) (append_module_info [] x) x library
        (extract_module_info-append shl32 x h)
  extract_like-Reads (area x) h =
      named (extract_memory_info shl32) (append_memory_info [] x) _ area
        (extract_memory_info-append shl32 x h)
  extract_like-Reads (bpt x) h =
      named (extract_breakpoint shl32) (append_breakpoint [] x) x bpt
        (extract_breakpoint-append shl32 x h)
  extract_like-Reads (exc x) h =
      named (extract_exception shl32) (append_exception [] x) x exc
        (extract_exception-append shl32 x h)
  extract_like-Reads (table x) h =
      named (extract_exception_info (length x)) (append_exception_info [] x) x table
        (extract_exception_info-append x h.0 h.1)
  extract_like-Reads (trace x) h =
      named (extract_call_stack shl32) (append_call_stack [] x) _ trace
        (extract_call_stack-append shl32 x h.0 h.1)
  extract_like-Reads (attrs x) h =
      named extract_debapp_attrs (append_debapp_attrs [] x) x attrs
        (extract_debapp_attrs-append x h.0 h.1)

-- Structures one behind another in a packet come back in order, each by its own reader: processes, modules,
-- breakpoints, exceptions, exception tables and process attributes as they were, memory areas with the bitness
-- in the upper bits of the permissions, and call stacks not dirty. Each is one that comes across the wire.
pub extract_all-append :
    (shl32 : ℕ → ℕ) (xs : List Structure)
    → All (IsWireStructure shl32) xs
    → Reads (extract_all shl32 xs) (items_bytes append_structure xs) (received_all xs)
unfolding extract_all received_all items_bytes
extract_all-append shl32 [] h rest = refl
extract_all-append shl32 (x ∷ xs) h rest0 =
    Reads->>= (extract_like shl32 x) (append_structure [] x) (received x)
      (extract_like-Reads shl32 x h.0) _ (items_bytes append_structure xs)
      (received x ∷ received_all xs) (λ rest. rw (extract_all-append shl32 xs h.1 rest, ◌>>=◌))
      rest0
