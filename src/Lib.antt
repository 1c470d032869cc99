-- ===== src/Lib.antt =====
-- Verification of the Android debugger server of Reverse-Engineearing, android_server6.8-src/jni: a server
-- that runs beside a debugged Linux process and is driven by a debugger client over a byte stream.
--
-- The program's parts and their files (the paths are below android_server6.8-src/jni):
-- * kernwin.cpp, the packed numbers of the protocol (pack_dd, unpack_dd, append_dq and others): Wire.
--   A pointer into a packet is the list of bytes from there on; a reader returns its value with the rest.
-- * rpc_hlp.h and rpc_hlp.cpp, the fields and the structures in packets: Codec, with Codec/Records for the
--   structures, Codec/Event for debug events, Codec/Registers for registers and
--   appcalls, and Codec/Names for the names of the packet codes. The structures
--   of idd.hpp are records with the same fields; a character array is the bytes before its NUL. A reader
--   that fails a QASSERT returns none.
-- * rpc_engine.cpp, the connection: Engine (send_request, recv_all, recv_request), Engine/Process
--   (process_request, process_long, and dvmsg of rpc_server.cpp) and Engine/Ioctl (send_ioctl,
--   handle_ioctl_packet). The transport, the allocator and the virtual functions poll_events and
--   perform_request are the record Host, over a state W of their own.
-- * debmod.cpp, debmod.h, pc_debmod.cpp, arm_debmod.cpp and linux_debmod.cpp, the debugger module:
--   Debmod/PageBpts (find_page_bpt, del_page_bpt), Debmod/UpdateBpts (dbg_update_bpts, with the functions of
--   linux_debmod.cpp that add and delete one breakpoint in UpdateBpts/Linux), Debmod/HwBpts (the debug
--   registers of the PC and of xScale processors), Debmod/Signals (the signals that wait),
--   Debmod/EventQueue, and Debmod/RegNames (get_regidx).
-- * linux_debmod.cpp and linux_threads.cpp, the threads of the process: Debmod/Threads (the session's state,
--   store_pending_signal, dead_thread, del_thread), with Threads/Freeze (dbg_freeze_threads), Threads/Thaw
--   (dbg_thaw_threads), Threads/Control (dbg_continue_after_event and the other requests on threads, with
--   dbg_exit_process in Control/Killing),
--   Threads/Arrival (check_for_new_events, handle_extended_wait), Threads/Traps and Threads/Poll
--   (get_debug_event, dbg_get_debug_event). The kernel's answers about a thread and the signals that arrive are
--   parameters, the requests made to it a list in the state. The other sessions of the server, which are asked
--   whose thread a signal belongs to, are lists before and after this one. What the libraries and the thread
--   library's messages bring is the record Neighbours.
-- * linux_debmod.cpp, the memory of the process: Debmod/Memory (_read_memory and _write_memory, word by word),
--   with Memory/Bytes and Memory/Words on what it holds, and UpdateBpts/Linux/OnWords, where the breakpoints are
--   put into this memory. PTRACE_PEEKTEXT and PTRACE_POKETEXT are the record Ptrace, and the freeze around an access
--   is left to Debmod/Threads.
-- * rpc_server.cpp, the requests of the client: Server (rpc_update_bpts, and the channels of open files),
--   Server/Interface (the virtual functions of debmod_t as a record, and the state of rpc_server_t),
--   Server/Cases (a function for each case of perform_request, in Process, Threads, Memory and FileIo) and
--   Server/Dispatch (perform_request itself). A case returns none where the source fails a QASSERT or its
--   behaviour is undefined. Dispatch/Reply and Dispatch/Polling are about the reply of every
--   case, and Dispatch/Calls about calls that a client makes through packets.
-- * rpc_server.cpp, the requests of the server: Server/Polls (poll_events, rpc_sync_stub, report_idc_error,
--   send_debug_event_to_ida), Server/DebugNames (send_debug_names_to_ida) and Server/Broken
--   (check_broken_connection).
-- Beside the server, 专用地址转换器/专用地址转换器Dlg.cpp, a dialog that turns download addresses into their special
-- forms: Converter (translate1 and translate2, assembly on registers and bytes) and Converter/Addresses (the
-- handlers of the address fields).
-- How they interact: the module's events and the client's requests cross the wire through Codec, whose
-- numbers are those of Wire; Engine moves the packets, and while it waits for a reply it serves the requests
-- of the other side.
--
-- Machine integers: a 32-bit word is a natural number below 2^32, with the wrap-around written out; an int is
-- its 32-bit pattern. ea_t has 32 bits. Undefined behaviour of the source is a parameter: shl32 is what the
-- target does for a 32-bit word shifted left by 32.
--
-- Fuel: send_request takes one round for each call of irs_send, recv_all one for each call of irs_recv or
-- poll_events, and process_request one for each packet that it handles; none is returned only when the
-- fuel ran out. The theorems on sending and receiving give bounds that suffice: one more than the bytes
-- to move, since every call moves at least one.
-- send_debug_names_to_ida takes a round for each packet, and as many rounds as there are names.
--
-- The loops on signals recur on the list of those that arrive, or take one round more than it has: each round
-- takes at least one. They answer `waits` where the list is too short.
--
-- The functions of the debugger module are taken to perform no request of the client before they are over, but for
-- send_debug_names_to_ida, which may change the session of the server.
--
-- Not modelled: the rest of linux_debmod.cpp (the memory map, registers, libraries, starting and attaching), the symbol and ELF
-- readers, the file and string helpers of pro.cpp, and the other programs of the repository, which work
-- on windows, handles and drivers of the operating system. Of the engine,
-- the debugging output and the timeouts are left out.
--
-- `Examples` modules hold the tests: each theorem with hypotheses at a concrete input.
pub mod Base
pub mod Wire
pub mod Codec
pub mod Engine
pub mod Debmod
pub mod Server
pub mod Converter
