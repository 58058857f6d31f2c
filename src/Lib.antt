-- ===== src/Lib.antt =====
-- Irida: the core of a debugger and static analyser, irida-core, and a part of its interface.
--
-- The program attaches to a guest through a backend. The gdb backend speaks the remote serial
-- protocol over TCP to a stub; the native backend uses the host's debug interface. `Target` sits on
-- any backend, decodes the registers at each stop, counts the stops as epochs, and serves memory
-- through a cache of pages that lives for one epoch. Apart from that, the analyser finds functions and
-- basic blocks by recursive descent over a disassembler and a reader of bytes.
--
-- The files, and the code they model:
--   Base             libs/base: Result and Bytes; Base.Action is a member function that may fail, as a
--                    function from the object to a result and the object.
--   Proto.Hex        irida-core/libs/protocol/src/hex.cpp: hex_encode, hex_decode.
--   Proto.Frame      irida-core/libs/protocol/src/frame.cpp: checksum, frame, and FrameDecoder, whose
--                    state is its buffer; next_payload is split at its early returns.
--   Proto.Packets    irida-core/libs/protocol/src/packets.cpp: requests (Requests), their numbers
--                    (Numbers), and parse_stop_reply (StopReply).
--   Transport        irida-core/core/transport/src/gdb_client.cpp: GdbClient over a socket, the record
--                    Socket, which stands for libs/host's TcpClient.
--   Backend          irida-core/core/backend: types.hpp and the interface of backend.hpp; Backend.Gdb is
--                    gdb_backend.cpp, Backend.Native is native_backend.cpp over the record Debuggee,
--                    which stands for libs/host's NativeDebuggee; Backend.Unsupported is what
--                    native_backend_factory.cpp makes on another platform than Windows.
--   Target           irida-core/core/target: target.cpp and guest_state.cpp; RegisterSet is
--                    register_set.cpp and MemoryCache is memory_cache.cpp.
--   Disasm           irida-core/core/disasm: the instruction types, and decode_linear over decode_one;
--                    Zydis is the rest of zydis_disassembler.cpp, over a record of the calls of Zydis.
--   Analysis         irida-core/core/analysis/src/analysis.cpp: Builder is FunctionBuilder, Analyzer is
--                    the work loop over functions.
--   Asm              irida-ui/gui/src/theme/asm_tokenizer.cpp: tokenize.
--   Binfmt           irida-core/core/binfmt/src/strings.cpp: scan_strings.
--   Binfmt.Binary    irida-core/core/binfmt/include/irida/binfmt/binary.hpp: a parsed executable.
--   Binfmt.Lief      irida-core/core/binfmt/src/lief_parser.cpp, over what LIEF parsed of a file.
--   Api              irida-api/include/irida/irida.h: the structures of the C interface and the vtable
--                    behind a session; Dispatch is irida-api/src/capi.cpp, Static is capi_static.cpp,
--                    Core is capi_target.cpp, and Views holds what the last two both have. Calls is a
--                    sequence of calls on one session, over any vtable.
--   Windows          irida-core/libs/host/src/native_debuggee.cpp over a record of the Windows calls that it
--                    makes: Context is the register block and the debug registers, Debuggee the events,
--                    registers and memory, Queries the maps, modules and threads. Queries.native_debuggee
--                    fills the record Debuggee of the native backend. Memory and Pages are about the
--                    process's memory behind the facade, as the breakpoints and the cache use it.
--   Mock             irida-ui/mock/src/mock_backend.cpp: the scripted state and its vtable.
--   Common           lists, options, maps, numbers and characters, which the parts share.
--
-- A std::string and a byte buffer are lists of codes, a std::map is an association list, and a member
-- of a class is a field of a record that the operations pass on. Numbers are natural numbers; where the
-- source's width shows, the wrap-around is written out (% 2 ^ 64).
--
-- Loops and fuel. The loop of transact has 64 attempts in the source, and the fuel is the attempts
-- left. MemoryCache.read has its length as fuel, since a round takes a byte at least; the loops over a
-- reply's pairs and over a line of assembly, and the passes of scan_strings,
-- have the length of their text or buffer. changed_since_last_epoch,
-- the draining of events in attach, the walk over the regions of memory, and the loops of the analysis
-- have no bound of their own in the source: their models return none when the fuel runs out. Analysis.Analyzer.Finite
-- is about the fuel that an image of bounded size asks for. A reader of bytes passes on the state that
-- it changes, so that the analysis runs over a file or over a target with its cache.
--
-- Not modelled: the body of the TCP client and the Windows calls (the operating system), Zydis and
-- LIEF themselves, the widgets, the command line and the log. Of the sessions, the vectors that back the borrowed arrays and the calls that
-- only free memory are left out: a listing is its rows.
pub mod Common
pub mod Base
pub mod Proto
pub mod Transport
pub mod Backend
pub mod Target
pub mod Disasm
pub mod Analysis
pub mod Asm
pub mod Binfmt
pub mod Windows
pub mod Api
pub mod Mock
