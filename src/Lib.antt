-- ===== src/Lib.antt =====
-- The native host of the profiler, ProfilerHost: the CLR loads it, it rewrites the code of
-- loaded modules so that hooks are called at the entry and the exits of methods, and it tells a
-- server of the methods that it hooked.
--
-- The parts, in the order of a process. dllmain.cpp and ClassFactory.cpp create a `CorProfiler`,
-- whose life its reference count decides (Com). `CorProfiler` answers the calls of the runtime;
-- when a module has loaded it has it instrumented (Profiler). An instrumenter reads the types
-- and methods from the module's metadata and chooses by the namespace of the configuration
-- (Module); it adds a bridge type whose bodies it writes byte by byte (Hook), registers each
-- method with `MetadataRegistry`, whose callback sends it to the server (Registry, Ipc), and has
-- `ILRewriter` put the hooks in (Rewriter). The instrumenters are written over the interfaces of
-- the runtime (Clr, Instrument); the static constructor of the bridge has the managed part
-- loaded (Injection).
--
-- The files and the code:
--   Rewriter/Opcode        ProfilerHost/ILRewriter.cpp, the two tables over `opcode.def`
--   Rewriter/Memory        `ILInstr`, `NewILInstr`, `InsertBefore`, `InsertAfter`, `AdjustState`
--   Rewriter/Probe         `AddProbe`, `AddEnterProbe`, `AddExitProbe`
--   Rewriter/Export, Body  `Export`, `AllocateILMemory`, `SetILFunctionBody`
--   Rewriter/Import        `ImportIL`, `GetInstrFromOffset`
--   Rewriter/Clause        `ImportEH` and the clauses of `Export`
--   Rewriter/Reimport      `Export`, and `ImportIL` of its output
--   Rewriter/Method        `Import`, `InjectEnterExitHooks`
--   Rewriter/Method/Stack  the evaluation stack that `AdjustState` counts for
--   Registry               ProfilerHost/MetadataRegistry.cpp
--   Text                   ProfilerHost/StringUtils.cpp
--   Module                 ProfilerHost/ModuleInstrumenter.cpp and the choice of types in
--                          ProfilerHost/TargetModuleInstrumenter.cpp
--   Hook                   the packed structures of the three instrumenters
--   Com                    ProfilerHost/CorProfiler.h, ClassFactory.cpp and dllmain.cpp
--   Profiler               ProfilerHost/CorProfiler.cpp
--   Clr                    the interfaces of the runtime, and the actions that call them
--   Instrument             ProfilerHost/ModuleInstrumenter.cpp, TargetModuleInstrumenter.cpp,
--                          MscorlibModuleInstrumenter.cpp, ProfilerCoreModuleInstrumenter.cpp,
--                          ModuleInstrumenterFactory.cpp and DebugILGenerator.cpp
--   Ipc                    ProfilerHost/IpcClient.cpp and ProfilingConfig.h
--   Injection              ProfilerHost/ProfilerCoreInjection.cpp
--   Text/ComError          ProfilerHost/ErrorUtils.cpp
--   Base                   shared names, lists, words and the runs of fallible code
--   Tests                  concrete parameters and inputs
--
-- State. The nodes of the instruction list are a store: each field is a map from addresses,
-- `m_IL` is the address 1, null is 0, and `new` gives the next address and does not return null.
-- The abstract list of cells is related to the store by `Represents`, and with both counters by
-- `Tracks`. Numbers are natural numbers with the wrap-around of their width written out. Runs
-- end with a value, a failing HRESULT (returned or thrown), a read through a null pointer, or a
-- lack of fuel. Assertions are those of a release build: they do nothing.
--
-- Fuel. The loop over the bytes takes a byte at least in each round, the loops over the list an
-- instruction, and each further try of `Export` has a short branch less; the walk over enclosing
-- classes ends with the outermost. The theorems give the numbers.
--
-- Parameters, with what the code relies on: `opcode.def` (OpcodeDef), `corhdr.h` (Corhdr,
-- NestedMasks, HookCodes, Cor), what the instructions do to the stack (Effects), the interface
-- identifiers, the profiling and metadata interfaces of the CLR (Clr), the server, the answers
-- of an application domain, and the callback.
--
-- Not modelled: gRPC, the logger, the freeing of memory, and the aliasing of the memory that a
-- body is written to. On several threads the registry alone is followed, and two `push_back` are
-- taken not to overlap. Members that an instrumenter sets once before it reads them are results
-- that are handed on. Failures that the source passes over, those of `GetNestedClassProps` and
-- `GetMethodProps` in the loops and those of a hooking, are no events. The managed programs and
-- the vendored headers are outside.
pub mod Base
pub mod Text
pub mod Rewriter
pub mod Registry
pub mod Module
pub mod Hook
pub mod Com
pub mod Profiler
pub mod Ipc
pub mod Clr
pub mod Instrument
pub mod Injection
pub mod Tests
