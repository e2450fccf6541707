-- ===== src/Module.antt =====
-- ProfilerHost/ModuleInstrumenter.cpp: what the instrumenters read from a module's metadata.
pub mod Enumerate
pub mod Namespace
pub mod Select
pub mod Failing
