-- ===== src/Rewriter.antt =====
-- ProfilerHost/ILRewriter.cpp and ILRewriter.h.
pub mod Opcode
pub mod Memory
pub mod Probe
pub mod Export
pub mod Import
pub mod Corhdr
pub mod Clause
pub mod Body
pub mod Reimport
pub mod Method
