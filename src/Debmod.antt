-- ===== src/Debmod.antt =====
-- debmod.cpp and the platform modules: the debugger side of the server.
pub mod RegNames
pub mod Examples
pub mod PageBpts
pub mod UpdateBpts
pub mod HwBpts
pub mod Signals
pub mod EventQueue
pub mod Memory
pub mod Threads
