-- ===== src/Server/Cases.antt =====
-- rpc_server.cpp: the cases of `perform_request`, by what they are about.
pub mod Process
pub mod Threads
pub mod Memory
pub mod FileIo
