-- ===== src/Raft.antt =====
-- src/raft.h, src/raft.c: one node of the consensus protocol.
pub mod Types
pub mod Log
pub mod Commit
pub mod Send
pub mod Elect
pub mod Follow
pub mod Lead
pub mod Recv
pub mod Frame
pub mod Advance
pub mod Applied
pub mod Votes
pub mod Terms
pub mod Matching
pub mod Append
pub mod Batch
pub mod Compact
pub mod Quorum
pub mod Reads
pub mod Bounds
pub mod Order
pub mod Upkeep
pub mod Steps
