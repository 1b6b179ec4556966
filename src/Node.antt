-- ===== src/Node.antt =====
-- The node (blockchain/node/src): its command line, the chains that it knows, its service, and
-- the extrinsics of its benchmarks.
pub mod Benchmarking
pub mod ChainSpec
pub mod Trace
pub mod Service
pub mod Rpc
pub mod Command
pub mod Executor
pub mod Main
