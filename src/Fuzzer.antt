-- ===== src/Fuzzer.antt =====
-- The fuzzer in wasmfs/fuzzer: random data, and the workload of writers and readers of one file. Its
-- parser of the command line is a copy of another project's.
pub mod Random
pub mod ReadWrite
pub mod Runs
