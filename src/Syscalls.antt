-- ===== src/Syscalls.antt =====
-- The calls of wasmfs/syscalls.cpp, by what they act on. A negative error result is a `fail` with
-- its number, and so is a positive error of the `__wasi_fd_*` calls.
pub mod Io
pub mod Descriptors
pub mod Open
pub mod Trees
pub mod Listing
pub mod Metadata
pub mod Mapping
