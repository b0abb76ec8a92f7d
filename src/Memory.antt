-- ===== src/Memory.antt =====
-- The in-memory backend, wasmfs/memory_backend.h and wasmfs/backends/memory_backend.cpp, as
-- functions on the vectors that it keeps: the bytes of a file and the entries of a directory.
pub mod DataFile
pub mod Entries
