-- ===== src/Lib.antt =====
-- The file system of memfs.cpp and wasmfs/: a model of the program, and theorems about it.
--
-- The program answers the WASI file calls of a WebAssembly module (memfs.cpp) from a file system in
-- the memory of the instance (wasmfs/). An export of memfs.cpp calls a `__wasi_*` or `__syscall_*`
-- function of wasmfs/syscalls.cpp. That resolves paths (wasmfs/paths.cpp) and descriptors
-- (wasmfs/file_table.cpp), and works on files and directories (wasmfs/file.h, wasmfs/file.cpp), whose
-- contents are kept by a backend, here the memory backend (wasmfs/memory_backend.h,
-- wasmfs/backends/memory_backend.cpp).
--
-- The files of the model:
--   Base        names of the libraries, Boolean tests, lists measured by native numbers, byte strings
--   Posix       the numbers of errors, flags and modes
--   Memory      DataFile: `MemoryDataFile::write`, `read`, `setSize` on a vector of bytes.
--               Entries: the vector of a `MemoryDirectory` and the dcache of a `Directory`
--   Store       the objects behind shared pointers, by ids: `File`, `OpenFileState`, pipes; the state
--               `Fs` of one instance; the monad `M` of calls, which end with a value, an error, a
--               fault (undefined behaviour or an abort), or cut off for lack of fuel
--   Files       the virtual functions of every class of data file (wasmfs/special_files.cpp,
--               wasmfs/pipe_backend.h), and the constructors of the memory backend
--   Directory   `Directory::Handle` of wasmfs/file.cpp, with the functions of `MemoryDirectory`
--   Table       `FileTable::Handle` and `OpenFileState::create`
--   Paths       `parseParent`, `parseFile`, `getFileAt` and `getFileFrom`
--   Syscalls    wasmfs/syscalls.cpp. Io: `writeAtOffset`, `readAtOffset`, close, sync, seek.
--               Descriptors: dup, fcntl, ioctl, pipe, poll. Open: `doOpen`, `doMkdir`.
--               Trees: unlink, unmount, rename, links. Listing: getdents, chdir, getcwd.
--               Metadata: stat, times, modes, access, truncation, statfs. Mapping: mmap, msync, and
--               the calls that are stubs
--   Instance    the constructors of `FileTable` and `WasmFS` (wasmfs/wasmfs.cpp). Preload: files
--               that the embedder preloads
--   Wasi        the exports of memfs.cpp
--   JsApi       wasmfs/js_api.cpp, the calls from JavaScript, and wasmfs/emscripten.cpp
--   Backends    Opfs and Node: wasmfs/backends/opfs_backend.cpp and node_backend.cpp. IgnoreCase:
--               wasmfs/backends/ignore_case_backend.cpp with wasmfs/virtual.h. JsImpl:
--               wasmfs/js_impl_backend.h, wasmfs/proxied_async_js_impl_backend.h and, in Fetch,
--               wasmfs/backends/fetch_backend.cpp
--   Shape       what calls keep of the tree of directories, by rules for each function of the model,
--               and sequences of calls from the start of an instance
--   Fuzzer      Random: wasmfs/fuzzer/random.cpp. ReadWrite: wasmfs/fuzzer/workload.cpp, the turns of
--               its threads. Runs: `Fuzzer::run` of wasmfs/fuzzer/fuzzer.cpp
--   Tests       a small state, and an application of each theorem that has hypotheses
--
-- Conventions. `size_t`, `int` and `ssize_t` are words of 32 bits, and `off_t` and
-- `__wasi_filesize_t` of 64; a negative number is its word, and sums wrap. A vector of bytes has at
-- most 2^31 - 1 elements. Asserts are not compiled in. A shared pointer is an id that is never used
-- again, and no object is freed; what the program does on the last release of an object is
-- written out where it has an effect. One effect is not: `getParent` locks a weak pointer (wasmfs/file.h),
-- so that after the last release of a directory that was removed or unmounted the program finds a null
-- parent at a child that something else still holds, where the model finds the directory. The descriptors
-- that the calls pass to `setEntry` are below 2^32 - 1, so `fd + 1` does not wrap there. `buffer[offset]`
-- converts a 64-bit offset to a 32-bit index, as in Memory.DataFile. The locks have no counterpart, since the instance runs one
-- thread. Times are whole milliseconds. The functions that the instance imports (`Host` in Store:
-- the clock, the standard streams, the source of random bytes) are parameters, numbered by calls
-- where their answers may differ.
--
-- Fuel. The loop that follows links has fuel 41, one more than the limit of 40 links in
-- wasmfs/paths.cpp, against which each link counts. The loops of getcwd and renameat up the tree
-- have the number of all files and one more as their fuel, as many as the directories on a path
-- without a cycle can be. So has the loop of `getPath`.
--
-- Backends over JavaScript. The calls of the JavaScript libraries are parameters, numbered like those
-- of the host. Their states log the handles that are opened and closed.
--
-- Sequences of calls. A sequence takes calls of WASI, of the C library, of JavaScript and on mappings,
-- with any arguments: the constructors of `Call` in Shape.Sequences. Of the calls that change the state
-- they leave out renameat, which may move a mount point (see the TODO in `insertMove` of
-- wasmfs/file.cpp), with `_wasmfs_rename`, and preloading.
--
-- Threads of the fuzzer. A schedule lists whose turn it is. A turn is what a thread does up to its next
-- access to something shared; a call on the file is one turn, since it holds the lock of the file. The
-- length of the sleep is the schedule's.
--
-- Not modelled: js_file_backend.cpp and noderawfs_root.cpp of wasmfs/backends, which register a
-- backend with JavaScript that is elsewhere; the threads behind `ProxyWorker` of wasmfs/thread_utils.h; of
-- wasmfs/js_api.cpp the call `_wasmfs_get_cwd`, which is a call of the C library, and those that map
-- memory through it; the main function of the fuzzer, and its parser of the command line, which is a copy
-- of another project's.
pub mod Base
pub mod Posix
pub mod Memory
pub mod Store
pub mod Files
pub mod Directory
pub mod Table
pub mod Paths
pub mod Syscalls
pub mod Instance
pub mod Wasi
pub mod JsApi
pub mod Backends
pub mod Shape
pub mod Fuzzer
pub mod Tests
