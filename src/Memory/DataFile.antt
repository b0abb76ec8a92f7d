-- ===== src/Memory/DataFile.antt =====
-- `MemoryDataFile`: a `std::vector<uint8_t>` with `write`, `read` and `setSize`.
--
-- An `off_t` is the 64-bit word that holds it, so the values from 2^63 on are the negative ones. A
-- `size_t` has 32 bits. The sum `offset + len` is computed in `off_t`; its overflow is undefined
-- behaviour. The index of `buffer[offset]` is the offset modulo 2^32, of negative offsets too. A
-- `memcpy` that leaves the vector is undefined behaviour. Both give `out_of_bounds`. Memory that runs
-- out while a vector grows is not modelled.
pub mod Laws
pub mod Bounds
pub mod Chunks
use emscripten_memfswasm_wra.Base.{
  ℕ, ◌+◌, ◌-◌, ◌%◌, ◌^◌, List, [], ◌++◌, length, take, drop, replicate, ltb, leb, ◌==◌, ◌&&◌,
  if◌then◌else◌,
}
use emscripten_memfswasm_wra.Posix.{eio}

abbrev pub Bytes : Type 0
Bytes = List ℕ

-- The least negative `off_t`.
abbrev pub off_t_min : ℕ
off_t_min = 2 ^ 63

abbrev pub off_t_mod : ℕ
off_t_mod = 2 ^ 64

abbrev pub size_t_mod : ℕ
size_t_mod = 2 ^ 32

-- `std::vector<uint8_t>::max_size()` with 32-bit pointers.
abbrev pub max_size : ℕ
max_size = 2 ^ 31 - 1

-- `std::vector::resize`, which fills with zeros.
unfoldable pub resize : ℕ → Bytes → Bytes
resize n buffer = take n buffer ++ replicate (n - length buffer) 0

-- `memcpy(&buffer[offset], buf, len)` within the vector.
unfoldable pub overwrite : ℕ → Bytes → Bytes → Bytes
overwrite offset buf buffer = take offset buffer ++ (buf ++ drop (offset + length buf) buffer)

pub data Written : Type 0 where
  written : Bytes → Written
  refused : ℕ → Written
  out_of_bounds : Written

-- `memcpy(&buffer[index], buf, len)`, which does nothing for no bytes.
unfoldable pub copy_in : Bytes → ℕ → Bytes → Written
copy_in buf index buffer =
    if leb (index + length buf) (length buffer)
    then written (overwrite index buf buffer)
    else if length buf == 0
    then written buffer
    else out_of_bounds

-- `write` with the index that the offset is converted to and the sum of offset and length, or 0 for a
-- sum below zero.
unfoldable pub write_to : Bytes → ℕ → ℕ → Bytes → Written
unfolding copy_in
write_to buf index sum buffer =
    if ltb (length buffer) sum
    then (if ltb max_size sum then refused eio else copy_in buf index (resize sum buffer))
    else copy_in buf index buffer

unfoldable pub write : Bytes → ℕ → Bytes → Written
unfolding write_to copy_in
write buf offset buffer =
    if leb off_t_min offset
    then write_to buf (offset % size_t_mod) (length buf - (off_t_mod - offset)) buffer
    else if leb off_t_min (offset + length buf)
    then out_of_bounds
    else write_to buf (offset % size_t_mod) (offset + length buf) buffer

pub data Fetched : Type 0 where
  fetched : Bytes → Fetched
  out_of_bounds : Fetched

-- `memcpy(buf, &buffer[index], len)`
unfoldable pub copy_out : ℕ → ℕ → Bytes → Fetched
copy_out len index buffer =
    if leb (index + len) (length buffer)
    then fetched (take len (drop index buffer))
    else if len == 0
    then fetched []
    else out_of_bounds

-- The length that `read` copies at an offset that lies `back` below zero: its first test fails, and the
-- second holds if the sum of offset and length is not below the size of the vector.
abbrev pub len_before : ℕ → ℕ → Bytes → ℕ
len_before len back buffer =
    if leb back len && leb (length buffer) (len - back)
    then (length buffer + back) % size_t_mod
    else len

unfoldable pub read : ℕ → ℕ → Bytes → Fetched
unfolding copy_out
read len offset buffer =
    if leb off_t_min offset
    then copy_out (len_before len (off_t_mod - offset) buffer) (offset % size_t_mod) buffer
    else if leb (length buffer) offset
    then fetched []
    else if leb off_t_min (offset + len)
    then out_of_bounds
    else if leb (length buffer) (offset + len)
    then copy_out (length buffer - offset) (offset % size_t_mod) buffer
    else copy_out len (offset % size_t_mod) buffer

pub data Sized : Type 0 where
  sized : Bytes → Sized
  aborts : Sized

-- `setSize` hands its `off_t` to `resize`, which takes a `size_t`. Above `max_size` the vector's
-- length error aborts, since the build has no exceptions.
unfoldable pub set_size : ℕ → Bytes → Sized
set_size size buffer =
    if ltb max_size (size % size_t_mod) then aborts else sized (resize (size % size_t_mod) buffer)
