-- ===== src/Posix.antt =====
-- The constants that wasmfs/syscalls.cpp takes from the C library's headers (errno.h, fcntl.h,
-- sys/stat.h, unistd.h, as Emscripten ships them), and the tests on flag words.
--
-- An error is its number. In Emscripten the numbers of errno.h are those of the WASI
-- `__wasi_errno_t`, so `EBADF` and `__WASI_ERRNO_BADF` are one constant here.
use emscripten_memfswasm_wra.Base.{ℕ, ◌==◌, Bool, not, bit_and}

abbrev pub eacces : ℕ
eacces = 2

abbrev pub ebadf : ℕ
ebadf = 8

abbrev pub ebusy : ℕ
ebusy = 10

abbrev pub eexist : ℕ
eexist = 20

abbrev pub efault : ℕ
efault = 21

abbrev pub efbig : ℕ
efbig = 22

abbrev pub einval : ℕ
einval = 28

abbrev pub eio : ℕ
eio = 29

abbrev pub eisdir : ℕ
eisdir = 31

abbrev pub eloop : ℕ
eloop = 32

abbrev pub enametoolong : ℕ
enametoolong = 37

abbrev pub enodev : ℕ
enodev = 43

abbrev pub enoent : ℕ
enoent = 44

abbrev pub enomem : ℕ
enomem = 48

abbrev pub enosys : ℕ
enosys = 52

abbrev pub enotdir : ℕ
enotdir = 54

abbrev pub enotempty : ℕ
enotempty = 55

abbrev pub enotty : ℕ
enotty = 59

abbrev pub eperm : ℕ
eperm = 63

abbrev pub erange : ℕ
erange = 68

abbrev pub espipe : ℕ
espipe = 70

abbrev pub exdev : ℕ
exdev = 75

-- Flags of open.
abbrev pub o_rdonly : ℕ
o_rdonly = 0

abbrev pub o_wronly : ℕ
o_wronly = 1

abbrev pub o_rdwr : ℕ
o_rdwr = 2

abbrev pub o_creat : ℕ
o_creat = 0o100

abbrev pub o_excl : ℕ
o_excl = 0o200

abbrev pub o_trunc : ℕ
o_trunc = 0o1000

abbrev pub o_append : ℕ
o_append = 0o2000

abbrev pub o_directory : ℕ
o_directory = 0o200000

abbrev pub o_nofollow : ℕ
o_nofollow = 0o400000

-- `03 | O_SEARCH`
abbrev pub o_accmode : ℕ
o_accmode = 0o10000003

-- Flags of the `*at` calls. `AT_FDCWD` is -100 as a 32-bit word, since `__wasi_fd_t` is unsigned.
abbrev pub at_fdcwd : ℕ
at_fdcwd = 4294967196

abbrev pub at_symlink_nofollow : ℕ
at_symlink_nofollow = 0x100

abbrev pub at_removedir : ℕ
at_removedir = 0x200

abbrev pub at_no_automount : ℕ
at_no_automount = 0x800

abbrev pub at_empty_path : ℕ
at_empty_path = 0x1000

-- File types and permission bits.
abbrev pub s_ifmt : ℕ
s_ifmt = 0o170000

abbrev pub s_ififo : ℕ
s_ififo = 0o10000

abbrev pub s_ifchr : ℕ
s_ifchr = 0o20000

abbrev pub s_ifdir : ℕ
s_ifdir = 0o40000

abbrev pub s_ifreg : ℕ
s_ifreg = 0o100000

abbrev pub s_iflnk : ℕ
s_iflnk = 0o120000

abbrev pub s_irugo : ℕ
s_irugo = 0o444

abbrev pub s_iwugo : ℕ
s_iwugo = 0o222

abbrev pub s_ixugo : ℕ
s_ixugo = 0o111

abbrev pub s_irwxugo : ℕ
s_irwxugo = 0o777

abbrev pub s_isvtx : ℕ
s_isvtx = 0o1000

abbrev pub s_iallugo : ℕ
s_iallugo = 0o7777

-- `flags & mask` as a condition.
unfoldable pub has : ℕ → ℕ → Bool
has flags mask = not (bit_and flags mask == 0)
