-- ===== src/Syscalls/Open/Create.antt =====
-- `doOpen` with `O_CREAT | O_EXCL`, as `openat`, `mknodat` and `wasmfs_create_file` may call it.
use emscripten_memfswasm_wra.Base.{
  ◌∙◌, ℕ, ◌≡◌, ◌≢◌, refl, ap, true, none, some, [], arith, bit_and, bit_or, ◌==◌, ◌||◌,
  if◌then◌else◌,
}
use emscripten_memfswasm_wra.Base.Names.{Name, name_eq_refl}
use emscripten_memfswasm_wra.Posix.{
  eexist, o_creat, o_excl, o_accmode, o_rdonly, o_wronly, o_rdwr, s_iallugo, s_ifreg, has,
}
use emscripten_memfswasm_wra.Memory.Entries.{find_entry, find_cached}
use emscripten_memfswasm_wra.Memory.Entries.Laws.{find-insert_child}
use emscripten_memfswasm_wra.Store.{
  FileId, memory_file, data_file, directory, Dir, File, Fs, Body, value, done, fail, load,
  get_parent, get_backend,
}
use emscripten_memfswasm_wra.Files.{create_file}
use emscripten_memfswasm_wra.Directory.{insert_data_file, get_child}
use emscripten_memfswasm_wra.Directory.Lookup.{
  IsLinked, look_up-none, look_up-child, get_child-look_up,
}
use emscripten_memfswasm_wra.Directory.Insert.{
  created, after_insert, after_insert-IsLinked, insert_with-eq,
}
use emscripten_memfswasm_wra.Directory.Tree.{IsTree}
use emscripten_memfswasm_wra.Directory.Tree.Inserted.{after_insert-IsTree, new_there, old_dir}
use emscripten_memfswasm_wra.Table.{free_slot}
use emscripten_memfswasm_wra.Syscalls.Io.RoundTrip.{IsOpen}
use emscripten_memfswasm_wra.Syscalls.Open.{
  do_open, open_new, open_old, open_target, make_child, null_backend, OpenReturnMode, nothing, fd,
}
use emscripten_memfswasm_wra.Syscalls.Open.Granted.{opened, granted-eq, granted-IsOpen}
use emscripten_memfswasm_wra.Syscalls.Open.Mkdir.{IsPlain}

-- Flags with which a file must be created, and a valid access mode.
pub record Creates (flags : ℕ) : Type 0 where
  pub creat : has flags o_creat ≡ true
  pub excl : has flags o_excl ≡ true
  pub access :
      (bit_and flags o_accmode == o_wronly
        || bit_and flags o_accmode == o_rdonly
        || bit_and flags o_accmode == o_rdwr)
      ≡ true

module _ (s : Fs) (dir p : FileId) (n : File) (x : Dir) (name : Name) (flags mode backend : ℕ)
    (linked : IsLinked s dir p n x) (tree : IsTree s) (unmounted : find_cached name x.dcache ≡ none)
    (plain : IsPlain name) (free : find_entry name x.entries ≡ none) (ask : Creates flags)
    (same : (if backend == null_backend then n.backend else backend) ≡ n.backend) where
  abbrev body : Body
  body = data_file (memory_file [])

  abbrev perms : ℕ
  perms = bit_or (bit_and mode s_iallugo) s_ifreg

  abbrev u : Fs
  u = after_insert s dir n x body perms name

  abbrev new : File
  new = created s dir body perms n.backend

  childless : (y : Dir) → body ≡ directory y → y.entries ≡ []
  childless y e = cc

  old : dir ≢ s.next_file
  old = old_dir s dir p n x body perms name linked tree free childless

  there : u.files s.next_file ≡ some new
  there = new_there s dir p n x body perms name linked tree free childless old

  missing : get_child dir name s ≡ done none s
  missing =
      get_child-look_up s dir p n x name linked unmounted plain.1 plain.2
      ∙ look_up-none s dir p n x name linked unmounted free

  -- Whatever open files there are, the directory then finds the new file.
  present : (t : Fs) → t.files ≡ u.files → get_child dir name t ≡ done (some s.next_file) t
  present t e =
      let above = after_insert-IsLinked s dir p n x body perms name linked old in
      let linked' : IsLinked t dir p _ _ = record {
        here = ap (λ f. f dir) e ∙ above.here;
        body = above.body;
        parent = above.parent;
      } in
      get_child-look_up t dir p _ _ name linked' unmounted plain.1 plain.2
      ∙ look_up-child t dir p _ _ name linked' unmounted s.next_file new
          (find-insert_child name name s.next_file x.entries free ∙ rw (name_eq_refl name) refl)
          (ap (λ f. f s.next_file) e ∙ there) refl

  -- The second call finds the file, whatever it is to return.
  again-eq :
      (t : Fs) (r : OpenReturnMode)
      → t.files ≡ u.files
      → do_open (value (dir, name)) flags mode backend r t ≡ fail eexist t
  unfolding do_open open_old open_target load
  again-eq t r e =
      let g = present t e in
      let f : t.files s.next_file ≡ some new = ap (λ h. h s.next_file) e ∙ there in
      ground (arith, g, plain.0, f, ask.creat, ask.excl, ask.access)

  made-eq : do_open (value (dir, name)) flags mode backend nothing s ≡ done 0 u
  unfolding do_open open_new make_child insert_data_file create_file get_parent get_backend load
  made-eq =
      let made = insert_with-eq s dir p n x body perms name linked old in
      let g = missing in
      ground (arith, g, made, plain.0, linked.here, linked.parent, same, ask.creat, ask.access)

  abbrev given : Fs
  given = opened u s.next_file new [] flags there refl

  given-eq : do_open (value (dir, name)) flags mode backend fd s ≡ done (free_slot s.table) given
  unfolding do_open open_new make_child insert_data_file create_file get_parent get_backend load
  given-eq =
      let made = insert_with-eq s dir p n x body perms name linked old in
      let g = missing in
      let o = granted-eq u s.next_file new [] flags there refl in
      ground (arith, g, made, o, plain.0, linked.here, linked.parent, same, ask.creat, ask.access)

  made-IsTree : IsTree u
  made-IsTree = after_insert-IsTree s dir p n x body perms name linked tree free childless

  given-IsTree : IsTree given
  given-IsTree = record {
    unused = made-IsTree.unused;
    names = made-IsTree.names;
    single = made-IsTree.single;
    children = made-IsTree.children;
  }

  -- In a tree that is in shape, `doOpen` with `O_CREAT | O_EXCL` and an access mode, for a plain name that
  -- is free in a linked directory, cached entries included, and the backend of that directory, succeeds
  -- and keeps the shape of the tree. To return nothing it returns 0, and to return a descriptor it
  -- returns the lowest free one, which is open on the new file, without bytes, from its start. The same
  -- call again fails with `EEXIST` and changes nothing.
  pub create_exclusive :
      ((t : Fs) × (do_open (value (dir, name)) flags mode backend nothing s ≡ done 0 t)
        × IsTree t
        × (do_open (value (dir, name)) flags mode backend nothing t ≡ fail eexist t))
      × ((t : Fs) × (m : File) × (do_open (value (dir, name)) flags mode backend fd s
            ≡ done (free_slot s.table) t)
          × IsTree t
          × IsOpen t
              (free_slot s.table)
              s.next_open
              (record { file = s.next_file; position = 0; flags = flags; uses = 1; dirents = [] })
              m
              []
          × (do_open (value (dir, name)) flags mode backend fd t ≡ fail eexist t))
  create_exclusive = (
    (u, made-eq, made-IsTree, again-eq u nothing refl),
    (
      given,
      new,
      given-eq,
      given-IsTree,
      granted-IsOpen u s.next_file new [] flags there refl,
      again-eq given fd refl,
    ),
  )
