-- ===== src/Tests/Icase.antt =====
-- The backend that ignores the case of names.
use emscripten_memfswasm_wra.Base.{
  ℕ, ◌+◌, ◌≡◌, refl, subst, Option, none, some, [], ◌∷◌, ◌&&◌, leb, ◌==◌, if◌then◌else◌, bit_or,
  Bool-cases, inl, inr,
}
use emscripten_memfswasm_wra.Base.Names.{codes}
use emscripten_memfswasm_wra.Posix.{s_ifreg}
use emscripten_memfswasm_wra.Store.{
  Fs, data_file_kind, directory_kind, memory_file, data_file, update, load, store, make_file,
  date_now, get_parent, set_parent, get_backend, set_mtime, update_mtime,
}
use emscripten_memfswasm_wra.Files.{new_file}
use emscripten_memfswasm_wra.Files
use emscripten_memfswasm_wra.Directory
use emscripten_memfswasm_wra.Directory.{
  load_dir, store_dir, update_cache, cache_child, look_up, add_entry, insert_with,
}
use emscripten_memfswasm_wra.Directory.Insert.{after_insert}
use emscripten_memfswasm_wra.Backends.Embedder.{returned}
use emscripten_memfswasm_wra.Backends.IgnoreCase.{
  Virtual, Icase, normalize, get_child, insert_data_file, get_name, load_virtual, store_virtual,
  make_virtual, virtualize, adopt, record_child, assign_child,
}
use emscripten_memfswasm_wra.Backends.IgnoreCase.Names.{Below, Numbered, insert_keeps_case}
use emscripten_memfswasm_wra.Tests.{fresh, no_entries}
use emscripten_memfswasm_wra.Tests.Tree.{root_file}

-- `tolower` on ASCII
abbrev lower : ℕ → ℕ
lower c = if leb 65 c && leb c 90 then c + 32 else c

abbrev virtual_root : Virtual
virtual_root = record {
  kind = directory_kind;
  mode = 0o777;
  real = 0;
  parent = some 0;
  children = [];
}

abbrev on_real : Fs → Icase
on_real s = record { real = s; files = λ j. if j == 0 then some virtual_root else none; next = 1 }

virtual_root_only : (d : Virtual) → some virtual_root ≡ some d → virtual_root.children ≡ d.children
virtual_root_only d e = cc

on_real-Numbered : (s : Fs) → Numbered (on_real s)
on_real-Numbered s dir d h = elim (Bool-cases (dir == 0)) [
  | inl q ↦
      let e : some virtual_root ≡ some d = rw q at h in subst (Below 1) (virtual_root_only d e) tt
  | inr q ↦ let e : ◌≡◌ {A = Option Virtual} none (some d) = rw q at h in cc
]

same_case : normalize lower (codes "A") ≡ normalize lower (codes "a")
unfolding normalize
same_case = refl

abbrev virtual_a : Virtual
virtual_a = record {
  kind = data_file_kind;
  mode = bit_or 0o644 s_ifreg;
  real = 1;
  parent = none;
  children = [];
}

abbrev root_with_a : Virtual
root_with_a = record virtual_root {
  children = record { key = codes "a"; original_name = codes "A"; child = 1 } ∷ [];
}

abbrev inserted : Icase
inserted = record {
  real =
      after_insert fresh 0 root_file no_entries (data_file (memory_file [])) (bit_or 0o644 s_ifreg)
        (codes "a");
  files = update (update (on_real fresh).files 1 (some virtual_a)) 0 (some root_with_a);
  next = 2;
}

insert_a : insert_data_file lower 0 (codes "A") 0o644 (on_real fresh) ≡ returned (some 1) inserted
unfolding insert_data_file load_virtual normalize Directory.insert_data_file insert_with get_parent
    get_backend Files.create_file new_file make_file date_now add_entry load_dir store_dir load
    store cache_child update_cache set_parent update_mtime set_mtime adopt virtualize make_virtual
    record_child store_virtual assign_child
insert_a = refl

insert_keeps_case_example :
    (get_child lower 0 (codes "a") inserted ≡ returned (some 1) inserted)
    × (get_name 0 1 inserted ≡ returned (codes "A") inserted)
insert_keeps_case_example =
    insert_keeps_case lower (on_real fresh) inserted 0 0o644 1 (codes "A") (codes "a")
      (on_real-Numbered fresh) same_case insert_a
