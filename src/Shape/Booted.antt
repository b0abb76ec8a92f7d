-- ===== src/Shape/Booted.antt =====
-- The state after the start of an instance.
use emscripten_memfswasm_wra.Base.{
  ℕ, ◌≡◌, ◌≢◌, refl, sym, ap, subst, ◌∙◌, ◌⊎◌, inl, inr, zero, suc, ◌≤◌, none, some, Option, [],
  ◌∷◌, arith,
}
use emscripten_memfswasm_wra.Base.Names.{Name, codes, name_eq, name_lt, name_eq_iff}
use emscripten_memfswasm_wra.Memory.Entries.{
  find_entry, find_cached, insert_cached, insert_child, ChildEntry,
}
use emscripten_memfswasm_wra.Memory.Entries.Laws.{NodupNames}
use emscripten_memfswasm_wra.Store.{
  FileId, DataImpl, Dir, data_file, directory, File, Fs, Host, Out, done, fail, fault, out_of_fuel,
  load, store, make_file, date_now, get_parent, set_parent, get_backend, update_mtime, set_mtime,
}
use emscripten_memfswasm_wra.Files.{new_file, create_directory, notify}
use emscripten_memfswasm_wra.Directory.{
  load_dir, store_dir, try_insert, update_cache, cache_child, mount_child, add_entry, insert_with,
  insert_directory,
}
use emscripten_memfswasm_wra.Table.{create_open, make_open}
use emscripten_memfswasm_wra.Instance.{
  special_file, open_standard, mount_devices, init_root_directory, boot, empty,
}
use emscripten_memfswasm_wra.Directory.Tree.{HasEntries, some-same, directory-same, no_entry_in_nil}
use emscripten_memfswasm_wra.Shape.{IsShaped, AreMounts}

abbrev pub state_after : {A : Type 0} → Out A → Fs → Fs
state_after (done a t) d = t
state_after (fail e t) d = t
state_after fault d = d
state_after out_of_fuel d = d

abbrev pub booted : Host → Fs
booted host = state_after (boot (empty host)) (empty host)

pub boot-eq : (host : Host) → boot (empty host) ≡ done tt (booted host)
unfolding boot special_file new_file date_now make_file open_standard create_open load notify
    make_open init_root_directory create_directory set_parent store insert_directory insert_with
    get_parent get_backend add_entry load_dir store_dir cache_child update_cache try_insert
    find_cached insert_cached insert_child name_lt name_eq update_mtime set_mtime mount_devices
    mount_child
boot-eq host = refl

none≢some_file : {o : Option File} (n : File) → o ≡ none → o ≡ some n → ⊥
none≢some_file n e f = cc

unused : (host : Host) (f : ℕ) → 9 ≤ f → (booted host).files f ≡ none
unfolding boot special_file new_file date_now make_file open_standard create_open load notify
    make_open init_root_directory create_directory set_parent store insert_directory insert_with
    get_parent get_backend add_entry load_dir store_dir cache_child update_cache try_insert
    find_cached insert_cached insert_child name_lt name_eq update_mtime set_mtime mount_devices
    mount_child
unused host f h = ground arith

abbrev entry_of : Name → ℕ → ChildEntry
entry_of name child = record { name = name; child = child }

abbrev root_dir : Dir
root_dir = record {
  entries = entry_of (codes "dev") 4 ∷ entry_of (codes "tmp") 8 ∷ [];
  dcache = [];
}

-- The directories are the root, `/dev` and `/tmp`.
abbrev IsDir : ℕ → Dir → Type 0
IsDir d y = ((d ≡ 3) × (y ≡ root_dir)) ⊎ ((d ≢ 3) × (y.entries ≡ []) × AreMounts y.dcache)

body_of : (a b : File) (y : Dir) → some a ≡ some b → b.body ≡ directory y → a.body ≡ directory y
body_of a b y e f = ap (λ z. z.body) (some-same a b e) ∙ f

no_directory : {P : Type 0} (i : DataImpl) (y : Dir) → data_file i ≡ directory y → P
no_directory i y e = cc

other_dir :
    (d : ℕ) (x y : Dir)
    → d ≢ 3
    → x.entries ≡ []
    → AreMounts x.dcache
    → directory x ≡ directory y
    → IsDir d y
other_dir d x y ne e m q =
    let same : x ≡ y = directory-same x y q in
    inr (ne, ap (λ z. z.entries) (sym same) ∙ e, subst (λ z. AreMounts z.dcache) same m)

dirs : (host : Host) (d : ℕ) (y : Dir) → HasEntries (booted host) d y → IsDir d y
unfolding boot special_file new_file date_now make_file open_standard create_open load notify
    make_open init_root_directory create_directory set_parent store insert_directory insert_with
    get_parent get_backend add_entry load_dir store_dir cache_child update_cache try_insert
    find_cached insert_cached insert_child name_lt name_eq update_mtime set_mtime mount_devices
    mount_child
dirs host zero y (n, here, b) = no_directory _ y (body_of _ n y here b)
dirs host (suc zero) y (n, here, b) = no_directory _ y (body_of _ n y here b)
dirs host (suc (suc zero)) y (n, here, b) = no_directory _ y (body_of _ n y here b)
dirs host (suc (suc (suc zero))) y (n, here, b) =
    inl (refl, sym (directory-same root_dir y (body_of _ n y here b)))
dirs host (suc (suc (suc (suc zero)))) y (n, here, b) =
    other_dir 4 _ y (omega arith) refl (refl, (refl, (refl, (refl, (refl, (refl, tt))))))
      (body_of _ n y here b)
dirs host (suc (suc (suc (suc (suc zero))))) y (n, here, b) =
    no_directory _ y (body_of _ n y here b)
dirs host (suc (suc (suc (suc (suc (suc zero)))))) y (n, here, b) =
    no_directory _ y (body_of _ n y here b)
dirs host (suc (suc (suc (suc (suc (suc (suc zero))))))) y (n, here, b) =
    no_directory _ y (body_of _ n y here b)
dirs host (suc (suc (suc (suc (suc (suc (suc (suc zero)))))))) y (n, here, b) =
    other_dir 8 _ y (omega arith) refl tt (body_of _ n y here b)
dirs host (suc (suc (suc (suc (suc (suc (suc (suc (suc d))))))))) y (n, here, b) = absurd (
    none≢some_file n
      (unused host (suc (suc (suc (suc (suc (suc (suc (suc (suc d))))))))) (omega arith)) here)

in_root :
    (a : Name) (c : FileId)
    → find_entry a root_dir.entries ≡ some c
    → ((c ≡ 4) × (a ≡ codes "dev")) ⊎ ((c ≡ 8) × (a ≡ codes "tmp"))
unfolding find_entry
in_root a c e = ground (arith, name_eq_iff (codes "dev") a, name_eq_iff (codes "tmp") a)

abbrev HasParent : (host : Host) (c d : FileId) → Type 0
HasParent host c d = (m : File) × ((booted host).files c ≡ some m) × (m.parent ≡ some d)

dev_there : (host : Host) → HasParent host 4 3
unfolding boot special_file new_file date_now make_file open_standard create_open load notify
    make_open init_root_directory create_directory set_parent store insert_directory insert_with
    get_parent get_backend add_entry load_dir store_dir cache_child update_cache try_insert
    find_cached insert_cached insert_child name_lt name_eq update_mtime set_mtime mount_devices
    mount_child
dev_there host = (_, refl, refl)

tmp_there : (host : Host) → HasParent host 8 3
unfolding boot special_file new_file date_now make_file open_standard create_open load notify
    make_open init_root_directory create_directory set_parent store insert_directory insert_with
    get_parent get_backend add_entry load_dir store_dir cache_child update_cache try_insert
    find_cached insert_cached insert_child name_lt name_eq update_mtime set_mtime mount_devices
    mount_child
tmp_there host = (_, refl, refl)

last_file : (host : Host) → (booted host).next_file ≡ 9
unfolding boot special_file new_file date_now make_file open_standard create_open load notify
    make_open init_root_directory create_directory set_parent store insert_directory insert_with
    get_parent get_backend add_entry load_dir store_dir cache_child update_cache try_insert
    find_cached insert_cached insert_child name_lt name_eq update_mtime set_mtime mount_devices
    mount_child
last_file host = refl

root_names : NodupNames root_dir.entries
unfolding name_eq
root_names = ((refl, tt), (tt, tt))

pub booted-IsShaped : (host : Host) → IsShaped (booted host)
booted-IsShaped host = record {
  tree = record {
    unused = λ f h. unused host f (rw (last_file host) at h);
    names = λ d y h. elim (dirs host d y h) [
      | inl (e, q) ↦ rw q root_names
      | inr (ne, none_in, m) ↦ rw none_in tt
    ];
    single = λ d y c a b h u v. elim (dirs host d y h) [
      | inl (e, q) ↦ ground (arith, in_root a c (rw q at u), in_root b c (rw q at v))
      | inr (ne, none_in, m) ↦ absurd (no_entry_in_nil a c (rw none_in at u))
    ];
    children = λ d y c a h u. elim (dirs host d y h) [
      | inl (e, q) ↦ elim (in_root a c (rw q at u)) [
        | inl (k, _) ↦ rw (e, k) (dev_there host)
        | inr (k, _) ↦ rw (e, k) (tmp_there host)
      ]
      | inr (ne, none_in, m) ↦ absurd (no_entry_in_nil a c (rw none_in at u))
    ];
  };
  proper = λ d y a h u. elim (dirs host d y h) [
    | inl (e, q) ↦ ground (arith, e, in_root a d (rw q at u))
    | inr (ne, none_in, m) ↦ no_entry_in_nil a d (rw none_in at u)
  ];
  mounted = λ d y h. elim (dirs host d y h) [ inl (e, q) ↦ rw q tt | inr (ne, none_in, m) ↦ m ];
}
