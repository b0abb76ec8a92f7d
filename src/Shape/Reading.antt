-- ===== src/Shape/Reading.antt =====
-- Calls that only read, path resolution among them.
use emscripten_memfswasm_wra.Base.{
  ℕ, zero, suc, refl, sym, subst, true, Option, none, some, List, [], ◌∷◌, Option-cases, inl, inr,
  Bool, Bool-cases, ◌==◌, leb, length, ◌+◌, ◌&&◌,
}
use emscripten_memfswasm_wra.Base.Names.{Name, codes}
use emscripten_memfswasm_wra.Memory.Entries.{find_entry, find_cached}
use emscripten_memfswasm_wra.Posix.{at_empty_path, at_fdcwd, has, eloop, enoent}
use emscripten_memfswasm_wra.Store.{
  FileId, Dir, M, DataImpl, Body, data_file, directory, symlink, load, load_open, get_parent,
  get_mode, get_backend, pure,
}
use emscripten_memfswasm_wra.Store.Cases.{Body-cases}
use emscripten_memfswasm_wra.Files.{get_size, notify}
use emscripten_memfswasm_wra.Directory.{load_dir, look_up, get_child, get_num_entries}
use emscripten_memfswasm_wra.Directory.Lookup.{look_up-entry}
use emscripten_memfswasm_wra.Table.{get_entry}
use emscripten_memfswasm_wra.Paths.{
  Follow, child_with, walk, relative_parent_with, parent_with, file_with, follow, link_fuel,
  max_recursions, get_base_dir, parse_parent, parse_file, get_open, get_file_at, get_file_from,
  strip_trailing, segments,
}
use emscripten_memfswasm_wra.Shape.{Same, Reads}
use emscripten_memfswasm_wra.Shape.Rules.{
  reads_rules, Reads-pure, Reads-throw, Reads-crash, Reads-if, Reads-bind, Reads-then,
  Reads-throw_if,
}

pub Reads-load : (f : FileId) → Reads (load f)
unfolding load
Reads-load f = record {
  at = λ s h. elim (Option-cases (s.files f)) [
    | inl e ↦ rw (e, Same) tt
    | inr (n, e) ↦ rw (e, Same) refl
  ];
}

pub Reads-load_open : (o : ℕ) → Reads (load_open o)
unfolding load_open
Reads-load_open o = record {
  at = λ s h. elim (Option-cases (s.opens o)) [
    | inl e ↦ rw (e, Same) tt
    | inr (n, e) ↦ rw (e, Same) refl
  ];
}

pub Reads-get_entry : (fd : ℕ) → Reads (get_entry fd)
unfolding get_entry
Reads-get_entry fd = record { at = λ s h. refl }

module _ {A : Type 0} where
  pub Reads-Option :
      {B : Type 0} (o : Option B) (m : M A) (k : B → M A)
      → Reads m
      → ((b : B) → Reads (k b))
      → Reads (elim o [ none ↦ m | some b ↦ k b ])
  Reads-Option none m k rm rk = rm
  Reads-Option (some b) m k rm rk = rk b

  pub Reads-Body :
      (b : Body) (d : DataImpl → M A) (x : Dir → M A) (l : Name → M A)
      → ((i : DataImpl) → Reads (d i))
      → ((y : Dir) → Reads (x y))
      → ((t : Name) → Reads (l t))
      → Reads (elim b [ data_file i ↦ d i | directory y ↦ x y | symlink t ↦ l t ])
  Reads-Body (data_file i) d x l rd rx rl = rd i
  Reads-Body (directory y) d x l rd rx rl = rx y
  Reads-Body (symlink t) d x l rd rx rl = rl t

pub Reads-load_dir : (f : FileId) → Reads (load_dir f)
unfolding load_dir
Reads-load_dir f =
    Reads-bind _ _ (Reads-load f)
      λ n. Reads-Body n.body _ _ _ (λ i. Reads-crash) (λ y. Reads-pure y) (λ t. Reads-crash)

pub Reads-get_parent : (f : FileId) → Reads (get_parent f)
unfolding get_parent
Reads-get_parent f = search (reads_rules, Reads-load)

pub Reads-get_mode : (f : FileId) → Reads (get_mode f)
unfolding get_mode
Reads-get_mode f = search (reads_rules, Reads-load)

pub Reads-get_backend : (f : FileId) → Reads (get_backend f)
unfolding get_backend
Reads-get_backend f = search (reads_rules, Reads-load)

pub Reads-get_size : (f : FileId) → Reads (get_size f)
unfolding get_size
Reads-get_size f = Reads-bind _ _ (Reads-load f) λ n. record { at = λ s h. refl }

pub Reads-notify : (f : FileId) → Reads (notify f)
unfolding notify
Reads-notify f = search (reads_rules, Reads-load)

pub Reads-get_num_entries : (f : FileId) → Reads (get_num_entries f)
unfolding get_num_entries
Reads-get_num_entries f = search (reads_rules, Reads-load_dir)

pub Reads-look_up : (dir : FileId) (name : Name) → Reads (look_up dir name)
unfolding look_up load_dir load
Reads-look_up dir name = record {
  at = λ s h. elim (Option-cases (s.files dir)) [
    | inl gone ↦ rw (gone, Same) tt
    | inr (n, here) ↦ elim (Body-cases n.body) [
      | inl (i, b) ↦ rw (here, Same) (rw (b, Same) tt)
      | inr (inr (t, b)) ↦ rw (here, Same) (rw (b, Same) tt)
      | inr (inl (x, b)) ↦ elim (Option-cases (find_cached name x.dcache)) [
        | inr (c, cached) ↦ rw (here, Same) (rw (b, Same) (rw (cached, Same) refl))
        | inl uncached ↦ elim (Option-cases (find_entry name x.entries)) [
          | inl free ↦ rw (here, Same) (rw (b, Same) (rw (uncached, Same) (rw (free, Same) refl)))
          | inr (c, found) ↦
              let (m, there, above) = h.tree.children dir x c name (n, here, b) found in
              subst (Same s)
                (sym (look_up-entry s dir n x name c m here b uncached found there above)) refl
        ]
      ]
    ]
  ];
}

pub Reads-get_child : (dir : FileId) (name : Name) → Reads (get_child dir name)
unfolding get_child
Reads-get_child dir name =
    Reads-bind _ _ (Reads-get_parent dir)
      λ parent. Reads-Option parent _ _ (Reads-pure none) λ p. search (reads_rules, Reads-look_up)

module _ (follow' : Follow)
    (reads : (dir child : FileId) (r : ℕ) → Reads (follow' dir child r)) where
  Reads-child_with :
      (dir : FileId) (name : Name) (links : Bool) (r : ℕ)
      → Reads (child_with follow' dir name links r)
  unfolding child_with
  Reads-child_with dir name links r =
      Reads-bind _ _ (Reads-get_child dir name)
        λ found. Reads-Option found _ _ (search (reads_rules)) λ c. search (reads_rules, reads)

  Reads-walk : (dir : FileId) (names : List Name) (r : ℕ) → Reads (walk follow' dir names r)
  unfolding walk
  Reads-walk dir [] r = Reads-pure _
  Reads-walk dir (leaf ∷ []) r = Reads-pure _
  Reads-walk dir (a ∷ b ∷ rest) r = Reads-bind _ _ (Reads-child_with dir a true r) λ c.
      Reads-bind _ _ (Reads-load c.0)
        λ n. Reads-if _ _ _ (Reads-walk c.0 (b ∷ rest) c.1) (Reads-throw _)

  Reads-relative_parent_with :
      (path : Name) (dir : FileId) (r : ℕ) → Reads (relative_parent_with follow' path dir r)
  unfolding relative_parent_with
  Reads-relative_parent_with path dir r = go (strip_trailing path)
    where
      go :
          (p : Name)
          → Reads {A = FileId × Name × ℕ} (elim p [
            | [] ↦ pure (dir, codes ".", r)
            | c ∷ cs ↦ walk follow' dir (segments (c ∷ cs)) r
          ])
      go [] = Reads-pure _
      go (c ∷ cs) = Reads-walk dir (segments (c ∷ cs)) r

  Reads-parent_with : (path : Name) (dir : FileId) (r : ℕ) → Reads (parent_with follow' path dir r)
  unfolding parent_with
  Reads-parent_with [] dir r = search (reads_rules)
  Reads-parent_with (c ∷ cs) dir r = record {
    at = λ s h. elim (Bool-cases (c == b'/')) [
      | inl e ↦ rw (e, Same) ((Reads-relative_parent_with cs s.root r).at s h)
      | inr e ↦ rw (e, Same) ((Reads-relative_parent_with (c ∷ cs) dir r).at s h)
    ];
  }

  Reads-file_with :
      (path : Name) (dir : FileId) (links : Bool) (r : ℕ)
      → Reads (file_with follow' path dir links r)
  unfolding file_with
  Reads-file_with path dir links r =
      Reads-bind _ _ (Reads-parent_with path dir r) λ c. Reads-child_with c.0 c.1 links c.2

Reads-follow : (fuel : ℕ) (dir child : FileId) (r : ℕ) → Reads (follow fuel dir child r)
unfolding follow
Reads-follow zero dir child r = record { at = λ s h. tt }
Reads-follow (suc fuel) dir child r = Reads-bind _ _ (Reads-load child) λ n.
    Reads-Body n.body _ _ _ (λ i. Reads-pure _) (λ y. Reads-pure _)
      λ t. Reads-then _ _ (Reads-throw_if (leb (max_recursions + 1) (r + 1)) eloop) (
        Reads-then _ _ (Reads-throw_if (length t == 0) enoent) (
          Reads-bind _ _ (Reads-file_with (follow fuel) (Reads-follow fuel) t dir true (r + 1))
            λ c. Reads-follow fuel dir c.0 c.1))

pub Reads-get_base_dir : (fd : ℕ) → Reads (get_base_dir fd)
unfolding get_base_dir
Reads-get_base_dir fd = record {
  at = λ s h. elim (Bool-cases (fd == at_fdcwd)) [
    | inl e ↦ rw (e, Same) refl
    | inr e ↦
        rw (e, Same)
          ((Reads-bind _ _ (Reads-get_entry fd) λ entry. Reads-Option entry _ _ (Reads-throw _) λ o.
              Reads-bind _ _ (Reads-load_open o) λ f.
                Reads-bind _ _ (Reads-load f.file)
                  λ n. Reads-if _ _ _ (Reads-pure _) (Reads-throw _)).at
            s h)
  ];
}

-- Path resolution changes nothing.
pub Reads-parse_parent : (path : Name) (fd : ℕ) → Reads (parse_parent path fd)
unfolding parse_parent
Reads-parse_parent path fd = Reads-bind _ _ (Reads-get_base_dir fd) λ base.
    Reads-bind _ _ (Reads-parent_with (follow link_fuel) (Reads-follow link_fuel) path base 0)
      λ c. Reads-pure _

pub Reads-parse_file : (path : Name) (fd : ℕ) (links : Bool) → Reads (parse_file path fd links)
unfolding parse_file
Reads-parse_file path fd links = Reads-bind _ _ (Reads-get_base_dir fd) λ base.
    Reads-bind _ _ (Reads-file_with (follow link_fuel) (Reads-follow link_fuel) path base links 0)
      λ c. Reads-pure _

pub Reads-get_file_from : (base : FileId) (path : Name) → Reads (get_file_from base path)
unfolding get_file_from
Reads-get_file_from base path =
    Reads-bind _ _ (Reads-file_with (follow link_fuel) (Reads-follow link_fuel) path base true 0)
      λ c. Reads-pure _

pub Reads-get_open : (fd : ℕ) → Reads (get_open fd)
unfolding get_open
Reads-get_open fd =
    Reads-bind _ _ (Reads-get_entry fd)
      λ e. Reads-Option e _ _ (search (reads_rules)) λ o. Reads-pure o

pub Reads-get_file_at : (fd : ℕ) (path : Name) (flags : ℕ) → Reads (get_file_at fd path flags)
unfolding get_file_at
Reads-get_file_at fd path flags = record {
  at = λ s h. elim (Bool-cases (has flags at_empty_path && length path == 0)) [
    | inr e ↦ rw (e, Same) ((Reads-parse_file path fd _).at s h)
    | inl e ↦ elim (Bool-cases (fd == at_fdcwd)) [
      | inl f ↦ rw (e, Same) (rw (f, Same) refl)
      | inr f ↦
          rw (e, Same)
            (rw (f, Same)
              ((Reads-bind _ _ (Reads-get_open fd)
                  λ o. Reads-bind _ _ (Reads-load_open o) λ n. Reads-pure n.file).at
                s h))
    ]
  ];
}
