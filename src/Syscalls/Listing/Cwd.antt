-- ===== src/Syscalls/Listing/Cwd.antt =====
-- `getcwd`, and the path that it returns.
use emscripten_memfswasm_wra.Base.{
  ◌∙◌, ℕ, ◌+◌, suc, ◌<◌, ◌≡◌, refl, sym, ap, true, false, some, List, [], ◌∷◌, ◌++◌, ◌-◌,
  append-nil, append_assoc, length, arith, ◌==◌, if◌then◌else◌,
}
use emscripten_memfswasm_wra.Base.Names.{Name, codes, name_eq}
use emscripten_memfswasm_wra.Posix.{at_fdcwd}
use emscripten_memfswasm_wra.Store.{FileId, Dir, File, Fs, done, load, get_parent}
use emscripten_memfswasm_wra.Directory
use emscripten_memfswasm_wra.Directory.Lookup.{IsLinked}
use emscripten_memfswasm_wra.Directory.Tree.{IsTree}
use emscripten_memfswasm_wra.Directory.Tree.Down.{
  IsStep, Down, arrived, into, step-get_child, step-parent, step-get_name,
}
use emscripten_memfswasm_wra.Directory.Tree.Depth.{depth_bound}
use emscripten_memfswasm_wra.Paths.{
  slash, follow, segments, strip_trailing, child_with, walk, relative_parent_with, parent_with,
  file_with, get_base_dir, parse_file, cut,
}
use emscripten_memfswasm_wra.Paths.Segments.{Components, join, segments-join}
use emscripten_memfswasm_wra.Paths.Stripped.{strip_trailing-join}
use emscripten_memfswasm_wra.Syscalls.Listing.{cwd_loop, getcwd}

module _ (s : Fs) (tree : IsTree s) where
  one_up :
      (a c : FileId) (name : Name)
      → IsStep s a name c
      → (fuel : ℕ) (result : Name)
      → cwd_loop (suc fuel) s.root c result s ≡ cwd_loop fuel s.root a (slash ∷ (name ++ result)) s
  unfolding cwd_loop get_parent load
  one_up a c name step fuel result =
      let (m, there, above) = step-parent s tree a c name step in
      ground (arith, step.not_root, there, above, step-get_name s tree a c name step)

  -- The directories that are left behind on the way up are put before the path.
  up :
      (a d : FileId) (ns : List Name) (fuel : ℕ) (result : Name)
      → Down s a ns d
      → cwd_loop (length ns + suc fuel) s.root d result s
        ≡ cwd_loop (suc fuel) s.root a (join ns ++ result) s
  up a d ns fuel result (arrived b p n x l) =
      let e : 0 + suc fuel ≡ suc fuel = omega arith in rw e refl
  up a d ns fuel result (into b c e name rest step below) =
      let k : suc (length rest) + suc fuel ≡ length rest + suc (suc fuel) = omega arith in
      rw k (
        up c e rest (suc fuel) result below
        ∙ one_up b c name step (suc fuel) (join rest ++ result)
        ∙ ap (λ z. cwd_loop (suc fuel) s.root b (slash ∷ z) s)
            (sym (append_assoc name (join rest) result)))

  -- Every directory on the way is one.
  top :
      (a d : FileId) (ns : List Name)
      → Down s a ns d
      → (p : FileId) × (n : File) × (x : Dir) × IsLinked s a p n x
  top a d ns (arrived b p n x l) = (p, n, x, l)
  top a d ns (into b c e name rest step below) = (step.up, step.record_of, step.inside, step.linked)

  step_child :
      (a c d : FileId) (name : Name) (ns : List Name) (fuel r : ℕ)
      → IsStep s a name c
      → Down s c ns d
      → child_with (follow (suc fuel)) a name true r s ≡ done (c, r) s
  unfolding child_with follow load
  step_child a c d name ns fuel r step below =
      let (p, n, x, l) = top c d ns below in
      ground (arith, step-get_child s tree a c name step, l.here, l.body)

  -- The walk along the names stops before the last one, which leads to the directory.
  down :
      (a d : FileId) (name : Name) (ns : List Name) (fuel r : ℕ)
      → Down s a (name ∷ ns) d
      → (parent : FileId) × (leaf : Name) × (walk (follow (suc fuel)) a (name ∷ ns) r s
          ≡ done (parent, leaf, r) s)
        × (child_with (follow (suc fuel)) parent leaf true r s ≡ done (d, r) s)
  unfolding walk load
  down a d name [] fuel r (into b c e n ns step (arrived f p m x l)) =
      (b, n, refl, step_child b c c n [] fuel r step (arrived c p m x l))
  down a d name (n ∷ ns) fuel r (into b c e m ms step below) =
      let (parent, leaf, walked, last) = down c e n ns fuel r below in
      let (p, k, x, l) = top c e (n ∷ ns) below in
      (
        parent,
        leaf,
        ground (arith, step_child b c e m (n ∷ ns) fuel r step below, l.here, l.body, walked),
        last,
      )

  looped :
      (d : FileId) (ns : List Name)
      → Down s s.root ns d
      → cwd_loop (s.next_file + 1) s.root d [] s ≡ done (join ns) s
  unfolding cwd_loop
  looped d ns below =
      let enough : length ns < s.next_file = depth_bound s tree d ns below in
      let fuel = s.next_file - length ns in
      let e : s.next_file + 1 ≡ length ns + suc fuel = omega arith in
      rw e (up s.root d ns fuel [] below ∙ ground (arith, append-nil (join ns)))

  -- The path of the names, from the root.
  abbrev pub absolute : List Name → Name
  absolute [] = codes "/"
  absolute (n ∷ ns) = join (n ∷ ns)

  shown : (ns : List Name) → (if length (join ns) == 0 then codes "/" else join ns) ≡ absolute ns
  shown [] = refl
  shown (n ∷ ns) = ground (arith)

  segments_tail :
      (name : Name) (ns : List Name)
      → Components (name ∷ ns)
      → segments (name ++ join ns) ≡ name ∷ ns
  unfolding segments cut
  segments_tail name ns h = segments-join (name ∷ ns) h

  linked_parent :
      (p : FileId) (n : File) (x : Dir)
      → IsLinked s s.root p n x
      → get_parent s.root s ≡ done (some p) s
  unfolding get_parent load
  linked_parent p n x l = ground (arith, l.here, l.parent)

  self :
      (p : FileId) (n : File) (x : Dir)
      → IsLinked s s.root p n x
      → Directory.get_child s.root (codes ".") s ≡ done (some s.root) s
  unfolding Directory.get_child name_eq
  self p n x l = rw (linked_parent p n x l) refl

  self_child :
      (fuel : ℕ) (p : FileId) (n : File) (x : Dir)
      → IsLinked s s.root p n x
      → child_with (follow (suc fuel)) s.root (codes ".") true 0 s ≡ done (s.root, 0) s
  unfolding child_with follow load
  self_child fuel p n x l = let e = self p n x l in ground (arith, e, l.here, l.body)

  parsed_root :
      (p : FileId) (n : File) (x : Dir)
      → IsLinked s s.root p n x
      → parse_file (codes "/") at_fdcwd true s ≡ done s.root s
  unfolding parse_file get_base_dir file_with parent_with relative_parent_with strip_trailing
  parsed_root p n x l = rw (self_child 40 p n x l) refl

  parsed :
      (d : FileId) (ns : List Name)
      → Down s s.root ns d
      → Components ns
      → parse_file (absolute ns) at_fdcwd true s ≡ done d s
  unfolding parse_file get_base_dir file_with parent_with relative_parent_with
  parsed d [] (arrived b p n x l) h = parsed_root p n x l
  parsed d ([] ∷ ns) below h = absurd (h.0 refl)
  parsed d ((c ∷ cs) ∷ ns) below h =
      let (parent, leaf, walked, last) = down s.root d (c ∷ cs) ns 40 0 below in
      let seg = segments_tail (c ∷ cs) ns h in
      let strip = strip_trailing-join (c ∷ cs) ns h in ground (arith, seg, strip, walked, last)

  -- In a tree that is in shape, `getcwd` of a directory below the root, into a buffer with room for the
  -- path and one byte more than its terminator, returns the path of the names that lead there, and
  -- that path is resolved to the same directory, which changes nothing. The names are entries that
  -- are not cached.
  pub getcwd-parse_file :
      (ns : List Name) (size : ℕ)
      → Down s s.root ns s.cwd
      → Components ns
      → length (absolute ns) + 1 < size
      → (getcwd false size s ≡ done (absolute ns, length (absolute ns) + 1) s)
        × (parse_file (absolute ns) at_fdcwd true s ≡ done s.cwd s)
  unfolding getcwd
  getcwd-parse_file ns size below h room =
      let l = looped s.cwd ns below in (ground (arith, l, shown ns, room), parsed s.cwd ns below h)
