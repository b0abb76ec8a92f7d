-- ===== src/Paths/Resolved.antt =====
-- What following links ends at.
use emscripten_memfswasm_wra.Base.{
  ℕ, Option-cases, ◌==◌, ◌+◌, leb, length, inl, inr, zero, suc, ◌≡◌, ◌≢◌, ap, true, some, arith,
}
use emscripten_memfswasm_wra.Base.Names.{Name}
use emscripten_memfswasm_wra.Posix.{eloop, enoent}
use emscripten_memfswasm_wra.Store.{throw_if, FileId, symlink, File, Fs, Out, done, load}
use emscripten_memfswasm_wra.Store.Cases.{Body-cases}
use emscripten_memfswasm_wra.Store.Bind.{bind-done, done-injective}
use emscripten_memfswasm_wra.Directory
use emscripten_memfswasm_wra.Paths.{
  max_recursions, child_with, parent_with, file_with, follow, get_base_dir, link_fuel, parse_file,
}

-- The file is there, and is no symbolic link.
abbrev pub IsResolved : Fs → FileId → Type 0
IsResolved s f = (n : File) × (s.files f ≡ some n) × ((target : Name) → n.body ≢ symlink target)

load-done :
    (f : FileId) (n : File) (s t : Fs) → load f s ≡ done n t → (s.files f ≡ some n) × (s ≡ t)
unfolding load
load-done f n s t h = (ground arith, ground arith)

done-IsResolved :
    (f : FileId) (n : File) (s : Fs)
    → s.files f ≡ some n
    → ((target : Name) → n.body ≢ symlink target)
    → (r r' : ℕ) (c : FileId) (t : Fs) → ◌≡◌ {A = Out (FileId × ℕ)} (done (f, r) s) (done (c, r') t)
    → IsResolved t c
done-IsResolved f n s here no_link r r' c t h =
    let e : f ≡ c = ap (λ q. q.0) (done-injective h).0 in
    let same : s ≡ t = (done-injective h).1 in (n, rw (e, same) at here, no_link)

-- The loop that follows links ends, when it succeeds, at a file that is no link.
pub follow-IsResolved :
    (fuel : ℕ) (dir child : FileId) (r : ℕ) (s t : Fs) (c : FileId) (r' : ℕ)
    → follow fuel dir child r s ≡ done (c, r') t
    → IsResolved t c
unfolding follow
follow-IsResolved zero dir child r s t c r' h = cc
follow-IsResolved (suc fuel) dir child r s t c r' h =
    let (n, u, a, k) = bind-done (load child s) _ h in
    let (here, same) = load-done child n s u a in
    let there = rw same at here in
    elim (Body-cases n.body) [
      | inl (d, e) ↦ done-IsResolved child n u there (λ target q. cc) r r' c t (rw e at k)
      | inr (inl (d, e)) ↦ done-IsResolved child n u there (λ target q. cc) r r' c t (rw e at k)
      | inr (inr (target, e)) ↦
          let l = rw e at k in
          let (x, s1, b, k1) =
            bind-done (throw_if (leb (max_recursions + 1) (r + 1)) eloop u) _ l in
          let (y, s2, d, k2) = bind-done (throw_if (length target == 0) enoent s1) _ k1 in
          let (z, s3, f, k3) =
            bind-done (file_with (follow fuel) target dir true (r + 1) s2) _ k2 in
          follow-IsResolved fuel dir z.0 z.1 s3 t c r' k3
    ]

child_with-IsResolved :
    (dir : FileId) (name : Name) (r : ℕ) (s t : Fs) (c : FileId) (r' : ℕ)
    → child_with (follow link_fuel) dir name true r s ≡ done (c, r') t
    → IsResolved t c
unfolding child_with
child_with-IsResolved dir name r s t c r' h =
    let (found, u, a, k) = bind-done (Directory.get_child dir name s) _ h in
    elim (Option-cases found) [
      | inl e ↦ cc (rw e at k)
      | inr (child, e) ↦ follow-IsResolved link_fuel dir child r u t c r' (rw e at k)
    ]

-- A path that is resolved with its links followed names a file that is there and is no symbolic link,
-- whatever the tree.
pub parse_file-IsResolved :
    (path : Name) (basefd : ℕ) (s t : Fs) (f : FileId)
    → parse_file path basefd true s ≡ done f t
    → IsResolved t f
unfolding parse_file file_with
parse_file-IsResolved path basefd s t f h =
    let (base, u, a, k) = bind-done (get_base_dir basefd s) _ h in
    let (found, v, b, l) = bind-done (file_with (follow link_fuel) path base true 0 u) _ k in
    let (dir, w, d, m) = bind-done (parent_with (follow link_fuel) path base 0 u) _ b in
    let e = child_with-IsResolved dir.0 dir.1 dir.2 w v found.0 found.1 m in
    rw ((done-injective l).0, (done-injective l).1) at e
