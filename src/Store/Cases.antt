-- ===== src/Store/Cases.antt =====
-- What a file can be.
use emscripten_memfswasm_wra.Base.{◌≡◌, ◌⊎◌, inl, inr, refl}
use emscripten_memfswasm_wra.Base.Names.{Name}
use emscripten_memfswasm_wra.Store.{DataImpl, Dir, Body, data_file, directory, symlink}

pub Body-cases :
    (b : Body)
    → ((d : DataImpl) × (b ≡ data_file d))
      ⊎ ((d : Dir) × (b ≡ directory d))
      ⊎ ((target : Name) × (b ≡ symlink target))
Body-cases (data_file d) = inl (d, refl)
Body-cases (directory d) = inr (inl (d, refl))
Body-cases (symlink target) = inr (inr (target, refl))
