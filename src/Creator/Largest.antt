-- ===== src/Creator/Largest.antt =====
-- The size of the largest file, which ComputeBlockSizeAndBlockCount of par2creator.cpp takes for
-- one block per file.
use native.Mathlib.Nat.{div-eq_of_lt-le}
use par2tbb.Base.{ℕ, ◌+◌, ◌-◌, ◌/◌, ◌≤◌, ◌<◌, ◌≡◌, refl, arith}
use par2tbb.Base.{List, [], ◌∷◌, length, ltb, if◌then◌else◌}
use par2tbb.Creator.Sizing.{largest_size}
use par2tbb.Creator.Counts.{needed, total}

-- Every block size at least as large as the files takes one block for each.
pub largest_grows : (largest : ℕ) (files : List ℕ) → largest ≤ largest_size largest files
largest_grows largest [] = omega arith
largest_grows largest (f ∷ fs) =
    let next = if ltb largest f then f else largest in
    let above : largest ≤ next = ground arith in omega (arith, largest_grows next fs)

-- No file is empty.
abbrev pub AreNonempty : List ℕ → Type 0
AreNonempty [] = 0 < 1
AreNonempty (f ∷ fs) = (0 < f) × AreNonempty fs

pub needed_largest :
    (largest size : ℕ) (files : List ℕ)
    → AreNonempty files
    → largest_size largest files ≤ size
    → needed size files ≡ length files
needed_largest largest size [] nonempty le = refl
needed_largest largest size (f ∷ fs) (positive, nonempty) le =
    let next = if ltb largest f then f else largest in
    let above : f ≤ next = ground arith in
    let one : (f + size - 1) / size ≡ 1 =
      div-eq_of_lt-le {k = 1} size {m = f + size - 1} (omega arith)
        (omega (arith, largest_grows next fs)) in
    omega (arith, needed_largest next size fs nonempty le)

pub largest_below :
    (largest : ℕ) (files : List ℕ) → largest_size largest files ≤ largest + total files
largest_below largest [] = omega arith
largest_below largest (f ∷ fs) =
    let next = if ltb largest f then f else largest in
    let below : next ≤ largest + f = ground arith in omega (arith, largest_below next fs)

pub largest_positive :
    (files : List ℕ) → AreNonempty files → 0 < length files → 0 < largest_size 0 files
largest_positive [] nonempty h = absurd (omega arith)
largest_positive (f ∷ fs) (positive, nonempty) h =
    let next = if ltb 0 f then f else 0 in
    let above : f ≤ next = ground arith in omega (arith, largest_grows next fs)
