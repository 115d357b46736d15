-- ===== src/Creator/Exponents.antt =====
-- The recovery files of par2creator.cpp: the recovery blocks that each scheme puts into them.
use native.Mathlib.Nat.{two-pow-succ, mul-le-mul_left}
use par2tbb.Base.{ℕ, zero, suc, ◌+◌, ◌-◌, ◌*◌, ◌≤◌, ◌<◌, ◌^◌, ◌≡◌, refl, ap, ◌∙◌, arith}
use par2tbb.Base.{List, [], ◌∷◌, ◌++◌, length, ltb, min, if◌then◌else◌}
use par2tbb.Creator.{u32}
use par2tbb.Creator.Allocation.{FileAllocation, Files, add_file, uniform_files, spread}

-- The files take the exponents from `from` up to `to` in their order, each its own piece.
abbrev pub IsContiguous : ℕ → List FileAllocation → ℕ → Type 0
IsContiguous from [] to = from ≡ to
IsContiguous from (f ∷ fs) to = (f.exponent ≡ from) × IsContiguous (from + f.count) fs to

pub IsContiguous-append :
    (from middle to : ℕ) (fs gs : List FileAllocation)
    → IsContiguous from fs middle
    → IsContiguous middle gs to
    → IsContiguous from (fs ++ gs) to
IsContiguous-append from middle to [] gs same rest = rw same rest
IsContiguous-append from middle to (f ∷ fs) gs (here, more) rest =
    (here, IsContiguous-append (from + f.count) middle to fs gs more rest)

-- What a loop over `count` files leaves when it takes the exponents from `from` up to `to`.
pub record IsSpread (from to count : ℕ) (files : Files) : Type 0 where
  pub contiguous : IsContiguous from files.0 to
  pub behind : files.1 ≡ to
  pub size : length files.0 ≡ count

add_file-IsSpread :
    (from number middle to count : ℕ) (files : Files)
    → middle ≡ to
    → IsSpread (from + number) middle count files
    → IsSpread from to (suc count) (add_file from number files)
add_file-IsSpread from number middle to count files same s = record {
  contiguous = (refl, rw (← same) s.contiguous);
  behind = s.behind ∙ same;
  size = ap suc s.size;
}

pub one_le-pow : (n : ℕ) → 1 ≤ 2 ^ n
one_le-pow zero = omega arith
one_le-pow (suc n) = omega (arith, one_le-pow n, two-pow-succ n)

-- When the blocks are at most those of files that each take twice the last one's, they are spread.
pub spread-IsSpread :
    (left low blocks from : ℕ)
    → blocks + low ≤ low * 2 ^ left
    → low * 2 ^ left < 2 ^ 32
    → from + blocks < 2 ^ 32
    → IsSpread from (from + blocks) left (spread left low blocks from)
unfolding spread
spread-IsSpread zero low blocks from enough fits bound = record {
  contiguous = omega arith;
  behind = omega arith;
  size = refl;
}
spread-IsSpread (suc left) low blocks from enough fits bound =
    let number = min low blocks in
    let product : low * 2 ^ suc left ≡ low * 2 * 2 ^ left =
      ap (λ p. low * p) (two-pow-succ left) ∙ omega arith in
    let grows : low * 1 ≤ low * 2 ^ left = mul-le-mul_left low (one_le-pow left) in
    let next : u32 (from + number) ≡ from + number = omega arith in
    let twice : u32 (low * 2) ≡ low * 2 = omega arith in
    let rest =
      spread-IsSpread left (low * 2) (blocks - number) (from + number) (omega arith) (omega arith)
        (omega arith) in
    rw (next, twice)
      (add_file-IsSpread from number _ (from + blocks) left
        (spread left (low * 2) (blocks - number) (from + number)) (omega arith) rest)

-- The uniform loop: what is left to the files from `filenumber` on.
pub uniform_files-IsSpread :
    (left filenumber base remainder from blocks : ℕ)
    → remainder ≤ filenumber + left
    → left * base + (remainder - filenumber) ≡ blocks
    → from + blocks < 2 ^ 32
    → IsSpread from (from + blocks) left (uniform_files left filenumber base remainder from)
unfolding uniform_files
uniform_files-IsSpread zero filenumber base remainder from blocks some_left sum bound = record {
  contiguous = omega arith;
  behind = omega arith;
  size = refl;
}
uniform_files-IsSpread (suc left) filenumber base remainder from blocks some_left sum bound =
    let number = if ltb filenumber remainder then base + 1 else base in
    let here : number + (left * base + (remainder - (filenumber + 1))) ≡ blocks = ground arith in
    let next : u32 (from + number) ≡ from + number = omega arith in
    let rest =
      uniform_files-IsSpread left (filenumber + 1) base remainder (from + number) (blocks - number)
        (omega arith) (omega arith) (omega arith) in
    rw next (
      add_file-IsSpread from number _ (from + blocks) left
        (uniform_files left (filenumber + 1) base remainder (from + number)) (omega arith) rest)
