-- ===== src/DataBlock/Split.antt =====
-- The blocks of one file: InitialiseSourceBlocks of par2creatorsourcefile.cpp, SetBlocks and
-- SetBlockCount of par2repairersourcefile.cpp.
use native.Mathlib.Nat.{div-lt_iff_lt-mul, div-mul-le_self}
use par2tbb.Base.{
  ℕ, zero, suc, ◌+◌, ◌-◌, ◌*◌, ◌/◌, ◌^◌, ◌≤◌, ◌<◌, ◌≡◌, ◌⊎◌, inl, inr, refl, ap, ◌∙◌, arith, min,
}
use par2tbb.Base.{List, [], ◌∷◌, length, some}
use par2tbb.Creator.{u32, u64}
use par2tbb.DataBlock.{DataBlock, set_length, set_location}

-- A difference of the type u64.
abbrev pub sub64 : ℕ → ℕ → ℕ
sub64 a b = u64 (a + (2 ^ 64 - u64 b))

-- The length of a block, by its number.
abbrev pub block_length : ℕ → ℕ → ℕ → ℕ
block_length filesize blocksize number = min blocksize (sub64 filesize (u64 (number * blocksize)))

-- The loop of InitialiseSourceBlocks for `left` blocks from `number` on: the blocks, and those of
-- later files.
unfoldable pub initialise_blocks : ℕ → ℕ → ℕ → ℕ → ℕ → List DataBlock → List DataBlock
initialise_blocks zero number diskfile filesize blocksize blocks = blocks
initialise_blocks (suc left) number diskfile filesize blocksize [] = []
initialise_blocks (suc left) number diskfile filesize blocksize (b ∷ bs) =
    set_length (block_length filesize blocksize number)
      (set_location diskfile (u64 (number * blocksize)) b)
    ∷ initialise_blocks left (u32 (number + 1)) diskfile filesize blocksize bs

-- The member blockcount of the creator's source file, and InitialiseSourceBlocks.
unfoldable pub source_block_count : ℕ → ℕ → ℕ
source_block_count filesize blocksize = u32 (sub64 (filesize + blocksize) 1 / blocksize)

unfoldable pub initialise_source_blocks : ℕ → ℕ → ℕ → List DataBlock → List DataBlock
initialise_source_blocks diskfile filesize blocksize blocks =
    initialise_blocks (source_block_count filesize blocksize) 0 diskfile filesize blocksize blocks

-- SetBlocks for `left` blocks from `number` on.
unfoldable pub set_blocks : ℕ → ℕ → ℕ → ℕ → List DataBlock → List DataBlock
set_blocks zero number filesize blocksize blocks = blocks
set_blocks (suc left) number filesize blocksize [] = []
set_blocks (suc left) number filesize blocksize (b ∷ bs) =
    set_length (block_length filesize blocksize number) b
    ∷ set_blocks left (u32 (number + 1)) filesize blocksize bs

-- The lengths of blocks, their sum, and blocks that lie one behind the other in a file.
abbrev pub lengths : List DataBlock → List ℕ
lengths [] = []
lengths (b ∷ bs) = b.length ∷ lengths bs

abbrev pub sum : List ℕ → ℕ
sum [] = 0
sum (n ∷ ns) = n + sum ns

abbrev pub AreWithin : ℕ → List DataBlock → Type 0
AreWithin blocksize [] = 0 < 1
AreWithin blocksize (b ∷ bs) = (0 < b.length) × (b.length ≤ blocksize) × AreWithin blocksize bs

abbrev pub AreInLine : ℕ → ℕ → List DataBlock → Type 0
AreInLine diskfile offset [] = 0 < 1
AreInLine diskfile offset (b ∷ bs) =
    (b.diskfile ≡ some diskfile) × (b.offset ≡ offset) × AreInLine diskfile (offset + b.length) bs

same_lengths :
    (left number diskfile filesize blocksize : ℕ) (bs cs : List DataBlock)
    → length bs ≡ left
    → length cs ≡ left
    → lengths (set_blocks left number filesize blocksize bs)
      ≡ lengths (initialise_blocks left number diskfile filesize blocksize cs)
unfolding set_blocks initialise_blocks set_length set_location
same_lengths zero number diskfile filesize blocksize [] [] hb hc = refl
same_lengths zero number diskfile filesize blocksize (b ∷ bs) cs hb hc = absurd (omega arith)
same_lengths zero number diskfile filesize blocksize [] (c ∷ cs) hb hc = absurd (omega arith)
same_lengths (suc left) number diskfile filesize blocksize [] cs hb hc = absurd (omega arith)
same_lengths (suc left) number diskfile filesize blocksize (b ∷ bs) [] hb hc = absurd (omega arith)
same_lengths (suc left) number diskfile filesize blocksize (b ∷ bs) (c ∷ cs) hb hc =
    ap (λ r. block_length filesize blocksize number ∷ r)
      (same_lengths left (u32 (number + 1)) diskfile filesize blocksize bs cs (omega arith)
        (omega arith))

-- A whole number of blocks covers what is left of the file, the last one in part.
pub record IsCut (blocksize rest diskfile offset : ℕ) (blocks : List DataBlock) : Type 0 where
  pub covered : sum (lengths blocks) ≡ rest
  pub within : AreWithin blocksize blocks
  pub in_line : AreInLine diskfile offset blocks

-- A block that is not the last one is a whole one.
last_or_full :
    (left blocksize rest offset number : ℕ)
    → number * blocksize ≡ offset
    → suc left * blocksize < rest + blocksize
    → (left ≡ 0) ⊎ ((number + 1) * blocksize ≡ offset + min blocksize rest)
last_or_full zero blocksize rest offset number at tight = inl refl
last_or_full (suc left) blocksize rest offset number at tight = inr (omega arith)

last_tight :
    (left blocksize rest : ℕ)
    → 0 < blocksize
    → rest ≤ suc left * blocksize
    → suc left * blocksize < rest + blocksize
    → (rest - min blocksize rest ≤ left * blocksize)
      × (left * blocksize < rest - min blocksize rest + blocksize)
last_tight zero blocksize rest positive cover tight = (omega arith, omega arith)
last_tight (suc left) blocksize rest positive cover tight = (omega arith, omega arith)

initialise-IsCut :
    (left number diskfile filesize blocksize rest offset : ℕ) (bs : List DataBlock)
    → length bs ≡ left
    → number + left < 2 ^ 32
    → filesize + blocksize < 2 ^ 64
    → (left ≡ 0) ⊎ (number * blocksize ≡ offset)
    → offset + rest ≡ filesize
    → rest ≤ left * blocksize
    → left * blocksize < rest + blocksize
    → IsCut blocksize rest diskfile offset
        (initialise_blocks left number diskfile filesize blocksize bs)
unfolding initialise_blocks set_length set_location
initialise-IsCut zero number diskfile filesize blocksize rest offset [] size few bound at total
      cover tight =
    record { covered = omega arith; within = omega arith; in_line = omega arith }
initialise-IsCut zero number diskfile filesize blocksize rest offset (b ∷ bs) size few bound at
      total cover tight =
    absurd (omega arith)
initialise-IsCut (suc left) number diskfile filesize blocksize rest offset [] size few bound at
      total cover tight =
    absurd (omega arith)
initialise-IsCut (suc left) number diskfile filesize blocksize rest offset (b ∷ bs) size few bound
      at total cover tight =
    let here : number * blocksize ≡ offset = ground arith in
    let next : u32 (number + 1) ≡ number + 1 = omega arith in
    let product : (number + 1) * blocksize ≡ number * blocksize + blocksize = omega arith in
    let place : u64 (number * blocksize) ≡ offset = omega arith in
    let left_here : sub64 filesize offset ≡ rest = omega arith in
    let piece = min blocksize rest in
    let some_rest : 0 < rest = omega arith in
    let some_piece : 0 < piece = omega arith in
    let cases : (left ≡ 0) ⊎ ((number + 1) * blocksize ≡ offset + piece) =
      last_or_full left blocksize rest offset number here tight in
    let edges = last_tight left blocksize rest (omega arith) cover tight in
    let cut =
      initialise-IsCut left (number + 1) diskfile filesize blocksize (rest - piece) (offset + piece)
        bs (omega arith) (omega arith) bound cases (omega arith) edges.0 edges.1 in
    rw (place, left_here, next)
      record {
        covered = omega (arith, cut.covered);
        within = (some_piece, omega arith, cut.within);
        in_line = (refl, refl, cut.in_line);
      }

-- For a positive block size, sizes whose sum fits in 64 bits, and a number of blocks that fits
-- in 32 bits, InitialiseSourceBlocks cuts a file into blocks of one byte to the block size that
-- lie one behind the other from the start of the file and sum to its size, when it is given as
-- many blocks as the file's blockcount; and SetBlocks of the repairer gives as many blocks the
-- same lengths.
pub initialise_source_blocks_lem :
    (filesize blocksize diskfile : ℕ) (created repaired : List DataBlock)
    → 0 < blocksize
    → filesize + blocksize < 2 ^ 64
    → (filesize + blocksize - 1) / blocksize < 2 ^ 32
    → length created ≡ source_block_count filesize blocksize
    → length repaired ≡ length created
    → let blocks = initialise_source_blocks diskfile filesize blocksize created in
      let count = source_block_count filesize blocksize in
      IsCut blocksize filesize diskfile 0 blocks
      × (lengths (set_blocks count 0 filesize blocksize repaired) ≡ lengths blocks)
unfolding initialise_source_blocks
initialise_source_blocks_lem filesize blocksize diskfile created repaired positive bound few size
      same =
    let count = source_block_count filesize blocksize in
    let up = filesize + blocksize - 1 in
    let exact : count ≡ up / blocksize =
      unfold source_block_count in
      ap (λ n. u32 (n / blocksize)) {x = sub64 (filesize + blocksize) 1} {y = up} (omega arith)
      ∙ omega arith in
    let low : up / blocksize * blocksize ≤ up = div-mul-le_self up blocksize in
    let high : up < (up / blocksize + 1) * blocksize =
      (div-lt_iff_lt-mul {k = blocksize} {x = up} {y = up / blocksize + 1} positive).0
        (omega arith) in
    let product : count * blocksize ≡ up / blocksize * blocksize = ap (λ n. n * blocksize) exact in
    let next : (up / blocksize + 1) * blocksize ≡ count * blocksize + blocksize = omega arith in
    (
      initialise-IsCut count 0 diskfile filesize blocksize filesize 0 created size (omega arith)
          bound (inr (omega arith)) (omega arith) (omega arith) (omega arith),
      same_lengths count 0 diskfile filesize blocksize repaired created (same ∙ size) size,
    )
