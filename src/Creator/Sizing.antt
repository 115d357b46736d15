-- ===== src/Creator/Sizing.antt =====
-- ComputeBlockSizeAndBlockCount of par2creator.cpp, over the sizes of the files.
use par2tbb.Base.{ℕ, zero, suc, ◌+◌, ◌-◌, ◌*◌, ◌/◌, ◌==◌, ltb, if◌then◌else◌}
use par2tbb.Base.{List, [], ◌∷◌, length, Option, none, some}
use par2tbb.Creator.{Creator, u32, u64}

-- The blocks of `size` bytes that the files need, added to a count.
abbrev pub count_blocks : ℕ → ℕ → List ℕ → ℕ
count_blocks count size [] = count
count_blocks count size (f ∷ fs) = count_blocks (u64 (count + u64 (f + size - 1) / size)) size fs

-- The same for blocks of `size` words of 4 bytes.
abbrev pub count_word_blocks : ℕ → ℕ → List ℕ → ℕ
count_word_blocks count size [] = count
count_word_blocks count size (f ∷ fs) =
    count_word_blocks (u64 (count + u64 (u64 (f + 3) / 4 + size - 1) / size)) size fs

-- The words of 4 bytes that the files take.
abbrev pub count_words : ℕ → List ℕ → ℕ
count_words total [] = total
count_words total (f ∷ fs) = count_words (u64 (total + u64 (f + 3) / 4)) fs

abbrev pub largest_size : ℕ → List ℕ → ℕ
largest_size largest [] = largest
largest_size largest (f ∷ fs) = largest_size (if ltb largest f then f else largest) fs

-- The block size found so far: bestsize, bestdistance and bestcount.
pub record Best : Type 0 where
  pub size : ℕ
  pub distance : ℕ
  pub count : ℕ

abbrev pub distance : ℕ → ℕ → ℕ
distance count wanted = if ltb wanted count then count - wanted else wanted - count

-- A block size takes the place of the best one when it comes nearer to the wanted count.
unfoldable pub consider : ℕ → ℕ → ℕ → Best → Best
consider wanted size count best =
    if ltb (distance count wanted) best.distance
    then record { size = size; distance = distance count wanted; count = count }
    else best

unfoldable pub measure : ℕ → List ℕ → ℕ → Best → Best
measure wanted files size best = consider wanted size (count_word_blocks 0 size files) best

-- A round of the binary search: the next bounds.
unfoldable pub narrow : ℕ → ℕ → ℕ → ℕ → ℕ → ℕ × ℕ
narrow wanted count lower upper size =
    if ltb count wanted
    then (lower, size)
    else if ltb wanted count
    then (size, upper)
    else (lower, size)

-- The binary search on the bounds of the block size, on fuel.
unfoldable pub search : ℕ → ℕ → List ℕ → ℕ × ℕ → Best → Best
search zero wanted files bounds best = best
search (suc fuel) wanted files (lower, upper) best =
    let size = u64 (lower + upper) / 2 in
    let bounds = narrow wanted (count_word_blocks 0 size files) lower upper size in
    let rest = search fuel wanted files bounds (measure wanted files size best) in
    if ltb (lower + 1) upper then rest else best

-- The bounds, and the search between them after both were measured.
unfoldable pub lower_bound : ℕ → ℕ → ℕ
lower_bound total wanted = total / wanted

unfoldable pub upper_bound : ℕ → ℕ → List ℕ → ℕ
upper_bound total wanted files = u64 (total + wanted - length files - 1) / (wanted - length files)

unfoldable pub best_size : ℕ → ℕ → List ℕ → Best
best_size total wanted files =
    let lower = lower_bound total wanted in
    let upper = upper_bound total wanted files in
    let first : Best = record { size = lower; distance = 1000000; count = 0 } in
    search (upper - lower) wanted files (lower, upper)
      (measure wanted files upper (measure wanted files lower first))

-- The branch on the block size.
unfoldable pub block_count : Creator → List ℕ → Option Creator
block_count c files =
    let count = count_blocks 0 c.blocksize files in
    if ltb 32768 count then none else some (record c { sourceblockcount = u32 count })

-- The end of the search: the best size in bytes.
unfoldable pub take_best : Creator → Best → Option Creator
take_best c best =
    if ltb 32768 best.count
    then none
    else some (record c { sourceblockcount = u32 best.count; blocksize = u64 (best.size * 4) })

-- The branch on the number of blocks.
unfoldable pub block_size : Creator → List ℕ → Option Creator
block_size c files =
    let total = count_words 0 files in
    if ltb c.sourceblockcount (length files)
    then none
    else if c.sourceblockcount == length files
    then some (record c { blocksize = u64 (largest_size 0 files + 3) / 4 * 4 })
    else if ltb total c.sourceblockcount
    then some (record c { sourceblockcount = u32 total; blocksize = 4 })
    else take_best c (best_size total c.sourceblockcount files)

unfoldable pub compute_block_size_and_block_count : Creator → List ℕ → Option Creator
compute_block_size_and_block_count c files =
    if ltb 0 c.blocksize
    then block_count c files
    else if ltb 0 c.sourceblockcount
    then block_size c files
    else some c
