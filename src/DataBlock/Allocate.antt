-- ===== src/DataBlock/Allocate.antt =====
-- AllocateSourceBlocks of par2repairer.cpp: the source blocks of the recoverable files, in one array.
-- `none` is a file without packets; the target blocks are as many fresh blocks.
use mathlib.Core.List.{append_assoc}
use par2tbb.Base.{ℕ, zero, suc, ◌+◌, ◌<◌, ◌^◌, ◌≡◌, refl, sym, ap, ◌∙◌, arith}
use par2tbb.Base.{ltb, if◌then◌else◌, Bool-cases, inl, inr}
use par2tbb.Base.{
  Option, none, some, List, [], ◌∷◌, ◌++◌, length, take, drop, replicate, length-replicate,
  length-append,
}
use par2tbb.Creator.{u32}
use par2tbb.DataBlock.{DataBlock, no_block, set_length}
use par2tbb.DataBlock.Split.{set_blocks, block_length}

pub record FileBlocks : Type 0 where
  pub blockcount : ℕ
  pub filesize : ℕ

-- The loop that counts the blocks of the first `left` files.
unfoldable pub count_source_blocks : ℕ → List (Option FileBlocks) → ℕ → ℕ
count_source_blocks zero files count = count
count_source_blocks (suc left) [] count = count
count_source_blocks (suc left) (none ∷ fs) count = count_source_blocks left fs count
count_source_blocks (suc left) (some f ∷ fs) count =
    count_source_blocks left fs (u32 (count + f.blockcount))

-- A file's place in the array: firstblocknumber, and the index of its first block.
pub record BlockPlace : Type 0 where
  pub firstblocknumber : ℕ
  pub sourceblocks : ℕ

abbrev pub add_place :
    Option BlockPlace
    → List (Option BlockPlace) × List DataBlock
    → List (Option BlockPlace) × List DataBlock
add_place p (places, array) = (p ∷ places, array)

-- The loop that gives the blocks to the first `left` files.
unfoldable pub give_blocks :
    ℕ
    → List (Option FileBlocks)
    → ℕ
    → ℕ
    → ℕ
    → List DataBlock
    → List (Option BlockPlace) × List DataBlock
give_blocks zero files blocknumber sourceblock blocksize array = ([], array)
give_blocks (suc left) [] blocknumber sourceblock blocksize array = ([], array)
give_blocks (suc left) (none ∷ fs) blocknumber sourceblock blocksize array =
    add_place none (give_blocks left fs blocknumber sourceblock blocksize array)
give_blocks (suc left) (some f ∷ fs) blocknumber sourceblock blocksize array =
    let behind = drop sourceblock array in
    add_place (some (record { firstblocknumber = blocknumber; sourceblocks = sourceblock })) (
      give_blocks left fs (blocknumber + 1) (sourceblock + f.blockcount) blocksize
        (take sourceblock array ++ set_blocks f.blockcount 0 f.filesize blocksize behind))

-- The places and the array for the recoverable files.
unfoldable pub allocate_source_blocks :
    ℕ → ℕ → List (Option FileBlocks) → List (Option BlockPlace) × List DataBlock
allocate_source_blocks recoverable blocksize files =
    let count = count_source_blocks recoverable files 0 in
    if ltb 0 count
    then give_blocks recoverable files 0 0 blocksize (replicate count no_block)
    else ([], [])

-- The blocks of each of the first `left` files, one file behind the other.
abbrev pub cut_files : ℕ → List (Option FileBlocks) → ℕ → List DataBlock
cut_files zero files blocksize = []
cut_files (suc left) [] blocksize = []
cut_files (suc left) (none ∷ fs) blocksize = cut_files left fs blocksize
cut_files (suc left) (some f ∷ fs) blocksize =
    set_blocks f.blockcount 0 f.filesize blocksize (replicate f.blockcount no_block)
    ++ cut_files left fs blocksize

abbrev pub total_blocks : ℕ → List (Option FileBlocks) → ℕ
total_blocks zero files = 0
total_blocks (suc left) [] = 0
total_blocks (suc left) (none ∷ fs) = total_blocks left fs
total_blocks (suc left) (some f ∷ fs) = f.blockcount + total_blocks left fs

count_source_blocks_lem :
    (left : ℕ) (files : List (Option FileBlocks)) (count : ℕ)
    → count + total_blocks left files < 2 ^ 32
    → count_source_blocks left files count ≡ count + total_blocks left files
unfolding count_source_blocks
count_source_blocks_lem zero files count bound = omega arith
count_source_blocks_lem (suc left) [] count bound = omega arith
count_source_blocks_lem (suc left) (none ∷ fs) count bound =
    count_source_blocks_lem left fs count bound
count_source_blocks_lem (suc left) (some f ∷ fs) count bound =
    let sum : u32 (count + f.blockcount) ≡ count + f.blockcount = omega arith in
    rw sum (omega (arith, count_source_blocks_lem left fs (count + f.blockcount) (omega arith)))

replicate-add :
    (n m : ℕ) → replicate (n + m) no_block ≡ replicate n no_block ++ replicate m no_block
replicate-add zero m = ap (λ k. replicate k no_block) (omega arith)
replicate-add (suc n) m =
    ap (λ k. replicate k no_block) {y = suc (n + m)} (omega arith)
    ∙ ap (λ t. no_block ∷ t) (replicate-add n m)

set_blocks-append :
    (n number filesize blocksize : ℕ) (bs cs : List DataBlock)
    → length bs ≡ n
    → set_blocks n number filesize blocksize (bs ++ cs)
      ≡ set_blocks n number filesize blocksize bs ++ cs
unfolding set_blocks
set_blocks-append zero number filesize blocksize [] cs size = refl
set_blocks-append zero number filesize blocksize (b ∷ bs) cs size = absurd (omega arith)
set_blocks-append (suc n) number filesize blocksize [] cs size = absurd (omega arith)
set_blocks-append (suc n) number filesize blocksize (b ∷ bs) cs size =
    ap (λ t. set_length (block_length filesize blocksize number) b ∷ t)
      (set_blocks-append n (u32 (number + 1)) filesize blocksize bs cs (omega arith))

length-set_blocks :
    (n number filesize blocksize : ℕ) (bs : List DataBlock)
    → length (set_blocks n number filesize blocksize bs) ≡ length bs
unfolding set_blocks
length-set_blocks zero number filesize blocksize bs = refl
length-set_blocks (suc n) number filesize blocksize [] = refl
length-set_blocks (suc n) number filesize blocksize (b ∷ bs) =
    ap suc (length-set_blocks n (u32 (number + 1)) filesize blocksize bs)

take_front : (front bs : List DataBlock) → take (length front) (front ++ bs) ≡ front
take_front [] bs = refl
take_front (b ∷ front) bs = ap (λ t. b ∷ t) (take_front front bs)

drop_front : (front bs : List DataBlock) → drop (length front) (front ++ bs) ≡ bs
drop_front [] bs = refl
drop_front (b ∷ front) bs = drop_front front bs

give_blocks_lem :
    (left : ℕ) (files : List (Option FileBlocks)) (blocknumber blocksize : ℕ)
    (front : List DataBlock)
    → (give_blocks left files blocknumber
        (length front)
        blocksize
        (front ++ replicate (total_blocks left files) no_block)).1
      ≡ front ++ cut_files left files blocksize
unfolding give_blocks
give_blocks_lem zero files blocknumber blocksize front = refl
give_blocks_lem (suc left) [] blocknumber blocksize front = refl
give_blocks_lem (suc left) (none ∷ fs) blocknumber blocksize front =
    give_blocks_lem left fs blocknumber blocksize front
give_blocks_lem (suc left) (some f ∷ fs) blocknumber blocksize front =
    let n = f.blockcount in
    let more = total_blocks left fs in
    let fresh = replicate n no_block in
    let given = set_blocks n 0 f.filesize blocksize fresh in
    let next = front ++ given in
    let size : length front + n ≡ length next = omega (
      arith,
      length-append front given,
      length-set_blocks n 0 f.filesize blocksize fresh,
      length-replicate n no_block,
    ) in
    let array : front ++ set_blocks n 0 f.filesize blocksize (replicate (n + more) no_block)
        ≡ next ++ replicate more no_block =
      ap (λ t. front ++ t)
        (ap (set_blocks n 0 f.filesize blocksize) (replicate-add n more)
          ∙ set_blocks-append n 0 f.filesize blocksize fresh (replicate more no_block)
              (length-replicate n no_block))
      ∙ sym (append_assoc front given (replicate more no_block)) in
    rw
      (
        take_front front (replicate (n + more) no_block),
        drop_front front (replicate (n + more) no_block),
        array,
        size,
      )
      (give_blocks_lem left fs (blocknumber + 1) blocksize next
        ∙ append_assoc front given (cut_files left fs blocksize))

cut_files-nil :
    (left : ℕ) (files : List (Option FileBlocks)) (blocksize : ℕ)
    → total_blocks left files ≡ 0
    → cut_files left files blocksize ≡ []
unfolding set_blocks
cut_files-nil zero files blocksize nothing = refl
cut_files-nil (suc left) [] blocksize nothing = refl
cut_files-nil (suc left) (none ∷ fs) blocksize nothing = cut_files-nil left fs blocksize nothing
cut_files-nil (suc left) (some f ∷ fs) blocksize nothing =
    let no_block_of : f.blockcount ≡ 0 = omega arith in
    rw no_block_of (cut_files-nil left fs blocksize (omega arith))

-- When the blocks of the recoverable files fit in 32 bits, AllocateSourceBlocks counts them
-- all, and fills the array of as many blocks with the blocks of each of these files that has
-- packets, as SetBlocks cuts them, one file behind the other.
pub allocate_source_blocks_lem :
    (recoverable blocksize : ℕ) (files : List (Option FileBlocks))
    → total_blocks recoverable files < 2 ^ 32
    → (count_source_blocks recoverable files 0 ≡ total_blocks recoverable files)
      × ((allocate_source_blocks recoverable blocksize files).1
          ≡ cut_files recoverable files blocksize)
unfolding allocate_source_blocks
allocate_source_blocks_lem recoverable blocksize files bound =
    let count : count_source_blocks recoverable files 0 ≡ total_blocks recoverable files =
      omega (arith, count_source_blocks_lem recoverable files 0 (omega arith)) in
    elim (Bool-cases (ltb 0 (total_blocks recoverable files))) [
      | inl some_blocks ↦
          (count, rw (count, some_blocks) (give_blocks_lem recoverable files 0 blocksize []))
      | inr no_blocks ↦ (
        count,
        rw (count, no_blocks) (sym (cut_files-nil recoverable files blocksize (ground arith))),
      )
    ]
