-- ===== src/Tests/DataBlock.antt =====
-- A block of four bytes in a file of eight.
use par2tbb.DataBlock.Allocate.{
  FileBlocks, count_source_blocks, allocate_source_blocks, cut_files, allocate_source_blocks_lem,
}
use par2tbb.Base.{
  Option, none, List, [], ◌∷◌, some, true, false, ◌≡◌, refl, ◌-◌, ◌≤◌, arith, length, take, drop,
}
use par2tbb.DataBlock.{
  DataBlock, Volume, no_block, set_length, set_location, clear_location, block_is_set,
}
use par2tbb.DataBlock.{read_data, write_data, write}
use par2tbb.DataBlock.Bounds.{write_data_bounds}
use par2tbb.DataBlock.Copy.{read_data-write_data}
use par2tbb.DataBlock.Split.{
  IsCut, lengths, initialise_source_blocks, initialise_blocks, source_block_count, set_blocks,
  initialise_source_blocks_lem,
}

abbrev eight_bytes : Volume
eight_bytes = record {
  disk = record { contents = 1 ∷ 2 ∷ 3 ∷ 4 ∷ 5 ∷ 6 ∷ 7 ∷ 8 ∷ []; readable = λ offset len. true };
  writable = λ offset len. true;
}

abbrev middle : DataBlock
middle = set_location 0 2 (set_length 4 no_block)

abbrev changed : Volume
changed = record eight_bytes {
  disk = record { contents = 1 ∷ 2 ∷ 3 ∷ 9 ∷ 9 ∷ 9 ∷ 7 ∷ 8 ∷ []; readable = λ offset len. true };
}

middle-set : (block_is_set middle ≡ true) × (block_is_set (clear_location middle) ≡ false)
unfolding block_is_set set_location set_length clear_location
middle-set = (refl, refl)

middle-written : write_data eight_bytes middle 1 (9 ∷ 9 ∷ 9 ∷ 9 ∷ 9 ∷ []) ≡ some (3, changed)
unfolding write_data write set_location set_length
middle-written = refl

write_data_bounds_example :
    (3 ≤ 4 - 1)
    × (length changed.disk.contents ≡ 8)
    × (take 2 changed.disk.contents ≡ 1 ∷ 2 ∷ [])
    × (drop 6 changed.disk.contents ≡ 7 ∷ 8 ∷ [])
unfolding set_location set_length
write_data_bounds_example =
    write_data_bounds eight_bytes changed middle 1 3 (9 ∷ 9 ∷ 9 ∷ 9 ∷ 9 ∷ []) (omega arith)
      middle-written

read_data-write_data_example : read_data changed.disk middle 1 5 ≡ some (9 ∷ 9 ∷ 9 ∷ 0 ∷ 0 ∷ [])
unfolding set_location set_length
read_data-write_data_example =
    read_data-write_data eight_bytes changed middle 1 3 (9 ∷ 9 ∷ 9 ∷ 9 ∷ 9 ∷ []) (omega arith)
      (λ offset len. refl) middle-written

-- A file of ten bytes takes two blocks of four and one of two.
abbrev three_blocks : List DataBlock
three_blocks = no_block ∷ no_block ∷ no_block ∷ []

initialise_source_blocks_lem_example :
    IsCut 4 10 7 0 (initialise_source_blocks 7 10 4 three_blocks)
    × (lengths (set_blocks (source_block_count 10 4) 0 10 4 three_blocks)
        ≡ lengths (initialise_source_blocks 7 10 4 three_blocks))
unfolding source_block_count
initialise_source_blocks_lem_example =
    initialise_source_blocks_lem 10 4 7 three_blocks three_blocks (omega arith) (omega arith)
      (omega arith) refl refl

ten_bytes-lengths : lengths (initialise_source_blocks 7 10 4 three_blocks) ≡ 4 ∷ 4 ∷ 2 ∷ []
unfolding initialise_source_blocks initialise_blocks source_block_count set_location set_length
ten_bytes-lengths = refl

-- Two files with a file without packets between them, and one that is not recoverable.
abbrev some_files : List (Option FileBlocks)
some_files =
    some (record { blockcount = 2; filesize = 5 })
    ∷ none
    ∷ some (record { blockcount = 1; filesize = 3 })
    ∷ some (record { blockcount = 9; filesize = 33 })
    ∷ []

allocate_source_blocks_lem_example :
    (count_source_blocks 3 some_files 0 ≡ 3)
    × ((allocate_source_blocks 3 4 some_files).1 ≡ cut_files 3 some_files 4)
allocate_source_blocks_lem_example = allocate_source_blocks_lem 3 4 some_files (omega arith)
