-- ===== src/DataBlock.antt =====
-- datablock.h and datablock.cpp: a piece of a file on disk, read and written by position.
-- The buffer that a read fills is its result, and `none` is the result `false`.
pub mod Bounds
pub mod Copy
pub mod Split
pub mod Allocate
use par2tbb.Base.{
  ℕ, ◌+◌, ◌-◌, ◌≤◌, min, ltb, leb, if◌then◌else◌, Bool, true, false, length, take, drop,
}
use par2tbb.Base.{Option, none, some, List, [], ◌∷◌, ◌++◌, replicate}
use par2tbb.Checksummer.{Disk, read, overwrite}
use par2tbb.Md5.Stream.{zero_bytes}

pub record DataBlock : Type 0 where
  pub diskfile : Option ℕ
  pub offset : ℕ
  pub length : ℕ

-- DataBlock::DataBlock
abbrev pub no_block : DataBlock
no_block = record { diskfile = none; offset = 0; length = 0 }

-- SetLength, SetLocation and ClearLocation
unfoldable pub set_length : ℕ → DataBlock → DataBlock
set_length length b = record b { length = length }

unfoldable pub set_location : ℕ → ℕ → DataBlock → DataBlock
set_location diskfile offset b = record b { diskfile = some diskfile; offset = offset }

unfoldable pub clear_location : DataBlock → DataBlock
clear_location b = record b { diskfile = none; offset = 0 }

-- IsSet
abbrev pub is_some : Option ℕ → Bool
is_some none = false
is_some (some file) = true

unfoldable pub block_is_set : DataBlock → Bool
block_is_set b = is_some b.diskfile

-- The rest of a buffer of `size` bytes zeroed behind what was read.
unfoldable pub zero_rest : ℕ → Option (List ℕ) → Option (List ℕ)
zero_rest size none = none
zero_rest size (some bytes) = some (bytes ++ zero_bytes (size - length bytes))

-- ReadData of `size` bytes at `position`, from the file of the block.
unfoldable pub read_data : Disk → DataBlock → ℕ → ℕ → Option (List ℕ)
read_data d b position size =
    let want = min size (b.length - position) in
    if ltb position b.length
    then zero_rest size (read d (b.offset + position) want)
    else some (zero_bytes size)

-- A file that can be written: DiskFile::Write puts the bytes at their place in a file that is
-- large enough, or fails.
pub record Volume : Type 0 where
  pub disk : Disk
  pub writable : ℕ → ℕ → Bool

unfoldable pub write : Volume → ℕ → List ℕ → Option Volume
write v offset bytes =
    if v.writable offset (length bytes)
    then some
        (record v { disk = record v.disk { contents = overwrite v.disk.contents offset bytes } })
    else none

abbrev pub wrote_all : ℕ → Option Volume → Option (ℕ × Volume)
wrote_all have none = none
wrote_all have (some v) = some (have, v)

-- WriteData of a buffer at `position`: the number of bytes written, and the file after it.
unfoldable pub write_data : Volume → DataBlock → ℕ → List ℕ → Option (ℕ × Volume)
write_data v b position bytes =
    let have = min (length bytes) (b.length - position) in
    if ltb position b.length
    then wrote_all have (write v (b.offset + position) (take have bytes))
    else some (0, v)
