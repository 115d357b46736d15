-- ===== src/Checksummer.antt =====
-- FileCheckSummer of filechecksummer.h and filechecksummer.cpp: the window that slides along a
-- file, with the CRC of the bytes in it.
-- Pointers into the buffer are offsets from its start. A method returns its result and the object.
pub mod Slices
pub mod Hashes
pub mod Buffer
pub mod Fill
pub mod Window
pub mod Scan
pub mod Jump
pub mod Run
pub mod Progress
use par2tbb.Base.{ℕ, zero, suc, ◌+◌, ◌-◌, ◌*◌, ◌^◌, min, ltb, leb, ◌==◌, if◌then◌else◌}
use par2tbb.Base.{Bool, true, false, Option, none, some, List, [], ◌∷◌, ◌++◌, length, take, drop}
use par2tbb.Base.Bits.{◌⊕◌}
use par2tbb.Crc.{slide_char, block_crc, update_block, ones}
use par2tbb.Crc
use par2tbb.Md5
use par2tbb.Md5.{Context, reset, update, final}
use par2tbb.Md5.Stream.{zero_bytes}
use Slices.{byte_at}

-- The file that is scanned; the device may refuse any read.
pub record Disk : Type 0 where
  pub contents : List ℕ
  pub readable : ℕ → ℕ → Bool

-- DiskFile::Read of `len` bytes at `offset`, and DiskFile::FileSize.
unfoldable pub read : Disk → ℕ → ℕ → Option (List ℕ)
read d offset len = if d.readable offset len then some (take len (drop offset d.contents)) else none

abbrev pub file_size : Disk → ℕ
file_size d = length d.contents

pub record Summer : Type 0 where
  pub blocksize : ℕ
  pub windowtable : ℕ → ℕ
  pub windowmask : ℕ
  pub filesize : ℕ
  pub currentoffset : ℕ
  pub buffer : List ℕ
  pub outpointer : ℕ
  pub inpointer : ℕ
  pub tailpointer : ℕ
  pub readoffset : ℕ
  pub checksum : ℕ
  pub contextfull : Context
  pub context16k : Context

-- The first 16k.
unfoldable pub head_size : ℕ
head_size = 16384

-- UpdateHashes
unfoldable pub update_hashes : ℕ → List ℕ → Summer → Summer
update_hashes offset bytes s =
    let first = head_size - offset in
    let head = update s.context16k (take first bytes) in
    let past = ltb head_size (offset + length bytes) in
    if leb head_size offset
    then record s { contextfull = update s.contextfull bytes }
    else if leb head_size (offset + length bytes)
    then record s {
      context16k = head;
      contextfull = if past then update head (drop first bytes) else head;
    }
    else record s { context16k = update s.context16k bytes }

-- The buffer after `bytes` are copied to `at`.
abbrev pub overwrite : List ℕ → ℕ → List ℕ → List ℕ
overwrite buffer at bytes = take at buffer ++ (bytes ++ drop (at + length bytes) buffer)

-- Blanking the buffer behind the data.
unfoldable pub blank_rest : Summer → Summer
blank_rest s =
    let want = 2 * s.blocksize - s.tailpointer in
    if ltb 0 want then record s { buffer = take s.tailpointer s.buffer ++ zero_bytes want } else s

-- The object after a read of `bytes`.
unfoldable pub take_in : List ℕ → Summer → Summer
take_in bytes s =
    let hashed = update_hashes s.readoffset bytes s in
    record s {
      contextfull = hashed.contextfull;
      context16k = hashed.context16k;
      buffer = overwrite s.buffer s.tailpointer bytes;
      readoffset = s.readoffset + length bytes;
      tailpointer = s.tailpointer + length bytes;
    }

-- The object after the read that Fill makes.
unfoldable pub filled : Option (List ℕ) → Summer → Bool × Summer
filled none s = (false, s)
filled (some bytes) s = (true, blank_rest (take_in bytes s))

-- Fill
unfoldable pub fill : Disk → Summer → Bool × Summer
fill d s =
    let want = min (s.filesize - s.readoffset) (2 * s.blocksize - s.tailpointer) in
    if leb s.filesize s.readoffset
    then (true, s)
    else if ltb 0 want
    then filled (read d s.readoffset want) s
    else (true, blank_rest s)

-- `checksum = ~0 ^ CRCUpdateBlock(~0, blocksize, buffer)` after a Fill that succeeded.
unfoldable pub rescan : Bool × Summer → Bool × Summer
rescan (false, s) = (false, s)
rescan (true, s) = (true, record s { checksum = block_crc (take s.blocksize s.buffer) })

-- Start
unfoldable pub start : Disk → Summer → Bool × Summer
start d s = rescan (
    fill d (record s {
      currentoffset = 0;
      readoffset = 0;
      tailpointer = 0;
      outpointer = 0;
      inpointer = s.blocksize;
    }))

-- The end of the file: an empty window.
unfoldable pub finish_file : Summer → Summer
finish_file s = record s {
  currentoffset = s.filesize;
  tailpointer = 0;
  outpointer = 0;
  buffer = zero_bytes s.blocksize ++ drop s.blocksize s.buffer;
  checksum = 0;
}

-- The window one byte on, in the buffer.
unfoldable pub slide : Summer → Summer
slide s = record s {
  currentoffset = s.currentoffset + 1;
  inpointer = s.inpointer + 1;
  outpointer = s.outpointer + 1;
  checksum =
      s.windowmask
      ⊕ slide_char (s.windowmask ⊕ s.checksum) (byte_at s.buffer s.inpointer)
          (byte_at s.buffer s.outpointer) s.windowtable;
}

-- Copying the upper half of the buffer back to its start.
unfoldable pub shift_back : Summer → Summer
shift_back s = record s {
  buffer = overwrite s.buffer 0 (take s.blocksize (drop s.outpointer s.buffer));
  inpointer = s.outpointer;
  outpointer = 0;
  tailpointer = s.tailpointer - s.blocksize;
}

-- Step
unfoldable pub step : Disk → Summer → Bool × Summer
step d s =
    let t = slide s in
    if leb s.filesize s.currentoffset
    then (false, s)
    else if leb s.filesize (s.currentoffset + 1)
    then (true, finish_file s)
    else if ltb t.outpointer t.blocksize
    then (true, t)
    else fill d (shift_back t)

-- Keeping the data of the buffer from `outpointer` on.
unfoldable pub keep_rest : Summer → Summer
keep_rest s =
    let keep = s.tailpointer - s.outpointer in
    record s {
      buffer =
          if ltb 0 keep
          then overwrite s.buffer 0 (take keep (drop s.outpointer s.buffer))
          else s.buffer;
      tailpointer = if ltb 0 keep then keep else 0;
      outpointer = 0;
      inpointer = s.blocksize;
    }

-- Jump, with the assertions off.
unfoldable pub jump : Disk → ℕ → Summer → Bool × Summer
jump d distance s =
    let by = if ltb s.blocksize distance then s.blocksize else distance in
    let moved = record s { currentoffset = s.currentoffset + by; outpointer = s.outpointer + by } in
    if leb s.filesize s.currentoffset
    then (false, s)
    else if distance == 0
    then (false, s)
    else if distance == 1
    then step d s
    else if leb s.filesize (s.currentoffset + by)
    then (true, finish_file s)
    else rescan (fill d (keep_rest moved))

-- GetFileHashes: the hash of the whole file and of its first 16k.
unfoldable pub file_hashes : Summer → List ℕ × List ℕ
file_hashes s =
    let hash16k = final s.context16k in
    ((if ltb s.filesize head_size then hash16k else final s.contextfull), hash16k)

-- BlockLength
unfoldable pub block_length : Summer → ℕ
block_length s = min s.blocksize (s.filesize - s.currentoffset)

-- ShortChecksum
unfoldable pub short_checksum : ℕ → Summer → ℕ
short_checksum blocklength s =
    let crc = update_block ones (take blocklength (drop s.outpointer s.buffer)) in
    (if ltb blocklength s.blocksize then Crc.update_zeros crc (s.blocksize - blocklength) else crc)
    ⊕ ones

-- Hash
unfoldable pub hash : Summer → List ℕ
hash s = final (update reset (take s.blocksize (drop s.outpointer s.buffer)))

-- ShortHash
unfoldable pub short_hash : ℕ → Summer → List ℕ
short_hash blocklength s =
    let c = update reset (take blocklength (drop s.outpointer s.buffer)) in
    final
      (if ltb blocklength s.blocksize then Md5.update_zeros c (s.blocksize - blocklength) else c)
