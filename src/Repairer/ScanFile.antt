-- ===== src/Repairer/ScanFile.antt =====
-- ScanDataFile of par2repairer.cpp, without its messages: a file is scanned with a FileCheckSummer
-- and the verification hash table, and compared with the packets of the source file whose blocks
-- it holds. Source files, data blocks and files on disk are numbered.
pub mod End
pub mod Verdict
pub mod Total
use par2tbb.Base.{ℕ, zero, suc, ◌+◌, ◌*◌, ltb, ◌==◌, if◌then◌else◌, Bool, true, false, ◌&&◌}
use par2tbb.Base.{Option, none, some, List, [], ◌∷◌}
use par2tbb.Creator.{u32}
use par2tbb.Md5.{reset}
use par2tbb.Md5.Stream.{zero_bytes}
use par2tbb.Checksummer.{Disk, Summer, file_size, start, step, jump, file_hashes}
use par2tbb.Matching.{Entry, HashTable, hash_same}
use par2tbb.Matching.Find.{Blocks, find_match, is_number}

-- The constructor of FileCheckSummer. The buffer's bytes, the reading position and the checksum are
-- set by Start before they are read.
unfoldable pub new_summer : Disk → ℕ → (ℕ → ℕ) → ℕ → Summer
new_summer d blocksize windowtable windowmask = record {
  blocksize = blocksize;
  windowtable = windowtable;
  windowmask = windowmask;
  filesize = file_size d;
  currentoffset = 0;
  buffer = zero_bytes (2 * blocksize);
  outpointer = 0;
  inpointer = 0;
  tailpointer = 0;
  readoffset = 0;
  checksum = 0;
  contextfull = reset;
  context16k = reset;
}

pub data MatchType : Type 0 where
  no_match : MatchType
  full_match : MatchType
  partial_match : MatchType

-- What the packets of a source file say: BlockCount, FileSize, HashFull and Hash16k.
pub record Packets : Type 0 where
  pub blockcount : ℕ
  pub filesize : ℕ
  pub hashfull : List ℕ
  pub hash16k : List ℕ

-- The variables of the scan; `found` holds the data blocks that were set, with their offsets.
pub record Progress : Type 0 where
  pub source : Option ℕ
  pub matchtype : MatchType
  pub count : ℕ
  pub duplicatecount : ℕ
  pub multipletargets : Bool
  pub next : Option Entry
  pub blocks : Blocks
  pub found : List (ℕ × ℕ)

-- The variables at the start.
abbrev pub first_progress : Option ℕ → Blocks → Progress
first_progress source blocks = record {
  source = source;
  matchtype = MatchType.full_match;
  count = 0;
  duplicatecount = 0;
  multipletargets = false;
  next = none;
  blocks = blocks;
  found = [];
}

-- VerificationHashEntry::SetBlock: the location of the entry's data block.
unfoldable pub set_block : ℕ → ℕ → Entry → Progress → Progress
set_block file offset e p = record p {
  blocks = record p.blocks {
    disk_file = λ n. if n == e.data_block then some file else p.blocks.disk_file n;
  };
  found = (e.data_block, offset) ∷ p.found;
}

-- VerificationHashEntry::Next
unfoldable pub entry_at : List Entry → Option ℕ → Option Entry
entry_at entries none = none
entry_at [] (some n) = none
entry_at (e ∷ entries) (some n) =
    let rest = entry_at entries (some n) in if e.number == n then some e else rest

abbrev pub is_source : ℕ → Option ℕ → Bool
is_source file none = false
is_source file (some source) = source == file

-- A match: which file it is of, and whether the whole may still be a full match.
unfoldable pub take_match : ℕ → Entry → Progress → Progress
take_match offset e p =
    let first = record p {
      source = some e.source_file;
      matchtype = if e.first_block && (offset == 0) then p.matchtype else MatchType.partial_match;
    } in
    let later = record p {
      matchtype = if is_number e.number p.next then p.matchtype else MatchType.partial_match;
      multipletargets = if is_source e.source_file p.source then p.multipletargets else true;
    } in
    if p.count == 0 then first else later

module _ (d : Disk) (file : ℕ) (h : HashTable) (entries : List Entry) (packets : ℕ → Packets)
    (blocksallocated : Bool) where
  unfoldable pub matched : Summer → Entry → Progress → (Bool × Summer) × Progress
  matched s e p =
      let q = take_match s.currentoffset e p in
      let r = if blocksallocated then set_block file s.currentoffset e q else q in
      (
        jump d (p.blocks.size e.data_block) s,
        record r { count = u32 (p.count + 1); next = entry_at entries e.next },
      )

  unfoldable pub missed : ℕ → Summer → Bool → Progress → (Bool × Summer) × Progress
  missed blocksize s true p = (
    jump d blocksize s,
    record p {
      matchtype = MatchType.partial_match;
      duplicatecount = u32 (p.duplicatecount + 1);
      next = none;
    },
  )
  missed blocksize s false p =
      (step d s, record p { matchtype = MatchType.partial_match; next = none })

  -- A round of the loop.
  unfoldable pub found_or_not :
      ℕ → Summer → Option Entry × Bool → Progress → (Bool × Summer) × Progress
  found_or_not blocksize s (some e, duplicate) p = matched s e p
  found_or_not blocksize s (none, duplicate) p = missed blocksize s duplicate p

  unfoldable pub scan_round : Summer → Progress → (Bool × Summer) × Progress
  scan_round s p = found_or_not s.blocksize s (find_match h p.blocks s file p.next p.source) p

  -- The loop, on fuel; `none` is the result `false` after a failed read.
  unfoldable pub scan_loop : ℕ → Summer → Progress → Option (Summer × Progress)
  scan_loop zero s p = none
  scan_loop (suc fuel) s p =
      let ((ok, t), q) = scan_round s p in
      let rest = scan_loop fuel t q in
      if ltb s.currentoffset (file_size d) then if ok then rest else none else some (s, p)

  -- The comparison with the packets of the source file.
  unfoldable pub is_same_file : Summer → Packets → ℕ → Bool
  is_same_file s packets count =
      let (hashfull, hash16k) = file_hashes s in
      (count == packets.blockcount)
      && (file_size d == packets.filesize)
      && hash_same hashfull packets.hashfull
      && hash_same hash16k packets.hash16k

  unfoldable pub confirm : MatchType → Bool → MatchType
  confirm MatchType.full_match true = MatchType.full_match
  confirm MatchType.full_match false = MatchType.partial_match
  confirm MatchType.partial_match same = MatchType.partial_match
  confirm MatchType.no_match same = MatchType.partial_match

  unfoldable pub compared : Summer → Progress → Option ℕ → MatchType
  compared s p none = MatchType.partial_match
  compared s p (some source) = confirm p.matchtype (is_same_file s (packets source) p.count)

  unfoldable pub verdict : Summer → Progress → Progress
  verdict s p = record p {
    matchtype = if ltb 0 p.count then compared s p p.source else MatchType.no_match;
  }

  abbrev pub concluded : Option (Summer × Progress) → Option Progress
  concluded none = none
  concluded (some (s, p)) = some (verdict s p)

  abbrev pub after_start : ℕ → Progress → Bool × Summer → Option Progress
  after_start fuel p (false, s) = none
  after_start fuel p (true, s) = concluded (scan_loop fuel s p)

  unfoldable pub scan_data_file : ℕ → ℕ → (ℕ → ℕ) → ℕ → Option ℕ → Blocks → Option Progress
  scan_data_file fuel blocksize windowtable windowmask source blocks =
      let p = first_progress source blocks in
      if file_size d == 0
      then some (record p { matchtype = MatchType.no_match })
      else after_start fuel p (start d (new_summer d blocksize windowtable windowmask))
