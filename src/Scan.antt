-- ===== src/Scan.antt =====
-- LoadPacketsFromFile of par2repairer.cpp: the packets that it finds in a file. A packet header
-- is its 64 bytes, in the layout of par2fileformat.h, and a packet that is found is recorded with
-- its place. What a failed read leaves in a buffer is not used.
pub mod Digest
pub mod Complete
pub mod Sound
use par2tbb.Base.{
  ℕ, zero, suc, ◌+◌, ◌-◌, ◌*◌, ◌%◌, ◌^◌, min, ltb, leb, ◌==◌, if◌then◌else◌, Bool, true, false,
  ◌&&◌,
}
use par2tbb.Base.{Option, none, some, List, [], ◌∷◌, ◌++◌, length, take, drop}
use par2tbb.Creator.{u64}
use par2tbb.Md5.{Context, reset, update, final}
use par2tbb.Checksummer.{Disk, read, file_size}
use par2tbb.Matching.{hash_same}
use par2tbb.Repairer.{keep_first}

-- packet_magic
abbrev pub packet_magic : List ℕ
packet_magic = 80 ∷ 65 ∷ 82 ∷ 50 ∷ 0 ∷ 80 ∷ 75 ∷ 84 ∷ []

-- The fields of a header: magic, length, hash, setid, and the bytes from setid on.
abbrev pub number : List ℕ → ℕ
number [] = 0
number (b ∷ bs) = b + 256 * number bs

unfoldable pub magic_of : List ℕ → List ℕ
magic_of h = take 8 h

unfoldable pub length_of : List ℕ → ℕ
length_of h = number (take 8 (drop 8 h))

unfoldable pub hash_of : List ℕ → List ℕ
hash_of h = take 16 (drop 16 h)

unfoldable pub setid_of : List ℕ → List ℕ
setid_of h = take 16 (drop 32 h)

unfoldable pub from_setid : List ℕ → List ℕ
from_setid h = drop 32 h

pub record Found : Type 0 where
  pub offset : ℕ
  pub header : List ℕ

-- The loop over a buffer: the first of `left` places with the magic value, or `left`.
unfoldable pub find_magic : ℕ → List ℕ → ℕ
find_magic zero bytes = 0
find_magic (suc left) bytes =
    let rest = find_magic left (drop 1 bytes) in
    if hash_same (magic_of bytes) packet_magic then 0 else suc rest

-- What the loop for the magic value does with the bytes that it read.
abbrev pub reached : ℕ → Option (List ℕ) → ℕ
reached left none = 0
reached left (some bytes) = find_magic left bytes

abbrev pub sought : ℕ → ℕ → Option (List ℕ) → Option Found → Option Found
sought offset left none rest = none
sought offset left (some bytes) rest =
    let current = find_magic left bytes in
    if ltb current left
    then some (record { offset = offset + current; header = take 64 (drop current bytes) })
    else rest

-- The loop for the magic value, on fuel; `none` at the end of the file or after a failed read.
unfoldable pub seek : ℕ → Disk → ℕ → ℕ → Option Found
seek zero d buffersize offset = none
seek (suc fuel) d buffersize offset =
    let want = min buffersize (file_size d - offset) in
    let bytes = read d offset want in
    let rest = seek fuel d buffersize (offset + reached (want - 63) bytes) in
    if leb (offset + 64) (file_size d) then sought offset (want - 63) bytes rest else none

-- The header at an offset, or the next one; `none` ends the scan.
abbrev pub header_or_next : Disk → ℕ → ℕ → Option (List ℕ) → Option Found
header_or_next d buffersize offset none = none
header_or_next d buffersize offset (some h) =
    let next = seek (file_size d) d buffersize (offset + 1) in
    if hash_same (magic_of h) packet_magic
    then some (record { offset = offset; header = h })
    else next

-- The loop that hashes the rest of a packet, on fuel.
abbrev pub update_read : Option (List ℕ) → Context → Context
update_read none c = c
update_read (some bytes) c = update c bytes

abbrev pub hashed : Option (List ℕ) → Option Context → Option Context
hashed none rest = none
hashed (some bytes) rest = rest

unfoldable pub hash_rest : ℕ → Disk → ℕ → ℕ → ℕ → Context → Option Context
hash_rest zero d buffersize current limit c = if ltb current limit then none else some c
hash_rest (suc fuel) d buffersize current limit c =
    let want = min buffersize (limit - current) in
    let bytes = read d current want in
    let rest = hash_rest fuel d buffersize (current + want) limit (update_read bytes c) in
    if ltb current limit then hashed bytes rest else some c

-- What a round leaves: the next offset, the set id, and the packet if it is taken.
pub record Round : Type 0 where
  pub offset : ℕ
  pub setid : Option (List ℕ)
  pub found : List Found

abbrev pub same_set : Option (List ℕ) → List ℕ → Bool
same_set none id = false
same_set (some set) id = hash_same set id

unfoldable pub take_packet : Option (List ℕ) → Found → Round
take_packet setid f =
    let set = keep_first setid (some (setid_of f.header)) in
    record {
      offset = u64 (f.offset + length_of f.header);
      setid = set;
      found = if same_set set (setid_of f.header) then f ∷ [] else [];
    }

abbrev pub pass_by : Option (List ℕ) → Found → Round
pass_by setid f = record { offset = f.offset + 1; setid = setid; found = [] }

abbrev pub check_hash : Option (List ℕ) → Found → Option Context → Round
check_hash setid f none = pass_by setid f
check_hash setid f (some c) =
    if hash_same (final c) (hash_of f.header) then take_packet setid f else pass_by setid f

unfoldable pub length_fits : Disk → Found → Bool
length_fits d f =
    let len = length_of f.header in
    leb 64 len && (len % 4 == 0) && leb (u64 (f.offset + len)) (file_size d)

unfoldable pub check_packet : Disk → ℕ → Option (List ℕ) → Found → Round
check_packet d buffersize setid f =
    let limit = u64 (f.offset + length_of f.header) in
    let context = update reset (from_setid f.header) in
    if length_fits d f
    then check_hash setid f (hash_rest limit d buffersize (f.offset + 64) limit context)
    else pass_by setid f

-- The loop over the packets of a file, on fuel.
abbrev pub round : Disk → ℕ → Option (List ℕ) → Option Found → Option Round
round d buffersize setid none = none
round d buffersize setid (some f) = some (check_packet d buffersize setid f)

abbrev pub next_offset : Option Round → ℕ
next_offset none = 0
next_offset (some r) = r.offset

abbrev pub next_setid : Option Round → Option (List ℕ)
next_setid none = none
next_setid (some r) = r.setid

abbrev pub collect : Option Round → List Found → List Found
collect none rest = []
collect (some r) rest = r.found ++ rest

unfoldable pub scan : ℕ → Disk → ℕ → Option (List ℕ) → ℕ → List Found
scan zero d buffersize setid offset = []
scan (suc fuel) d buffersize setid offset =
    let at = header_or_next d buffersize offset (read d offset 64) in
    let r = round d buffersize setid at in
    let rest = scan fuel d buffersize (next_setid r) (next_offset r) in
    if leb (offset + 64) (file_size d) then collect r rest else []

-- The packets of one file, with the set id of the files before it, if any; on fuel.
unfoldable pub load_packets_from_file : ℕ → Disk → Option (List ℕ) → List Found
load_packets_from_file fuel d setid =
    if ltb 0 (file_size d) then scan fuel d (min 1048576 (file_size d)) setid 0 else []
