-- ===== src/Packets.antt =====
-- The packets of par2fileformat.h: the header that each starts with, and CriticalPacket of
-- criticalpacket.h and criticalpacket.cpp. A packet is its header and the bytes of its body, which
-- are those of the fields in their order; a number is stored as leu32 and leu64 of letype.h do.
pub mod Fields
pub mod Order
pub mod Main
pub mod Description
pub mod Verification
pub mod Recovery
pub mod Scanned
use par2tbb.Base.{ℕ, ◌+◌, ◌-◌, ◌*◌, ◌/◌, zero, suc, if◌then◌else◌, ltb, leb, ◌==◌, Bool}
use par2tbb.Base.{Option, none, some, List, [], ◌∷◌, ◌++◌, length, replicate}
use par2tbb.Creator.{u64}
use par2tbb.Md5.{little_endian, update, reset, final}
use par2tbb.Checksummer.{Disk, read}
use par2tbb.Checksummer.Slices.{byte_at}
use par2tbb.Scan.{packet_magic, length_of}
use par2tbb.DataBlock.{Volume, write}

-- The packet types: "PAR 2.0" and a name.
abbrev pub par_type : List ℕ → List ℕ
par_type name = 80 ∷ 65 ∷ 82 ∷ 32 ∷ 50 ∷ 46 ∷ 48 ∷ 0 ∷ name

abbrev pub fileverificationpacket_type : List ℕ
fileverificationpacket_type = par_type (73 ∷ 70 ∷ 83 ∷ 67 ∷ 0 ∷ 0 ∷ 0 ∷ 0 ∷ [])

abbrev pub filedescriptionpacket_type : List ℕ
filedescriptionpacket_type = par_type (70 ∷ 105 ∷ 108 ∷ 101 ∷ 68 ∷ 101 ∷ 115 ∷ 99 ∷ [])

abbrev pub mainpacket_type : List ℕ
mainpacket_type = par_type (77 ∷ 97 ∷ 105 ∷ 110 ∷ 0 ∷ 0 ∷ 0 ∷ 0 ∷ [])

abbrev pub recoveryblockpacket_type : List ℕ
recoveryblockpacket_type = par_type (82 ∷ 101 ∷ 99 ∷ 118 ∷ 83 ∷ 108 ∷ 105 ∷ 99 ∷ [])

abbrev pub creatorpacket_type : List ℕ
creatorpacket_type = par_type (67 ∷ 114 ∷ 101 ∷ 97 ∷ 116 ∷ 111 ∷ 114 ∷ 0 ∷ [])

-- PACKET_HEADER
pub record Header : Type 0 where
  pub magic : List ℕ
  pub length : ℕ
  pub hash : List ℕ
  pub setid : List ℕ
  pub type : List ℕ

-- What AllocatePacket leaves in a hash field.
abbrev pub no_hash : List ℕ
no_hash = replicate 16 0

-- The bytes of a header from the set id on, and all of them.
unfoldable pub hashed_fields : Header → List ℕ
hashed_fields h = h.setid ++ h.type

unfoldable pub header_bytes : Header → List ℕ
header_bytes h = h.magic ++ (little_endian 8 h.length ++ (h.hash ++ hashed_fields h))

-- The header of a new packet with a body of `size` bytes.
unfoldable pub new_header : ℕ → List ℕ → Header
new_header size type = record {
  magic = packet_magic;
  length = u64 (64 + size);
  hash = no_hash;
  setid = no_hash;
  type = type;
}

-- FinishPacket: the set id, and the hash of all that stands behind the hash.
unfoldable pub finish_packet : List ℕ → List ℕ → Header → Header
finish_packet setid body header =
    let h = record header { setid = setid } in
    record h { hash = final (update reset (hashed_fields h ++ body)) }

-- The bytes in memory, packetdata, which CriticalPacket::WritePacket writes.
abbrev pub packet_bytes : Header → List ℕ → List ℕ
packet_bytes h body = header_bytes h ++ body

unfoldable pub write_packet : Volume → ℕ → Header → List ℕ → Option Volume
write_packet v fileoffset h body = write v fileoffset (packet_bytes h body)

-- What each Load reads behind a header.
unfoldable pub read_body : Disk → ℕ → List ℕ → Option (List ℕ)
read_body d offset h = read d (offset + 64) (length_of h - 64)

-- CreatorPacket::Create, where `creator` is the text that it stores.
abbrev pub pad_to_4 : ℕ → ℕ
pad_to_4 size = (3 + size) / 4 * 4

unfoldable pub padded_text : List ℕ → List ℕ
padded_text text = text ++ replicate (pad_to_4 (length text) - length text) 0

unfoldable pub create_creator_packet : List ℕ → List ℕ → Header × List ℕ
create_creator_packet creator setid =
    let body = padded_text creator in
    (finish_packet setid body (new_header (length body) creatorpacket_type), body)

-- CreatorPacket::Load: the description of the client.
unfoldable pub load_creator_packet : Disk → ℕ → List ℕ → Option (List ℕ)
load_creator_packet d offset h =
    let client = read_body d offset h in
    if leb (length_of h) 64 then none else if ltb 100000 (length_of h - 64) then none else client
