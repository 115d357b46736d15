-- ===== src/Packets/Recovery.antt =====
-- RecoveryPacket of recoverypacket.h and recoverypacket.cpp: the header of a recovery packet is in
-- memory, and its data is on disk.
pub mod Written
pub mod Finished
use par2tbb.Base.{ℕ, ◌+◌, ◌-◌, leb, if◌then◌else◌, Option, none, some, List, [], ◌∷◌, ◌++◌, length}
use par2tbb.Creator.{u64}
use par2tbb.Md5.{Context, little_endian, update, reset, final}
use par2tbb.Checksummer.{Disk, read}
use par2tbb.DataBlock.{DataBlock, Volume, no_block, set_length, set_location, write, write_data}
use par2tbb.Scan.{number, length_of, packet_magic}
use par2tbb.Packets.{Header, header_bytes, hashed_fields, no_hash, recoveryblockpacket_type}
use par2tbb.Packets.Fields.{header_of}

pub record RecoveryPacket : Type 0 where
  pub diskfile : ℕ
  pub offset : ℕ
  pub header : Header
  pub exponent : ℕ
  pub packetcontext : Context
  pub datablock : DataBlock

-- The bytes of RECOVERYBLOCKPACKET.
unfoldable pub recovery_bytes : RecoveryPacket → List ℕ
recovery_bytes p = header_bytes p.header ++ little_endian 4 p.exponent

-- BlockSize
unfoldable pub block_size : RecoveryPacket → ℕ
block_size p = p.header.length - 68

-- The data block behind the header on disk.
unfoldable pub data_location : ℕ → ℕ → ℕ → DataBlock
data_location diskfile offset blocksize =
    set_length blocksize (set_location diskfile (offset + 68) no_block)

-- Create. The hash field is not set before WriteHeader, and nothing reads it.
unfoldable pub create_recovery_packet : ℕ → ℕ → ℕ → ℕ → List ℕ → RecoveryPacket
create_recovery_packet diskfile offset blocksize exponent setid =
    let header : Header = record {
      magic = packet_magic;
      length = u64 (68 + blocksize);
      hash = no_hash;
      setid = setid;
      type = recoveryblockpacket_type;
    } in
    record {
      diskfile = diskfile;
      offset = offset;
      header = header;
      exponent = exponent;
      packetcontext = update reset (hashed_fields header ++ little_endian 4 exponent);
      datablock = data_location diskfile offset blocksize;
    }

-- WriteData: the packet after it, and the file.
abbrev pub with_packet : RecoveryPacket → Option (ℕ × Volume) → Option (RecoveryPacket × Volume)
with_packet p none = none
with_packet p (some (wrote, v)) = some (p, v)

unfoldable pub write_packet_data :
    Volume → RecoveryPacket → ℕ → List ℕ → Option (RecoveryPacket × Volume)
write_packet_data v p position buffer =
    with_packet (record p { packetcontext = update p.packetcontext buffer })
      (write_data v p.datablock position buffer)

-- WriteHeader
abbrev pub with_volume : RecoveryPacket → Option Volume → Option (RecoveryPacket × Volume)
with_volume p none = none
with_volume p (some v) = some (p, v)

unfoldable pub write_header : Volume → RecoveryPacket → Option (RecoveryPacket × Volume)
write_header v p =
    let q = record p { header = record p.header { hash = final p.packetcontext } } in
    with_volume q (write v p.offset (recovery_bytes q))

-- Load. The hash context of a loaded packet is not used.
unfoldable pub recovery_loaded : ℕ → ℕ → List ℕ → Option (List ℕ) → Option RecoveryPacket
recovery_loaded diskfile offset h none = none
recovery_loaded diskfile offset h (some bytes) = some (record {
  diskfile = diskfile;
  offset = offset;
  header = header_of h;
  exponent = number bytes;
  packetcontext = reset;
  datablock = data_location diskfile offset (length_of h - 68);
})

unfoldable pub load_recovery_packet : Disk → ℕ → ℕ → List ℕ → Option RecoveryPacket
load_recovery_packet d diskfile offset h =
    let p = recovery_loaded diskfile offset h (read d (offset + 64) 4) in
    if leb (length_of h) 68 then none else p
