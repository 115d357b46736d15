-- ===== src/Packets/Verification.antt =====
-- VerificationPacket of verificationpacket.h and verificationpacket.cpp, with the fields of
-- FILEVERIFICATIONPACKET; an entry is the hash and the CRC of a block.
pub mod RoundTrip
use par2tbb.Base.{
  ℕ, zero, suc, ◌+◌, ◌-◌, ◌*◌, ◌/◌, ◌%◌, ltb, leb, if◌then◌else◌, Option, none, some, List, [], ◌∷◌,
  ◌++◌, length, take, drop, map, replicate, get_elem?,
}
use par2tbb.Creator.{u32}
use par2tbb.Md5.{little_endian}
use par2tbb.Md5.Digest.{joined}
use par2tbb.Checksummer.{Disk}
use par2tbb.Scan.{number, length_of}
use par2tbb.Packets.{Header, new_header, finish_packet, read_body, no_hash}
use par2tbb.Packets.{fileverificationpacket_type}
use par2tbb.Packets.Fields.{header_of}

-- FILEVERIFICATIONENTRY
pub record Entry : Type 0 where
  pub hash : List ℕ
  pub crc : ℕ

pub record VerificationPacket : Type 0 where
  pub header : Header
  pub fileid : List ℕ
  pub entries : List Entry
  pub blockcount : ℕ

unfoldable pub entry_bytes : Entry → List ℕ
entry_bytes e = e.hash ++ little_endian 4 e.crc

unfoldable pub verification_body : VerificationPacket → List ℕ
verification_body p = p.fileid ++ joined (map entry_bytes p.entries)

-- Create, with the entries zeroed.
abbrev no_entry : Entry
no_entry = record { hash = no_hash; crc = 0 }

unfoldable pub create_verification_packet : ℕ → VerificationPacket
create_verification_packet blockcount = record {
  header = new_header (16 + blockcount * 20) fileverificationpacket_type;
  fileid = no_hash;
  entries = replicate blockcount no_entry;
  blockcount = blockcount;
}

-- FileId, and FinishPacket of the base class.
unfoldable pub set_file_id : List ℕ → VerificationPacket → VerificationPacket
set_file_id fileid p = record p { fileid = fileid }

unfoldable pub finish_verification : List ℕ → VerificationPacket → VerificationPacket
finish_verification setid p = record p {
  header = finish_packet setid (verification_body p) p.header;
}

-- SetBlockHashAndCRC, for a block number of the packet.
unfoldable pub set_entry : List Entry → ℕ → Entry → List Entry
set_entry [] blocknumber e = []
set_entry (x ∷ xs) zero e = e ∷ xs
set_entry (x ∷ xs) (suc blocknumber) e = x ∷ set_entry xs blocknumber e

unfoldable pub set_block_hash_and_crc : ℕ → Entry → VerificationPacket → VerificationPacket
set_block_hash_and_crc blocknumber e p = record p { entries = set_entry p.entries blocknumber e }

-- VerificationEntry
unfoldable pub verification_entry : VerificationPacket → ℕ → Option Entry
verification_entry p blocknumber = get_elem? p.entries blocknumber

-- Load, behind the tests on the length.
unfoldable pub entries_of : ℕ → List ℕ → List Entry
entries_of zero bytes = []
entries_of (suc blockcount) bytes =
    record { hash = take 16 bytes; crc = number (take 4 (drop 16 bytes)) }
    ∷ entries_of blockcount (drop 20 bytes)

unfoldable pub verification_loaded : List ℕ → Option (List ℕ) → Option VerificationPacket
verification_loaded h none = none
verification_loaded h (some body) =
    let blockcount = u32 ((length_of h - 80) / 20) in
    some (record {
      header = header_of h;
      fileid = take 16 body;
      entries = entries_of blockcount (drop 16 body);
      blockcount = blockcount;
    })

unfoldable pub load_verification_packet : Disk → ℕ → List ℕ → Option VerificationPacket
load_verification_packet d offset h =
    let p = verification_loaded h (read_body d offset h) in
    if leb (length_of h) 80
    then none
    else if ltb 0 ((length_of h - 80) % 20)
    then none
    else if ltb (80 + 32768 * 20) (length_of h)
    then none
    else p
