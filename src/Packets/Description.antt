-- ===== src/Packets/Description.antt =====
-- DescriptionPacket of descriptionpacket.h and descriptionpacket.cpp, with the fields of
-- FILEDESCRIPTIONPACKET. File names are shorter than 2 ^ 32 - 3 bytes, and the separators in them
-- are those of a system that is not Windows.
pub mod Body
pub mod RoundTrip
use par2tbb.Base.{
  ℕ, zero, suc, ◌+◌, ◌-◌, ltb, leb, not, ◌&&◌, if◌then◌else◌, ◌==◌, Option, none, some, List, [],
  ◌∷◌, ◌++◌, length, take, drop,
}
use par2tbb.Md5.{little_endian, update, reset, final}
use par2tbb.Checksummer.{Disk}
use par2tbb.Matching.{hash_same}
use par2tbb.Scan.{number, length_of}
use par2tbb.Packets.{
  Header, new_header, finish_packet, packet_bytes, read_body, no_hash, padded_text,
  filedescriptionpacket_type,
}
use par2tbb.Packets.Fields.{header_of}

pub record DescriptionPacket : Type 0 where
  pub header : Header
  pub fileid : List ℕ
  pub hashfull : List ℕ
  pub hash16k : List ℕ
  pub filesize : ℕ
  pub name : List ℕ

unfoldable pub description_body : DescriptionPacket → List ℕ
description_body p =
    p.fileid ++ (p.hashfull ++ (p.hash16k ++ (little_endian 8 p.filesize ++ p.name)))

-- The bytes of a string in front of the NUL that ends it, with NULs behind the memory.
unfoldable pub c_string : List ℕ → List ℕ
c_string [] = []
c_string (b ∷ bs) = if b == 0 then [] else b ∷ c_string bs

-- FileName
unfoldable pub file_name : DescriptionPacket → List ℕ
file_name p = c_string p.name

-- Create
unfoldable pub create_description_packet : List ℕ → ℕ → DescriptionPacket
create_description_packet filename filesize =
    let name = padded_text filename in
    record {
      header = new_header (56 + length name) filedescriptionpacket_type;
      fileid = no_hash;
      hashfull = no_hash;
      hash16k = no_hash;
      filesize = filesize;
      name = name;
    }

-- Hash16k, HashFull, ComputeFileId, and FinishPacket of the base class.
unfoldable pub set_hash16k : List ℕ → DescriptionPacket → DescriptionPacket
set_hash16k hash p = record p { hash16k = hash }

unfoldable pub set_hashfull : List ℕ → DescriptionPacket → DescriptionPacket
set_hashfull hash p = record p { hashfull = hash }

unfoldable pub compute_file_id : DescriptionPacket → DescriptionPacket
compute_file_id p = record p {
  fileid = final (update reset (p.hash16k ++ (little_endian 8 p.filesize ++ c_string p.name)));
}

unfoldable pub finish_description : List ℕ → DescriptionPacket → DescriptionPacket
finish_description setid p = record p { header = finish_packet setid (description_body p) p.header }

-- Load, behind the tests on the length. The numbers are the offsets of the fields in the body.
unfoldable pub description_of : List ℕ → List ℕ → DescriptionPacket
description_of h body = record {
  header = header_of h;
  fileid = take 16 body;
  hashfull = take 16 (drop 16 body);
  hash16k = take 16 (drop 32 body);
  filesize = number (take 8 (drop 48 body));
  name = drop 56 body;
}

unfoldable pub description_loaded : List ℕ → Option (List ℕ) → Option DescriptionPacket
description_loaded h none = none
description_loaded h (some body) =
    let p = description_of h body in
    if leb p.filesize 16384 && not (hash_same p.hash16k p.hashfull) then none else some p

unfoldable pub load_description_packet : Disk → ℕ → List ℕ → Option DescriptionPacket
load_description_packet d offset h =
    let p = description_loaded h (read_body d offset h) in
    if leb (length_of h) 120 then none else if ltb 100000 (length_of h - 120) then none else p
