-- ===== src/Packets/Main.antt =====
-- MainPacket of mainpacket.h and mainpacket.cpp. A main packet that was made and one that was
-- loaded are the same object: its bytes in memory and the numbers kept beside them.
pub mod Sort
pub mod RoundTrip
use par2tbb.Base.{
  ℕ, zero, suc, ◌+◌, ◌-◌, ◌*◌, ◌/◌, ◌%◌, ◌==◌, ltb, not, ◌||◌, if◌then◌else◌, true, false, Option,
  none, some, List, [], ◌∷◌, ◌++◌, length, take, drop, map,
}
use par2tbb.Creator.{u32}
use par2tbb.Md5.{little_endian, update, reset, final}
use par2tbb.Md5.Digest.{joined}
use par2tbb.Checksummer.{Disk}
use par2tbb.Scan.{number, length_of, setid_of}
use par2tbb.Packets.{Header, new_header, finish_packet, packet_bytes, read_body}
use par2tbb.Matching.{hash_less}
use par2tbb.Packets.{mainpacket_type}

pub record MainPacket : Type 0 where
  pub packetdata : List ℕ
  pub blocksize : ℕ
  pub totalfilecount : ℕ
  pub recoverablefilecount : ℕ

-- SetId and FileId
unfoldable pub set_id : MainPacket → List ℕ
set_id p = setid_of (take 64 p.packetdata)

unfoldable pub file_id : MainPacket → ℕ → List ℕ
file_id p filenumber = take 16 (drop (76 + filenumber * 16) p.packetdata)

-- The ids of `count` files from one on.
unfoldable pub file_ids_from : MainPacket → ℕ → ℕ → List (List ℕ)
file_ids_from p zero filenumber = []
file_ids_from p (suc count) filenumber =
    file_id p filenumber ∷ file_ids_from p count (suc filenumber)

-- The sort by Par2CreatorSourceFile::CompareLess, where `id_of` gives the file id of a source file.
module _ {ℓ} {A : Type ℓ} (id_of : A → List ℕ) where
  unfoldable pub insert_file : A → List A → List A
  insert_file x [] = x ∷ []
  insert_file x (y ∷ ys) =
      let rest = insert_file x ys in if hash_less (id_of y) (id_of x) then y ∷ rest else x ∷ y ∷ ys

  unfoldable pub sort_files : List A → List A
  sort_files [] = []
  sort_files (x ∷ xs) = insert_file x (sort_files xs)

-- The body of the packet: the block size, the number of files, and their ids.
unfoldable pub main_body : ℕ → List (List ℕ) → List ℕ
main_body blocksize fileids =
    little_endian 8 blocksize ++ (little_endian 4 (u32 (length fileids)) ++ joined fileids)

-- The set id is the hash of the body.
unfoldable pub main_header : List ℕ → Header
main_header body =
    finish_packet (final (update reset body)) body (new_header (length body) mainpacket_type)

unfoldable pub main_packet : ℕ → List (List ℕ) → MainPacket
main_packet blocksize fileids =
    let body = main_body blocksize fileids in
    record {
      packetdata = packet_bytes (main_header body) body;
      blocksize = blocksize;
      totalfilecount = u32 (length fileids);
      recoverablefilecount = u32 (length fileids);
    }

-- Create: the source files in their new order, and the packet.
unfoldable pub create_main_packet {ℓ} :
    {A : Type ℓ} → (A → List ℕ) → List A → ℕ → List A × MainPacket
create_main_packet id_of sourcefiles blocksize =
    let sorted = sort_files id_of sourcefiles in (sorted, main_packet blocksize (map id_of sorted))

-- Load, behind the tests on the length: what the body says.
unfoldable pub main_loaded : List ℕ → ℕ → Option (List ℕ) → Option MainPacket
main_loaded h totalfilecount none = none
main_loaded h totalfilecount (some body) =
    let recoverablefilecount = number (take 4 (drop 8 body)) in
    let blocksize = number (take 8 body) in
    if ltb totalfilecount recoverablefilecount
    then none
    else if (blocksize == 0) || not (blocksize % 4 == 0)
    then none
    else some (record {
      packetdata = h ++ body;
      blocksize = blocksize;
      totalfilecount = totalfilecount;
      recoverablefilecount = recoverablefilecount;
    })

unfoldable pub load_main_packet : Disk → ℕ → List ℕ → Option MainPacket
load_main_packet d offset h =
    let totalfilecount = u32 ((length_of h - 76) / 16) in
    let p = main_loaded h totalfilecount (read_body d offset h) in
    if ltb (length_of h) 76
    then none
    else if ltb 0 ((length_of h - 76) % 16)
    then none
    else if ltb (76 + 32768 * 16) (length_of h)
    then none
    else p
