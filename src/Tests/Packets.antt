-- ===== src/Tests/Packets.antt =====
-- Two source files, and their packets on a disk that refuses no read and no write.
use mathlib.Core.List.Perm
use par2tbb.Base.{ℕ, zero, suc, ◌+◌, ◌*◌, ◌<◌, ◌≤◌, ◌≡◌, refl, arith}
use par2tbb.Base.{true, some, none, List, [], ◌∷◌, ◌++◌, length, replicate, take, drop, ◌%◌}
use par2tbb.Crc.Bitwise.{AreBytes}
use par2tbb.Md5.Digest.{joined}
use par2tbb.Checksummer.{Disk}
use par2tbb.DataBlock.{Volume}
use par2tbb.Scan.{length_of, load_packets_from_file}
use par2tbb.Scan.Complete.{IsPacket, places}
use par2tbb.Packets.{header_bytes, packet_bytes}
use par2tbb.Packets.Order.{IsHash}
use par2tbb.Packets.Main.{
  main_body, main_header, main_packet, create_main_packet, load_main_packet, file_ids_from,
}
use par2tbb.Packets.Main.Sort.{create_main_packet-perm}
use par2tbb.Packets.Main.RoundTrip.{load_main_packet-main_packet, load_main_packet_validates}
use par2tbb.Packets.Description.{description_body, load_description_packet, file_name}
use par2tbb.Packets.Description.RoundTrip.{described, load_description_packet-described}
use par2tbb.Packets.Verification.{Entry, verification_body, load_verification_packet}
use par2tbb.Packets.Verification.RoundTrip.{verified, load_verification_packet-verified}
use par2tbb.Packets.Recovery.{recovery_bytes}
use par2tbb.Packets.Recovery.Written.{write_recovery_packet}
use par2tbb.Packets.Recovery.Finished.{finished, write_recovery_packet_lem}
use par2tbb.Packets.Scanned.{
  Source, critical_packets, critical_size, source_size, load_packets_from_file-critical_packets,
}

abbrev hash_a : List ℕ
hash_a = replicate 16 9

abbrev hash_b : List ℕ
hash_b = replicate 16 5

AreBytes-replicate : (n b : ℕ) → b < 256 → AreBytes (replicate n b)
AreBytes-replicate zero b h = tt
AreBytes-replicate (suc n) b h = (h, AreBytes-replicate n b h)

hash_a-IsHash : IsHash hash_a
hash_a-IsHash = (refl, AreBytes-replicate 16 9 (omega arith))

hash_b-IsHash : IsHash hash_b
hash_b-IsHash = (refl, AreBytes-replicate 16 5 (omega arith))

-- A disk with some bytes and one more behind them.
abbrev disk_of : List ℕ → Disk
disk_of bytes = record { contents = bytes ++ (77 ∷ []); readable = λ offset len. true }

create_main_packet-perm_example :
    (create_main_packet (λ x. x) (hash_a ∷ hash_b ∷ []) 8).1
    ≡ (create_main_packet (λ x. x) (hash_b ∷ hash_a ∷ []) 8).1
create_main_packet-perm_example =
    create_main_packet-perm (λ x. x) (hash_a ∷ hash_b ∷ []) (hash_b ∷ hash_a ∷ []) 8
      (Perm.swap hash_b hash_a []) (hash_a-IsHash, (hash_b-IsHash, omega arith))

abbrev two_ids : List (List ℕ)
two_ids = hash_b ∷ hash_a ∷ []

load_main_packet-main_packet_example :
    (load_main_packet
        (disk_of (main_packet 8 two_ids).packetdata)
        0
        (header_bytes (main_header (main_body 8 two_ids)))
      ≡ some (main_packet 8 two_ids))
    × (file_ids_from (main_packet 8 two_ids) 2 0 ≡ two_ids)
load_main_packet-main_packet_example =
    load_main_packet-main_packet (disk_of (main_packet 8 two_ids).packetdata) 0 8 two_ids (77 ∷ [])
      (λ offset len. refl) (hash_b-IsHash, (hash_a-IsHash, omega arith)) (omega arith) (omega arith)
      (omega arith) refl refl

load_main_packet_validates_example :
    (2 ≤ 2)
    × (2 ≤ 32768)
    × (length_of (header_bytes (main_header (main_body 8 two_ids))) ≡ 76 + 16 * 2)
    × (0 < 8)
    × (8 % 4 ≡ 0)
unfolding main_packet
load_main_packet_validates_example =
    load_main_packet_validates (disk_of (main_packet 8 two_ids).packetdata) 0
      (header_bytes (main_header (main_body 8 two_ids))) (main_packet 8 two_ids)
      load_main_packet-main_packet_example.0

-- A file of three bytes with the name "a.b", and its two blocks.
abbrev short_name : List ℕ
short_name = 97 ∷ 46 ∷ 98 ∷ []

load_description_packet-described_example :
    let p = described hash_b short_name 3 hash_a hash_a in
    (load_description_packet
        (disk_of (packet_bytes p.header (description_body p)))
        0
        (header_bytes p.header)
      ≡ some p)
    × (file_name p ≡ short_name)
    × (p.filesize ≡ 3)
    × (p.hash16k ≡ hash_a)
    × (p.hashfull ≡ hash_a)
load_description_packet-described_example =
    let p = described hash_b short_name 3 hash_a hash_a in
    load_description_packet-described hash_b short_name 3 hash_a hash_a refl (omega arith)
      (omega arith) refl refl (disk_of (packet_bytes p.header (description_body p))) 0 (77 ∷ [])
      (λ offset len. refl) (omega arith) (omega arith, (omega arith, (omega arith, omega arith)))
      (λ short. refl) refl

abbrev two_entries : List Entry
two_entries = record { hash = hash_a; crc = 7 } ∷ record { hash = hash_b; crc = 4294967295 } ∷ []

load_verification_packet-verified_example :
    let p = verified hash_b hash_a two_entries in
    (load_verification_packet
        (disk_of (packet_bytes p.header (verification_body p)))
        0
        (header_bytes p.header)
      ≡ some p)
    × (p.entries ≡ two_entries)
    × (p.fileid ≡ hash_a)
    × (p.blockcount ≡ 2)
load_verification_packet-verified_example =
    let p = verified hash_b hash_a two_entries in
    load_verification_packet-verified hash_b hash_a two_entries refl refl
      (refl, omega arith, (refl, omega arith, omega arith)) (omega arith)
      (disk_of (packet_bytes p.header (verification_body p))) 0 (77 ∷ []) (λ offset len. refl)
      (omega arith) refl

-- Two pieces of data in a file of 80 bytes.
abbrev blank_volume : Volume
blank_volume = record {
  disk = record { contents = replicate 80 0; readable = λ offset len. true };
  writable = λ offset len. true;
}

abbrev two_pieces : List (List ℕ)
two_pieces = (1 ∷ 2 ∷ 3 ∷ []) ∷ (4 ∷ []) ∷ []

write_recovery_packet_lem_example :
    (w : Volume) × (write_recovery_packet blank_volume 0 4 4 6 hash_a two_pieces
      ≡ some (finished 0 4 4 6 hash_a two_pieces, w))
    × (take 72 (drop 4 w.disk.contents)
        ≡ recovery_bytes (finished 0 4 4 6 hash_a two_pieces) ++ joined two_pieces)
    × IsPacket hash_a (recovery_bytes (finished 0 4 4 6 hash_a two_pieces) ++ joined two_pieces)
unfolding joined
write_recovery_packet_lem_example =
    write_recovery_packet_lem 0 4 4 6 hash_a two_pieces refl (omega arith) refl refl blank_volume
      (λ offset len. refl) (omega arith)

-- The critical packets of the file above, with the text "par2".
abbrev one_source : List Source
one_source =
    record {
      filename = short_name;
      filesize = 3;
      hash16k = hash_a;
      hashfull = hash_a;
      fileid = hash_b;
      entries = two_entries;
    }
    ∷ []

abbrev creator_text : List ℕ
creator_text = 112 ∷ 97 ∷ 114 ∷ 50 ∷ []

abbrev critical_disk : Disk
critical_disk = record {
  contents = joined (critical_packets 8 (hash_b ∷ []) one_source creator_text);
  readable = λ offset len. true;
}

load_packets_from_file-critical_packets_example :
    load_packets_from_file
      (length (critical_packets 8 (hash_b ∷ []) one_source creator_text) + 1)
      critical_disk
      none
    ≡ places 0 (critical_packets 8 (hash_b ∷ []) one_source creator_text)
unfolding critical_size source_size
load_packets_from_file-critical_packets_example =
    load_packets_from_file-critical_packets critical_disk 8 (hash_b ∷ []) one_source creator_text
      (λ offset len. refl) (hash_b-IsHash, omega arith) (omega arith) (omega arith)
      (
        record {
          filename = omega arith;
          filesize = omega arith;
          hash16k = refl;
          hashfull = refl;
          fileid = refl;
          entries = (refl, omega arith, (refl, omega arith, omega arith));
          few = omega arith;
        },
        omega arith,
      )
      (omega arith) refl
