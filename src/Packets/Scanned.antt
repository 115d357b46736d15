-- ===== src/Packets/Scanned.antt =====
-- The critical packets of creatorpacket.cpp and the other packet files, one behind the other in a
-- file, as LoadPacketsFromFile of par2repairer.cpp finds them.
use par2tbb.Base.{ℕ, ◌+◌, ◌-◌, ◌*◌, ◌^◌, ◌<◌, ◌≤◌, ◌≡◌, refl, ap, ◌∙◌, arith, ltb, leb}
use par2tbb.Base.{false, none, some, List, [], ◌∷◌, ◌++◌, length, drop, length-append}
use par2tbb.Md5.Digest.{rfc1321, joined, length-rfc1321}
use par2tbb.Checksummer.{Disk}
use par2tbb.Checksummer.Progress.{IsReadable}
use par2tbb.Scan.{length_of, load_packets_from_file}
use par2tbb.Scan.Complete.{IsPacket, ArePackets, places, load_packets_from_file_lem}
use par2tbb.Packets.{
  header_bytes, packet_bytes, padded_text, pad_to_4, create_creator_packet, creatorpacket_type,
  load_creator_packet,
}
use par2tbb.Packets.Fields.{
  finish_packet-IsPacket, finish_packet-IsHeader, finish_packet-length, length_of-header_bytes,
  read_body_lem, choose_last, length-packet_bytes,
}
use par2tbb.Packets.Main.{main_body, main_packet}
use par2tbb.Packets.Main.Sort.{AreHashes}
use par2tbb.Packets.Main.RoundTrip.{main_packet-IsPacket, length-main_packet}
use par2tbb.Packets.Description.{description_body}
use par2tbb.Packets.Description.Body.{length-padded_text}
use par2tbb.Packets.Description.RoundTrip.{described, described-IsPacket, length-described}
use par2tbb.Packets.Verification.{Entry, verification_body}
use par2tbb.Packets.Verification.RoundTrip.{
  verified, verified-IsPacket, length-verified, AreEntries,
}

abbrev pub creator_packet_bytes : List ℕ → List ℕ → List ℕ
creator_packet_bytes creator setid =
    let p = create_creator_packet creator setid in packet_bytes p.0 p.1

creator_packet_bytes-IsPacket :
    (creator setid : List ℕ)
    → length setid ≡ 16
    → length creator < 2 ^ 32
    → IsPacket setid (creator_packet_bytes creator setid)
unfolding create_creator_packet
creator_packet_bytes-IsPacket creator setid set short =
    let size = length-padded_text creator in
    finish_packet-IsPacket setid (padded_text creator) creatorpacket_type set refl
      (omega (arith, size)) (omega (arith, size))

-- Load of a creator packet gives its text, padded.
pub load_creator_packet-create_creator_packet :
    (d : Disk) (offset : ℕ) (creator setid rest : List ℕ)
    → IsReadable d
    → length setid ≡ 16
    → 0 < length creator
    → pad_to_4 (length creator) ≤ 100000
    → drop offset d.contents ≡ creator_packet_bytes creator setid ++ rest
    → load_creator_packet d offset (header_bytes (create_creator_packet creator setid).0)
      ≡ some (padded_text creator)
unfolding load_creator_packet create_creator_packet
load_creator_packet-create_creator_packet d offset creator setid rest readable set some_text few
      stands =
    let body = padded_text creator in
    let h = (create_creator_packet creator setid).0 in
    let v = finish_packet-IsHeader setid body creatorpacket_type set refl in
    let all = length-padded_text creator in
    let long : h.length ≡ 64 + length body =
      finish_packet-length setid body creatorpacket_type (omega (arith, all)) in
    let size : length_of (header_bytes h) ≡ 64 + length body = length_of-header_bytes h v ∙ long in
    choose_last (leb (length_of (header_bytes h)) 64) (ltb 100000 (length_of (header_bytes h) - 64))
      false none _ (ground (arith, size, all)) (ground (arith, size, all)) refl
    ∙ read_body_lem d offset h body rest readable v long stands

-- A source file as its packets describe it.
pub record Source : Type 0 where
  pub filename : List ℕ
  pub filesize : ℕ
  pub hash16k : List ℕ
  pub hashfull : List ℕ
  pub fileid : List ℕ
  pub entries : List Entry

pub record IsSource (s : Source) : Type 0 where
  pub filename : pad_to_4 (length s.filename) ≤ 100000
  pub filesize : s.filesize < 2 ^ 64
  pub hash16k : length s.hash16k ≡ 16
  pub hashfull : length s.hashfull ≡ 16
  pub fileid : length s.fileid ≡ 16
  pub entries : AreEntries s.entries
  pub few : length s.entries ≤ 32768

abbrev pub AreSources : List Source → Type 0
AreSources [] = 0 < 1
AreSources (s ∷ ss) = IsSource s × AreSources ss

-- The packets of the files, and all the critical packets of a set.
unfoldable pub source_packets : List ℕ → List Source → List (List ℕ)
source_packets setid [] = []
source_packets setid (s ∷ ss) =
    let d = described setid s.filename s.filesize s.hash16k s.hashfull in
    let v = verified setid s.fileid s.entries in
    packet_bytes d.header (description_body d)
    ∷ packet_bytes v.header (verification_body v)
    ∷ source_packets setid ss

unfoldable pub critical_packets : ℕ → List (List ℕ) → List Source → List ℕ → List (List ℕ)
critical_packets blocksize ids sources creator =
    let setid = rfc1321 (main_body blocksize ids) in
    (main_packet blocksize ids).packetdata
    ∷ creator_packet_bytes creator setid
    ∷ source_packets setid sources

-- The number of bytes of the packets of the files, and of all the critical packets.
unfoldable pub source_size : List Source → ℕ
source_size [] = 0
source_size (s ∷ ss) =
    120 + pad_to_4 (length s.filename) + (80 + length s.entries * 20) + source_size ss

unfoldable pub critical_size : List (List ℕ) → List Source → List ℕ → ℕ
critical_size ids sources creator =
    76 + 16 * length ids + (64 + pad_to_4 (length creator)) + source_size sources

length-source_packets :
    (setid : List ℕ) (ss : List Source)
    → length setid ≡ 16
    → AreSources ss
    → length (joined (source_packets setid ss)) ≡ source_size ss
unfolding source_packets joined source_size
length-source_packets setid [] set v = refl
length-source_packets setid (s ∷ ss) set (v, vs) =
    let d = described setid s.filename s.filesize s.hash16k s.hashfull in
    let w = verified setid s.fileid s.entries in
    let first = packet_bytes d.header (description_body d) in
    let second = packet_bytes w.header (verification_body w) in
    let rest = joined (source_packets setid ss) in
    omega (
      arith,
      length-append first (second ++ rest),
      length-append second rest,
      length-described setid s.filename s.filesize s.hash16k s.hashfull set v.filename v.filesize
          v.hash16k v.hashfull,
      length-verified setid s.fileid s.entries set v.fileid v.entries v.few,
      length-source_packets setid ss set vs,
    )

length-creator_packet_bytes :
    (creator setid : List ℕ)
    → length setid ≡ 16
    → length (creator_packet_bytes creator setid) ≡ 64 + pad_to_4 (length creator)
unfolding create_creator_packet
length-creator_packet_bytes creator setid set = omega (
  arith,
  length-packet_bytes (create_creator_packet creator setid).0 (padded_text creator)
      (finish_packet-IsHeader setid (padded_text creator) creatorpacket_type set refl),
  length-padded_text creator,
)

length-critical_packets :
    (blocksize : ℕ) (ids : List (List ℕ)) (sources : List Source) (creator : List ℕ)
    → AreHashes ids
    → AreSources sources
    → length (joined (critical_packets blocksize ids sources creator))
      ≡ critical_size ids sources creator
unfolding critical_packets joined critical_size
length-critical_packets blocksize ids sources creator hashes valid =
    let setid = rfc1321 (main_body blocksize ids) in
    let set = length-rfc1321 (main_body blocksize ids) in
    let main = (main_packet blocksize ids).packetdata in
    let client = creator_packet_bytes creator setid in
    let rest = joined (source_packets setid sources) in
    omega (
      arith,
      length-append main (client ++ rest),
      length-append client rest,
      length-main_packet blocksize ids hashes,
      length-creator_packet_bytes creator setid set,
      length-source_packets setid sources set valid,
    )

source_packets-ArePackets :
    (setid : List ℕ) (ss : List Source)
    → length setid ≡ 16
    → AreSources ss
    → ArePackets setid (source_packets setid ss)
unfolding source_packets
source_packets-ArePackets setid [] set v = omega arith
source_packets-ArePackets setid (s ∷ ss) set (v, vs) = (
  described-IsPacket setid s.filename s.filesize s.hash16k s.hashfull set v.filename v.filesize
      v.hash16k v.hashfull,
  (
    verified-IsPacket setid s.fileid s.entries set v.fileid v.entries v.few,
    source_packets-ArePackets setid ss set vs,
  ),
)

-- In a file whose reads succeed and that holds the main packet, the creator packet, and the
-- description and verification packet of each source file, one behind the other as the creator
-- makes and finishes them, LoadPacketsFromFile, with no set id yet, finds each of them at its
-- place and nothing else, if their bytes are fewer than 2^64, the ids are hashes and fewer than
-- 2^32, each name takes at most 100000 bytes, each file has at most 32768 blocks, the creator
-- text is shorter than 2^32 and the fields have their sizes.
pub load_packets_from_file-critical_packets :
    (d : Disk) (blocksize : ℕ) (ids : List (List ℕ)) (sources : List Source) (creator : List ℕ)
    → IsReadable d
    → AreHashes ids
    → length ids < 2 ^ 32
    → length creator < 2 ^ 32
    → AreSources sources
    → critical_size ids sources creator < 2 ^ 64
    → d.contents ≡ joined (critical_packets blocksize ids sources creator)
    → load_packets_from_file (length (critical_packets blocksize ids sources creator) + 1) d none
      ≡ places 0 (critical_packets blocksize ids sources creator)
unfolding critical_packets
load_packets_from_file-critical_packets d blocksize ids sources creator readable hashes few short
      valid bound stands =
    let setid = rfc1321 (main_body blocksize ids) in
    let set = length-rfc1321 (main_body blocksize ids) in
    load_packets_from_file_lem (length (critical_packets blocksize ids sources creator) + 1) d none
      setid (critical_packets blocksize ids sources creator) readable
      (omega (
        arith,
        ap length stands,
        length-critical_packets blocksize ids sources creator hashes valid,
      ))
      (
        main_packet-IsPacket blocksize ids hashes few,
        (
          creator_packet_bytes-IsPacket creator setid set short,
          source_packets-ArePackets setid sources set valid,
        ),
      )
      refl stands (omega arith)
