-- ===== src/Repairer/Consistency.antt =====
-- CheckPacketConsistency of par2repairer.cpp: the source files and recovery packets that remain.
use mathlib.Core.Option.{some-injective}
use par2tbb.Base.{
  ℕ, ◌==◌, ==_iff, ◌≡◌, ◌/◌, ◌+◌, ◌-◌, refl, sym, ap, ap₂, ◌↔◌, ◌∙◌, if◌then◌else◌, Bool, true,
  false, Bool-cases, Option-cases, inl, inr,
}
use par2tbb.Base.{Option, none, some, List, [], ◌∷◌, arith}
use par2tbb.Creator.{u64}
use par2tbb.Repairer.{
  SourceFile, DescriptionPacket, VerificationPacket, MainPacket, Repairer, Packet,
}
use par2tbb.Repairer.{find, no_packets, load_packet, load_packets}
use par2tbb.Repairer.{
  load_description_packet, load_verification_packet, load_recovery_packet, load_main_packet,
  load_creator_packet,
}
use par2tbb.Repairer.{describe, verify, set_description_packet, set_verification_packet}
use par2tbb.Repairer.{
  block_count, check_verification, check_description, check_source_file, keep_consistent,
  check_against, check_packet_consistency,
}
use par2tbb.Repairer.Files.{AreDistinct, put-AreDistinct, find_id}
use par2tbb.Repairer.Packets.{
  first_of, main_in, description_in, verification_in, description, verification,
}
use par2tbb.Repairer.Loaded.{load_packets_lem}

-- Every key of the map has one entry.
abbrev pub HasDistinct : Repairer → Type 0
HasDistinct r = AreDistinct r.sourcefilemap

description-HasDistinct :
    (d : Option DescriptionPacket) (r : Repairer)
    → HasDistinct r
    → HasDistinct (load_description_packet d r).1
unfolding load_description_packet describe set_description_packet
description-HasDistinct none r distinct = distinct
description-HasDistinct (some d) r distinct = elim (Option-cases (find d.fileid r.sourcefilemap)) [
  | inl missing ↦ rw missing (put-AreDistinct _ r.sourcefilemap distinct)
  | inr (f, found) ↦ elim (Option-cases f.descriptionpacket) [
    | inl bare ↦ rw (found, bare) (put-AreDistinct _ r.sourcefilemap distinct)
    | inr (old, has) ↦ rw (found, has) distinct
  ]
]

verification-HasDistinct :
    (v : Option VerificationPacket) (r : Repairer)
    → HasDistinct r
    → HasDistinct (load_verification_packet v r).1
unfolding load_verification_packet verify set_verification_packet
verification-HasDistinct none r distinct = distinct
verification-HasDistinct (some v) r distinct = elim (Option-cases (find v.fileid r.sourcefilemap)) [
  | inl missing ↦ rw missing (put-AreDistinct _ r.sourcefilemap distinct)
  | inr (f, found) ↦ elim (Option-cases f.verificationpacket) [
    | inl bare ↦ rw (found, bare) (put-AreDistinct _ r.sourcefilemap distinct)
    | inr (old, has) ↦ rw (found, has) distinct
  ]
]

load_packet-HasDistinct :
    (p : Packet) (r : Repairer) → HasDistinct r → HasDistinct (load_packet p r).1
unfolding load_packet load_recovery_packet load_main_packet load_creator_packet
load_packet-HasDistinct (Packet.recovery none) r distinct = distinct
load_packet-HasDistinct (Packet.recovery (some q)) r distinct = distinct
load_packet-HasDistinct (Packet.verification v) r distinct = verification-HasDistinct v r distinct
load_packet-HasDistinct (Packet.description d) r distinct = description-HasDistinct d r distinct
load_packet-HasDistinct (Packet.main m) r distinct = distinct
load_packet-HasDistinct (Packet.creator c) r distinct = distinct

pub load_packets-HasDistinct :
    (ps : List Packet) (r : Repairer) → HasDistinct r → HasDistinct (load_packets ps r)
unfolding load_packets
load_packets-HasDistinct [] r distinct = distinct
load_packets-HasDistinct (p ∷ ps) r distinct =
    load_packets-HasDistinct ps (load_packet p r).1 (load_packet-HasDistinct p r distinct)

-- What is kept of a source file that was found.
abbrev pub checked : ℕ → Option SourceFile → Option SourceFile
checked blocksize none = none
checked blocksize (some f) = check_source_file blocksize f

verified_same :
    (blocksize : ℕ) (d : DescriptionPacket) (v : Option VerificationPacket) (f g : SourceFile)
    → check_verification blocksize d v f ≡ some g
    → g ≡ f
verified_same blocksize d none f g kept = sym (some-injective f g kept)
verified_same blocksize d (some v) f g kept =
    elim (Bool-cases (u64 (d.filesize + blocksize - 1) / blocksize == v.blockcount)) [
      | inl fits ↦ sym (some-injective f g (rw fits at kept))
      | inr differs ↦ absurd (cc (rw differs at kept))
    ]

described_id :
    (blocksize : ℕ) (d : Option DescriptionPacket) (f g : SourceFile)
    → check_description blocksize d f ≡ some g
    → g.fileid ≡ f.fileid
described_id blocksize none f g kept = absurd (cc)
described_id blocksize (some d) f g kept =
    ap (λ (h : SourceFile). h.fileid) (verified_same blocksize d f.verificationpacket _ g kept)

checked_id :
    (blocksize : ℕ) (f g : SourceFile)
    → check_source_file blocksize f ≡ some g
    → g.fileid ≡ f.fileid
checked_id blocksize f g kept = described_id blocksize f.descriptionpacket f g kept

find-keep_none :
    (blocksize id : ℕ) (fs : List SourceFile)
    → find id fs ≡ none
    → find id (keep_consistent blocksize fs) ≡ none
find-keep_none blocksize id [] missing = refl
find-keep_none blocksize id (f ∷ fs) missing = elim (Bool-cases (f.fileid == id)) [
  | inl here ↦ absurd (cc (rw here at missing))
  | inr there ↦
      let rest = find-keep_none blocksize id fs (rw there at missing) in
      elim (Option-cases (check_source_file blocksize f)) [
        | inl dropped ↦ rw dropped rest
        | inr (g, kept) ↦ rw (kept, checked_id blocksize f g kept, there) rest
      ]
]

pub find-keep :
    (blocksize id : ℕ) (fs : List SourceFile)
    → AreDistinct fs
    → find id (keep_consistent blocksize fs) ≡ checked blocksize (find id fs)
find-keep blocksize id [] distinct = refl
find-keep blocksize id (f ∷ fs) (alone, distinct) =
    let rest = find-keep blocksize id fs distinct in
    elim (Bool-cases (f.fileid == id)) [
      | inl here ↦ elim (Option-cases (check_source_file blocksize f)) [
        | inl dropped ↦
            let gone : find id fs ≡ none =
              ap (λ k. find k fs) (sym ((==_iff f.fileid id).0 here)) ∙ alone in
            rw (here, dropped) (find-keep_none blocksize id fs gone)
        | inr (g, kept) ↦ rw (here, kept, checked_id blocksize f g kept, here) refl
      ]
      | inr there ↦ elim (Option-cases (check_source_file blocksize f)) [
        | inl dropped ↦ rw (there, dropped) rest
        | inr (g, kept) ↦ rw (there, kept, checked_id blocksize f g kept, there) rest
      ]
    ]

-- The number of blocks of a verification packet is that of the file.
abbrev pub matches : ℕ → DescriptionPacket → Option VerificationPacket → Bool
matches blocksize d none = true
matches blocksize d (some v) = u64 (d.filesize + blocksize - 1) / blocksize == v.blockcount

-- The source file that the packets of an id describe.
abbrev pub described :
    ℕ → ℕ → Option DescriptionPacket → Option VerificationPacket → Option SourceFile
described blocksize id none v = none
described blocksize id (some d) v =
    if matches blocksize d v
    then some (record {
      fileid = id;
      descriptionpacket = some d;
      verificationpacket = v;
      blockcount = block_count blocksize (some d);
    })
    else none

verified-described :
    (blocksize id count : ℕ) (d : DescriptionPacket) (v : Option VerificationPacket)
    → check_verification blocksize d v (record {
      fileid = id;
      descriptionpacket = some d;
      verificationpacket = v;
      blockcount = block_count blocksize (some d);
    })
      ≡ described blocksize id (some d) v
verified-described blocksize id count d none = refl
verified-described blocksize id count d (some v) = refl

source_file-described :
    (blocksize id count : ℕ) (d : Option DescriptionPacket) (v : Option VerificationPacket)
    → check_source_file blocksize
        (record { fileid = id; descriptionpacket = d; verificationpacket = v; blockcount = count })
      ≡ described blocksize id d v
source_file-described blocksize id count none v = refl
source_file-described blocksize id count (some d) v = verified-described blocksize id count d v

checked-described :
    (blocksize id : ℕ) (fs : List SourceFile)
    → checked blocksize (find id fs)
      ≡ described blocksize id (description (find id fs)) (verification (find id fs))
checked-described blocksize id fs = elim (Option-cases (find id fs)) [
  | inl missing ↦ rw missing refl
  | inr (f, found) ↦ rw found (
      source_file-described blocksize f.fileid f.blockcount f.descriptionpacket f.verificationpacket
      ∙ ap (λ k. described blocksize k f.descriptionpacket f.verificationpacket)
          (find_id id fs f found))
]

-- After any sequence of packets with a main packet, CheckPacketConsistency succeeds, takes the
-- block size of the first main packet, and keeps for a file id a source file exactly when the
-- id has a description packet and its first verification packet, if any, has the number of
-- blocks of the file: the file of the first packets, with that number of blocks.
pub check_packet_consistency_lem :
    (m : MainPacket) (id : ℕ) (ps : List Packet)
    → first_of main_in ps ≡ some m
    → let r = check_packet_consistency (load_packets ps no_packets) in
      (r.0 ≡ true)
      × (r.1.blocksize ≡ m.blocksize)
      × (find id r.1.sourcefilemap
          ≡ described m.blocksize id
              (first_of (description_in id) ps)
              (first_of (verification_in id) ps))
unfolding check_packet_consistency check_against
check_packet_consistency_lem m id ps first =
    let r = load_packets ps no_packets in
    let (has_description, has_verification, has_main, has_recovery) = load_packets_lem id 0 ps in
    let main : r.mainpacket ≡ some m = has_main ∙ first in
    rw main (
      refl,
      refl,
      find-keep m.blocksize id r.sourcefilemap
            (load_packets-HasDistinct ps no_packets (omega arith))
          ∙ checked-described m.blocksize id r.sourcefilemap
          ∙ ap₂ (described m.blocksize id) has_description has_verification,
    )

-- CheckPacketConsistency fails exactly when the packets had no main packet.
pub check_packet_consistency_refuses :
    (ps : List Packet)
    → (check_packet_consistency (load_packets ps no_packets)).0 ≡ false
      ↔ (first_of main_in ps ≡ none)
unfolding check_packet_consistency check_against
check_packet_consistency_refuses ps =
    let r = load_packets ps no_packets in
    let (has_description, has_verification, has_main, has_recovery) = load_packets_lem 0 0 ps in
    elim (Option-cases r.mainpacket) [
      | inl missing ↦ rw missing ((λ h. sym has_main ∙ missing), (λ h. refl))
      | inr (m, found) ↦ rw found ((λ h. absurd (cc)), (λ h. absurd (cc)))
    ]
