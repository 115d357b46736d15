-- ===== src/Tests/Repairer.antt =====
-- The packets of two small files, one of them without a description.
use par2tbb.Base.{arith, false, ◌⊎◌, ◌≤◌, Option, ◌↔◌, List, [], ◌∷◌, none, some, true, ◌≡◌, refl}
use par2tbb.Repairer.{SourceFile, DescriptionPacket, MainPacket, Packet}
use par2tbb.Repairer.{
  find, find_recovery, no_packets, load_packet, load_packets, check_packet_consistency,
  check_against,
}
use par2tbb.Repairer.{
  load_description_packet, load_verification_packet, load_recovery_packet, load_main_packet,
  describe, verify,
}
use par2tbb.Repairer.{set_description_packet, set_verification_packet, set_block_count}
use par2tbb.Repairer.Packets.{description_of, verification_of}
use par2tbb.Repairer.Loaded.{load_packets_lem}
use par2tbb.Repairer.Consistency.{check_packet_consistency_lem}
use par2tbb.DataBlock.{no_block, set_location}
use par2tbb.Repairer.Results.{VerifiedFile, update_verification_results, check_verification_results}
use par2tbb.Repairer.Results.Verdict.{all_lost, out_of_place, check_verification_results_lem}
use par2tbb.Repairer.Recovery.{check_packet_consistency_recovery}

abbrev main_packet : MainPacket
main_packet = record { blocksize = 4; recoverablefilecount = 2; fileids = 1 ∷ 2 ∷ [] }

abbrev first_file : DescriptionPacket
first_file = record { fileid = 1; filesize = 10 }

-- The second description of file 1 comes too late, and the recovery packet of exponent 0 comes
-- again with another size.
abbrev packets : List Packet
packets =
    Packet.recovery (some (record { exponent = 0; blocksize = 4 }))
    ∷ Packet.verification (some (record { fileid = 1; blockcount = 3 }))
    ∷ Packet.verification (some (record { fileid = 2; blockcount = 1 }))
    ∷ Packet.description (some first_file)
    ∷ Packet.description (some (record { fileid = 1; filesize = 50 }))
    ∷ Packet.main (some main_packet)
    ∷ Packet.recovery (some (record { exponent = 0; blocksize = 8 }))
    ∷ Packet.recovery (some (record { exponent = 5; blocksize = 4 }))
    ∷ []

abbrev first_kept : SourceFile
first_kept = record {
  fileid = 1;
  descriptionpacket = some first_file;
  verificationpacket = some (record { fileid = 1; blockcount = 3 });
  blockcount = 3;
}

packets-kept :
    let r = (check_packet_consistency (load_packets packets no_packets)).1 in
    (r.sourcefilemap ≡ first_kept ∷ [])
    × (r.recoverypacketmap ≡ record { exponent = 5; blocksize = 4 } ∷ [])
unfolding check_packet_consistency check_against load_packets load_packet load_recovery_packet
    load_main_packet load_description_packet load_verification_packet describe verify
    set_description_packet set_verification_packet
packets-kept = (refl, refl)

load_packets_lem_example :
    let r = load_packets packets no_packets in
    (description_of 1 r ≡ some first_file)
    × (verification_of 1 r ≡ some (record { fileid = 1; blockcount = 3 }))
    × (r.mainpacket ≡ some main_packet)
    × (find_recovery 0 r.recoverypacketmap ≡ some (record { exponent = 0; blocksize = 8 }))
load_packets_lem_example = load_packets_lem 1 0 packets

check_packet_consistency_lem_example :
    let r = check_packet_consistency (load_packets packets no_packets) in
    (r.0 ≡ true) × (r.1.blocksize ≡ 4) × (find 1 r.1.sourcefilemap ≡ some first_kept)
check_packet_consistency_lem_example = check_packet_consistency_lem main_packet 1 packets refl

check_packet_consistency_recovery_example :
    find_recovery 0 (check_packet_consistency (load_packets packets no_packets)).1.recoverypacketmap
    ≡ none
check_packet_consistency_recovery_example =
    check_packet_consistency_recovery main_packet 0 packets refl

first_kept-count : set_block_count 4 first_kept ≡ first_kept
unfolding set_block_count
first_kept-count = refl

-- A file in its place, a renamed one, a damaged one with one block of two, and one without packets.
abbrev four_found : List (Option VerifiedFile)
four_found =
    some (record {
      completefile = some 1;
      targetfile = some 1;
      targetexists = true;
      sourceblocks = no_block ∷ [];
    })
    ∷ some (record {
      completefile = some 2;
      targetfile = none;
      targetexists = false;
      sourceblocks = no_block ∷ [];
    })
    ∷ some (record {
      completefile = none;
      targetfile = some 3;
      targetexists = true;
      sourceblocks = set_location 3 0 no_block ∷ no_block ∷ [];
    })
    ∷ none
    ∷ []

check_verification_results_lem_example :
    let r = update_verification_results 4 4 four_found in
    (r.missingblockcount ≡ all_lost four_found)
    × ((check_verification_results 3 1 r ≡ true)
        ↔ ((out_of_place four_found ≡ 0) ⊎ (all_lost four_found ≤ 1)))
check_verification_results_lem_example =
    check_verification_results_lem 3 1 four_found (omega arith) (omega arith) (omega arith)
