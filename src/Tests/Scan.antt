-- ===== src/Tests/Scan.antt =====
-- A file of one small packet, twice.
use par2tbb.Base.{ℕ, List, [], ◌∷◌, ◌++◌, none, true, ◌≡◌, refl, sym, ◌∙◌, take, drop, arith}
use par2tbb.Md5.{
  little_endian, padding_size, words, update_loop, update, reset, final, finish, hash,
}
use par2tbb.Md5.Compress.{
  update_state, pass1, pass2, pass3, pass4, four_rounds, round, rol, f1, f2, f3, f4,
}
use par2tbb.Md5.Digest.{final-update, joined}
use par2tbb.Checksummer.{Disk}
use par2tbb.Scan.{magic_of, length_of, hash_of, setid_of, from_setid, load_packets_from_file}
use par2tbb.Scan.Complete.{IsPacket, places, load_packets_from_file_lem}
use par2tbb.Scan.Sound.{AreSound, load_packets_from_file-AreSound}

abbrev set_id : List ℕ
set_id = 1 ∷ 2 ∷ 3 ∷ 4 ∷ 5 ∷ 6 ∷ 7 ∷ 8 ∷ 9 ∷ 10 ∷ 11 ∷ 12 ∷ 13 ∷ 14 ∷ 15 ∷ 16 ∷ []

abbrev small_packet : List ℕ
small_packet =
    80 ∷ 65 ∷ 82 ∷ 50 ∷ 0 ∷ 80 ∷ 75 ∷ 84 ∷ 68 ∷ 0 ∷ 0 ∷ 0 ∷ 0 ∷ 0 ∷ 0 ∷ 0 ∷ 16 ∷ 0 ∷ 195 ∷ 71 ∷ 57
    ∷ 11 ∷ 220 ∷ 172 ∷ 165 ∷ 105 ∷ 161 ∷ 37 ∷ 3 ∷ 101 ∷ 244 ∷ 89 ∷ 1 ∷ 2 ∷ 3 ∷ 4 ∷ 5 ∷ 6 ∷ 7 ∷ 8 ∷ 9
    ∷ 10 ∷ 11 ∷ 12 ∷ 13 ∷ 14 ∷ 15 ∷ 16 ∷ 80 ∷ 65 ∷ 82 ∷ 32 ∷ 50 ∷ 46 ∷ 48 ∷ 0 ∷ 67 ∷ 114 ∷ 101 ∷ 97
    ∷ 116 ∷ 111 ∷ 114 ∷ 0 ∷ 7 ∷ 0 ∷ 0 ∷ 0 ∷ []

abbrev two_packets : Disk
two_packets = record { contents = small_packet ++ small_packet; readable = λ offset len. true }

-- The hash field is the MD5 of the fields behind it and the body.
small_packet-hash :
    final (update reset (from_setid (take 64 small_packet) ++ drop 64 small_packet))
    ≡ hash_of (take 64 small_packet)
unfolding hash_of from_setid final finish hash update update_loop words little_endian padding_size
    update_state pass1 pass2 pass3 pass4 four_rounds round rol f1 f2 f3 f4
small_packet-hash = refl

small_packet-IsPacket : IsPacket set_id small_packet
unfolding magic_of length_of setid_of
small_packet-IsPacket = record {
  long = omega arith;
  magic = refl;
  size = refl;
  whole = refl;
  hash =
      sym (final-update (from_setid (take 64 small_packet) ++ drop 64 small_packet))
      ∙ small_packet-hash;
  set = refl;
}

load_packets_from_file_lem_example :
    load_packets_from_file 3 two_packets none ≡ places 0 (small_packet ∷ small_packet ∷ [])
unfolding joined
load_packets_from_file_lem_example =
    load_packets_from_file_lem 3 two_packets none set_id (small_packet ∷ small_packet ∷ [])
      (λ offset len. refl) (omega arith)
      (small_packet-IsPacket, (small_packet-IsPacket, omega arith)) refl refl (omega arith)

load_packets_from_file-AreSound_example :
    AreSound two_packets (load_packets_from_file 3 two_packets none)
load_packets_from_file-AreSound_example = load_packets_from_file-AreSound 3 two_packets none
